-- ===== src/Config/ExternalName/Patterns.antt =====
-- The list of name patterns that ExternalNameConfigured builds by index.
use mathlib.Core.List.{append_assoc}
use provider_upjet_unifi.Base.{
  ℕ, suc, ◌+◌, ◌≡◌, refl, String, ◌<>◌, some, List, [], ◌∷◌, ◌++◌, arith,
}
use provider_upjet_unifi.Base.Dict.{Dict}
use provider_upjet_unifi.Config.ExternalName.{make, set, fill, count, external_name_configured}

abbrev length : List String → ℕ
length [] = 0
length (x ∷ l) = suc (length l)

abbrev pub patterns : {V : Type 0} → Dict V → List String
patterns [] = []
patterns ((name, v) ∷ rest) = (name <> "$") ∷ patterns rest

set-append :
    (l m : List String) (x v : String) → set (l ++ (x ∷ m)) (length l) v ≡ some (l ++ (v ∷ m))
unfolding set
set-append [] m x v = refl
set-append (y ∷ l) m x v = rw (set-append l m x v)

length-snoc : (l : List String) (x : String) → length (l ++ (x ∷ [])) ≡ length l + 1
length-snoc [] x = omega arith
length-snoc (y ∷ l) x = omega (arith, length-snoc l x)

fill-step :
    {V : Type 0} (name : String) (v : V) (rest : Dict V) (l l' : List String) (i : ℕ)
    → set l i (name <> "$") ≡ some l'
    → fill ((name, v) ∷ rest) l i ≡ fill rest l' (i + 1)
unfolding fill
fill-step name v rest l l' i h = rw (h, fill)

fill-append :
    {V : Type 0} (configs : Dict V) (l : List String)
    → fill configs (l ++ make (count configs)) (length l) ≡ some (l ++ patterns configs)
unfolding make
fill-append [] l = unfold fill in refl
fill-append ((name, v) ∷ rest) l =
    let next = l ++ ((name <> "$") ∷ []) in
    cc (
      fill-step name v rest (l ++ ("" ∷ make (count rest)))
          (l ++ ((name <> "$") ∷ make (count rest))) (length l)
          (set-append l (make (count rest)) "" (name <> "$")),
      append_assoc l ((name <> "$") ∷ []) (make (count rest)),
      append_assoc l ((name <> "$") ∷ []) (patterns rest),
      length-snoc l (name <> "$"),
      fill-append rest next,
    )

-- No write is out of range, and the list holds exactly one pattern for each entry, its name with
-- `$` behind it, in the order in which the map was visited.
pub external_name_configured-eq-patterns :
    {V : Type 0} (configs : Dict V) → external_name_configured configs ≡ some (patterns configs)
unfolding external_name_configured
external_name_configured-eq-patterns configs = fill-append configs []
