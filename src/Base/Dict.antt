-- ===== src/Base/Dict.antt =====
-- A Go map with string keys, as an association list: the list's order is the order in which
-- `range` visits the entries.
use Prim.Native.String.{String}
use mathlib.Core.Path.{◌≡◌, refl, ap}
use mathlib.Core.Bool.{Bool, true, false, not, ◌&&◌, ◌||◌}
use mathlib.Core.Logic.{inl, inr}
use mathlib.Core.Option.{Option, none, some}
use mathlib.Core.List.{List, [], ◌∷◌}
use native.Mathlib.Omega.{arith}
use text.Mathlib.Text.{◌==◌}
use text.Mathlib.TextEquality.{eq_iff}
use package.provider_upjet_unifi.Base.Tests.{Bool-cases, Option-cases, if◌then◌else◌}

abbrev pub Dict {ℓ} : Type ℓ → Type ℓ
Dict V = List (String × V)

module _ {ℓ} {V : Type ℓ} where
  unfoldable pub get : String → Dict V → Option V
  get k [] = none
  get k ((j, v) ∷ m) = if j == k then some v else get k m

  -- m[k] = v
  unfoldable pub put : String → V → Dict V → Dict V
  put k v [] = (k, v) ∷ []
  put k v ((j, w) ∷ m) = if j == k then (k, v) ∷ m else (j, w) ∷ put k v m

  pub get-put :
      (k j : String) (v : V) (m : Dict V) → get j (put k v m) ≡ (if k == j then some v else get j m)
  unfolding get put
  get-put k j v [] = refl
  get-put k j v ((i, w) ∷ m) = ground (arith, eq_iff k j, eq_iff i k, eq_iff i j, get-put k j v m)

  abbrev pub keys : Dict V → List String
  keys [] = []
  keys ((k, v) ∷ m) = k ∷ keys m

abbrev pub member : String → List String → Bool
member k [] = false
member k (j ∷ js) = (j == k) || member k js

abbrev pub is_some {ℓ} : {A : Type ℓ} → Option A → Bool
is_some none = false
is_some (some a) = true

-- The option holds this string.
abbrev pub holds : Option String → String → Bool
holds none s = false
holds (some t) s = t == s

pub eq_of_holds : (o : Option String) (s : String) → holds o s ≡ true → o ≡ some s
eq_of_holds none s h = cc
eq_of_holds (some t) s h = ap some ((eq_iff t s).0 h)

pub and_left : (a b : Bool) → (a && b) ≡ true → a ≡ true
and_left a b h = ground arith

pub and_right : (a b : Bool) → (a && b) ≡ true → b ≡ true
and_right a b h = ground arith

module _ {ℓ} {V : Type ℓ} where
  abbrev pub has : String → Dict V → Bool
  has k m = is_some (get k m)

  -- No key stands twice, as in every Go map.
  abbrev pub unique : Dict V → Bool
  unique [] = true
  unique ((k, v) ∷ m) = not (has k m) && unique m

  -- Every entry passes the test.
  unfoldable pub all_entries : (String → V → Bool) → Dict V → Bool
  all_entries p [] = true
  all_entries p ((k, v) ∷ m) = p k v && all_entries p m

  pub all_entries-get :
      (p : String → V → Bool) (m : Dict V) (k : String) (v : V)
      → all_entries p m ≡ true
      → get k m ≡ some v
      → p k v ≡ true
  unfolding all_entries get
  all_entries-get p [] k v h e = cc
  all_entries-get p ((j, w) ∷ m) k v h e = elim (Bool-cases (j == k)) [
    | inl same ↦
        let jk : j ≡ k = (eq_iff j k).0 same in
        let wv : w ≡ v = cc (rw same at e) in cc (jk, wv, and_left (p j w) _ h)
    | inr other ↦ all_entries-get p m k v (and_right (p j w) _ h) (rw other at e)
  ]

pub same_has :
    {V W : Type 0} (m : Dict V) (m' : Dict W) (k : String)
    → ((v : V) → get k m ≡ some v → has k m' ≡ true)
    → ((w : W) → get k m' ≡ some w → has k m ≡ true)
    → has k m ≡ has k m'
same_has m m' k f g = elim (Option-cases (get k m)) [
  | inr (v, e) ↦ rw (e, f v e)
  | inl e ↦ elim (Option-cases (get k m')) [
    | inl e' ↦ rw (e, e')
    | inr (w, e') ↦ let known : has k m ≡ true = g w e' in cc
  ]
]
