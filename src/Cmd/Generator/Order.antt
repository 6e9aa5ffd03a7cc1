-- ===== src/Cmd/Generator/Order.antt =====
-- The list that writeGeneratedList writes does not depend on the order of the map.
use provider_upjet_unifi.Base.{
  String, ◌≡◌, refl, ◌∙◌, ap, ◌&&◌, Bool, true, false, List, [], ◌∷◌, arith, inl, inr, Bool-cases,
}
use mathlib.Core.List.{Permᴰ}
use mathlib.Core.List.Permᴰ
use provider_upjet_unifi.Text.{Text}
use provider_upjet_unifi.Cmd.Generator.{
  text_leb, insert, sort, names, Roots, write_names, write_generated_list,
}

text_leb-total : (s t : Text) → text_leb s t ≡ false → text_leb t s ≡ true
unfolding text_leb
text_leb-total [] t h = cc
text_leb-total (c ∷ s) [] h = refl
text_leb-total (c ∷ s) (d ∷ t) h = ground (arith, text_leb-total s t)

text_leb-antisymmetric : (s t : Text) → text_leb s t ≡ true → text_leb t s ≡ true → s ≡ t
unfolding text_leb
text_leb-antisymmetric [] [] h k = refl
text_leb-antisymmetric [] (d ∷ t) h k = cc
text_leb-antisymmetric (c ∷ s) [] h k = cc
text_leb-antisymmetric (c ∷ s) (d ∷ t) h k = ground (arith, text_leb-antisymmetric s t)

text_leb-transitive :
    (s t u : Text) → text_leb s t ≡ true → text_leb t u ≡ true → text_leb s u ≡ true
unfolding text_leb
text_leb-transitive [] t u h k = refl
text_leb-transitive (c ∷ s) [] u h k = cc
text_leb-transitive (c ∷ s) (d ∷ t) [] h k = cc
text_leb-transitive (c ∷ s) (d ∷ t) (e ∷ u) h k = ground (arith, text_leb-transitive s t u)

insert_comm : (x y : Text) (l : List Text) → insert x (insert y l) ≡ insert y (insert x l)
unfolding insert
insert_comm x y [] = ground (arith, text_leb-total x y, text_leb-antisymmetric x y)
insert_comm x y (z ∷ l) = ground (
  arith,
  text_leb-total x y,
  text_leb-antisymmetric x y,
  text_leb-transitive x y z,
  text_leb-transitive y x z,
  insert_comm x y l,
)

sort-eq_of_perm : {l l' : List Text} → Permᴰ l l' → sort l ≡ sort l'
unfolding sort
sort-eq_of_perm Permᴰ.nil = refl
sort-eq_of_perm (Permᴰ.cons e d) = cc (e, sort-eq_of_perm d)
sort-eq_of_perm (Permᴰ.swap {a} {b} {l = l} e f) = insert_comm a b (sort l) ∙ cc (e, f)
sort-eq_of_perm (Permᴰ.trans d d') = sort-eq_of_perm d ∙ sort-eq_of_perm d'

abbrev is_empty : List Text → Bool
is_empty [] = true
is_empty (x ∷ l) = false

is_empty-insert : (x : Text) (l : List Text) → is_empty (insert x l) ≡ false
unfolding insert
is_empty-insert x [] = refl
is_empty-insert x (y ∷ l) = ground arith

is_empty-sort : (l : List Text) → is_empty (sort l) ≡ is_empty l
unfolding sort
is_empty-sort [] = refl
is_empty-sort (x ∷ l) = is_empty-insert x (sort l)

write_names-eq :
    (files : Roots) (config_dir : String) (l l' : List Text) (w : files.World)
    → sort l ≡ sort l'
    → write_names files config_dir l w ≡ write_names files config_dir l' w
write_names-eq files config_dir [] [] w e = refl
write_names-eq files config_dir [] (y ∷ l') w e =
    cc (is_empty-sort [], is_empty-sort (y ∷ l'), ap is_empty e)
write_names-eq files config_dir (x ∷ l) [] w e =
    cc (is_empty-sort [], is_empty-sort (x ∷ l), ap is_empty e)
write_names-eq files config_dir (x ∷ l) (y ∷ l') w e = rw e

-- What writeGeneratedList returns and does to the files does not depend on the order in which Go
-- visits the provider's resources: two orders of the same names give the same run.
pub write_generated_list-order :
    (files : Roots) {V : Type 0} (config_dir : String) (resources resources' : List (Text × V))
    (w : files.World)
    → Permᴰ (names resources) (names resources')
    → write_generated_list files config_dir resources w
      ≡ write_generated_list files config_dir resources' w
unfolding write_generated_list
write_generated_list-order files config_dir resources resources' w d =
    write_names-eq files config_dir (names resources) (names resources') w (sort-eq_of_perm d)

-- Each text is at most the next one.
abbrev pub ascending : List Text → Bool
ascending [] = true
ascending (x ∷ []) = true
ascending (x ∷ y ∷ l) = text_leb x y && ascending (y ∷ l)

ascending-cons_insert :
    (y x : Text) (l : List Text)
    → text_leb y x ≡ true
    → ascending (y ∷ l) ≡ true
    → ascending (insert x l) ≡ true
    → ascending (y ∷ insert x l) ≡ true
unfolding insert
ascending-cons_insert y x [] h k i = ground arith
ascending-cons_insert y x (z ∷ l) h k i = ground arith

ascending-tail : (y : Text) (l : List Text) → ascending (y ∷ l) ≡ true → ascending l ≡ true
ascending-tail y [] h = refl
ascending-tail y (z ∷ l) h = ground arith

ascending-insert : (x : Text) (l : List Text) → ascending l ≡ true → ascending (insert x l) ≡ true
unfolding insert
ascending-insert x [] h = refl
ascending-insert x (y ∷ l) h = elim (Bool-cases (text_leb x y)) [
  | inl e ↦ rw e (rw e h)
  | inr e ↦ rw e (
      ascending-cons_insert y x l (text_leb-total x y e) h
        (ascending-insert x l (ascending-tail y l h)))
]

Permᴰ-insert : (x : Text) (l : List Text) → Permᴰ (insert x l) (x ∷ l)
unfolding insert
Permᴰ-insert x [] = Permᴰ.refl (x ∷ [])
Permᴰ-insert x (y ∷ l) = elim (Bool-cases (text_leb x y)) [
  | inl e ↦ rw e (Permᴰ.refl (x ∷ y ∷ l))
  | inr e ↦ rw e (Permᴰ.trans (Permᴰ.cons refl (Permᴰ-insert x l)) (Permᴰ.swap refl refl))
]

-- The names are sorted: the list that is written ascends, and it holds the same names, each as often
-- as before.
pub ascending-sort : (l : List Text) → (ascending (sort l) ≡ true) × Permᴰ (sort l) l
unfolding sort
ascending-sort [] = (refl, Permᴰ.nil)
ascending-sort (x ∷ l) =
    let (h, d) = ascending-sort l in
    (ascending-insert x (sort l) h, Permᴰ.trans (Permᴰ-insert x (sort l)) (Permᴰ.cons refl d))
