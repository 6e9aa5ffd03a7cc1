-- ===== src/Copies/Reading.antt =====
-- What a value stands for, as long as its addresses keep within bounds.
use text.Mathlib.Text.{◌==◌}
use provider_upjet_unifi.Base.{
  ℕ, suc, ◌≤◌, ◌<◌, ◌≡◌, refl, String, Bool, true, false, ◌&&◌, Option, none, some, List, [], ◌∷◌,
  leb, if◌then◌else◌, arith, inl, inr, Bool-cases,
}
use provider_upjet_unifi.Copies.{
  Value, datum, nil, address, struct_value, Fields, end, field, Heap, Tree, leaf, absent, present,
  several, node, Trees, no_trees, tree, GoType, flat, pointer, slice, struct, library, FieldTypes,
  no_fields, field_type, Library,
}

abbrev pub inside : ℕ → ℕ → ℕ → Bool
inside lo hi a = leb lo a && leb (suc a) hi

module _ {D : Type 0} where
  abbrev pub as_present : Option (Tree D) → Option (Tree D)
  as_present none = none
  as_present (some x) = some (present x)

  abbrev pub as_several : Option (Trees D) → Option (Tree D)
  as_several none = none
  as_several (some xs) = some (several xs)

  abbrev pub as_node : Option (Trees D) → Option (Tree D)
  as_node none = none
  as_node (some xs) = some (node xs)

  abbrev pub and_trees : Option (Tree D) → Option (Trees D) → Option (Trees D)
  and_trees (some x) (some xs) = some (tree x xs)
  and_trees _ _ = none

  unfoldable pub read_only : (Value D → Option (Tree D)) → List (Value D) → Option (Tree D)
  read_only f (v ∷ []) = as_present (f v)
  read_only f vs = none

  unfoldable pub read_items : (Value D → Option (Tree D)) → List (Value D) → Option (Trees D)
  read_items f [] = some no_trees
  read_items f (v ∷ vs) = and_trees (f v) (read_items f vs)

  abbrev pub where_inside : Bool → Option (Tree D) → Option (Tree D)
  where_inside true x = x
  where_inside false x = none

module _ {D : Type 0} (L : Library D) (lo hi : ℕ) (h : Heap D) where
  unfoldable mutual
    pub read : GoType → Value D → Option (Tree D)
    read flat (datum d) = some (leaf d)
    read (pointer t) nil = some absent
    read (pointer t) (address a) = where_inside (inside lo hi a) (read_only (read t) (h.cells a))
    read (slice t) nil = some absent
    read (slice t) (address a) =
        where_inside (inside lo hi a) (as_several (read_items (read t) (h.cells a)))
    read (struct ts) (struct_value vs) = as_node (read_fields ts vs)
    read (library name) v = L.read name lo hi h v
    read _ _ = none

    pub read_fields : FieldTypes → Fields D → Option (Trees D)
    read_fields no_fields end = some no_trees
    read_fields (field_type name t ts) (field n v vs) =
        let x = read t v in let xs = read_fields ts vs in if name == n then and_trees x xs else none
    read_fields _ _ = none

-- The second heap holds the same in the cells from `lo` on below `hi`.
abbrev pub Agrees : {D : Type 0} → ℕ → ℕ → Heap D → Heap D → Type 0
Agrees lo hi h h' = (a : ℕ) → lo ≤ a → a < hi → h'.cells a ≡ h.cells a

-- What the code relies on for the types of other modules: what a value stands for depends on the cells
-- within the bounds alone, and DeepCopyInto leaves the cells in use as they are and makes a copy in new
-- ones.
pub record IsLawful {D : Type 0} (L : Library D) : Type 0 where
  pub read_mono :
      (name : String) (lo hi lo' hi' : ℕ) (h h' : Heap D) (v : Value D) (x : Tree D)
      → lo' ≤ lo
      → hi ≤ hi'
      → Agrees lo hi h h'
      → L.read name lo hi h v ≡ some x
      → L.read name lo' hi' h' v ≡ some x
  pub grows :
      (name : String) (v : Value D) (h : Heap D) → h.next ≤ (L.deep_copy_into name v h).1.next
  pub keeps :
      (name : String) (v : Value D) (h : Heap D) → Agrees 0 h.next h (L.deep_copy_into name v h).1
  pub copies :
      (name : String) (v : Value D) (h : Heap D) (x : Tree D)
      → L.read name 0 h.next h v ≡ some x
      → L.read name h.next
          (L.deep_copy_into name v h).1.next
          (L.deep_copy_into name v h).1
          (L.deep_copy_into name v h).0
        ≡ some x

module _ {D : Type 0} where
  pub as_present-inv :
      (o : Option (Tree D)) {x : Tree D}
      → as_present o ≡ some x
      → (y : Tree D) × (o ≡ some y) × (x ≡ present y)
  as_present-inv none h = cc
  as_present-inv (some y) h = (y, refl, cc)

  pub as_several-inv :
      (o : Option (Trees D)) {x : Tree D}
      → as_several o ≡ some x
      → (y : Trees D) × (o ≡ some y) × (x ≡ several y)
  as_several-inv none h = cc
  as_several-inv (some y) h = (y, refl, cc)

  pub as_node-inv :
      (o : Option (Trees D)) {x : Tree D}
      → as_node o ≡ some x
      → (y : Trees D) × (o ≡ some y) × (x ≡ node y)
  as_node-inv none h = cc
  as_node-inv (some y) h = (y, refl, cc)

  pub and_trees-inv :
      (o : Option (Tree D)) (os : Option (Trees D)) {xs : Trees D}
      → and_trees o os ≡ some xs
      → (y : Tree D) × (ys : Trees D) × (o ≡ some y) × (os ≡ some ys) × (xs ≡ tree y ys)
  and_trees-inv none os h = cc
  and_trees-inv (some y) none h = cc
  and_trees-inv (some y) (some ys) h = (y, ys, refl, refl, cc)

  pub where_inside-inv :
      (b : Bool) (o : Option (Tree D)) {x : Tree D}
      → where_inside b o ≡ some x
      → (b ≡ true) × (o ≡ some x)
  where_inside-inv true o h = (refl, h)
  where_inside-inv false o h = cc

  -- A reader that reads at least what another reads.
  abbrev pub Extends : (Value D → Option (Tree D)) → (Value D → Option (Tree D)) → Type 0
  Extends f g = (v : Value D) (x : Tree D) → f v ≡ some x → g v ≡ some x

  pub read_only-Extends :
      (f g : Value D → Option (Tree D)) (vs : List (Value D)) (x : Tree D)
      → Extends f g
      → read_only f vs ≡ some x
      → read_only g vs ≡ some x
  unfolding read_only
  read_only-Extends f g [] x e h = cc
  read_only-Extends f g (v ∷ []) x e h =
      let (y, fy, xy) = as_present-inv (f v) h in rw (e v y fy) (cc xy)
  read_only-Extends f g (v ∷ w ∷ vs) x e h = cc

  pub read_items-Extends :
      (f g : Value D → Option (Tree D)) (vs : List (Value D)) (xs : Trees D)
      → Extends f g
      → read_items f vs ≡ some xs
      → read_items g vs ≡ some xs
  unfolding read_items
  read_items-Extends f g [] xs e h = h
  read_items-Extends f g (v ∷ vs) xs e h =
      let (y, ys, fy, fys, eq) = and_trees-inv (f v) (read_items f vs) h in
      rw (e v y fy, read_items-Extends f g vs ys e fys) (cc eq)

module _ {D : Type 0} (L : Library D) (lawful : IsLawful L) (lo hi lo' hi' : ℕ) (h h' : Heap D)
    (below : lo' ≤ lo) (above : hi ≤ hi') (agrees : Agrees lo hi h h') where
  inside-wider : (a : ℕ) → inside lo hi a ≡ true → inside lo' hi' a ≡ true
  inside-wider a e = ground arith

  cells-eq : (a : ℕ) → inside lo hi a ≡ true → h'.cells a ≡ h.cells a
  cells-eq a e = agrees a (ground arith) (ground arith)

  -- Wider bounds, and a heap with the same cells within the old ones: every value stands for the same.
  mutual
    unfolding read read_fields

    pub read_mono : (t : GoType) → Extends (read L lo hi h t) (read L lo' hi' h' t)
    read_mono flat (datum d) x e = e
    read_mono flat nil x e = cc
    read_mono flat (address a) x e = cc
    read_mono flat (struct_value vs) x e = cc
    read_mono (pointer t) (datum d) x e = cc
    read_mono (pointer t) nil x e = e
    read_mono (pointer t) (address a) x e =
        let (b, r) = where_inside-inv (inside lo hi a) _ e in
        rw (inside-wider a b, cells-eq a b) (read_only-Extends _ _ (h.cells a) x (read_mono t) r)
    read_mono (pointer t) (struct_value vs) x e = cc
    read_mono (slice t) (datum d) x e = cc
    read_mono (slice t) nil x e = e
    read_mono (slice t) (address a) x e =
        let (b, r) = where_inside-inv (inside lo hi a) _ e in
        let (ys, items, eq) = as_several-inv _ r in
        rw
          (
            inside-wider a b,
            cells-eq a b,
            read_items-Extends _ _ (h.cells a) ys (read_mono t) items,
          )
          (cc eq)
    read_mono (slice t) (struct_value vs) x e = cc
    read_mono (struct ts) (datum d) x e = cc
    read_mono (struct ts) nil x e = cc
    read_mono (struct ts) (address a) x e = cc
    read_mono (struct ts) (struct_value vs) x e =
        let (ys, fs, eq) = as_node-inv _ e in rw (read_fields_mono ts vs ys fs) (cc eq)
    read_mono (library name) v x e =
        lawful.read_mono name lo hi lo' hi' h h' v x below above agrees e

    pub read_fields_mono :
        (ts : FieldTypes) (vs : Fields D) (xs : Trees D)
        → read_fields L lo hi h ts vs ≡ some xs
        → read_fields L lo' hi' h' ts vs ≡ some xs
    read_fields_mono no_fields end xs e = e
    read_fields_mono no_fields (field n v vs) xs e = cc
    read_fields_mono (field_type name t ts) end xs e = cc
    read_fields_mono (field_type name t ts) (field n v vs) xs e = elim (Bool-cases (name == n)) [
      | inl b ↦
          let (y, ys, fy, fys, eq) =
            and_trees-inv (read L lo hi h t v) (read_fields L lo hi h ts vs) (rw b at e) in
          rw (b, read_mono t v y fy, read_fields_mono ts vs ys fys) (cc eq)
      | inr b ↦ cc (rw b at e)
    ]
