-- ===== src/Copies/Writing.antt =====
-- What the steps of a copy leave as it was, and what they leave in the cells that they take.
use provider_upjet_unifi.Base.{
  ℕ, suc, ◌≤◌, ◌≡◌, refl, ◌∙◌, Option, some, List, [], ◌∷◌, arith, inl, inr, Bool-cases,
}
use provider_upjet_unifi.Base.Equal.{same, same_eq, same_refl}
use provider_upjet_unifi.Copies.{
  Value, datum, nil, address, struct_value, Heap, Tree, present, Trees, GoType, Library, first,
  write, reserve, copy_pointer, copy_items, copy_slice, assign,
}
use provider_upjet_unifi.Copies.Reading.{
  read, read_only, read_items, Agrees, IsLawful, read_mono, as_present-inv, and_trees-inv,
  read_items-Extends,
}

module _ {D : Type 0} where
  pub Agrees-trans :
      (lo hi hi' : ℕ) (h h' h″ : Heap D)
      → hi ≤ hi'
      → Agrees lo hi h h'
      → Agrees lo hi' h' h″
      → Agrees lo hi h h″
  Agrees-trans lo hi hi' h h' h″ le p q a above below =
      q a above (omega (arith, below, le)) ∙ p a above below

  pub Agrees-write :
      (lo hi a : ℕ) (vs : List (Value D)) (h h' : Heap D)
      → hi ≤ a
      → Agrees lo hi h h'
      → Agrees lo hi h (write a vs h')
  unfolding write
  Agrees-write lo hi a vs h h' le p b above below = elim (Bool-cases (same a b)) [
    | inl e ↦ absurd (omega (arith, le, below, same_eq a b e))
    | inr e ↦ rw e (p b above below)
  ]

  pub cells-write : (a : ℕ) (vs : List (Value D)) (h : Heap D) → (write a vs h).cells a ≡ vs
  unfolding write
  cells-write a vs h = rw (same_refl a)

  pub read_only-inv :
      (f : Value D → Option (Tree D)) (vs : List (Value D)) {x : Tree D}
      → read_only f vs ≡ some x
      → (y : Tree D) × (f (first vs) ≡ some y) × (x ≡ present y)
  unfolding read_only
  read_only-inv f [] h = cc
  read_only-inv f (v ∷ []) h = as_present-inv (f v) h
  read_only-inv f (v ∷ w ∷ vs) h = cc

-- An operation that takes new cells and writes to these alone.
pub record IsSafe {D : Type 0} (f : Value D → Heap D → Value D × Heap D) : Type 0 where
  pub grows : (v : Value D) (h : Heap D) → h.next ≤ (f v h).1.next
  pub keeps : (v : Value D) (h : Heap D) → Agrees 0 h.next h (f v h).1

module _ {D : Type 0} where
  pub assign-IsSafe : IsSafe {D = D} assign
  unfolding assign
  assign-IsSafe = record { grows = λ v h. omega arith; keeps = λ v h a above below. refl }

  module _ (f : Value D → Heap D → Value D × Heap D) (safe : IsSafe f) where
    pub grows-copy_items : (vs : List (Value D)) (h : Heap D) → h.next ≤ (copy_items f vs h).1.next
    unfolding copy_items
    grows-copy_items [] h = omega arith
    grows-copy_items (v ∷ vs) h = omega (arith, safe.grows v h, grows-copy_items vs (f v h).1)

    pub keeps-copy_items :
        (vs : List (Value D)) (h : Heap D) → Agrees 0 h.next h (copy_items f vs h).1
    unfolding copy_items
    keeps-copy_items [] h = λ a above below. refl
    keeps-copy_items (v ∷ vs) h =
        Agrees-trans 0 h.next (f v h).1.next h (f v h).1 (copy_items f vs (f v h).1).1
          (safe.grows v h) (safe.keeps v h) (keeps-copy_items vs (f v h).1)

    -- What a fresh cell is filled with stays out of the cells that were in use.
    keeps-filled :
        (vs : List (Value D)) (h h' : Heap D)
        → Agrees 0 (suc h.next) h h'
        → Agrees 0 h.next h (write h.next vs h')
    keeps-filled vs h h' p =
        Agrees-write 0 h.next h.next vs h h' (omega arith)
          (λ a above below. p a above (omega (arith, below)))

    grows-copy_pointer : (v : Value D) (h : Heap D) → h.next ≤ (copy_pointer f v h).1.next
    unfolding copy_pointer write reserve
    grows-copy_pointer (datum d) h = omega arith
    grows-copy_pointer nil h = omega arith
    grows-copy_pointer (address a) h = omega (arith, safe.grows (first (h.cells a)) (reserve h))
    grows-copy_pointer (struct_value vs) h = omega arith

    keeps-copy_pointer : (v : Value D) (h : Heap D) → Agrees 0 h.next h (copy_pointer f v h).1
    unfolding copy_pointer reserve
    keeps-copy_pointer (datum d) h = λ a above below. refl
    keeps-copy_pointer nil h = λ a above below. refl
    keeps-copy_pointer (address a) h =
        keeps-filled _ h _ (safe.keeps (first (h.cells a)) (reserve h))
    keeps-copy_pointer (struct_value vs) h = λ a above below. refl

    grows-copy_slice : (v : Value D) (h : Heap D) → h.next ≤ (copy_slice f v h).1.next
    unfolding copy_slice write reserve
    grows-copy_slice (datum d) h = omega arith
    grows-copy_slice nil h = omega arith
    grows-copy_slice (address a) h = omega (arith, grows-copy_items (h.cells a) (reserve h))
    grows-copy_slice (struct_value vs) h = omega arith

    keeps-copy_slice : (v : Value D) (h : Heap D) → Agrees 0 h.next h (copy_slice f v h).1
    unfolding copy_slice reserve
    keeps-copy_slice (datum d) h = λ a above below. refl
    keeps-copy_slice nil h = λ a above below. refl
    keeps-copy_slice (address a) h = keeps-filled _ h _ (keeps-copy_items (h.cells a) (reserve h))
    keeps-copy_slice (struct_value vs) h = λ a above below. refl

    pub copy_pointer-IsSafe : IsSafe (copy_pointer f)
    copy_pointer-IsSafe = record { grows = grows-copy_pointer; keeps = keeps-copy_pointer }

    pub copy_slice-IsSafe : IsSafe (copy_slice f)
    copy_slice-IsSafe = record { grows = grows-copy_slice; keeps = keeps-copy_slice }

-- An operation that makes a copy: what it leaves stands for the same, in new cells.
abbrev pub Copies :
    {D : Type 0} (L : Library D) → GoType → (Value D → Heap D → Value D × Heap D) → Type 0
Copies {D} L t f =
    (v : Value D) (h : Heap D) (x : Tree D)
    → read L 0 h.next h t v ≡ some x
    → read L h.next (f v h).1.next (f v h).1 t (f v h).0 ≡ some x

module _ {D : Type 0} (L : Library D) (lawful : IsLawful L) (t : GoType)
    (f : Value D → Heap D → Value D × Heap D) (safe : IsSafe f) (copies : Copies L t f) where
  pub read_items-copy_items :
      (vs : List (Value D)) (h : Heap D) (xs : Trees D)
      → read_items (read L 0 h.next h t) vs ≡ some xs
      → (let r = copy_items f vs h in read_items (read L h.next r.1.next r.1 t) r.0 ≡ some xs)
  unfolding copy_items read_items
  read_items-copy_items [] h xs e = e
  read_items-copy_items (v ∷ vs) h xs e =
      let (y, ys, ey, eys, eq) = and_trees-inv (read L 0 h.next h t v) _ e in
      let h₁ = (f v h).1 in
      let h₂ = (copy_items f vs h₁).1 in
      let grown = safe.grows v h in
      let onward = grows-copy_items f safe vs h₁ in
      let kept = keeps-copy_items f safe vs h₁ in
      let rest = read_items-copy_items vs h₁ ys (
        read_items-Extends _ _ vs ys
          (read_mono L lawful 0 h.next 0 h₁.next h h₁ (omega arith) grown (safe.keeps v h) t)
          eys) in
      let here =
        read_mono L lawful h.next h₁.next h.next h₂.next h₁ h₂ (omega arith) onward
          (λ a above below. kept a (omega arith) below) t (f v h).0 y (copies v h y ey) in
      let there =
        read_items-Extends _ _ _ ys
          (read_mono L lawful h₁.next h₂.next h.next h₂.next h₂ h₂ grown (omega arith)
            (λ a above below. refl) t)
          rest in
      rw (here, there) (cc eq)
