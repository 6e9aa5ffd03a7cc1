-- ===== src/Copies/Blocks.antt =====
-- A DeepCopyInto method that fits its struct makes a copy of it.
use provider_upjet_unifi.Base.{
  ℕ, suc, ◌≤◌, ◌≡◌, refl, ◌∙◌, ap, sym, true, some, List, [], ◌∷◌, arith, inl, inr, Bool-cases,
}
use provider_upjet_unifi.Base.Equal.{same, same_eq}
use provider_upjet_unifi.Copies.{
  Value, datum, nil, address, struct_value, Heap, Tree, present, several, Trees, GoType, flat,
  pointer, slice, struct, library, Library, first, write, reserve, copy_pointer, copy_items,
  copy_slice, assign, is_flat,
}
use provider_upjet_unifi.Copies.Reading.{
  inside, read, read_only, read_items, IsLawful, read_mono, as_several-inv, where_inside-inv,
  Extends, read_items-Extends,
}
use provider_upjet_unifi.Copies.Writing.{
  IsSafe, Copies, read_only-inv, cells-write, read_items-copy_items, grows-copy_items,
}

module _ {D : Type 0} (L : Library D) (lawful : IsLawful L) (t : GoType) where
  inside-filled : (lo hi : ℕ) → suc lo ≤ hi → inside lo hi lo ≡ true
  inside-filled lo hi le = ground arith

  -- Filling the cell `n` leaves what stands for something in the cells behind it.
  Extends-filled :
      (n : ℕ) (vs : List (Value D)) (h : Heap D)
      → Extends (read L (suc n) h.next h t) (read L n h.next (write n vs h) t)
  unfolding write
  Extends-filled n vs h =
      read_mono L lawful (suc n) h.next n h.next h (write n vs h) (omega arith) (omega arith)
        (λ c above below. cells_other c above) t
    where
      cells_other : (c : ℕ) → suc n ≤ c → (write n vs h).cells c ≡ h.cells c
      cells_other c above = elim (Bool-cases (same n c)) [
        | inl e ↦ absurd (omega (arith, above, same_eq n c e))
        | inr e ↦ rw e
      ]

  read-filled_pointer :
      (n : ℕ) (v : Value D) (h : Heap D) (y : Tree D)
      → suc n ≤ h.next
      → read L (suc n) h.next h t v ≡ some y
      → read L n h.next (write n (v ∷ []) h) (pointer t) (address n) ≡ some (present y)
  unfolding read read_only
  read-filled_pointer n v h y le e =
      rw (inside-filled n h.next le, cells-write, Extends-filled n (v ∷ []) h v y e)

  read-filled_slice :
      (n : ℕ) (vs : List (Value D)) (h : Heap D) (ys : Trees D)
      → suc n ≤ h.next
      → read_items (read L (suc n) h.next h t) vs ≡ some ys
      → read L n h.next (write n vs h) (slice t) (address n) ≡ some (several ys)
  unfolding read
  read-filled_slice n vs h ys le e = rw (
    inside-filled n h.next le,
    cells-write,
    read_items-Extends _ _ vs ys (Extends-filled n vs h) e,
  )

module _ {D : Type 0} (L : Library D) (lawful : IsLawful L) (t : GoType)
    (f : Value D → Heap D → Value D × Heap D) (safe : IsSafe f) (copies : Copies L t f) where
  read_reserved : (h : Heap D) → Extends (read L 0 h.next h t) (read L 0 (suc h.next) (reserve h) t)
  unfolding reserve
  read_reserved h =
      read_mono L lawful 0 h.next 0 (suc h.next) h (reserve h) (omega arith) (omega arith)
        (λ c above below. refl) t

  pub copy_pointer-Copies : Copies L (pointer t) (copy_pointer f)
  unfolding read copy_pointer reserve write
  copy_pointer-Copies (datum d) h x e = cc
  copy_pointer-Copies nil h x e = e
  copy_pointer-Copies (address a) h x e =
      let (b, r) = where_inside-inv (inside 0 h.next a) _ e in
      let (y, ey, eq) = read_only-inv (read L 0 h.next h t) (h.cells a) r in
      let v = first (h.cells a) in
      let copied = copies v (reserve h) y (read_reserved h v y ey) in
      read-filled_pointer L lawful t h.next (f v (reserve h)).0 (f v (reserve h)).1 y
        (safe.grows v (reserve h)) copied
      ∙ ap some (sym eq)
  copy_pointer-Copies (struct_value vs) h x e = cc

  pub copy_slice-Copies : Copies L (slice t) (copy_slice f)
  unfolding read copy_slice reserve write
  copy_slice-Copies (datum d) h x e = cc
  copy_slice-Copies nil h x e = e
  copy_slice-Copies (address a) h x e =
      let (b, r) = where_inside-inv (inside 0 h.next a) _ e in
      let (ys, eys, eq) = as_several-inv (read_items (read L 0 h.next h t) (h.cells a)) r in
      let vs = h.cells a in
      let made = copy_items f vs (reserve h) in
      let copied =
        read_items-copy_items L lawful t f safe copies vs (reserve h) ys
          (read_items-Extends _ _ vs ys (read_reserved h) eys) in
      read-filled_slice L lawful t h.next made.0 made.1 ys (grows-copy_items f safe vs (reserve h))
        copied
      ∙ ap some (sym eq)
  copy_slice-Copies (struct_value vs) h x e = cc

-- Plain data stands for the same within any bounds.
pub assign-Copies : {D : Type 0} (L : Library D) (t : GoType) → is_flat t ≡ true → Copies L t assign
unfolding assign read
assign-Copies L flat e (datum d) h x r = r
assign-Copies L flat e nil h x r = cc
assign-Copies L flat e (address a) h x r = cc
assign-Copies L flat e (struct_value vs) h x r = cc
assign-Copies L (pointer t) e v h x r = cc
assign-Copies L (slice t) e v h x r = cc
assign-Copies L (struct ts) e v h x r = cc
assign-Copies L (library name) e v h x r = cc
