-- ===== src/Copies/Structs.antt =====
-- A struct is copied field by field.
use text.Mathlib.Text.{◌==◌}
use text.Mathlib.TextEquality.{eq_iff}
use text.Mathlib.TextPositions.{eq_refl}
use provider_upjet_unifi.Base.{
  ℕ, ◌≤◌, ◌≡◌, ◌≢◌, refl, ◌∙◌, ap, sym, String, true, false, not, some, arith, inl, inr, Bool-cases,
}
use provider_upjet_unifi.Base.Dict.{and_left, and_right}
use provider_upjet_unifi.Copies.{
  Value, datum, nil, address, struct_value, Fields, end, field, Heap, Tree, Trees, tree, GoType,
  flat, pointer, slice, struct, library, FieldTypes, no_fields, field_type, Method, returns, block,
  Block, Library, copy_pointer, copy_struct, get_field, set_field, assign, run_block, run_blocks,
  lacks_block, is_flat, is_flat_pointer,
}
use provider_upjet_unifi.Copies.Reading.{
  read, read_fields, Agrees, IsLawful, read_mono, read_fields_mono, and_trees-inv, as_node-inv,
}
use provider_upjet_unifi.Copies.Writing.{Copies, assign-IsSafe}
use provider_upjet_unifi.Copies.Blocks.{copy_pointer-Copies, assign-Copies}
use provider_upjet_unifi.Copies.Safety.{run_block-IsSafe, run_blocks-IsSafe}

module _ {D : Type 0} (L : Library D) (lawful : IsLawful L) where
  ==_swap : (k n : String) → not (k == n) ≡ true → (n == k) ≡ false
  ==_swap k n e = ground (arith, eq_iff k n, eq_iff n k)

  get_field-other :
      (n k : String) (v : Value D) (fs : Fields D)
      → (n == k) ≡ false
      → get_field k (field n v fs) ≡ get_field k fs
  unfolding get_field
  get_field-other n k v fs e = rw e

  set_field-other :
      (n k : String) (w x : Value D) (out : Fields D)
      → (n == k) ≡ false
      → set_field k x (field n w out) ≡ field n w (set_field k x out)
  unfolding set_field
  set_field-other n k w x out e = rw e

  get_field-here :
      (n k : String) (v : Value D) (fs : Fields D) → n ≡ k → get_field k (field n v fs) ≡ v
  unfolding get_field
  get_field-here n k v fs e = rw (e, eq_refl k)

  set_field-here :
      (n k : String) (w x : Value D) (out : Fields D)
      → n ≡ k
      → set_field k x (field n w out) ≡ field n x out
  unfolding set_field
  set_field-here n k w x out e = rw (e, eq_refl k)

  -- Blocks for other fields leave a field alone.
  run_blocks-skip :
      (n : String) (m : Method) (v w : Value D) (fs out : Fields D) (h : Heap D)
      → lacks_block n m ≡ true
      → run_blocks L m (field n v fs) (field n w out) h
        ≡ (field n w (run_blocks L m fs out h).0, (run_blocks L m fs out h).1)
  unfolding run_blocks
  run_blocks-skip n returns v w fs out h e = refl
  run_blocks-skip n (block k b m) v w fs out h e =
      let other : (n == k) ≡ false = ==_swap k n (and_left _ _ e) in
      let r = run_block L b (get_field k fs) h in
      rw (get_field-other n k v fs other, set_field-other n k w r.0 out other)
        (run_blocks-skip n m v w fs (set_field k r.0 out) r.1 (and_right _ _ e))

  -- A field and the fields behind it, each in the cells that its copy took.
  read_fields-assemble :
      (name n : String) (t : GoType) (ts : FieldTypes) (w : Value D) (ws : Fields D)
      (h h₁ h₂ : Heap D) (y : Tree D) (ys : Trees D)
      → name == n ≡ true
      → h.next ≤ h₁.next
      → h₁.next ≤ h₂.next
      → Agrees 0 h₁.next h₁ h₂
      → read L h.next h₁.next h₁ t w ≡ some y
      → read_fields L h₁.next h₂.next h₂ ts ws ≡ some ys
      → read_fields L h.next h₂.next h₂ (field_type name t ts) (field n w ws) ≡ some (tree y ys)
  unfolding read_fields
  read_fields-assemble name n t ts w ws h h₁ h₂ y ys e le le' kept here there = rw (
    e,
    read_mono L lawful h.next h₁.next h.next h₂.next h₁ h₂ (omega arith) le'
        (λ a above below. kept a (omega arith) below) t w y here,
    read_fields_mono L lawful h₁.next h₂.next h.next h₂.next h₂ h₂ le (omega arith)
        (λ a above below. refl) ts ws ys there,
  )

  pub flat_pointer-Copies :
      (t : GoType) → is_flat_pointer t ≡ true → Copies L t (copy_pointer assign)
  flat_pointer-Copies flat e = cc
  flat_pointer-Copies (pointer t) e =
      copy_pointer-Copies L lawful t assign assign-IsSafe (assign-Copies L t e)
  flat_pointer-Copies (slice t) e = cc
  flat_pointer-Copies (struct ts) e = cc
  flat_pointer-Copies (library name) e = cc

  -- What a method makes of the fields of a struct.
  pub CopiesFields : FieldTypes → Method → Type 0
  CopiesFields ts m =
      (vs : Fields D) (h : Heap D) (xs : Trees D)
      → read_fields L 0 h.next h ts vs ≡ some xs
      → (let r = run_blocks L m vs vs h in read_fields L h.next r.1.next r.1 ts r.0 ≡ some xs)

  pub copy_struct-Copies :
      (ts : FieldTypes) (m : Method)
      → CopiesFields ts m
      → Copies L (struct ts) (copy_struct (run_blocks L m))
  unfolding CopiesFields copy_struct read
  copy_struct-Copies ts m c (datum d) h x e = cc
  copy_struct-Copies ts m c nil h x e = cc
  copy_struct-Copies ts m c (address a) h x e = cc
  copy_struct-Copies ts m c (struct_value vs) h x e =
      let (xs, fs, eq) = as_node-inv (read_fields L 0 h.next h ts vs) e in rw (c vs h xs fs) (cc eq)

  -- The parts of a struct's reading.
  read_fields-inv :
      (lo hi : ℕ) (h : Heap D) (name n : String) (t : GoType) (ts : FieldTypes) (v : Value D)
      (vs : Fields D) {xs : Trees D}
      → read_fields L lo hi h (field_type name t ts) (field n v vs) ≡ some xs
      → (name ≡ n)
        × (y : Tree D) × (ys : Trees D) × (read L lo hi h t v ≡ some y)
        × (read_fields L lo hi h ts vs ≡ some ys)
        × (xs ≡ tree y ys)
  unfolding read_fields
  read_fields-inv lo hi h name n t ts v vs e = elim (Bool-cases (name == n)) [
    | inl b ↦
        let (y, ys, ey, eys, eq) =
          and_trees-inv (read L lo hi h t v) (read_fields L lo hi h ts vs) (rw b at e) in
        ((eq_iff name n).0 b, y, ys, ey, eys, eq)
    | inr b ↦ cc (rw b at e)
  ]

  read_fields-end :
      (lo hi : ℕ) (h : Heap D) (name : String) (t : GoType) (ts : FieldTypes) {xs : Trees D}
      → read_fields L lo hi h (field_type name t ts) end ≢ some xs
  unfolding read_fields
  read_fields-end lo hi h name t ts = λ e. cc

  -- A field that shares its value with *in, and needs no block.
  pub CopiesFields-shared :
      (name : String) (t : GoType) (ts : FieldTypes) (m : Method)
      → is_flat t ≡ true
      → lacks_block name m ≡ true
      → CopiesFields ts m
      → CopiesFields (field_type name t ts) m
  unfolding CopiesFields assign
  CopiesFields-shared name t ts m plain lacks c end h xs e =
      absurd (read_fields-end 0 h.next h name t ts e)
  CopiesFields-shared name t ts m plain lacks c (field n v vs) h xs e =
      let (same_name, y, ys, ey, eys, eq) = read_fields-inv 0 h.next h name n t ts v vs e in
      let r = run_blocks L m vs vs h in
      let safe = run_blocks-IsSafe L lawful m in
      rw (run_blocks-skip n m v v vs vs h (rw same_name at lacks)) (
        read_fields-assemble name n t ts v r.0 h h r.1 y ys (rw (same_name, eq_refl n))
          (omega arith) (safe.grows vs vs h) (safe.keeps vs vs h) (assign-Copies L t plain v h y ey)
          (c vs h ys eys)
        ∙ ap some (sym eq))

  run_blocks-block :
      (k : String) (b : Block) (m : Method) (fs out : Fields D) (h : Heap D)
      → (let r = run_block L b (get_field k fs) h in
          run_blocks L (block k b m) fs out h ≡ run_blocks L m fs (set_field k r.0 out) r.1)
  unfolding run_blocks
  run_blocks-block k b m fs out h = refl

  -- A method whose first block is that of the first field.
  run_blocks-head :
      (n k : String) (b : Block) (m : Method) (v : Value D) (vs : Fields D) (h : Heap D)
      → n ≡ k
      → lacks_block n m ≡ true
      → (let w = run_block L b v h in
          let r = run_blocks L m vs vs w.1 in
          run_blocks L (block k b m) (field n v vs) (field n v vs) h ≡ (field n w.0 r.0, r.1))
  run_blocks-head n k b m v vs h e lacks =
      let w = run_block L b v h in
      run_blocks-block k b m (field n v vs) (field n v vs) h
      ∙ rw (get_field-here n k v vs e, set_field-here n k v w.0 vs e)
          (run_blocks-skip n m v w.0 vs vs w.1 lacks)

  -- A field with its block.
  pub CopiesFields-block :
      (name k : String) (t : GoType) (ts : FieldTypes) (b : Block) (m : Method)
      → (k == name) ≡ true
      → Copies L t (run_block L b)
      → lacks_block name m ≡ true
      → CopiesFields ts m
      → CopiesFields (field_type name t ts) (block k b m)
  unfolding CopiesFields
  CopiesFields-block name k t ts b m here copied lacks c end h xs e =
      absurd (read_fields-end 0 h.next h name t ts e)
  CopiesFields-block name k t ts b m here copied lacks c (field n v vs) h xs e =
      let (same_name, y, ys, ey, eys, eq) = read_fields-inv 0 h.next h name n t ts v vs e in
      let at_head : n ≡ k = sym ((eq_iff k name).0 here ∙ same_name) in
      let w = run_block L b v h in
      let head = run_block-IsSafe L lawful b in
      let rest = run_blocks-IsSafe L lawful m in
      let r = run_blocks L m vs vs w.1 in
      rw (run_blocks-head n k b m v vs h at_head (rw same_name at lacks)) (
        read_fields-assemble name n t ts w.0 r.0 h w.1 r.1 y ys (rw (same_name, eq_refl n))
          (head.grows v h) (rest.grows vs vs w.1) (rest.keeps vs vs w.1) (copied v h y ey)
          (c vs w.1 ys (
            read_fields_mono L lawful 0 h.next 0 w.1.next h w.1 (omega arith) (head.grows v h)
              (head.keeps v h) ts vs ys eys))
        ∙ ap some (sym eq))

  pub CopiesFields-none : CopiesFields no_fields returns
  unfolding CopiesFields run_blocks read_fields
  CopiesFields-none end h xs e = e
  CopiesFields-none (field n v vs) h xs e = cc

  pub library-Copies :
      (name other : String)
      → (name == other) ≡ true
      → Copies L (library name) (L.deep_copy_into other)
  unfolding read
  library-Copies name other e v h x r = rw (← (eq_iff name other).0 e) (lawful.copies name v h x r)
