-- ===== src/Copies/Safety.antt =====
-- The blocks of a method take new cells and write to these alone.
use provider_upjet_unifi.Base.{◌≤◌, refl, arith}
use provider_upjet_unifi.Copies.{
  Value, datum, nil, address, struct_value, Fields, Heap, Method, returns, block, Block, assigns,
  calls, allocates, allocates_into, makes_pointers, makes_items, Callee, own, of_library, Library,
  copy_pointer, copy_struct, get_field, set_field, assign, run_block, run_callee, run_blocks,
}
use provider_upjet_unifi.Copies.Reading.{Agrees, IsLawful}
use provider_upjet_unifi.Copies.Writing.{
  IsSafe, assign-IsSafe, copy_pointer-IsSafe, copy_slice-IsSafe, Agrees-trans,
}

module _ {D : Type 0} where
  -- Methods on the fields of a struct that take new cells and write to these alone.
  pub record IsSafeOnFields (f : Fields D → Fields D → Heap D → Fields D × Heap D) : Type 0 where
    pub grows : (fs out : Fields D) (h : Heap D) → h.next ≤ (f fs out h).1.next
    pub keeps : (fs out : Fields D) (h : Heap D) → Agrees 0 h.next h (f fs out h).1

  module _ (f : Fields D → Fields D → Heap D → Fields D × Heap D) (safe : IsSafeOnFields f) where
    grows-copy_struct : (v : Value D) (h : Heap D) → h.next ≤ (copy_struct f v h).1.next
    unfolding copy_struct
    grows-copy_struct (datum d) h = omega arith
    grows-copy_struct nil h = omega arith
    grows-copy_struct (address a) h = omega arith
    grows-copy_struct (struct_value fs) h = safe.grows fs fs h

    keeps-copy_struct : (v : Value D) (h : Heap D) → Agrees 0 h.next h (copy_struct f v h).1
    unfolding copy_struct
    keeps-copy_struct (datum d) h = λ a above below. refl
    keeps-copy_struct nil h = λ a above below. refl
    keeps-copy_struct (address a) h = λ a above below. refl
    keeps-copy_struct (struct_value fs) h = safe.keeps fs fs h

    copy_struct-IsSafe : IsSafe (copy_struct f)
    copy_struct-IsSafe = record { grows = grows-copy_struct; keeps = keeps-copy_struct }

module _ {D : Type 0} (L : Library D) (lawful : IsLawful L) where
  mutual
    unfolding run_block run_callee run_blocks

    pub run_block-IsSafe : (b : Block) → IsSafe (run_block L b)
    run_block-IsSafe assigns = assign-IsSafe
    run_block-IsSafe (calls c) = run_callee-IsSafe c
    run_block-IsSafe allocates = copy_pointer-IsSafe assign assign-IsSafe
    run_block-IsSafe (allocates_into c) = copy_pointer-IsSafe (run_callee L c) (run_callee-IsSafe c)
    run_block-IsSafe makes_pointers =
        copy_slice-IsSafe (copy_pointer assign) (copy_pointer-IsSafe assign assign-IsSafe)
    run_block-IsSafe (makes_items c) = copy_slice-IsSafe (run_callee L c) (run_callee-IsSafe c)

    pub run_callee-IsSafe : (c : Callee) → IsSafe (run_callee L c)
    run_callee-IsSafe (own m) = copy_struct-IsSafe (run_blocks L m) (run_blocks-IsSafe m)
    run_callee-IsSafe (of_library name) = record {
      grows = lawful.grows name;
      keeps = lawful.keeps name;
    }

    pub run_blocks-IsSafe : (m : Method) → IsSafeOnFields (run_blocks L m)
    run_blocks-IsSafe returns = record {
      grows = λ fs out h. omega arith;
      keeps = λ fs out h a above below. refl;
    }
    run_blocks-IsSafe (block name b m) =
        let first = run_block-IsSafe b in
        let rest = run_blocks-IsSafe m in
        record {
          grows = λ fs out h. omega (
            arith,
            first.grows (get_field name fs) h,
            rest.grows fs (set_field name (run_block L b (get_field name fs) h).0 out)
                (run_block L b (get_field name fs) h).1,
          );
          keeps = λ fs out h.
              (let r = run_block L b (get_field name fs) h in
                let out' = set_field name r.0 out in
                Agrees-trans 0 h.next r.1.next h r.1 (run_blocks L m fs out' r.1).1
                  (first.grows (get_field name fs) h) (first.keeps (get_field name fs) h)
                  (rest.keeps fs out' r.1));
        }
