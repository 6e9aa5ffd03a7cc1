-- ===== src/Copies/Methods.antt =====
-- A DeepCopyInto method that fits its struct makes a copy of it.
use text.Mathlib.Text.{◌==◌}
use provider_upjet_unifi.Base.{◌≡◌, refl, true, inl, inr, Bool-cases}
use provider_upjet_unifi.Base.Dict.{and_left, and_right}
use provider_upjet_unifi.Copies.{
  GoType, flat, pointer, slice, struct, library, FieldTypes, no_fields, field_type, Method, returns,
  block, Block, assigns, calls, allocates, allocates_into, makes_pointers, makes_items, Callee, own,
  of_library, Library, copy_pointer, assign, run_block, run_callee, lacks_block, is_flat, fits,
  fits_block, fits_callee,
}
use provider_upjet_unifi.Copies.Reading.{IsLawful}
use provider_upjet_unifi.Copies.Writing.{Copies, assign-IsSafe, copy_pointer-IsSafe}
use provider_upjet_unifi.Copies.Blocks.{copy_pointer-Copies, copy_slice-Copies, assign-Copies}
use provider_upjet_unifi.Copies.Safety.{run_callee-IsSafe}
use provider_upjet_unifi.Copies.Structs.{
  CopiesFields, flat_pointer-Copies, copy_struct-Copies, CopiesFields-shared, CopiesFields-block,
  CopiesFields-none, library-Copies,
}

module _ {D : Type 0} (L : Library D) (lawful : IsLawful L) where
  mutual
    unfolding fits fits_block fits_callee run_block run_callee

    run_block-Copies : (t : GoType) (b : Block) → fits_block t b ≡ true → Copies L t (run_block L b)
    run_block-Copies flat assigns e = assign-Copies L flat refl
    run_block-Copies flat (calls c) e = cc
    run_block-Copies flat allocates e = cc
    run_block-Copies flat (allocates_into c) e = cc
    run_block-Copies flat makes_pointers e = cc
    run_block-Copies flat (makes_items c) e = cc
    run_block-Copies (pointer t) assigns e = cc
    run_block-Copies (pointer t) (calls c) e = cc
    run_block-Copies (pointer t) allocates e = flat_pointer-Copies L lawful (pointer t) e
    run_block-Copies (pointer t) (allocates_into c) e =
        copy_pointer-Copies L lawful t (run_callee L c) (run_callee-IsSafe L lawful c)
          (run_callee-Copies t c e)
    run_block-Copies (pointer t) makes_pointers e = cc
    run_block-Copies (pointer t) (makes_items c) e = cc
    run_block-Copies (slice t) assigns e = cc
    run_block-Copies (slice t) (calls c) e = cc
    run_block-Copies (slice t) allocates e = cc
    run_block-Copies (slice t) (allocates_into c) e = cc
    run_block-Copies (slice t) makes_pointers e =
        copy_slice-Copies L lawful t (copy_pointer assign)
          (copy_pointer-IsSafe assign assign-IsSafe) (flat_pointer-Copies L lawful t e)
    run_block-Copies (slice t) (makes_items c) e =
        copy_slice-Copies L lawful t (run_callee L c) (run_callee-IsSafe L lawful c)
          (run_callee-Copies t c e)
    run_block-Copies (struct ts) assigns e = cc
    run_block-Copies (struct ts) (calls (own m)) e =
        copy_struct-Copies L lawful ts m (run_blocks-CopiesFields ts m e)
    run_block-Copies (struct ts) (calls (of_library name)) e = cc
    run_block-Copies (struct ts) allocates e = cc
    run_block-Copies (struct ts) (allocates_into c) e = cc
    run_block-Copies (struct ts) makes_pointers e = cc
    run_block-Copies (struct ts) (makes_items c) e = cc
    run_block-Copies (library name) assigns e = cc
    run_block-Copies (library name) (calls (own m)) e = cc
    run_block-Copies (library name) (calls (of_library other)) e =
        library-Copies L lawful name other e
    run_block-Copies (library name) allocates e = cc
    run_block-Copies (library name) (allocates_into c) e = cc
    run_block-Copies (library name) makes_pointers e = cc
    run_block-Copies (library name) (makes_items c) e = cc

    pub run_callee-Copies :
        (t : GoType) (c : Callee) → fits_callee t c ≡ true → Copies L t (run_callee L c)
    run_callee-Copies flat c e = cc
    run_callee-Copies (pointer t) c e = cc
    run_callee-Copies (slice t) c e = cc
    run_callee-Copies (struct ts) (own m) e =
        copy_struct-Copies L lawful ts m (run_blocks-CopiesFields ts m e)
    run_callee-Copies (struct ts) (of_library name) e = cc
    run_callee-Copies (library name) (own m) e = cc
    run_callee-Copies (library name) (of_library other) e = library-Copies L lawful name other e

    run_blocks-CopiesFields :
        (ts : FieldTypes) (m : Method) → fits ts m ≡ true → CopiesFields L lawful ts m
    run_blocks-CopiesFields no_fields returns e = CopiesFields-none L lawful
    run_blocks-CopiesFields no_fields (block k b m) e = cc
    run_blocks-CopiesFields (field_type name t ts) returns e =
        CopiesFields-shared L lawful name t ts returns (and_left (is_flat t) _ e) refl
          (run_blocks-CopiesFields ts returns (and_right (is_flat t) _ e))
    run_blocks-CopiesFields (field_type name t ts) (block k b m) e = elim (Bool-cases (k == name)) [
      | inl here ↦
          let g = rw here at e in
          let rest = and_right (fits_block t b) _ g in
          CopiesFields-block L lawful name k t ts b m here
            (run_block-Copies t b (and_left (fits_block t b) _ g))
            (and_left (lacks_block name m) _ rest)
            (run_blocks-CopiesFields ts m (and_right (lacks_block name m) _ rest))
      | inr later ↦
          let g = rw later at e in
          let rest = and_right (is_flat t) _ g in
          CopiesFields-shared L lawful name t ts (block k b m) (and_left (is_flat t) _ g)
            (rw later (and_left (lacks_block name m) _ rest))
            (run_blocks-CopiesFields ts (block k b m) (and_right (lacks_block name m) _ rest))
    ]
