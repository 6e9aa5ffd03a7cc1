-- ===== src/Copies/Apart.antt =====
-- DeepCopy: the copy is equal to what was copied, and shares no memory with it.
use provider_upjet_unifi.Base.{◌≢◌, ◌≡◌, true, some, arith}
use provider_upjet_unifi.Copies.{
  Value, datum, nil, address, struct_value, Heap, Tree, pointer, struct, FieldTypes, Method,
  Library, as_object, deep_copy_object, deep_copy_into, deep_copy, fits, own, run_callee,
  fits_callee,
}
use provider_upjet_unifi.Copies.Reading.{read, Agrees, IsLawful, read_mono}
use provider_upjet_unifi.Copies.Writing.{IsSafe, Copies, copy_pointer-IsSafe}
use provider_upjet_unifi.Copies.Blocks.{copy_pointer-Copies}
use provider_upjet_unifi.Copies.Safety.{run_callee-IsSafe}
use provider_upjet_unifi.Copies.Methods.{run_callee-Copies}

module _ {D : Type 0} (L : Library D) (lawful : IsLawful L) (ts : FieldTypes) (m : Method) where
  deep_copy-IsSafe : IsSafe (deep_copy L m)
  unfolding deep_copy deep_copy_into run_callee
  deep_copy-IsSafe = copy_pointer-IsSafe (run_callee L (own m)) (run_callee-IsSafe L lawful (own m))

  deep_copy-Copies : fits ts m ≡ true → Copies L (pointer (struct ts)) (deep_copy L m)
  unfolding deep_copy deep_copy_into run_callee fits_callee
  deep_copy-Copies e =
      copy_pointer-Copies L lawful (struct ts) (run_callee L (own m))
        (run_callee-IsSafe L lawful (own m)) (run_callee-Copies L lawful (struct ts) (own m) e)

  -- For a method that fits its struct, DeepCopy of a well-formed object stands for the same as the
  -- object, lies in newly taken cells alone, and leaves every cell that was in use as it was.
  pub read-deep_copy :
      (v : Value D) (h : Heap D) (x : Tree D)
      → fits ts m ≡ true
      → read L 0 h.next h (pointer (struct ts)) v ≡ some x
      → (let r = deep_copy L m v h in
          (read L h.next r.1.next r.1 (pointer (struct ts)) r.0 ≡ some x) × Agrees 0 h.next h r.1)
  read-deep_copy v h x e known = (deep_copy-Copies e v h x known, deep_copy-IsSafe.keeps v h)

  typed : (r : Value D × Heap D) → (as_object r).0 ≢ some nil
  typed (datum d, h) = λ e. cc
  typed (nil, h) = λ e. cc
  typed (address a, h) = λ e. cc
  typed (struct_value fs, h) = λ e. cc

  -- DeepCopyObject never returns an interface that holds a nil pointer, which would not be equal to nil.
  pub deep_copy_object-ne-nil : (v : Value D) (h : Heap D) → (deep_copy_object L m v h).0 ≢ some nil
  unfolding deep_copy_object
  deep_copy_object-ne-nil v h = typed (deep_copy L m v h)

  -- The object and its copy live apart: after DeepCopy, however the cells are written that were not in
  -- use before, the object stands for the same, and however those are written that were, the copy does.
  pub deep_copy-apart :
      (v : Value D) (h g g' : Heap D) (x : Tree D)
      → fits ts m ≡ true
      → read L 0 h.next h (pointer (struct ts)) v ≡ some x
      → Agrees 0 h.next (deep_copy L m v h).1 g
      → Agrees h.next (deep_copy L m v h).1.next (deep_copy L m v h).1 g'
      → (read L 0 h.next g (pointer (struct ts)) v ≡ some x)
        × (read L h.next (deep_copy L m v h).1.next g' (pointer (struct ts)) (deep_copy L m v h).0
            ≡ some x)
  deep_copy-apart v h g g' x e known kept kept' =
      let r = deep_copy L m v h in
      let t = pointer (struct ts) in
      (
        read_mono L lawful 0 h.next 0 h.next r.1 g (omega arith) (omega arith) kept t v x (
            read_mono L lawful 0 h.next 0 h.next h r.1 (omega arith) (omega arith)
              (deep_copy-IsSafe.keeps v h) t v x known),
        read_mono L lawful h.next r.1.next h.next r.1.next r.1 g' (omega arith) (omega arith) kept'
            t r.0 x (deep_copy-Copies e v h x known),
      )
