-- ===== src/Tests/Copies.antt =====
-- The deep copies, run on the parameters of a firewall group.
use provider_upjet_unifi.Base.{
  ℕ, zero, suc, ◌≡◌, refl, String, true, Option, none, some, List, [], ◌∷◌, arith, inl, inr,
  Bool-cases,
}
use provider_upjet_unifi.Base.Dict
use provider_upjet_unifi.Base.Equal.{same, same_eq}
use provider_upjet_unifi.Copies.{
  Value, datum, nil, address, struct_value, end, field, Heap, Tree, leaf, absent, present, several,
  node, no_trees, tree, Library, write, reserve, deep_copy, deep_copy_into, get_field, set_field,
  copy_pointer, copy_slice, copy_items, copy_struct, assign, run_blocks, pointer, struct,
  FieldTypes, fits,
}
use provider_upjet_unifi.Copies.Reading.{read, read_only, read_items, Agrees, IsLawful}
use provider_upjet_unifi.Copies.Writing.{Agrees-write}
use provider_upjet_unifi.Copies.Apart.{read-deep_copy, deep_copy-apart}
use provider_upjet_unifi.Controller.{namespaced}
use provider_upjet_unifi.Copies.Namespaced.{fields_in}
use provider_upjet_unifi.Copies.Namespaced.Firewall.{namespaced_copy_group}
use provider_upjet_unifi.Copies.Groups.{generated, generated-fits}
use provider_upjet_unifi.Copies.Firewall
use provider_upjet_unifi.Copies.Firewall.GroupTypes.{group_parameters}
use provider_upjet_unifi.Copies.Firewall.GroupMethods.{copy_group_parameters}

-- Every type of another module is a value without pointers.
abbrev read_datum : Value String → Option (Tree String)
read_datum (datum d) = some (leaf d)
read_datum v = none

abbrev plain : Library String
plain = record { read = λ name lo hi h v. read_datum v; deep_copy_into = λ name v h. (v, h) }

plain-IsLawful : IsLawful plain
plain-IsLawful = record {
  read_mono = λ name lo hi lo' hi' h h' v x below above agrees e. e;
  grows = λ name v h. omega arith;
  keeps = λ name v h a above below. refl;
  copies = λ name v h x e. e;
}

-- A group named "web" with the members "a" and nil.
abbrev cells_of : List (List (Value String)) → ℕ → List (Value String)
cells_of [] a = []
cells_of (vs ∷ rest) zero = vs
cells_of (vs ∷ rest) (suc a) = cells_of rest a

abbrev heap : Heap String
heap = record {
  next = 5;
  cells = cells_of (
      (struct_value (
          field "Members" (address 1) (
            field "Name" (address 3)
              (field "Site" nil (field "Timeouts" (address 4) (field "Type" nil end)))))
        ∷ [])
      ∷ (address 2 ∷ nil ∷ [])
      ∷ (datum "a" ∷ [])
      ∷ (datum "web" ∷ [])
      ∷ (struct_value (
            field "Create" nil
              (field "Delete" (address 2) (field "Read" nil (field "Update" nil end))))
          ∷ [])
      ∷ []);
}

abbrev group : Tree String
group = present (
    node (
      tree (several (tree (present (leaf "a")) (tree absent no_trees))) (
        tree (present (leaf "web")) (
          tree absent (
            tree
              (present (
                node
                  (tree absent (tree (present (leaf "a")) (tree absent (tree absent no_trees))))))
              (tree absent no_trees))))))

group_is_read : read plain 0 5 heap (pointer (struct group_parameters)) (address 0) ≡ some group
unfolding read read_only read_items
group_is_read = refl

group_fits : fits group_parameters copy_group_parameters ≡ true
unfolding fits
group_fits = refl

abbrev copied : Value String × Heap String
copied = deep_copy plain copy_group_parameters (address 0) heap

-- The copy is in cell 5, and takes six cells.
copied_is_new : (copied.0 ≡ address 5) × (copied.1.next ≡ 11)
unfolding deep_copy deep_copy_into run_blocks copy_struct copy_pointer copy_slice copy_items assign
    get_field set_field reserve write
copied_is_new = (refl, refl)

read-deep_copy_example :
    (read plain 5 copied.1.next copied.1 (pointer (struct group_parameters)) copied.0 ≡ some group)
    × Agrees 0 5 heap copied.1
read-deep_copy_example =
    read-deep_copy plain plain-IsLawful group_parameters copy_group_parameters (address 0) heap
      group group_fits group_is_read

-- The copy is overwritten in its first cell, and the object in the cell of a member.
abbrev copy_overwritten : Heap String
copy_overwritten = write 5 (nil ∷ []) copied.1

abbrev object_overwritten : Heap String
object_overwritten = write 2 (datum "b" ∷ []) copied.1

object_kept : Agrees 0 5 copied.1 copy_overwritten
object_kept = Agrees-write 0 5 5 (nil ∷ []) copied.1 copied.1 (omega arith) (λ a above below. refl)

copy_kept : Agrees 5 copied.1.next copied.1 object_overwritten
unfolding write
copy_kept a above below = elim (Bool-cases (same 2 a)) [
  | inl e ↦ absurd (omega (arith, above, same_eq 2 a e))
  | inr e ↦ rw e
]

deep_copy-apart_example :
    (read plain 0 5 copy_overwritten (pointer (struct group_parameters)) (address 0) ≡ some group)
    × (read plain 5 copied.1.next object_overwritten (pointer (struct group_parameters)) copied.0
        ≡ some group)
deep_copy-apart_example =
    deep_copy-apart plain plain-IsLawful group_parameters copy_group_parameters (address 0) heap
      copy_overwritten object_overwritten group group_fits group_is_read object_kept copy_kept

abbrev namespaced_group : FieldTypes
namespaced_group = fields_in Firewall.GroupTypes.group

group_is_generated :
    Dict.get "firewall.Group" (generated namespaced)
    ≡ some (namespaced_group, namespaced_copy_group)
unfolding generated Dict.get
group_is_generated = refl

generated-fits_example : fits namespaced_group namespaced_copy_group ≡ true
generated-fits_example =
    generated-fits namespaced "firewall.Group" namespaced_group namespaced_copy_group
      group_is_generated
