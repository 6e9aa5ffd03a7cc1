-- ===== src/Copies.antt =====
-- apis/*/*/zz_generated.deepcopy.go: the DeepCopyInto and DeepCopy methods over an explicit heap. A
-- method is the list of its blocks behind `*out = *in`; `Library` stands for the types of other
-- modules and their DeepCopyInto methods.
use Prim.Native.Char.{code}
use text.Mathlib.Text.{◌==◌}
use provider_upjet_unifi.Base.{
  ℕ, suc, String, ◌<>◌, Bool, true, false, ◌&&◌, not, Option, none, some, List, [], ◌∷◌, leb,
  if◌then◌else◌,
}
use provider_upjet_unifi.Base.Equal.{same}
pub mod Reading
pub mod Writing
pub mod Blocks
pub mod Safety
pub mod Structs
pub mod Methods
pub mod Apart
pub mod Namespaced
pub mod Groups
pub mod Account
pub mod Dns
pub mod Site
pub mod Radius
pub mod Route
pub mod Wlan
pub mod Port
pub mod Firewall
pub mod Vpn
pub mod Device
pub mod ClusterConfig
pub mod NamespacedConfig

-- What a variable holds: plain data, a nil pointer or slice, the address of a cell, or a struct.
mutual
  pub data Value (D : Type 0) : Type 0 where
    datum : D → Value D
    nil : Value D
    address : ℕ → Value D
    struct_value : Fields D → Value D

  pub data Fields (D : Type 0) : Type 0 where
    end : Fields D
    field : String → Value D → Fields D → Fields D

-- A cell holds the items of a slice's array; what a pointer points to is an array of one item. Cells
-- below `next` are in use.
pub record Heap (D : Type 0) : Type 0 where
  pub next : ℕ
  pub cells : ℕ → List (Value D)

-- What a value stands for, without addresses.
mutual
  pub data Tree (D : Type 0) : Type 0 where
    leaf : D → Tree D
    absent : Tree D
    present : Tree D → Tree D
    several : Trees D → Tree D
    node : Trees D → Tree D

  pub data Trees (D : Type 0) : Type 0 where
    no_trees : Trees D
    tree : Tree D → Trees D → Trees D

-- Go types: `flat` is a type without pointers and slices, `library` one of another module.
mutual
  pub data GoType : Type 0 where
    flat : GoType
    pointer : GoType → GoType
    slice : GoType → GoType
    struct : FieldTypes → GoType
    library : String → GoType

  pub data FieldTypes : Type 0 where
    no_fields : FieldTypes
    field_type : String → GoType → FieldTypes → FieldTypes

-- The blocks of a DeepCopyInto method: out.F = in.F; in.F.DeepCopyInto(&out.F); and, where in.F is not
-- nil, new(T) with an assignment or with a call of DeepCopyInto, and make([]*T) or make([]T) with the
-- loop over the items.
mutual
  pub data Method : Type 0 where
    returns : Method
    block : String → Block → Method → Method

  pub data Block : Type 0 where
    assigns : Block
    calls : Callee → Block
    allocates : Block
    allocates_into : Callee → Block
    makes_pointers : Block
    makes_items : Callee → Block

  pub data Callee : Type 0 where
    own : Method → Callee
    of_library : String → Callee

-- `read` is what a value of a library type stands for, if all its addresses are from the first bound
-- on and below the second.
pub record Library (D : Type 0) : Type 0 where
  pub read : String → ℕ → ℕ → Heap D → Value D → Option (Tree D)
  pub deep_copy_into : String → Value D → Heap D → Value D × Heap D

module _ {D : Type 0} where
  abbrev pub first : List (Value D) → Value D
  first [] = nil
  first (v ∷ vs) = v

  unfoldable pub write : ℕ → List (Value D) → Heap D → Heap D
  write a vs h = record { next = h.next; cells = λ b. if same a b then vs else h.cells b }

  -- new(T) and make([]T, n), before anything is written.
  unfoldable pub reserve : Heap D → Heap D
  reserve h = record { next = suc h.next; cells = h.cells }

  -- in.F and out.F
  unfoldable pub get_field : String → Fields D → Value D
  get_field name end = nil
  get_field name (field n v rest) = if n == name then v else get_field name rest

  unfoldable pub set_field : String → Value D → Fields D → Fields D
  set_field name w end = end
  set_field name w (field n v rest) =
      if n == name then field n w rest else field n v (set_field name w rest)

  -- Fills the cell that was reserved in `h` with what a computation leaves.
  abbrev pub filled : ℕ → List (Value D) × Heap D → Value D × Heap D
  filled a (vs, h) = (address a, write a vs h)

  abbrev pub single : Value D × Heap D → List (Value D) × Heap D
  single (v, h) = (v ∷ [], h)

  -- *out = new(T), and then what `f` makes of **in
  unfoldable pub copy_pointer :
      (Value D → Heap D → Value D × Heap D) → Value D → Heap D → Value D × Heap D
  copy_pointer f (address a) h = filled h.next (single (f (first (h.cells a)) (reserve h)))
  copy_pointer f v h = (v, h)

  abbrev pub before : Value D → List (Value D) × Heap D → List (Value D) × Heap D
  before v (vs, h) = (v ∷ vs, h)

  unfoldable pub copy_items :
      (Value D → Heap D → Value D × Heap D) → List (Value D) → Heap D → List (Value D) × Heap D
  copy_items f [] h = ([], h)
  copy_items f (v ∷ vs) h = before (f v h).0 (copy_items f vs (f v h).1)

  -- *out = make([]T, len(*in)), and then the loop
  unfoldable pub copy_slice :
      (Value D → Heap D → Value D × Heap D) → Value D → Heap D → Value D × Heap D
  copy_slice f (address a) h = filled h.next (copy_items f (h.cells a) (reserve h))
  copy_slice f v h = (v, h)

  -- An assignment.
  unfoldable pub assign : Value D → Heap D → Value D × Heap D
  assign v h = (v, h)

  abbrev pub as_struct : Fields D × Heap D → Value D × Heap D
  as_struct (fs, h) = (struct_value fs, h)

  -- *out = *in, and then `f` on the fields of the two
  unfoldable pub copy_struct :
      (Fields D → Fields D → Heap D → Fields D × Heap D) → Value D → Heap D → Value D × Heap D
  copy_struct f (struct_value fs) h = as_struct (f fs fs h)
  copy_struct f v h = (v, h)

module _ {D : Type 0} (L : Library D) where
  unfoldable mutual
    pub run_block : Block → Value D → Heap D → Value D × Heap D
    run_block assigns v h = assign v h
    run_block (calls c) v h = run_callee c v h
    run_block allocates v h = copy_pointer assign v h
    run_block (allocates_into c) v h = copy_pointer (run_callee c) v h
    run_block makes_pointers v h = copy_slice (copy_pointer assign) v h
    run_block (makes_items c) v h = copy_slice (run_callee c) v h

    pub run_callee : Callee → Value D → Heap D → Value D × Heap D
    run_callee (own m) v h = copy_struct (run_blocks m) v h
    run_callee (of_library name) v h = L.deep_copy_into name v h

    -- The fields of *in, and those of *out as the blocks before have left them.
    pub run_blocks : Method → Fields D → Fields D → Heap D → Fields D × Heap D
    run_blocks returns fs out h = (out, h)
    run_blocks (block name b m) fs out h =
        let r = run_block b (get_field name fs) h in run_blocks m fs (set_field name r.0 out) r.1

  unfoldable pub deep_copy_into : Method → Value D → Heap D → Value D × Heap D
  deep_copy_into m v h = copy_struct (run_blocks m) v h

  -- DeepCopy: nil for nil, and otherwise out := new(T) with in.DeepCopyInto(out).
  unfoldable pub deep_copy : Method → Value D → Heap D → Value D × Heap D
  deep_copy m v h = copy_pointer (deep_copy_into m) v h

-- Go's interface value: nil itself, or a pointer with its type.
abbrev pub as_object : {D : Type 0} → Value D × Heap D → Option (Value D) × Heap D
as_object (nil, h) = (none, h)
as_object (v, h) = (some v, h)

-- DeepCopyObject
unfoldable pub deep_copy_object :
    {D : Type 0} → Library D → Method → Value D → Heap D → Option (Value D) × Heap D
deep_copy_object L m v h = as_object (deep_copy L m v h)

-- Whether a method copies every field of a struct that a plain assignment would share.
abbrev pub lacks_block : String → Method → Bool
lacks_block name returns = true
lacks_block name (block n b m) = not (n == name) && lacks_block name m

abbrev pub is_flat : GoType → Bool
is_flat flat = true
is_flat _ = false

abbrev pub is_flat_pointer : GoType → Bool
is_flat_pointer (pointer t) = is_flat t
is_flat_pointer _ = false

unfoldable mutual
  pub fits : FieldTypes → Method → Bool
  fits no_fields returns = true
  fits no_fields (block n b m) = false
  fits (field_type name t rest) returns = is_flat t && fits rest returns
  fits (field_type name t rest) (block n b m) =
      let here = fits_block t b && (lacks_block name m && fits rest m) in
      let later = is_flat t && (lacks_block name m && fits rest (block n b m)) in
      if n == name then here else later

  pub fits_block : GoType → Block → Bool
  fits_block flat assigns = true
  fits_block (struct ts) (calls (own m)) = fits ts m
  fits_block (library name) (calls (of_library name')) = name == name'
  fits_block (pointer t) allocates = is_flat t
  fits_block (pointer t) (allocates_into c) = fits_callee t c
  fits_block (slice t) makes_pointers = is_flat_pointer t
  fits_block (slice t) (makes_items c) = fits_callee t c
  fits_block _ _ = false

  pub fits_callee : GoType → Callee → Bool
  fits_callee (struct ts) (own m) = fits ts m
  fits_callee (library name) (of_library name') = name == name'
  fits_callee _ _ = false

-- The tables of the generated code: fields, and blocks, that stand together and are alike, by their
-- names with a space between two.
abbrev pub optional : GoType
optional = pointer flat

abbrev onto_first : String → List String → List String
onto_first s [] = s ∷ []
onto_first s (t ∷ l) = (s <> t) ∷ l

abbrev words : String → List String
words String.[] = "" ∷ []
words (String.◌∷◌ c s) =
    let rest = words s in
    if same (code c) 32 then "" ∷ rest else onto_first (String.◌∷◌ c String.[]) rest

abbrev fields_of : GoType → List String → FieldTypes → FieldTypes
fields_of t [] rest = rest
fields_of t (name ∷ names) rest = field_type name t (fields_of t names rest)

abbrev pub struct_of : List (GoType × String) → FieldTypes
struct_of [] = no_fields
struct_of ((t, names) ∷ rest) = fields_of t (words names) (struct_of rest)

abbrev blocks_of : Block → List String → Method → Method
blocks_of b [] rest = rest
blocks_of b (name ∷ names) rest = block name b (blocks_of b names rest)

abbrev pub method_of : List (Block × String) → Method
method_of [] = returns
method_of ((b, names) ∷ rest) = blocks_of b (words names) (method_of rest)
