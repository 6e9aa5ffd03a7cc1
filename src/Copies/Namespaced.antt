-- ===== src/Copies/Namespaced.antt =====
-- apis/namespaced/*/v1alpha1/zz_generated.deepcopy.go and zz_*_types.go: as those of the cluster scope,
-- with the types of Crossplane for namespaced resources.
use package.text.Mathlib.Text.{◌==◌}
use provider_upjet_unifi.Base.{String, if◌then◌else◌}
use provider_upjet_unifi.Copies.{
  GoType, flat, pointer, slice, struct, library, FieldTypes, no_fields, field_type, Method, returns,
  block, Block, assigns, calls, allocates, allocates_into, makes_pointers, makes_items, Callee, own,
  of_library,
}
pub mod Account
pub mod Dns
pub mod Site
pub mod Radius
pub mod Route
pub mod Wlan
pub mod Port
pub mod Firewall
pub mod Vpn
pub mod Device

-- The names that differ, of fields and of types; an embedded struct is named like its type.
unfoldable pub namespaced_name : String → String
namespaced_name name =
    if name == "v2.Reference"
    then "v2.NamespacedReference"
    else if name == "v2.Selector"
    then "v2.NamespacedSelector"
    else if name == "v2.ClusterManagedResourceSpec"
    then "v2.ManagedResourceSpec"
    else if name == "ClusterManagedResourceSpec"
    then "ManagedResourceSpec"
    else name

unfoldable mutual
  pub in_namespace : Method → Method
  in_namespace returns = returns
  in_namespace (block name b m) = block (namespaced_name name) (block_in b) (in_namespace m)

  pub block_in : Block → Block
  block_in assigns = assigns
  block_in (calls c) = calls (callee_in c)
  block_in allocates = allocates
  block_in (allocates_into c) = allocates_into (callee_in c)
  block_in makes_pointers = makes_pointers
  block_in (makes_items c) = makes_items (callee_in c)

  pub callee_in : Callee → Callee
  callee_in (own m) = own (in_namespace m)
  callee_in (of_library name) = of_library (namespaced_name name)

unfoldable mutual
  pub fields_in : FieldTypes → FieldTypes
  fields_in no_fields = no_fields
  fields_in (field_type name t ts) = field_type (namespaced_name name) (type_in t) (fields_in ts)

  pub type_in : GoType → GoType
  type_in flat = flat
  type_in (pointer t) = pointer (type_in t)
  type_in (slice t) = slice (type_in t)
  type_in (struct ts) = struct (fields_in ts)
  type_in (library name) = library (namespaced_name name)
