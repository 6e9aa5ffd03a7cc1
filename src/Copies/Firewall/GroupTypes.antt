-- ===== src/Copies/Firewall/GroupTypes.antt =====
-- apis/cluster/firewall/v1alpha1/zz_group_types.go: the structs below Group, by their fields.
use provider_upjet_unifi.Base.{[], ◌∷◌}
use provider_upjet_unifi.Copies.{
  flat, pointer, slice, struct, library, optional, struct_of, FieldTypes,
}

abbrev pub timeouts_parameters : FieldTypes
timeouts_parameters = struct_of ((optional, "Create Delete Read Update") ∷ [])

abbrev pub group_parameters : FieldTypes
group_parameters = struct_of (
    (slice optional, "Members")
    ∷ (optional, "Name Site")
    ∷ (pointer (struct timeouts_parameters), "Timeouts")
    ∷ (optional, "Type")
    ∷ [])

abbrev pub timeouts_init_parameters : FieldTypes
timeouts_init_parameters = struct_of ((optional, "Create Delete Read Update") ∷ [])

abbrev pub group_init_parameters : FieldTypes
group_init_parameters = struct_of (
    (slice optional, "Members")
    ∷ (optional, "Name Site")
    ∷ (pointer (struct timeouts_init_parameters), "Timeouts")
    ∷ (optional, "Type")
    ∷ [])

abbrev pub group_spec : FieldTypes
group_spec = struct_of (
    (library "v2.ClusterManagedResourceSpec", "ClusterManagedResourceSpec")
    ∷ (struct group_parameters, "ForProvider")
    ∷ (struct group_init_parameters, "InitProvider")
    ∷ [])

abbrev pub timeouts_observation : FieldTypes
timeouts_observation = struct_of ((optional, "Create Delete Read Update") ∷ [])

abbrev pub group_observation : FieldTypes
group_observation = struct_of (
    (optional, "ID")
    ∷ (slice optional, "Members")
    ∷ (optional, "Name Site")
    ∷ (pointer (struct timeouts_observation), "Timeouts")
    ∷ (optional, "Type")
    ∷ [])

abbrev pub group_status : FieldTypes
group_status = struct_of (
    (library "v2.ManagedResourceStatus", "ManagedResourceStatus")
    ∷ (struct group_observation, "AtProvider")
    ∷ [])

abbrev pub group : FieldTypes
group = struct_of (
    (flat, "TypeMeta")
    ∷ (library "metav1.ObjectMeta", "ObjectMeta")
    ∷ (struct group_spec, "Spec")
    ∷ (struct group_status, "Status")
    ∷ [])

abbrev pub group_list : FieldTypes
group_list = struct_of (
    (flat, "TypeMeta")
    ∷ (library "metav1.ListMeta", "ListMeta")
    ∷ (slice (struct group), "Items")
    ∷ [])
