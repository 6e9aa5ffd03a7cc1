-- ===== src/Copies/Wlan/ApGroupTypes.antt =====
-- apis/cluster/wlan/v1alpha1/zz_apgroup_types.go: the structs below ApGroup, by their fields.
use provider_upjet_unifi.Base.{[], ◌∷◌}
use provider_upjet_unifi.Copies.{
  flat, pointer, slice, struct, library, optional, struct_of, FieldTypes,
}

abbrev pub timeouts_parameters : FieldTypes
timeouts_parameters = struct_of ((optional, "Create Delete Read Update") ∷ [])

abbrev pub ap_group_parameters : FieldTypes
ap_group_parameters = struct_of (
    (slice optional, "DeviceMacs")
    ∷ (optional, "Name Site")
    ∷ (pointer (struct timeouts_parameters), "Timeouts")
    ∷ [])

abbrev pub timeouts_init_parameters : FieldTypes
timeouts_init_parameters = struct_of ((optional, "Create Delete Read Update") ∷ [])

abbrev pub ap_group_init_parameters : FieldTypes
ap_group_init_parameters = struct_of (
    (slice optional, "DeviceMacs")
    ∷ (optional, "Name Site")
    ∷ (pointer (struct timeouts_init_parameters), "Timeouts")
    ∷ [])

abbrev pub ap_group_spec : FieldTypes
ap_group_spec = struct_of (
    (library "v2.ClusterManagedResourceSpec", "ClusterManagedResourceSpec")
    ∷ (struct ap_group_parameters, "ForProvider")
    ∷ (struct ap_group_init_parameters, "InitProvider")
    ∷ [])

abbrev pub timeouts_observation : FieldTypes
timeouts_observation = struct_of ((optional, "Create Delete Read Update") ∷ [])

abbrev pub ap_group_observation : FieldTypes
ap_group_observation = struct_of (
    (slice optional, "DeviceMacs")
    ∷ (optional, "ID Name Site")
    ∷ (pointer (struct timeouts_observation), "Timeouts")
    ∷ [])

abbrev pub ap_group_status : FieldTypes
ap_group_status = struct_of (
    (library "v2.ManagedResourceStatus", "ManagedResourceStatus")
    ∷ (struct ap_group_observation, "AtProvider")
    ∷ [])

abbrev pub ap_group : FieldTypes
ap_group = struct_of (
    (flat, "TypeMeta")
    ∷ (library "metav1.ObjectMeta", "ObjectMeta")
    ∷ (struct ap_group_spec, "Spec")
    ∷ (struct ap_group_status, "Status")
    ∷ [])

abbrev pub ap_group_list : FieldTypes
ap_group_list = struct_of (
    (flat, "TypeMeta")
    ∷ (library "metav1.ListMeta", "ListMeta")
    ∷ (slice (struct ap_group), "Items")
    ∷ [])
