-- ===== src/Copies/Firewall/ZoneTypes.antt =====
-- apis/cluster/firewall/v1alpha1/zz_zone_types.go: the structs below Zone, by their fields.
use provider_upjet_unifi.Base.{[], ◌∷◌}
use provider_upjet_unifi.Copies.{
  flat, pointer, slice, struct, library, optional, struct_of, FieldTypes,
}

abbrev pub zone_timeouts_parameters : FieldTypes
zone_timeouts_parameters = struct_of ((optional, "Create Delete Read Update") ∷ [])

abbrev pub zone_parameters : FieldTypes
zone_parameters = struct_of (
    (optional, "Name")
    ∷ (slice optional, "NetworkIds")
    ∷ (slice (library "v2.Reference"), "NetworkIdsRefs")
    ∷ (pointer (library "v2.Selector"), "NetworkIdsSelector")
    ∷ (optional, "Site")
    ∷ (pointer (struct zone_timeouts_parameters), "Timeouts")
    ∷ [])

abbrev pub zone_timeouts_init_parameters : FieldTypes
zone_timeouts_init_parameters = struct_of ((optional, "Create Delete Read Update") ∷ [])

abbrev pub zone_init_parameters : FieldTypes
zone_init_parameters = struct_of (
    (optional, "Name")
    ∷ (slice optional, "NetworkIds")
    ∷ (slice (library "v2.Reference"), "NetworkIdsRefs")
    ∷ (pointer (library "v2.Selector"), "NetworkIdsSelector")
    ∷ (optional, "Site")
    ∷ (pointer (struct zone_timeouts_init_parameters), "Timeouts")
    ∷ [])

abbrev pub zone_spec : FieldTypes
zone_spec = struct_of (
    (library "v2.ClusterManagedResourceSpec", "ClusterManagedResourceSpec")
    ∷ (struct zone_parameters, "ForProvider")
    ∷ (struct zone_init_parameters, "InitProvider")
    ∷ [])

abbrev pub zone_timeouts_observation : FieldTypes
zone_timeouts_observation = struct_of ((optional, "Create Delete Read Update") ∷ [])

abbrev pub zone_observation : FieldTypes
zone_observation = struct_of (
    (optional, "DefaultZone ID Name")
    ∷ (slice optional, "NetworkIds")
    ∷ (optional, "Site")
    ∷ (pointer (struct zone_timeouts_observation), "Timeouts")
    ∷ (optional, "ZoneKey")
    ∷ [])

abbrev pub zone_status : FieldTypes
zone_status = struct_of (
    (library "v2.ManagedResourceStatus", "ManagedResourceStatus")
    ∷ (struct zone_observation, "AtProvider")
    ∷ [])

abbrev pub zone : FieldTypes
zone = struct_of (
    (flat, "TypeMeta")
    ∷ (library "metav1.ObjectMeta", "ObjectMeta")
    ∷ (struct zone_spec, "Spec")
    ∷ (struct zone_status, "Status")
    ∷ [])

abbrev pub zone_list : FieldTypes
zone_list = struct_of (
    (flat, "TypeMeta")
    ∷ (library "metav1.ListMeta", "ListMeta")
    ∷ (slice (struct zone), "Items")
    ∷ [])
