-- ===== src/Copies/Dns/RecordTypes.antt =====
-- apis/cluster/dns/v1alpha1/zz_record_types.go: the structs below Record, by their fields.
use provider_upjet_unifi.Base.{[], ◌∷◌}
use provider_upjet_unifi.Copies.{
  flat, pointer, slice, struct, library, optional, struct_of, FieldTypes,
}

abbrev pub timeouts_parameters : FieldTypes
timeouts_parameters = struct_of ((optional, "Create Delete Read Update") ∷ [])

abbrev pub record_parameters : FieldTypes
record_parameters = struct_of (
    (optional, "Enabled Name Port Priority RecordType Site TTL")
    ∷ (pointer (struct timeouts_parameters), "Timeouts")
    ∷ (optional, "Value Weight")
    ∷ [])

abbrev pub timeouts_init_parameters : FieldTypes
timeouts_init_parameters = struct_of ((optional, "Create Delete Read Update") ∷ [])

abbrev pub record_init_parameters : FieldTypes
record_init_parameters = struct_of (
    (optional, "Enabled Name Port Priority RecordType Site TTL")
    ∷ (pointer (struct timeouts_init_parameters), "Timeouts")
    ∷ (optional, "Value Weight")
    ∷ [])

abbrev pub record_spec : FieldTypes
record_spec = struct_of (
    (library "v2.ClusterManagedResourceSpec", "ClusterManagedResourceSpec")
    ∷ (struct record_parameters, "ForProvider")
    ∷ (struct record_init_parameters, "InitProvider")
    ∷ [])

abbrev pub timeouts_observation : FieldTypes
timeouts_observation = struct_of ((optional, "Create Delete Read Update") ∷ [])

abbrev pub record_observation : FieldTypes
record_observation = struct_of (
    (optional, "Enabled ID Name Port Priority RecordType Site TTL")
    ∷ (pointer (struct timeouts_observation), "Timeouts")
    ∷ (optional, "Value Weight")
    ∷ [])

abbrev pub record_status : FieldTypes
record_status = struct_of (
    (library "v2.ManagedResourceStatus", "ManagedResourceStatus")
    ∷ (struct record_observation, "AtProvider")
    ∷ [])

abbrev pub record_object : FieldTypes
record_object = struct_of (
    (flat, "TypeMeta")
    ∷ (library "metav1.ObjectMeta", "ObjectMeta")
    ∷ (struct record_spec, "Spec")
    ∷ (struct record_status, "Status")
    ∷ [])

abbrev pub record_list : FieldTypes
record_list = struct_of (
    (flat, "TypeMeta")
    ∷ (library "metav1.ListMeta", "ListMeta")
    ∷ (slice (struct record_object), "Items")
    ∷ [])
