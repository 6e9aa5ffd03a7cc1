-- ===== src/Copies/Device/QosRateTypes.antt =====
-- apis/cluster/device/v1alpha1/zz_qosrate_types.go: the structs below QosRate, by their fields.
use provider_upjet_unifi.Base.{[], ◌∷◌}
use provider_upjet_unifi.Copies.{
  flat, pointer, slice, struct, library, optional, struct_of, FieldTypes,
}

abbrev pub qos_rate_timeouts_parameters : FieldTypes
qos_rate_timeouts_parameters = struct_of ((optional, "Create Delete Read Update") ∷ [])

abbrev pub qos_rate_parameters2 : FieldTypes
qos_rate_parameters2 = struct_of (
    (optional, "Name QosRateMaxDown QosRateMaxUp Site")
    ∷ (pointer (struct qos_rate_timeouts_parameters), "Timeouts")
    ∷ [])

abbrev pub qos_rate_timeouts_init_parameters : FieldTypes
qos_rate_timeouts_init_parameters = struct_of ((optional, "Create Delete Read Update") ∷ [])

abbrev pub qos_rate_init_parameters2 : FieldTypes
qos_rate_init_parameters2 = struct_of (
    (optional, "Name QosRateMaxDown QosRateMaxUp Site")
    ∷ (pointer (struct qos_rate_timeouts_init_parameters), "Timeouts")
    ∷ [])

abbrev pub qos_rate_spec : FieldTypes
qos_rate_spec = struct_of (
    (library "v2.ClusterManagedResourceSpec", "ClusterManagedResourceSpec")
    ∷ (struct qos_rate_parameters2, "ForProvider")
    ∷ (struct qos_rate_init_parameters2, "InitProvider")
    ∷ [])

abbrev pub qos_rate_timeouts_observation : FieldTypes
qos_rate_timeouts_observation = struct_of ((optional, "Create Delete Read Update") ∷ [])

abbrev pub qos_rate_observation2 : FieldTypes
qos_rate_observation2 = struct_of (
    (optional, "ID Name QosRateMaxDown QosRateMaxUp Site")
    ∷ (pointer (struct qos_rate_timeouts_observation), "Timeouts")
    ∷ [])

abbrev pub qos_rate_status : FieldTypes
qos_rate_status = struct_of (
    (library "v2.ManagedResourceStatus", "ManagedResourceStatus")
    ∷ (struct qos_rate_observation2, "AtProvider")
    ∷ [])

abbrev pub qos_rate : FieldTypes
qos_rate = struct_of (
    (flat, "TypeMeta")
    ∷ (library "metav1.ObjectMeta", "ObjectMeta")
    ∷ (struct qos_rate_spec, "Spec")
    ∷ (struct qos_rate_status, "Status")
    ∷ [])

abbrev pub qos_rate_list : FieldTypes
qos_rate_list = struct_of (
    (flat, "TypeMeta")
    ∷ (library "metav1.ListMeta", "ListMeta")
    ∷ (slice (struct qos_rate), "Items")
    ∷ [])
