-- ===== src/Copies/Device/SupervisorTypes.antt =====
-- apis/cluster/device/v1alpha1/zz_supervisor_types.go: the structs below Supervisor, by their fields.
use provider_upjet_unifi.Base.{[], ◌∷◌}
use provider_upjet_unifi.Copies.{
  flat, pointer, slice, struct, library, optional, struct_of, FieldTypes,
}

abbrev pub supervisor_timeouts_parameters : FieldTypes
supervisor_timeouts_parameters = struct_of ((optional, "Create Delete Read Update") ∷ [])

abbrev pub supervisor_parameters : FieldTypes
supervisor_parameters = struct_of (
    (optional, "DeviceMac Enabled HeartbeatInterval PowerOffDuration SilenceThreshold Site")
    ∷ (pointer (struct supervisor_timeouts_parameters), "Timeouts")
    ∷ [])

abbrev pub supervisor_timeouts_init_parameters : FieldTypes
supervisor_timeouts_init_parameters = struct_of ((optional, "Create Delete Read Update") ∷ [])

abbrev pub supervisor_init_parameters : FieldTypes
supervisor_init_parameters = struct_of (
    (optional, "DeviceMac Enabled HeartbeatInterval PowerOffDuration SilenceThreshold Site")
    ∷ (pointer (struct supervisor_timeouts_init_parameters), "Timeouts")
    ∷ [])

abbrev pub supervisor_spec : FieldTypes
supervisor_spec = struct_of (
    (library "v2.ClusterManagedResourceSpec", "ClusterManagedResourceSpec")
    ∷ (struct supervisor_parameters, "ForProvider")
    ∷ (struct supervisor_init_parameters, "InitProvider")
    ∷ [])

abbrev pub power_sources_observation : FieldTypes
power_sources_observation =
    struct_of ((optional, "ClientPsuIndex PowerSourceIndex PowerSourceMac PowerSourceType") ∷ [])

abbrev pub supervisor_timeouts_observation : FieldTypes
supervisor_timeouts_observation = struct_of ((optional, "Create Delete Read Update") ∷ [])

abbrev pub supervisor_observation : FieldTypes
supervisor_observation = struct_of (
    (optional, "ConsecutiveFailures DeviceMac Enabled HeartbeatInterval ID PowerOffDuration")
    ∷ (slice (struct power_sources_observation), "PowerSources")
    ∷ (optional, "SilenceThreshold Site")
    ∷ (pointer (struct supervisor_timeouts_observation), "Timeouts")
    ∷ [])

abbrev pub supervisor_status : FieldTypes
supervisor_status = struct_of (
    (library "v2.ManagedResourceStatus", "ManagedResourceStatus")
    ∷ (struct supervisor_observation, "AtProvider")
    ∷ [])

abbrev pub supervisor : FieldTypes
supervisor = struct_of (
    (flat, "TypeMeta")
    ∷ (library "metav1.ObjectMeta", "ObjectMeta")
    ∷ (struct supervisor_spec, "Spec")
    ∷ (struct supervisor_status, "Status")
    ∷ [])

abbrev pub supervisor_list : FieldTypes
supervisor_list = struct_of (
    (flat, "TypeMeta")
    ∷ (library "metav1.ListMeta", "ListMeta")
    ∷ (slice (struct supervisor), "Items")
    ∷ [])
