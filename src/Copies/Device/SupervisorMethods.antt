-- ===== src/Copies/Device/SupervisorMethods.antt =====
-- apis/cluster/device/v1alpha1/zz_generated.deepcopy.go: the DeepCopyInto methods below Supervisor.
use provider_upjet_unifi.Base.{[], ◌∷◌}
use provider_upjet_unifi.Copies.{
  assigns, calls, allocates, allocates_into, makes_items, own, of_library, method_of, Method,
}

abbrev pub copy_supervisor_timeouts_parameters : Method
copy_supervisor_timeouts_parameters = method_of ((allocates, "Create Delete Read Update") ∷ [])

abbrev pub copy_supervisor_parameters : Method
copy_supervisor_parameters = method_of (
    (allocates, "DeviceMac Enabled HeartbeatInterval PowerOffDuration SilenceThreshold Site")
    ∷ (allocates_into (own copy_supervisor_timeouts_parameters), "Timeouts")
    ∷ [])

abbrev pub copy_supervisor_timeouts_init_parameters : Method
copy_supervisor_timeouts_init_parameters = method_of ((allocates, "Create Delete Read Update") ∷ [])

abbrev pub copy_supervisor_init_parameters : Method
copy_supervisor_init_parameters = method_of (
    (allocates, "DeviceMac Enabled HeartbeatInterval PowerOffDuration SilenceThreshold Site")
    ∷ (allocates_into (own copy_supervisor_timeouts_init_parameters), "Timeouts")
    ∷ [])

abbrev pub copy_supervisor_spec : Method
copy_supervisor_spec = method_of (
    (calls (of_library "v2.ClusterManagedResourceSpec"), "ClusterManagedResourceSpec")
    ∷ (calls (own copy_supervisor_parameters), "ForProvider")
    ∷ (calls (own copy_supervisor_init_parameters), "InitProvider")
    ∷ [])

abbrev pub copy_power_sources_observation : Method
copy_power_sources_observation =
    method_of ((allocates, "ClientPsuIndex PowerSourceIndex PowerSourceMac PowerSourceType") ∷ [])

abbrev pub copy_supervisor_timeouts_observation : Method
copy_supervisor_timeouts_observation = method_of ((allocates, "Create Delete Read Update") ∷ [])

abbrev pub copy_supervisor_observation : Method
copy_supervisor_observation = method_of (
    (allocates, "ConsecutiveFailures DeviceMac Enabled HeartbeatInterval ID PowerOffDuration")
    ∷ (makes_items (own copy_power_sources_observation), "PowerSources")
    ∷ (allocates, "SilenceThreshold Site")
    ∷ (allocates_into (own copy_supervisor_timeouts_observation), "Timeouts")
    ∷ [])

abbrev pub copy_supervisor_status : Method
copy_supervisor_status = method_of (
    (calls (of_library "v2.ManagedResourceStatus"), "ManagedResourceStatus")
    ∷ (calls (own copy_supervisor_observation), "AtProvider")
    ∷ [])

abbrev pub copy_supervisor : Method
copy_supervisor = method_of (
    (assigns, "TypeMeta")
    ∷ (calls (of_library "metav1.ObjectMeta"), "ObjectMeta")
    ∷ (calls (own copy_supervisor_spec), "Spec")
    ∷ (calls (own copy_supervisor_status), "Status")
    ∷ [])

abbrev pub copy_supervisor_list : Method
copy_supervisor_list = method_of (
    (assigns, "TypeMeta")
    ∷ (calls (of_library "metav1.ListMeta"), "ListMeta")
    ∷ (makes_items (own copy_supervisor), "Items")
    ∷ [])
