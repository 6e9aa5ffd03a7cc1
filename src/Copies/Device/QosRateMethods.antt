-- ===== src/Copies/Device/QosRateMethods.antt =====
-- apis/cluster/device/v1alpha1/zz_generated.deepcopy.go: the DeepCopyInto methods below QosRate.
use provider_upjet_unifi.Base.{[], ◌∷◌}
use provider_upjet_unifi.Copies.{
  assigns, calls, allocates, allocates_into, makes_items, own, of_library, method_of, Method,
}

abbrev pub copy_qos_rate_timeouts_parameters : Method
copy_qos_rate_timeouts_parameters = method_of ((allocates, "Create Delete Read Update") ∷ [])

abbrev pub copy_qos_rate_parameters2 : Method
copy_qos_rate_parameters2 = method_of (
    (allocates, "Name QosRateMaxDown QosRateMaxUp Site")
    ∷ (allocates_into (own copy_qos_rate_timeouts_parameters), "Timeouts")
    ∷ [])

abbrev pub copy_qos_rate_timeouts_init_parameters : Method
copy_qos_rate_timeouts_init_parameters = method_of ((allocates, "Create Delete Read Update") ∷ [])

abbrev pub copy_qos_rate_init_parameters2 : Method
copy_qos_rate_init_parameters2 = method_of (
    (allocates, "Name QosRateMaxDown QosRateMaxUp Site")
    ∷ (allocates_into (own copy_qos_rate_timeouts_init_parameters), "Timeouts")
    ∷ [])

abbrev pub copy_qos_rate_spec : Method
copy_qos_rate_spec = method_of (
    (calls (of_library "v2.ClusterManagedResourceSpec"), "ClusterManagedResourceSpec")
    ∷ (calls (own copy_qos_rate_parameters2), "ForProvider")
    ∷ (calls (own copy_qos_rate_init_parameters2), "InitProvider")
    ∷ [])

abbrev pub copy_qos_rate_timeouts_observation : Method
copy_qos_rate_timeouts_observation = method_of ((allocates, "Create Delete Read Update") ∷ [])

abbrev pub copy_qos_rate_observation2 : Method
copy_qos_rate_observation2 = method_of (
    (allocates, "ID Name QosRateMaxDown QosRateMaxUp Site")
    ∷ (allocates_into (own copy_qos_rate_timeouts_observation), "Timeouts")
    ∷ [])

abbrev pub copy_qos_rate_status : Method
copy_qos_rate_status = method_of (
    (calls (of_library "v2.ManagedResourceStatus"), "ManagedResourceStatus")
    ∷ (calls (own copy_qos_rate_observation2), "AtProvider")
    ∷ [])

abbrev pub copy_qos_rate : Method
copy_qos_rate = method_of (
    (assigns, "TypeMeta")
    ∷ (calls (of_library "metav1.ObjectMeta"), "ObjectMeta")
    ∷ (calls (own copy_qos_rate_spec), "Spec")
    ∷ (calls (own copy_qos_rate_status), "Status")
    ∷ [])

abbrev pub copy_qos_rate_list : Method
copy_qos_rate_list = method_of (
    (assigns, "TypeMeta")
    ∷ (calls (of_library "metav1.ListMeta"), "ListMeta")
    ∷ (makes_items (own copy_qos_rate), "Items")
    ∷ [])
