-- ===== src/Copies/Wlan/ApGroupMethods.antt =====
-- apis/cluster/wlan/v1alpha1/zz_generated.deepcopy.go: the DeepCopyInto methods below ApGroup.
use provider_upjet_unifi.Base.{[], ◌∷◌}
use provider_upjet_unifi.Copies.{
  assigns, calls, allocates, allocates_into, makes_pointers, makes_items, own, of_library,
  method_of, Method,
}

abbrev pub copy_timeouts_parameters : Method
copy_timeouts_parameters = method_of ((allocates, "Create Delete Read Update") ∷ [])

abbrev pub copy_ap_group_parameters : Method
copy_ap_group_parameters = method_of (
    (makes_pointers, "DeviceMacs")
    ∷ (allocates, "Name Site")
    ∷ (allocates_into (own copy_timeouts_parameters), "Timeouts")
    ∷ [])

abbrev pub copy_timeouts_init_parameters : Method
copy_timeouts_init_parameters = method_of ((allocates, "Create Delete Read Update") ∷ [])

abbrev pub copy_ap_group_init_parameters : Method
copy_ap_group_init_parameters = method_of (
    (makes_pointers, "DeviceMacs")
    ∷ (allocates, "Name Site")
    ∷ (allocates_into (own copy_timeouts_init_parameters), "Timeouts")
    ∷ [])

abbrev pub copy_ap_group_spec : Method
copy_ap_group_spec = method_of (
    (calls (of_library "v2.ClusterManagedResourceSpec"), "ClusterManagedResourceSpec")
    ∷ (calls (own copy_ap_group_parameters), "ForProvider")
    ∷ (calls (own copy_ap_group_init_parameters), "InitProvider")
    ∷ [])

abbrev pub copy_timeouts_observation : Method
copy_timeouts_observation = method_of ((allocates, "Create Delete Read Update") ∷ [])

abbrev pub copy_ap_group_observation : Method
copy_ap_group_observation = method_of (
    (makes_pointers, "DeviceMacs")
    ∷ (allocates, "ID Name Site")
    ∷ (allocates_into (own copy_timeouts_observation), "Timeouts")
    ∷ [])

abbrev pub copy_ap_group_status : Method
copy_ap_group_status = method_of (
    (calls (of_library "v2.ManagedResourceStatus"), "ManagedResourceStatus")
    ∷ (calls (own copy_ap_group_observation), "AtProvider")
    ∷ [])

abbrev pub copy_ap_group : Method
copy_ap_group = method_of (
    (assigns, "TypeMeta")
    ∷ (calls (of_library "metav1.ObjectMeta"), "ObjectMeta")
    ∷ (calls (own copy_ap_group_spec), "Spec")
    ∷ (calls (own copy_ap_group_status), "Status")
    ∷ [])

abbrev pub copy_ap_group_list : Method
copy_ap_group_list = method_of (
    (assigns, "TypeMeta")
    ∷ (calls (of_library "metav1.ListMeta"), "ListMeta")
    ∷ (makes_items (own copy_ap_group), "Items")
    ∷ [])
