-- ===== src/Copies/Device/ClientMethods.antt =====
-- apis/cluster/device/v1alpha1/zz_generated.deepcopy.go: the DeepCopyInto methods below Client.
use provider_upjet_unifi.Base.{[], ◌∷◌}
use provider_upjet_unifi.Copies.{
  assigns, calls, allocates, allocates_into, makes_pointers, makes_items, own, of_library,
  method_of, Method,
}

abbrev pub copy_qos_rate_parameters : Method
copy_qos_rate_parameters = method_of ((allocates, "ID MaxDown MaxUp Name") ∷ [])

abbrev pub copy_timeouts_parameters : Method
copy_timeouts_parameters = method_of ((allocates, "Create Delete Read Update") ∷ [])

abbrev pub copy_client_parameters : Method
copy_client_parameters = method_of (
    (allocates, "AllowExisting Blocked DisplayName FixedApMac FixedIP")
    ∷ (makes_pointers, "Groups")
    ∷ (allocates, "LocalDNSRecord Mac Name NetworkID")
    ∷ (allocates_into (of_library "v2.Reference"), "NetworkIDRef")
    ∷ (allocates_into (of_library "v2.Selector"), "NetworkIDSelector")
    ∷ (allocates, "Note")
    ∷ (allocates_into (own copy_qos_rate_parameters), "QosRate")
    ∷ (allocates, "Site SkipForgetOnDestroy")
    ∷ (allocates_into (own copy_timeouts_parameters), "Timeouts")
    ∷ [])

abbrev pub copy_qos_rate_init_parameters : Method
copy_qos_rate_init_parameters = method_of ((allocates, "ID MaxDown MaxUp Name") ∷ [])

abbrev pub copy_timeouts_init_parameters : Method
copy_timeouts_init_parameters = method_of ((allocates, "Create Delete Read Update") ∷ [])

abbrev pub copy_client_init_parameters : Method
copy_client_init_parameters = method_of (
    (allocates, "AllowExisting Blocked DisplayName FixedApMac FixedIP")
    ∷ (makes_pointers, "Groups")
    ∷ (allocates, "LocalDNSRecord Mac Name NetworkID")
    ∷ (allocates_into (of_library "v2.Reference"), "NetworkIDRef")
    ∷ (allocates_into (of_library "v2.Selector"), "NetworkIDSelector")
    ∷ (allocates, "Note")
    ∷ (allocates_into (own copy_qos_rate_init_parameters), "QosRate")
    ∷ (allocates, "Site SkipForgetOnDestroy")
    ∷ (allocates_into (own copy_timeouts_init_parameters), "Timeouts")
    ∷ [])

abbrev pub copy_client_spec : Method
copy_client_spec = method_of (
    (calls (of_library "v2.ClusterManagedResourceSpec"), "ClusterManagedResourceSpec")
    ∷ (calls (own copy_client_parameters), "ForProvider")
    ∷ (calls (own copy_client_init_parameters), "InitProvider")
    ∷ [])

abbrev pub copy_qos_rate_observation : Method
copy_qos_rate_observation = method_of ((allocates, "ID MaxDown MaxUp Name") ∷ [])

abbrev pub copy_timeouts_observation : Method
copy_timeouts_observation = method_of ((allocates, "Create Delete Read Update") ∷ [])

abbrev pub copy_client_observation : Method
copy_client_observation = method_of (
    (allocates, "AllowExisting Blocked DisplayName FixedApMac FixedIP")
    ∷ (makes_pointers, "Groups")
    ∷ (allocates, "Hostname ID LastIP LocalDNSRecord Mac Name NetworkID Note")
    ∷ (allocates_into (own copy_qos_rate_observation), "QosRate")
    ∷ (allocates, "Site SkipForgetOnDestroy")
    ∷ (allocates_into (own copy_timeouts_observation), "Timeouts")
    ∷ [])

abbrev pub copy_client_status : Method
copy_client_status = method_of (
    (calls (of_library "v2.ManagedResourceStatus"), "ManagedResourceStatus")
    ∷ (calls (own copy_client_observation), "AtProvider")
    ∷ [])

abbrev pub copy_client : Method
copy_client = method_of (
    (assigns, "TypeMeta")
    ∷ (calls (of_library "metav1.ObjectMeta"), "ObjectMeta")
    ∷ (calls (own copy_client_spec), "Spec")
    ∷ (calls (own copy_client_status), "Status")
    ∷ [])

abbrev pub copy_client_list : Method
copy_client_list = method_of (
    (assigns, "TypeMeta")
    ∷ (calls (of_library "metav1.ListMeta"), "ListMeta")
    ∷ (makes_items (own copy_client), "Items")
    ∷ [])
