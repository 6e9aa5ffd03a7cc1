-- ===== src/Copies/Port/ProfileMethods.antt =====
-- apis/cluster/port/v1alpha1/zz_generated.deepcopy.go: the DeepCopyInto methods below Profile.
use provider_upjet_unifi.Base.{[], ◌∷◌}
use provider_upjet_unifi.Copies.{
  assigns, calls, allocates, allocates_into, makes_pointers, makes_items, own, of_library,
  method_of, Method,
}

abbrev pub copy_profile_timeouts_parameters : Method
copy_profile_timeouts_parameters = method_of ((allocates, "Create Delete Read Update") ∷ [])

abbrev pub copy_profile_parameters : Method
copy_profile_parameters = method_of (
    (allocates, "Autoneg Dot1XCtrl Dot1XIdleTimeout EgressRateLimitKbps EgressRateLimitKbpsEnabled")
    ∷ (makes_pointers, "ExcludedNetworkconfIds")
    ∷ (makes_items (of_library "v2.Reference"), "ExcludedNetworkconfIdsRefs")
    ∷ (allocates_into (of_library "v2.Selector"), "ExcludedNetworkconfIdsSelector")
    ∷ (allocates, "FecMode Forward FullDuplex Isolation LldpmedEnabled LldpmedNotifyEnabled")
    ∷ (makes_pointers, "MulticastRouterNetworkconfIds")
    ∷ (makes_items (of_library "v2.Reference"), "MulticastRouterNetworkconfIdsRefs")
    ∷ (allocates_into (of_library "v2.Selector"), "MulticastRouterNetworkconfIdsSelector")
    ∷ (allocates, "Name NativeNetworkconfID")
    ∷ (allocates_into (of_library "v2.Reference"), "NativeNetworkconfIDRef")
    ∷ (allocates_into (of_library "v2.Selector"), "NativeNetworkconfIDSelector")
    ∷ (allocates, "OpMode PoeMode PortKeepaliveEnabled PortSecurityEnabled")
    ∷ (makes_pointers, "PortSecurityMacAddress")
    ∷ (
      allocates,
      "PriorityQueue1Level PriorityQueue2Level PriorityQueue3Level PriorityQueue4Level SettingPreference Site Speed StormctrlBcastEnabled StormctrlBcastLevel StormctrlBcastRate StormctrlMcastEnabled StormctrlMcastLevel StormctrlMcastRate StormctrlType StormctrlUcastEnabled StormctrlUcastLevel StormctrlUcastRate StpPortMode",
    )
    ∷ (makes_pointers, "TaggedNetworkconfIds")
    ∷ (makes_items (of_library "v2.Reference"), "TaggedNetworkconfIdsRefs")
    ∷ (allocates_into (of_library "v2.Selector"), "TaggedNetworkconfIdsSelector")
    ∷ (allocates, "TaggedVlanMgmt")
    ∷ (allocates_into (own copy_profile_timeouts_parameters), "Timeouts")
    ∷ (allocates, "VoiceNetworkconfID")
    ∷ (allocates_into (of_library "v2.Reference"), "VoiceNetworkconfIDRef")
    ∷ (allocates_into (of_library "v2.Selector"), "VoiceNetworkconfIDSelector")
    ∷ [])

abbrev pub copy_profile_timeouts_init_parameters : Method
copy_profile_timeouts_init_parameters = method_of ((allocates, "Create Delete Read Update") ∷ [])

abbrev pub copy_profile_init_parameters : Method
copy_profile_init_parameters = method_of (
    (allocates, "Autoneg Dot1XCtrl Dot1XIdleTimeout EgressRateLimitKbps EgressRateLimitKbpsEnabled")
    ∷ (makes_pointers, "ExcludedNetworkconfIds")
    ∷ (makes_items (of_library "v2.Reference"), "ExcludedNetworkconfIdsRefs")
    ∷ (allocates_into (of_library "v2.Selector"), "ExcludedNetworkconfIdsSelector")
    ∷ (allocates, "FecMode Forward FullDuplex Isolation LldpmedEnabled LldpmedNotifyEnabled")
    ∷ (makes_pointers, "MulticastRouterNetworkconfIds")
    ∷ (makes_items (of_library "v2.Reference"), "MulticastRouterNetworkconfIdsRefs")
    ∷ (allocates_into (of_library "v2.Selector"), "MulticastRouterNetworkconfIdsSelector")
    ∷ (allocates, "Name NativeNetworkconfID")
    ∷ (allocates_into (of_library "v2.Reference"), "NativeNetworkconfIDRef")
    ∷ (allocates_into (of_library "v2.Selector"), "NativeNetworkconfIDSelector")
    ∷ (allocates, "OpMode PoeMode PortKeepaliveEnabled PortSecurityEnabled")
    ∷ (makes_pointers, "PortSecurityMacAddress")
    ∷ (
      allocates,
      "PriorityQueue1Level PriorityQueue2Level PriorityQueue3Level PriorityQueue4Level SettingPreference Site Speed StormctrlBcastEnabled StormctrlBcastLevel StormctrlBcastRate StormctrlMcastEnabled StormctrlMcastLevel StormctrlMcastRate StormctrlType StormctrlUcastEnabled StormctrlUcastLevel StormctrlUcastRate StpPortMode",
    )
    ∷ (makes_pointers, "TaggedNetworkconfIds")
    ∷ (makes_items (of_library "v2.Reference"), "TaggedNetworkconfIdsRefs")
    ∷ (allocates_into (of_library "v2.Selector"), "TaggedNetworkconfIdsSelector")
    ∷ (allocates, "TaggedVlanMgmt")
    ∷ (allocates_into (own copy_profile_timeouts_init_parameters), "Timeouts")
    ∷ (allocates, "VoiceNetworkconfID")
    ∷ (allocates_into (of_library "v2.Reference"), "VoiceNetworkconfIDRef")
    ∷ (allocates_into (of_library "v2.Selector"), "VoiceNetworkconfIDSelector")
    ∷ [])

abbrev pub copy_profile_spec : Method
copy_profile_spec = method_of (
    (calls (of_library "v2.ClusterManagedResourceSpec"), "ClusterManagedResourceSpec")
    ∷ (calls (own copy_profile_parameters), "ForProvider")
    ∷ (calls (own copy_profile_init_parameters), "InitProvider")
    ∷ [])

abbrev pub copy_profile_timeouts_observation : Method
copy_profile_timeouts_observation = method_of ((allocates, "Create Delete Read Update") ∷ [])

abbrev pub copy_profile_observation : Method
copy_profile_observation = method_of (
    (allocates, "Autoneg Dot1XCtrl Dot1XIdleTimeout EgressRateLimitKbps EgressRateLimitKbpsEnabled")
    ∷ (makes_pointers, "ExcludedNetworkconfIds")
    ∷ (allocates, "FecMode Forward FullDuplex ID Isolation LldpmedEnabled LldpmedNotifyEnabled")
    ∷ (makes_pointers, "MulticastRouterNetworkconfIds")
    ∷ (
      allocates, "Name NativeNetworkconfID OpMode PoeMode PortKeepaliveEnabled PortSecurityEnabled",
    )
    ∷ (makes_pointers, "PortSecurityMacAddress")
    ∷ (
      allocates,
      "PriorityQueue1Level PriorityQueue2Level PriorityQueue3Level PriorityQueue4Level SettingPreference Site Speed StormctrlBcastEnabled StormctrlBcastLevel StormctrlBcastRate StormctrlMcastEnabled StormctrlMcastLevel StormctrlMcastRate StormctrlType StormctrlUcastEnabled StormctrlUcastLevel StormctrlUcastRate StpPortMode",
    )
    ∷ (makes_pointers, "TaggedNetworkconfIds")
    ∷ (allocates, "TaggedVlanMgmt")
    ∷ (allocates_into (own copy_profile_timeouts_observation), "Timeouts")
    ∷ (allocates, "VoiceNetworkconfID")
    ∷ [])

abbrev pub copy_profile_status : Method
copy_profile_status = method_of (
    (calls (of_library "v2.ManagedResourceStatus"), "ManagedResourceStatus")
    ∷ (calls (own copy_profile_observation), "AtProvider")
    ∷ [])

abbrev pub copy_profile : Method
copy_profile = method_of (
    (assigns, "TypeMeta")
    ∷ (calls (of_library "metav1.ObjectMeta"), "ObjectMeta")
    ∷ (calls (own copy_profile_spec), "Spec")
    ∷ (calls (own copy_profile_status), "Status")
    ∷ [])

abbrev pub copy_profile_list : Method
copy_profile_list = method_of (
    (assigns, "TypeMeta")
    ∷ (calls (of_library "metav1.ListMeta"), "ListMeta")
    ∷ (makes_items (own copy_profile), "Items")
    ∷ [])
