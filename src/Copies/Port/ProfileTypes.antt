-- ===== src/Copies/Port/ProfileTypes.antt =====
-- apis/cluster/port/v1alpha1/zz_profile_types.go: the structs below Profile, by their fields.
use provider_upjet_unifi.Base.{[], ◌∷◌}
use provider_upjet_unifi.Copies.{
  flat, pointer, slice, struct, library, optional, struct_of, FieldTypes,
}

abbrev pub profile_timeouts_parameters : FieldTypes
profile_timeouts_parameters = struct_of ((optional, "Create Delete Read Update") ∷ [])

abbrev pub profile_parameters : FieldTypes
profile_parameters = struct_of (
    (optional, "Autoneg Dot1XCtrl Dot1XIdleTimeout EgressRateLimitKbps EgressRateLimitKbpsEnabled")
    ∷ (slice optional, "ExcludedNetworkconfIds")
    ∷ (slice (library "v2.Reference"), "ExcludedNetworkconfIdsRefs")
    ∷ (pointer (library "v2.Selector"), "ExcludedNetworkconfIdsSelector")
    ∷ (optional, "FecMode Forward FullDuplex Isolation LldpmedEnabled LldpmedNotifyEnabled")
    ∷ (slice optional, "MulticastRouterNetworkconfIds")
    ∷ (slice (library "v2.Reference"), "MulticastRouterNetworkconfIdsRefs")
    ∷ (pointer (library "v2.Selector"), "MulticastRouterNetworkconfIdsSelector")
    ∷ (optional, "Name NativeNetworkconfID")
    ∷ (pointer (library "v2.Reference"), "NativeNetworkconfIDRef")
    ∷ (pointer (library "v2.Selector"), "NativeNetworkconfIDSelector")
    ∷ (optional, "OpMode PoeMode PortKeepaliveEnabled PortSecurityEnabled")
    ∷ (slice optional, "PortSecurityMacAddress")
    ∷ (
      optional,
      "PriorityQueue1Level PriorityQueue2Level PriorityQueue3Level PriorityQueue4Level SettingPreference Site Speed StormctrlBcastEnabled StormctrlBcastLevel StormctrlBcastRate StormctrlMcastEnabled StormctrlMcastLevel StormctrlMcastRate StormctrlType StormctrlUcastEnabled StormctrlUcastLevel StormctrlUcastRate StpPortMode",
    )
    ∷ (slice optional, "TaggedNetworkconfIds")
    ∷ (slice (library "v2.Reference"), "TaggedNetworkconfIdsRefs")
    ∷ (pointer (library "v2.Selector"), "TaggedNetworkconfIdsSelector")
    ∷ (optional, "TaggedVlanMgmt")
    ∷ (pointer (struct profile_timeouts_parameters), "Timeouts")
    ∷ (optional, "VoiceNetworkconfID")
    ∷ (pointer (library "v2.Reference"), "VoiceNetworkconfIDRef")
    ∷ (pointer (library "v2.Selector"), "VoiceNetworkconfIDSelector")
    ∷ [])

abbrev pub profile_timeouts_init_parameters : FieldTypes
profile_timeouts_init_parameters = struct_of ((optional, "Create Delete Read Update") ∷ [])

abbrev pub profile_init_parameters : FieldTypes
profile_init_parameters = struct_of (
    (optional, "Autoneg Dot1XCtrl Dot1XIdleTimeout EgressRateLimitKbps EgressRateLimitKbpsEnabled")
    ∷ (slice optional, "ExcludedNetworkconfIds")
    ∷ (slice (library "v2.Reference"), "ExcludedNetworkconfIdsRefs")
    ∷ (pointer (library "v2.Selector"), "ExcludedNetworkconfIdsSelector")
    ∷ (optional, "FecMode Forward FullDuplex Isolation LldpmedEnabled LldpmedNotifyEnabled")
    ∷ (slice optional, "MulticastRouterNetworkconfIds")
    ∷ (slice (library "v2.Reference"), "MulticastRouterNetworkconfIdsRefs")
    ∷ (pointer (library "v2.Selector"), "MulticastRouterNetworkconfIdsSelector")
    ∷ (optional, "Name NativeNetworkconfID")
    ∷ (pointer (library "v2.Reference"), "NativeNetworkconfIDRef")
    ∷ (pointer (library "v2.Selector"), "NativeNetworkconfIDSelector")
    ∷ (optional, "OpMode PoeMode PortKeepaliveEnabled PortSecurityEnabled")
    ∷ (slice optional, "PortSecurityMacAddress")
    ∷ (
      optional,
      "PriorityQueue1Level PriorityQueue2Level PriorityQueue3Level PriorityQueue4Level SettingPreference Site Speed StormctrlBcastEnabled StormctrlBcastLevel StormctrlBcastRate StormctrlMcastEnabled StormctrlMcastLevel StormctrlMcastRate StormctrlType StormctrlUcastEnabled StormctrlUcastLevel StormctrlUcastRate StpPortMode",
    )
    ∷ (slice optional, "TaggedNetworkconfIds")
    ∷ (slice (library "v2.Reference"), "TaggedNetworkconfIdsRefs")
    ∷ (pointer (library "v2.Selector"), "TaggedNetworkconfIdsSelector")
    ∷ (optional, "TaggedVlanMgmt")
    ∷ (pointer (struct profile_timeouts_init_parameters), "Timeouts")
    ∷ (optional, "VoiceNetworkconfID")
    ∷ (pointer (library "v2.Reference"), "VoiceNetworkconfIDRef")
    ∷ (pointer (library "v2.Selector"), "VoiceNetworkconfIDSelector")
    ∷ [])

abbrev pub profile_spec : FieldTypes
profile_spec = struct_of (
    (library "v2.ClusterManagedResourceSpec", "ClusterManagedResourceSpec")
    ∷ (struct profile_parameters, "ForProvider")
    ∷ (struct profile_init_parameters, "InitProvider")
    ∷ [])

abbrev pub profile_timeouts_observation : FieldTypes
profile_timeouts_observation = struct_of ((optional, "Create Delete Read Update") ∷ [])

abbrev pub profile_observation : FieldTypes
profile_observation = struct_of (
    (optional, "Autoneg Dot1XCtrl Dot1XIdleTimeout EgressRateLimitKbps EgressRateLimitKbpsEnabled")
    ∷ (slice optional, "ExcludedNetworkconfIds")
    ∷ (optional, "FecMode Forward FullDuplex ID Isolation LldpmedEnabled LldpmedNotifyEnabled")
    ∷ (slice optional, "MulticastRouterNetworkconfIds")
    ∷ (optional, "Name NativeNetworkconfID OpMode PoeMode PortKeepaliveEnabled PortSecurityEnabled")
    ∷ (slice optional, "PortSecurityMacAddress")
    ∷ (
      optional,
      "PriorityQueue1Level PriorityQueue2Level PriorityQueue3Level PriorityQueue4Level SettingPreference Site Speed StormctrlBcastEnabled StormctrlBcastLevel StormctrlBcastRate StormctrlMcastEnabled StormctrlMcastLevel StormctrlMcastRate StormctrlType StormctrlUcastEnabled StormctrlUcastLevel StormctrlUcastRate StpPortMode",
    )
    ∷ (slice optional, "TaggedNetworkconfIds")
    ∷ (optional, "TaggedVlanMgmt")
    ∷ (pointer (struct profile_timeouts_observation), "Timeouts")
    ∷ (optional, "VoiceNetworkconfID")
    ∷ [])

abbrev pub profile_status : FieldTypes
profile_status = struct_of (
    (library "v2.ManagedResourceStatus", "ManagedResourceStatus")
    ∷ (struct profile_observation, "AtProvider")
    ∷ [])

abbrev pub profile : FieldTypes
profile = struct_of (
    (flat, "TypeMeta")
    ∷ (library "metav1.ObjectMeta", "ObjectMeta")
    ∷ (struct profile_spec, "Spec")
    ∷ (struct profile_status, "Status")
    ∷ [])

abbrev pub profile_list : FieldTypes
profile_list = struct_of (
    (flat, "TypeMeta")
    ∷ (library "metav1.ListMeta", "ListMeta")
    ∷ (slice (struct profile), "Items")
    ∷ [])
