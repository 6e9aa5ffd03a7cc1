-- ===== src/Copies/Firewall/PolicyMethods.antt =====
-- apis/cluster/firewall/v1alpha1/zz_generated.deepcopy.go: the DeepCopyInto methods below Policy.
use provider_upjet_unifi.Base.{[], ◌∷◌}
use provider_upjet_unifi.Copies.{
  assigns, calls, allocates, allocates_into, makes_pointers, makes_items, own, of_library,
  method_of, Method,
}

abbrev pub copy_destination_parameters : Method
copy_destination_parameters = method_of (
    (makes_pointers, "ClientMacs")
    ∷ (allocates, "IPGroupID")
    ∷ (allocates_into (of_library "v2.Reference"), "IPGroupIDRef")
    ∷ (allocates_into (of_library "v2.Selector"), "IPGroupIDSelector")
    ∷ (makes_pointers, "Ips")
    ∷ (
      allocates,
      "MatchMac MatchOppositeIps MatchOppositeNetworks MatchOppositePorts MatchingTarget",
    )
    ∷ (makes_pointers, "NetworkIds")
    ∷ (makes_items (of_library "v2.Reference"), "NetworkIdsRefs")
    ∷ (allocates_into (of_library "v2.Selector"), "NetworkIdsSelector")
    ∷ (allocates, "Port PortGroupID")
    ∷ (allocates_into (of_library "v2.Reference"), "PortGroupIDRef")
    ∷ (allocates_into (of_library "v2.Selector"), "PortGroupIDSelector")
    ∷ (allocates, "PortMatchingType")
    ∷ (makes_pointers, "Regions WebDomains")
    ∷ (allocates, "ZoneID")
    ∷ (allocates_into (of_library "v2.Reference"), "ZoneIDRef")
    ∷ (allocates_into (of_library "v2.Selector"), "ZoneIDSelector")
    ∷ [])

abbrev pub copy_schedule_parameters : Method
copy_schedule_parameters = method_of (
    (allocates, "Date DateEnd DateStart Mode Normalize")
    ∷ (makes_pointers, "RepeatOnDays")
    ∷ (allocates, "TimeAllDay TimeRangeEnd TimeRangeStart")
    ∷ [])

abbrev pub copy_source_parameters : Method
copy_source_parameters = method_of (
    (makes_pointers, "ClientMacs")
    ∷ (allocates, "IPGroupID")
    ∷ (allocates_into (of_library "v2.Reference"), "IPGroupIDRef")
    ∷ (allocates_into (of_library "v2.Selector"), "IPGroupIDSelector")
    ∷ (makes_pointers, "Ips")
    ∷ (
      allocates,
      "MatchMac MatchOppositeIps MatchOppositeNetworks MatchOppositePorts MatchingTarget",
    )
    ∷ (makes_pointers, "NetworkIds")
    ∷ (makes_items (of_library "v2.Reference"), "NetworkIdsRefs")
    ∷ (allocates_into (of_library "v2.Selector"), "NetworkIdsSelector")
    ∷ (allocates, "Port PortGroupID")
    ∷ (allocates_into (of_library "v2.Reference"), "PortGroupIDRef")
    ∷ (allocates_into (of_library "v2.Selector"), "PortGroupIDSelector")
    ∷ (allocates, "PortMatchingType")
    ∷ (makes_pointers, "Regions WebDomains")
    ∷ (allocates, "ZoneID")
    ∷ (allocates_into (of_library "v2.Reference"), "ZoneIDRef")
    ∷ (allocates_into (of_library "v2.Selector"), "ZoneIDSelector")
    ∷ [])

abbrev pub copy_policy_timeouts_parameters : Method
copy_policy_timeouts_parameters = method_of ((allocates, "Create Delete Read Update") ∷ [])

abbrev pub copy_policy_parameters : Method
copy_policy_parameters = method_of (
    (allocates, "Action ConnectionStateType")
    ∷ (makes_pointers, "ConnectionStates")
    ∷ (allocates, "CreateAllowRespond Description")
    ∷ (allocates_into (own copy_destination_parameters), "Destination")
    ∷ (allocates, "Enabled IPVersion Logging MatchOppositeProtocol Name Protocol")
    ∷ (allocates_into (own copy_schedule_parameters), "Schedule")
    ∷ (allocates, "Site")
    ∷ (allocates_into (own copy_source_parameters), "Source")
    ∷ (allocates_into (own copy_policy_timeouts_parameters), "Timeouts")
    ∷ [])

abbrev pub copy_destination_init_parameters : Method
copy_destination_init_parameters = method_of (
    (makes_pointers, "ClientMacs")
    ∷ (allocates, "IPGroupID")
    ∷ (allocates_into (of_library "v2.Reference"), "IPGroupIDRef")
    ∷ (allocates_into (of_library "v2.Selector"), "IPGroupIDSelector")
    ∷ (makes_pointers, "Ips")
    ∷ (
      allocates,
      "MatchMac MatchOppositeIps MatchOppositeNetworks MatchOppositePorts MatchingTarget",
    )
    ∷ (makes_pointers, "NetworkIds")
    ∷ (makes_items (of_library "v2.Reference"), "NetworkIdsRefs")
    ∷ (allocates_into (of_library "v2.Selector"), "NetworkIdsSelector")
    ∷ (allocates, "Port PortGroupID")
    ∷ (allocates_into (of_library "v2.Reference"), "PortGroupIDRef")
    ∷ (allocates_into (of_library "v2.Selector"), "PortGroupIDSelector")
    ∷ (allocates, "PortMatchingType")
    ∷ (makes_pointers, "Regions WebDomains")
    ∷ (allocates, "ZoneID")
    ∷ (allocates_into (of_library "v2.Reference"), "ZoneIDRef")
    ∷ (allocates_into (of_library "v2.Selector"), "ZoneIDSelector")
    ∷ [])

abbrev pub copy_schedule_init_parameters : Method
copy_schedule_init_parameters = method_of (
    (allocates, "Date DateEnd DateStart Mode Normalize")
    ∷ (makes_pointers, "RepeatOnDays")
    ∷ (allocates, "TimeAllDay TimeRangeEnd TimeRangeStart")
    ∷ [])

abbrev pub copy_source_init_parameters : Method
copy_source_init_parameters = method_of (
    (makes_pointers, "ClientMacs")
    ∷ (allocates, "IPGroupID")
    ∷ (allocates_into (of_library "v2.Reference"), "IPGroupIDRef")
    ∷ (allocates_into (of_library "v2.Selector"), "IPGroupIDSelector")
    ∷ (makes_pointers, "Ips")
    ∷ (
      allocates,
      "MatchMac MatchOppositeIps MatchOppositeNetworks MatchOppositePorts MatchingTarget",
    )
    ∷ (makes_pointers, "NetworkIds")
    ∷ (makes_items (of_library "v2.Reference"), "NetworkIdsRefs")
    ∷ (allocates_into (of_library "v2.Selector"), "NetworkIdsSelector")
    ∷ (allocates, "Port PortGroupID")
    ∷ (allocates_into (of_library "v2.Reference"), "PortGroupIDRef")
    ∷ (allocates_into (of_library "v2.Selector"), "PortGroupIDSelector")
    ∷ (allocates, "PortMatchingType")
    ∷ (makes_pointers, "Regions WebDomains")
    ∷ (allocates, "ZoneID")
    ∷ (allocates_into (of_library "v2.Reference"), "ZoneIDRef")
    ∷ (allocates_into (of_library "v2.Selector"), "ZoneIDSelector")
    ∷ [])

abbrev pub copy_policy_timeouts_init_parameters : Method
copy_policy_timeouts_init_parameters = method_of ((allocates, "Create Delete Read Update") ∷ [])

abbrev pub copy_policy_init_parameters : Method
copy_policy_init_parameters = method_of (
    (allocates, "Action ConnectionStateType")
    ∷ (makes_pointers, "ConnectionStates")
    ∷ (allocates, "CreateAllowRespond Description")
    ∷ (allocates_into (own copy_destination_init_parameters), "Destination")
    ∷ (allocates, "Enabled IPVersion Logging MatchOppositeProtocol Name Protocol")
    ∷ (allocates_into (own copy_schedule_init_parameters), "Schedule")
    ∷ (allocates, "Site")
    ∷ (allocates_into (own copy_source_init_parameters), "Source")
    ∷ (allocates_into (own copy_policy_timeouts_init_parameters), "Timeouts")
    ∷ [])

abbrev pub copy_policy_spec : Method
copy_policy_spec = method_of (
    (calls (of_library "v2.ClusterManagedResourceSpec"), "ClusterManagedResourceSpec")
    ∷ (calls (own copy_policy_parameters), "ForProvider")
    ∷ (calls (own copy_policy_init_parameters), "InitProvider")
    ∷ [])

abbrev pub copy_destination_observation : Method
copy_destination_observation = method_of (
    (makes_pointers, "ClientMacs")
    ∷ (allocates, "IPGroupID")
    ∷ (makes_pointers, "Ips")
    ∷ (
      allocates,
      "MatchMac MatchOppositeIps MatchOppositeNetworks MatchOppositePorts MatchingTarget MatchingTargetType",
    )
    ∷ (makes_pointers, "NetworkIds")
    ∷ (allocates, "Port PortGroupID PortMatchingType")
    ∷ (makes_pointers, "Regions WebDomains")
    ∷ (allocates, "ZoneID")
    ∷ [])

abbrev pub copy_schedule_observation : Method
copy_schedule_observation = method_of (
    (allocates, "Date DateEnd DateStart Mode Normalize")
    ∷ (makes_pointers, "RepeatOnDays")
    ∷ (allocates, "TimeAllDay TimeRangeEnd TimeRangeStart")
    ∷ [])

abbrev pub copy_source_observation : Method
copy_source_observation = method_of (
    (makes_pointers, "ClientMacs")
    ∷ (allocates, "IPGroupID")
    ∷ (makes_pointers, "Ips")
    ∷ (
      allocates,
      "MatchMac MatchOppositeIps MatchOppositeNetworks MatchOppositePorts MatchingTarget MatchingTargetType",
    )
    ∷ (makes_pointers, "NetworkIds")
    ∷ (allocates, "Port PortGroupID PortMatchingType")
    ∷ (makes_pointers, "Regions WebDomains")
    ∷ (allocates, "ZoneID")
    ∷ [])

abbrev pub copy_policy_timeouts_observation : Method
copy_policy_timeouts_observation = method_of ((allocates, "Create Delete Read Update") ∷ [])

abbrev pub copy_policy_observation : Method
copy_policy_observation = method_of (
    (allocates, "Action ConnectionStateType")
    ∷ (makes_pointers, "ConnectionStates")
    ∷ (allocates, "CreateAllowRespond Description")
    ∷ (allocates_into (own copy_destination_observation), "Destination")
    ∷ (
      allocates,
      "Enabled ID IPVersion IcmpTypename IcmpV6Typename Index Logging MatchOppositeProtocol Name Protocol",
    )
    ∷ (allocates_into (own copy_schedule_observation), "Schedule")
    ∷ (allocates, "Site")
    ∷ (allocates_into (own copy_source_observation), "Source")
    ∷ (allocates_into (own copy_policy_timeouts_observation), "Timeouts")
    ∷ [])

abbrev pub copy_policy_status : Method
copy_policy_status = method_of (
    (calls (of_library "v2.ManagedResourceStatus"), "ManagedResourceStatus")
    ∷ (calls (own copy_policy_observation), "AtProvider")
    ∷ [])

abbrev pub copy_policy : Method
copy_policy = method_of (
    (assigns, "TypeMeta")
    ∷ (calls (of_library "metav1.ObjectMeta"), "ObjectMeta")
    ∷ (calls (own copy_policy_spec), "Spec")
    ∷ (calls (own copy_policy_status), "Status")
    ∷ [])

abbrev pub copy_policy_list : Method
copy_policy_list = method_of (
    (assigns, "TypeMeta")
    ∷ (calls (of_library "metav1.ListMeta"), "ListMeta")
    ∷ (makes_items (own copy_policy), "Items")
    ∷ [])
