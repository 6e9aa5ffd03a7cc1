-- ===== src/Copies/Firewall/PolicyTypes.antt =====
-- apis/cluster/firewall/v1alpha1/zz_policy_types.go: the structs below Policy, by their fields.
use provider_upjet_unifi.Base.{[], ◌∷◌}
use provider_upjet_unifi.Copies.{
  flat, pointer, slice, struct, library, optional, struct_of, FieldTypes,
}

abbrev pub destination_parameters : FieldTypes
destination_parameters = struct_of (
    (slice optional, "ClientMacs")
    ∷ (optional, "IPGroupID")
    ∷ (pointer (library "v2.Reference"), "IPGroupIDRef")
    ∷ (pointer (library "v2.Selector"), "IPGroupIDSelector")
    ∷ (slice optional, "Ips")
    ∷ (
      optional, "MatchMac MatchOppositeIps MatchOppositeNetworks MatchOppositePorts MatchingTarget",
    )
    ∷ (slice optional, "NetworkIds")
    ∷ (slice (library "v2.Reference"), "NetworkIdsRefs")
    ∷ (pointer (library "v2.Selector"), "NetworkIdsSelector")
    ∷ (optional, "Port PortGroupID")
    ∷ (pointer (library "v2.Reference"), "PortGroupIDRef")
    ∷ (pointer (library "v2.Selector"), "PortGroupIDSelector")
    ∷ (optional, "PortMatchingType")
    ∷ (slice optional, "Regions WebDomains")
    ∷ (optional, "ZoneID")
    ∷ (pointer (library "v2.Reference"), "ZoneIDRef")
    ∷ (pointer (library "v2.Selector"), "ZoneIDSelector")
    ∷ [])

abbrev pub schedule_parameters : FieldTypes
schedule_parameters = struct_of (
    (optional, "Date DateEnd DateStart Mode Normalize")
    ∷ (slice optional, "RepeatOnDays")
    ∷ (optional, "TimeAllDay TimeRangeEnd TimeRangeStart")
    ∷ [])

abbrev pub source_parameters : FieldTypes
source_parameters = struct_of (
    (slice optional, "ClientMacs")
    ∷ (optional, "IPGroupID")
    ∷ (pointer (library "v2.Reference"), "IPGroupIDRef")
    ∷ (pointer (library "v2.Selector"), "IPGroupIDSelector")
    ∷ (slice optional, "Ips")
    ∷ (
      optional, "MatchMac MatchOppositeIps MatchOppositeNetworks MatchOppositePorts MatchingTarget",
    )
    ∷ (slice optional, "NetworkIds")
    ∷ (slice (library "v2.Reference"), "NetworkIdsRefs")
    ∷ (pointer (library "v2.Selector"), "NetworkIdsSelector")
    ∷ (optional, "Port PortGroupID")
    ∷ (pointer (library "v2.Reference"), "PortGroupIDRef")
    ∷ (pointer (library "v2.Selector"), "PortGroupIDSelector")
    ∷ (optional, "PortMatchingType")
    ∷ (slice optional, "Regions WebDomains")
    ∷ (optional, "ZoneID")
    ∷ (pointer (library "v2.Reference"), "ZoneIDRef")
    ∷ (pointer (library "v2.Selector"), "ZoneIDSelector")
    ∷ [])

abbrev pub policy_timeouts_parameters : FieldTypes
policy_timeouts_parameters = struct_of ((optional, "Create Delete Read Update") ∷ [])

abbrev pub policy_parameters : FieldTypes
policy_parameters = struct_of (
    (optional, "Action ConnectionStateType")
    ∷ (slice optional, "ConnectionStates")
    ∷ (optional, "CreateAllowRespond Description")
    ∷ (pointer (struct destination_parameters), "Destination")
    ∷ (optional, "Enabled IPVersion Logging MatchOppositeProtocol Name Protocol")
    ∷ (pointer (struct schedule_parameters), "Schedule")
    ∷ (optional, "Site")
    ∷ (pointer (struct source_parameters), "Source")
    ∷ (pointer (struct policy_timeouts_parameters), "Timeouts")
    ∷ [])

abbrev pub destination_init_parameters : FieldTypes
destination_init_parameters = struct_of (
    (slice optional, "ClientMacs")
    ∷ (optional, "IPGroupID")
    ∷ (pointer (library "v2.Reference"), "IPGroupIDRef")
    ∷ (pointer (library "v2.Selector"), "IPGroupIDSelector")
    ∷ (slice optional, "Ips")
    ∷ (
      optional, "MatchMac MatchOppositeIps MatchOppositeNetworks MatchOppositePorts MatchingTarget",
    )
    ∷ (slice optional, "NetworkIds")
    ∷ (slice (library "v2.Reference"), "NetworkIdsRefs")
    ∷ (pointer (library "v2.Selector"), "NetworkIdsSelector")
    ∷ (optional, "Port PortGroupID")
    ∷ (pointer (library "v2.Reference"), "PortGroupIDRef")
    ∷ (pointer (library "v2.Selector"), "PortGroupIDSelector")
    ∷ (optional, "PortMatchingType")
    ∷ (slice optional, "Regions WebDomains")
    ∷ (optional, "ZoneID")
    ∷ (pointer (library "v2.Reference"), "ZoneIDRef")
    ∷ (pointer (library "v2.Selector"), "ZoneIDSelector")
    ∷ [])

abbrev pub schedule_init_parameters : FieldTypes
schedule_init_parameters = struct_of (
    (optional, "Date DateEnd DateStart Mode Normalize")
    ∷ (slice optional, "RepeatOnDays")
    ∷ (optional, "TimeAllDay TimeRangeEnd TimeRangeStart")
    ∷ [])

abbrev pub source_init_parameters : FieldTypes
source_init_parameters = struct_of (
    (slice optional, "ClientMacs")
    ∷ (optional, "IPGroupID")
    ∷ (pointer (library "v2.Reference"), "IPGroupIDRef")
    ∷ (pointer (library "v2.Selector"), "IPGroupIDSelector")
    ∷ (slice optional, "Ips")
    ∷ (
      optional, "MatchMac MatchOppositeIps MatchOppositeNetworks MatchOppositePorts MatchingTarget",
    )
    ∷ (slice optional, "NetworkIds")
    ∷ (slice (library "v2.Reference"), "NetworkIdsRefs")
    ∷ (pointer (library "v2.Selector"), "NetworkIdsSelector")
    ∷ (optional, "Port PortGroupID")
    ∷ (pointer (library "v2.Reference"), "PortGroupIDRef")
    ∷ (pointer (library "v2.Selector"), "PortGroupIDSelector")
    ∷ (optional, "PortMatchingType")
    ∷ (slice optional, "Regions WebDomains")
    ∷ (optional, "ZoneID")
    ∷ (pointer (library "v2.Reference"), "ZoneIDRef")
    ∷ (pointer (library "v2.Selector"), "ZoneIDSelector")
    ∷ [])

abbrev pub policy_timeouts_init_parameters : FieldTypes
policy_timeouts_init_parameters = struct_of ((optional, "Create Delete Read Update") ∷ [])

abbrev pub policy_init_parameters : FieldTypes
policy_init_parameters = struct_of (
    (optional, "Action ConnectionStateType")
    ∷ (slice optional, "ConnectionStates")
    ∷ (optional, "CreateAllowRespond Description")
    ∷ (pointer (struct destination_init_parameters), "Destination")
    ∷ (optional, "Enabled IPVersion Logging MatchOppositeProtocol Name Protocol")
    ∷ (pointer (struct schedule_init_parameters), "Schedule")
    ∷ (optional, "Site")
    ∷ (pointer (struct source_init_parameters), "Source")
    ∷ (pointer (struct policy_timeouts_init_parameters), "Timeouts")
    ∷ [])

abbrev pub policy_spec : FieldTypes
policy_spec = struct_of (
    (library "v2.ClusterManagedResourceSpec", "ClusterManagedResourceSpec")
    ∷ (struct policy_parameters, "ForProvider")
    ∷ (struct policy_init_parameters, "InitProvider")
    ∷ [])

abbrev pub destination_observation : FieldTypes
destination_observation = struct_of (
    (slice optional, "ClientMacs")
    ∷ (optional, "IPGroupID")
    ∷ (slice optional, "Ips")
    ∷ (
      optional,
      "MatchMac MatchOppositeIps MatchOppositeNetworks MatchOppositePorts MatchingTarget MatchingTargetType",
    )
    ∷ (slice optional, "NetworkIds")
    ∷ (optional, "Port PortGroupID PortMatchingType")
    ∷ (slice optional, "Regions WebDomains")
    ∷ (optional, "ZoneID")
    ∷ [])

abbrev pub schedule_observation : FieldTypes
schedule_observation = struct_of (
    (optional, "Date DateEnd DateStart Mode Normalize")
    ∷ (slice optional, "RepeatOnDays")
    ∷ (optional, "TimeAllDay TimeRangeEnd TimeRangeStart")
    ∷ [])

abbrev pub source_observation : FieldTypes
source_observation = struct_of (
    (slice optional, "ClientMacs")
    ∷ (optional, "IPGroupID")
    ∷ (slice optional, "Ips")
    ∷ (
      optional,
      "MatchMac MatchOppositeIps MatchOppositeNetworks MatchOppositePorts MatchingTarget MatchingTargetType",
    )
    ∷ (slice optional, "NetworkIds")
    ∷ (optional, "Port PortGroupID PortMatchingType")
    ∷ (slice optional, "Regions WebDomains")
    ∷ (optional, "ZoneID")
    ∷ [])

abbrev pub policy_timeouts_observation : FieldTypes
policy_timeouts_observation = struct_of ((optional, "Create Delete Read Update") ∷ [])

abbrev pub policy_observation : FieldTypes
policy_observation = struct_of (
    (optional, "Action ConnectionStateType")
    ∷ (slice optional, "ConnectionStates")
    ∷ (optional, "CreateAllowRespond Description")
    ∷ (pointer (struct destination_observation), "Destination")
    ∷ (
      optional,
      "Enabled ID IPVersion IcmpTypename IcmpV6Typename Index Logging MatchOppositeProtocol Name Protocol",
    )
    ∷ (pointer (struct schedule_observation), "Schedule")
    ∷ (optional, "Site")
    ∷ (pointer (struct source_observation), "Source")
    ∷ (pointer (struct policy_timeouts_observation), "Timeouts")
    ∷ [])

abbrev pub policy_status : FieldTypes
policy_status = struct_of (
    (library "v2.ManagedResourceStatus", "ManagedResourceStatus")
    ∷ (struct policy_observation, "AtProvider")
    ∷ [])

abbrev pub policy : FieldTypes
policy = struct_of (
    (flat, "TypeMeta")
    ∷ (library "metav1.ObjectMeta", "ObjectMeta")
    ∷ (struct policy_spec, "Spec")
    ∷ (struct policy_status, "Status")
    ∷ [])

abbrev pub policy_list : FieldTypes
policy_list = struct_of (
    (flat, "TypeMeta")
    ∷ (library "metav1.ListMeta", "ListMeta")
    ∷ (slice (struct policy), "Items")
    ∷ [])
