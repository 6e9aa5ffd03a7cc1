-- ===== src/Copies/Firewall/RuleTypes.antt =====
-- apis/cluster/firewall/v1alpha1/zz_rule_types.go: the structs below Rule, by their fields.
use provider_upjet_unifi.Base.{[], ◌∷◌}
use provider_upjet_unifi.Copies.{
  flat, pointer, slice, struct, library, optional, struct_of, FieldTypes,
}

abbrev pub rule_timeouts_parameters : FieldTypes
rule_timeouts_parameters = struct_of ((optional, "Create Delete Read Update") ∷ [])

abbrev pub rule_parameters : FieldTypes
rule_parameters = struct_of (
    (optional, "Action DstAddress DstAddressIPv6")
    ∷ (slice optional, "DstFirewallGroupIds")
    ∷ (slice (library "v2.Reference"), "DstFirewallGroupIdsRefs")
    ∷ (pointer (library "v2.Selector"), "DstFirewallGroupIdsSelector")
    ∷ (optional, "DstNetworkID")
    ∷ (pointer (library "v2.Reference"), "DstNetworkIDRef")
    ∷ (pointer (library "v2.Selector"), "DstNetworkIDSelector")
    ∷ (
      optional,
      "DstNetworkType DstPort Enabled IPSec IcmpTypename IcmpV6Typename Logging Name Protocol ProtocolMatchExcepted ProtocolV6 RuleIndex Ruleset SettingPreference Site SrcAddress SrcAddressIPv6",
    )
    ∷ (slice optional, "SrcFirewallGroupIds")
    ∷ (slice (library "v2.Reference"), "SrcFirewallGroupIdsRefs")
    ∷ (pointer (library "v2.Selector"), "SrcFirewallGroupIdsSelector")
    ∷ (optional, "SrcMac SrcNetworkID")
    ∷ (pointer (library "v2.Reference"), "SrcNetworkIDRef")
    ∷ (pointer (library "v2.Selector"), "SrcNetworkIDSelector")
    ∷ (optional, "SrcNetworkType SrcPort StateEstablished StateInvalid StateNew StateRelated")
    ∷ (pointer (struct rule_timeouts_parameters), "Timeouts")
    ∷ [])

abbrev pub rule_timeouts_init_parameters : FieldTypes
rule_timeouts_init_parameters = struct_of ((optional, "Create Delete Read Update") ∷ [])

abbrev pub rule_init_parameters : FieldTypes
rule_init_parameters = struct_of (
    (optional, "Action DstAddress DstAddressIPv6")
    ∷ (slice optional, "DstFirewallGroupIds")
    ∷ (slice (library "v2.Reference"), "DstFirewallGroupIdsRefs")
    ∷ (pointer (library "v2.Selector"), "DstFirewallGroupIdsSelector")
    ∷ (optional, "DstNetworkID")
    ∷ (pointer (library "v2.Reference"), "DstNetworkIDRef")
    ∷ (pointer (library "v2.Selector"), "DstNetworkIDSelector")
    ∷ (
      optional,
      "DstNetworkType DstPort Enabled IPSec IcmpTypename IcmpV6Typename Logging Name Protocol ProtocolMatchExcepted ProtocolV6 RuleIndex Ruleset SettingPreference Site SrcAddress SrcAddressIPv6",
    )
    ∷ (slice optional, "SrcFirewallGroupIds")
    ∷ (slice (library "v2.Reference"), "SrcFirewallGroupIdsRefs")
    ∷ (pointer (library "v2.Selector"), "SrcFirewallGroupIdsSelector")
    ∷ (optional, "SrcMac SrcNetworkID")
    ∷ (pointer (library "v2.Reference"), "SrcNetworkIDRef")
    ∷ (pointer (library "v2.Selector"), "SrcNetworkIDSelector")
    ∷ (optional, "SrcNetworkType SrcPort StateEstablished StateInvalid StateNew StateRelated")
    ∷ (pointer (struct rule_timeouts_init_parameters), "Timeouts")
    ∷ [])

abbrev pub rule_spec : FieldTypes
rule_spec = struct_of (
    (library "v2.ClusterManagedResourceSpec", "ClusterManagedResourceSpec")
    ∷ (struct rule_parameters, "ForProvider")
    ∷ (struct rule_init_parameters, "InitProvider")
    ∷ [])

abbrev pub rule_timeouts_observation : FieldTypes
rule_timeouts_observation = struct_of ((optional, "Create Delete Read Update") ∷ [])

abbrev pub rule_observation : FieldTypes
rule_observation = struct_of (
    (optional, "Action DstAddress DstAddressIPv6")
    ∷ (slice optional, "DstFirewallGroupIds")
    ∷ (
      optional,
      "DstNetworkID DstNetworkType DstPort Enabled ID IPSec IcmpTypename IcmpV6Typename Logging Name Protocol ProtocolMatchExcepted ProtocolV6 RuleIndex Ruleset SettingPreference Site SrcAddress SrcAddressIPv6",
    )
    ∷ (slice optional, "SrcFirewallGroupIds")
    ∷ (
      optional,
      "SrcMac SrcNetworkID SrcNetworkType SrcPort StateEstablished StateInvalid StateNew StateRelated",
    )
    ∷ (pointer (struct rule_timeouts_observation), "Timeouts")
    ∷ [])

abbrev pub rule_status : FieldTypes
rule_status = struct_of (
    (library "v2.ManagedResourceStatus", "ManagedResourceStatus")
    ∷ (struct rule_observation, "AtProvider")
    ∷ [])

abbrev pub rule_object : FieldTypes
rule_object = struct_of (
    (flat, "TypeMeta")
    ∷ (library "metav1.ObjectMeta", "ObjectMeta")
    ∷ (struct rule_spec, "Spec")
    ∷ (struct rule_status, "Status")
    ∷ [])

abbrev pub rule_list : FieldTypes
rule_list = struct_of (
    (flat, "TypeMeta")
    ∷ (library "metav1.ListMeta", "ListMeta")
    ∷ (slice (struct rule_object), "Items")
    ∷ [])
