-- ===== src/Copies/Firewall/RuleMethods.antt =====
-- apis/cluster/firewall/v1alpha1/zz_generated.deepcopy.go: the DeepCopyInto methods below Rule.
use provider_upjet_unifi.Base.{[], ◌∷◌}
use provider_upjet_unifi.Copies.{
  assigns, calls, allocates, allocates_into, makes_pointers, makes_items, own, of_library,
  method_of, Method,
}

abbrev pub copy_rule_timeouts_parameters : Method
copy_rule_timeouts_parameters = method_of ((allocates, "Create Delete Read Update") ∷ [])

abbrev pub copy_rule_parameters : Method
copy_rule_parameters = method_of (
    (allocates, "Action DstAddress DstAddressIPv6")
    ∷ (makes_pointers, "DstFirewallGroupIds")
    ∷ (makes_items (of_library "v2.Reference"), "DstFirewallGroupIdsRefs")
    ∷ (allocates_into (of_library "v2.Selector"), "DstFirewallGroupIdsSelector")
    ∷ (allocates, "DstNetworkID")
    ∷ (allocates_into (of_library "v2.Reference"), "DstNetworkIDRef")
    ∷ (allocates_into (of_library "v2.Selector"), "DstNetworkIDSelector")
    ∷ (
      allocates,
      "DstNetworkType DstPort Enabled IPSec IcmpTypename IcmpV6Typename Logging Name Protocol ProtocolMatchExcepted ProtocolV6 RuleIndex Ruleset SettingPreference Site SrcAddress SrcAddressIPv6",
    )
    ∷ (makes_pointers, "SrcFirewallGroupIds")
    ∷ (makes_items (of_library "v2.Reference"), "SrcFirewallGroupIdsRefs")
    ∷ (allocates_into (of_library "v2.Selector"), "SrcFirewallGroupIdsSelector")
    ∷ (allocates, "SrcMac SrcNetworkID")
    ∷ (allocates_into (of_library "v2.Reference"), "SrcNetworkIDRef")
    ∷ (allocates_into (of_library "v2.Selector"), "SrcNetworkIDSelector")
    ∷ (allocates, "SrcNetworkType SrcPort StateEstablished StateInvalid StateNew StateRelated")
    ∷ (allocates_into (own copy_rule_timeouts_parameters), "Timeouts")
    ∷ [])

abbrev pub copy_rule_timeouts_init_parameters : Method
copy_rule_timeouts_init_parameters = method_of ((allocates, "Create Delete Read Update") ∷ [])

abbrev pub copy_rule_init_parameters : Method
copy_rule_init_parameters = method_of (
    (allocates, "Action DstAddress DstAddressIPv6")
    ∷ (makes_pointers, "DstFirewallGroupIds")
    ∷ (makes_items (of_library "v2.Reference"), "DstFirewallGroupIdsRefs")
    ∷ (allocates_into (of_library "v2.Selector"), "DstFirewallGroupIdsSelector")
    ∷ (allocates, "DstNetworkID")
    ∷ (allocates_into (of_library "v2.Reference"), "DstNetworkIDRef")
    ∷ (allocates_into (of_library "v2.Selector"), "DstNetworkIDSelector")
    ∷ (
      allocates,
      "DstNetworkType DstPort Enabled IPSec IcmpTypename IcmpV6Typename Logging Name Protocol ProtocolMatchExcepted ProtocolV6 RuleIndex Ruleset SettingPreference Site SrcAddress SrcAddressIPv6",
    )
    ∷ (makes_pointers, "SrcFirewallGroupIds")
    ∷ (makes_items (of_library "v2.Reference"), "SrcFirewallGroupIdsRefs")
    ∷ (allocates_into (of_library "v2.Selector"), "SrcFirewallGroupIdsSelector")
    ∷ (allocates, "SrcMac SrcNetworkID")
    ∷ (allocates_into (of_library "v2.Reference"), "SrcNetworkIDRef")
    ∷ (allocates_into (of_library "v2.Selector"), "SrcNetworkIDSelector")
    ∷ (allocates, "SrcNetworkType SrcPort StateEstablished StateInvalid StateNew StateRelated")
    ∷ (allocates_into (own copy_rule_timeouts_init_parameters), "Timeouts")
    ∷ [])

abbrev pub copy_rule_spec : Method
copy_rule_spec = method_of (
    (calls (of_library "v2.ClusterManagedResourceSpec"), "ClusterManagedResourceSpec")
    ∷ (calls (own copy_rule_parameters), "ForProvider")
    ∷ (calls (own copy_rule_init_parameters), "InitProvider")
    ∷ [])

abbrev pub copy_rule_timeouts_observation : Method
copy_rule_timeouts_observation = method_of ((allocates, "Create Delete Read Update") ∷ [])

abbrev pub copy_rule_observation : Method
copy_rule_observation = method_of (
    (allocates, "Action DstAddress DstAddressIPv6")
    ∷ (makes_pointers, "DstFirewallGroupIds")
    ∷ (
      allocates,
      "DstNetworkID DstNetworkType DstPort Enabled ID IPSec IcmpTypename IcmpV6Typename Logging Name Protocol ProtocolMatchExcepted ProtocolV6 RuleIndex Ruleset SettingPreference Site SrcAddress SrcAddressIPv6",
    )
    ∷ (makes_pointers, "SrcFirewallGroupIds")
    ∷ (
      allocates,
      "SrcMac SrcNetworkID SrcNetworkType SrcPort StateEstablished StateInvalid StateNew StateRelated",
    )
    ∷ (allocates_into (own copy_rule_timeouts_observation), "Timeouts")
    ∷ [])

abbrev pub copy_rule_status : Method
copy_rule_status = method_of (
    (calls (of_library "v2.ManagedResourceStatus"), "ManagedResourceStatus")
    ∷ (calls (own copy_rule_observation), "AtProvider")
    ∷ [])

abbrev pub copy_rule_object : Method
copy_rule_object = method_of (
    (assigns, "TypeMeta")
    ∷ (calls (of_library "metav1.ObjectMeta"), "ObjectMeta")
    ∷ (calls (own copy_rule_spec), "Spec")
    ∷ (calls (own copy_rule_status), "Status")
    ∷ [])

abbrev pub copy_rule_list : Method
copy_rule_list = method_of (
    (assigns, "TypeMeta")
    ∷ (calls (of_library "metav1.ListMeta"), "ListMeta")
    ∷ (makes_items (own copy_rule_object), "Items")
    ∷ [])
