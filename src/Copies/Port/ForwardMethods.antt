-- ===== src/Copies/Port/ForwardMethods.antt =====
-- apis/cluster/port/v1alpha1/zz_generated.deepcopy.go: the DeepCopyInto methods below Forward.
use provider_upjet_unifi.Base.{[], ◌∷◌}
use provider_upjet_unifi.Copies.{
  assigns, calls, allocates, allocates_into, makes_items, own, of_library, method_of, Method,
}

abbrev pub copy_destination_ips_parameters : Method
copy_destination_ips_parameters = method_of ((allocates, "DestinationIP Interface") ∷ [])

abbrev pub copy_forward_forward_parameters : Method
copy_forward_forward_parameters = method_of ((allocates, "IP Port") ∷ [])

abbrev pub copy_source_limiting_parameters : Method
copy_source_limiting_parameters = method_of (
    (allocates, "Enabled FirewallGroupID")
    ∷ (allocates_into (of_library "v2.Reference"), "FirewallGroupIDRef")
    ∷ (allocates_into (of_library "v2.Selector"), "FirewallGroupIDSelector")
    ∷ (allocates, "IP Type")
    ∷ [])

abbrev pub copy_timeouts_parameters : Method
copy_timeouts_parameters = method_of ((allocates, "Create Delete Read Update") ∷ [])

abbrev pub copy_wan_parameters : Method
copy_wan_parameters = method_of ((allocates, "IPAddress Interface Port") ∷ [])

abbrev pub copy_forward_parameters : Method
copy_forward_parameters = method_of (
    (makes_items (own copy_destination_ips_parameters), "DestinationIps")
    ∷ (allocates, "Enabled")
    ∷ (allocates_into (own copy_forward_forward_parameters), "Forward")
    ∷ (allocates, "Logging Name Protocol Site")
    ∷ (allocates_into (own copy_source_limiting_parameters), "SourceLimiting")
    ∷ (allocates_into (own copy_timeouts_parameters), "Timeouts")
    ∷ (allocates_into (own copy_wan_parameters), "Wan")
    ∷ [])

abbrev pub copy_destination_ips_init_parameters : Method
copy_destination_ips_init_parameters = method_of ((allocates, "DestinationIP Interface") ∷ [])

abbrev pub copy_forward_forward_init_parameters : Method
copy_forward_forward_init_parameters = method_of ((allocates, "IP Port") ∷ [])

abbrev pub copy_source_limiting_init_parameters : Method
copy_source_limiting_init_parameters = method_of (
    (allocates, "Enabled FirewallGroupID")
    ∷ (allocates_into (of_library "v2.Reference"), "FirewallGroupIDRef")
    ∷ (allocates_into (of_library "v2.Selector"), "FirewallGroupIDSelector")
    ∷ (allocates, "IP Type")
    ∷ [])

abbrev pub copy_timeouts_init_parameters : Method
copy_timeouts_init_parameters = method_of ((allocates, "Create Delete Read Update") ∷ [])

abbrev pub copy_wan_init_parameters : Method
copy_wan_init_parameters = method_of ((allocates, "IPAddress Interface Port") ∷ [])

abbrev pub copy_forward_init_parameters : Method
copy_forward_init_parameters = method_of (
    (makes_items (own copy_destination_ips_init_parameters), "DestinationIps")
    ∷ (allocates, "Enabled")
    ∷ (allocates_into (own copy_forward_forward_init_parameters), "Forward")
    ∷ (allocates, "Logging Name Protocol Site")
    ∷ (allocates_into (own copy_source_limiting_init_parameters), "SourceLimiting")
    ∷ (allocates_into (own copy_timeouts_init_parameters), "Timeouts")
    ∷ (allocates_into (own copy_wan_init_parameters), "Wan")
    ∷ [])

abbrev pub copy_forward_spec : Method
copy_forward_spec = method_of (
    (calls (of_library "v2.ClusterManagedResourceSpec"), "ClusterManagedResourceSpec")
    ∷ (calls (own copy_forward_parameters), "ForProvider")
    ∷ (calls (own copy_forward_init_parameters), "InitProvider")
    ∷ [])

abbrev pub copy_destination_ips_observation : Method
copy_destination_ips_observation = method_of ((allocates, "DestinationIP Interface") ∷ [])

abbrev pub copy_forward_forward_observation : Method
copy_forward_forward_observation = method_of ((allocates, "IP Port") ∷ [])

abbrev pub copy_source_limiting_observation : Method
copy_source_limiting_observation = method_of ((allocates, "Enabled FirewallGroupID IP Type") ∷ [])

abbrev pub copy_timeouts_observation : Method
copy_timeouts_observation = method_of ((allocates, "Create Delete Read Update") ∷ [])

abbrev pub copy_wan_observation : Method
copy_wan_observation = method_of ((allocates, "IPAddress Interface Port") ∷ [])

abbrev pub copy_forward_observation : Method
copy_forward_observation = method_of (
    (makes_items (own copy_destination_ips_observation), "DestinationIps")
    ∷ (allocates, "Enabled")
    ∷ (allocates_into (own copy_forward_forward_observation), "Forward")
    ∷ (allocates, "ID Logging Name Protocol Site")
    ∷ (allocates_into (own copy_source_limiting_observation), "SourceLimiting")
    ∷ (allocates_into (own copy_timeouts_observation), "Timeouts")
    ∷ (allocates_into (own copy_wan_observation), "Wan")
    ∷ [])

abbrev pub copy_forward_status : Method
copy_forward_status = method_of (
    (calls (of_library "v2.ManagedResourceStatus"), "ManagedResourceStatus")
    ∷ (calls (own copy_forward_observation), "AtProvider")
    ∷ [])

abbrev pub copy_forward : Method
copy_forward = method_of (
    (assigns, "TypeMeta")
    ∷ (calls (of_library "metav1.ObjectMeta"), "ObjectMeta")
    ∷ (calls (own copy_forward_spec), "Spec")
    ∷ (calls (own copy_forward_status), "Status")
    ∷ [])

abbrev pub copy_forward_list : Method
copy_forward_list = method_of (
    (assigns, "TypeMeta")
    ∷ (calls (of_library "metav1.ListMeta"), "ListMeta")
    ∷ (makes_items (own copy_forward), "Items")
    ∷ [])
