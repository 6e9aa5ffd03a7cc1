-- ===== src/Copies/Port/ForwardTypes.antt =====
-- apis/cluster/port/v1alpha1/zz_forward_types.go: the structs below Forward, by their fields.
use provider_upjet_unifi.Base.{[], ◌∷◌}
use provider_upjet_unifi.Copies.{
  flat, pointer, slice, struct, library, optional, struct_of, FieldTypes,
}

abbrev pub destination_ips_parameters : FieldTypes
destination_ips_parameters = struct_of ((optional, "DestinationIP Interface") ∷ [])

abbrev pub forward_forward_parameters : FieldTypes
forward_forward_parameters = struct_of ((optional, "IP Port") ∷ [])

abbrev pub source_limiting_parameters : FieldTypes
source_limiting_parameters = struct_of (
    (optional, "Enabled FirewallGroupID")
    ∷ (pointer (library "v2.Reference"), "FirewallGroupIDRef")
    ∷ (pointer (library "v2.Selector"), "FirewallGroupIDSelector")
    ∷ (optional, "IP Type")
    ∷ [])

abbrev pub timeouts_parameters : FieldTypes
timeouts_parameters = struct_of ((optional, "Create Delete Read Update") ∷ [])

abbrev pub wan_parameters : FieldTypes
wan_parameters = struct_of ((optional, "IPAddress Interface Port") ∷ [])

abbrev pub forward_parameters : FieldTypes
forward_parameters = struct_of (
    (slice (struct destination_ips_parameters), "DestinationIps")
    ∷ (optional, "Enabled")
    ∷ (pointer (struct forward_forward_parameters), "Forward")
    ∷ (optional, "Logging Name Protocol Site")
    ∷ (pointer (struct source_limiting_parameters), "SourceLimiting")
    ∷ (pointer (struct timeouts_parameters), "Timeouts")
    ∷ (pointer (struct wan_parameters), "Wan")
    ∷ [])

abbrev pub destination_ips_init_parameters : FieldTypes
destination_ips_init_parameters = struct_of ((optional, "DestinationIP Interface") ∷ [])

abbrev pub forward_forward_init_parameters : FieldTypes
forward_forward_init_parameters = struct_of ((optional, "IP Port") ∷ [])

abbrev pub source_limiting_init_parameters : FieldTypes
source_limiting_init_parameters = struct_of (
    (optional, "Enabled FirewallGroupID")
    ∷ (pointer (library "v2.Reference"), "FirewallGroupIDRef")
    ∷ (pointer (library "v2.Selector"), "FirewallGroupIDSelector")
    ∷ (optional, "IP Type")
    ∷ [])

abbrev pub timeouts_init_parameters : FieldTypes
timeouts_init_parameters = struct_of ((optional, "Create Delete Read Update") ∷ [])

abbrev pub wan_init_parameters : FieldTypes
wan_init_parameters = struct_of ((optional, "IPAddress Interface Port") ∷ [])

abbrev pub forward_init_parameters : FieldTypes
forward_init_parameters = struct_of (
    (slice (struct destination_ips_init_parameters), "DestinationIps")
    ∷ (optional, "Enabled")
    ∷ (pointer (struct forward_forward_init_parameters), "Forward")
    ∷ (optional, "Logging Name Protocol Site")
    ∷ (pointer (struct source_limiting_init_parameters), "SourceLimiting")
    ∷ (pointer (struct timeouts_init_parameters), "Timeouts")
    ∷ (pointer (struct wan_init_parameters), "Wan")
    ∷ [])

abbrev pub forward_spec : FieldTypes
forward_spec = struct_of (
    (library "v2.ClusterManagedResourceSpec", "ClusterManagedResourceSpec")
    ∷ (struct forward_parameters, "ForProvider")
    ∷ (struct forward_init_parameters, "InitProvider")
    ∷ [])

abbrev pub destination_ips_observation : FieldTypes
destination_ips_observation = struct_of ((optional, "DestinationIP Interface") ∷ [])

abbrev pub forward_forward_observation : FieldTypes
forward_forward_observation = struct_of ((optional, "IP Port") ∷ [])

abbrev pub source_limiting_observation : FieldTypes
source_limiting_observation = struct_of ((optional, "Enabled FirewallGroupID IP Type") ∷ [])

abbrev pub timeouts_observation : FieldTypes
timeouts_observation = struct_of ((optional, "Create Delete Read Update") ∷ [])

abbrev pub wan_observation : FieldTypes
wan_observation = struct_of ((optional, "IPAddress Interface Port") ∷ [])

abbrev pub forward_observation : FieldTypes
forward_observation = struct_of (
    (slice (struct destination_ips_observation), "DestinationIps")
    ∷ (optional, "Enabled")
    ∷ (pointer (struct forward_forward_observation), "Forward")
    ∷ (optional, "ID Logging Name Protocol Site")
    ∷ (pointer (struct source_limiting_observation), "SourceLimiting")
    ∷ (pointer (struct timeouts_observation), "Timeouts")
    ∷ (pointer (struct wan_observation), "Wan")
    ∷ [])

abbrev pub forward_status : FieldTypes
forward_status = struct_of (
    (library "v2.ManagedResourceStatus", "ManagedResourceStatus")
    ∷ (struct forward_observation, "AtProvider")
    ∷ [])

abbrev pub forward : FieldTypes
forward = struct_of (
    (flat, "TypeMeta")
    ∷ (library "metav1.ObjectMeta", "ObjectMeta")
    ∷ (struct forward_spec, "Spec")
    ∷ (struct forward_status, "Status")
    ∷ [])

abbrev pub forward_list : FieldTypes
forward_list = struct_of (
    (flat, "TypeMeta")
    ∷ (library "metav1.ListMeta", "ListMeta")
    ∷ (slice (struct forward), "Items")
    ∷ [])
