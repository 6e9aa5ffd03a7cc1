-- ===== src/Copies/Account/AccountTypes.antt =====
-- apis/cluster/account/v1alpha1/zz_account_types.go: the structs below Account, by their fields.
use provider_upjet_unifi.Base.{[], ◌∷◌}
use provider_upjet_unifi.Copies.{
  flat, pointer, slice, struct, library, optional, struct_of, FieldTypes,
}

abbrev pub timeouts_parameters : FieldTypes
timeouts_parameters = struct_of ((optional, "Create Delete Read Update") ∷ [])

abbrev pub account_parameters : FieldTypes
account_parameters = struct_of (
    (optional, "Name NetworkID")
    ∷ (pointer (library "v2.Reference"), "NetworkIDRef")
    ∷ (pointer (library "v2.Selector"), "NetworkIDSelector")
    ∷ (flat, "PasswordSecretRef")
    ∷ (optional, "Site")
    ∷ (pointer (struct timeouts_parameters), "Timeouts")
    ∷ (optional, "TunnelConfigType TunnelMediumType TunnelType Vlan")
    ∷ [])

abbrev pub timeouts_init_parameters : FieldTypes
timeouts_init_parameters = struct_of ((optional, "Create Delete Read Update") ∷ [])

abbrev pub account_init_parameters : FieldTypes
account_init_parameters = struct_of (
    (optional, "Name NetworkID")
    ∷ (pointer (library "v2.Reference"), "NetworkIDRef")
    ∷ (pointer (library "v2.Selector"), "NetworkIDSelector")
    ∷ (flat, "PasswordSecretRef")
    ∷ (optional, "Site")
    ∷ (pointer (struct timeouts_init_parameters), "Timeouts")
    ∷ (optional, "TunnelConfigType TunnelMediumType TunnelType Vlan")
    ∷ [])

abbrev pub account_spec : FieldTypes
account_spec = struct_of (
    (library "v2.ClusterManagedResourceSpec", "ClusterManagedResourceSpec")
    ∷ (struct account_parameters, "ForProvider")
    ∷ (struct account_init_parameters, "InitProvider")
    ∷ [])

abbrev pub timeouts_observation : FieldTypes
timeouts_observation = struct_of ((optional, "Create Delete Read Update") ∷ [])

abbrev pub account_observation : FieldTypes
account_observation = struct_of (
    (optional, "ID Name NetworkID Site")
    ∷ (pointer (struct timeouts_observation), "Timeouts")
    ∷ (optional, "TunnelConfigType TunnelMediumType TunnelType Vlan")
    ∷ [])

abbrev pub account_status : FieldTypes
account_status = struct_of (
    (library "v2.ManagedResourceStatus", "ManagedResourceStatus")
    ∷ (struct account_observation, "AtProvider")
    ∷ [])

abbrev pub account : FieldTypes
account = struct_of (
    (flat, "TypeMeta")
    ∷ (library "metav1.ObjectMeta", "ObjectMeta")
    ∷ (struct account_spec, "Spec")
    ∷ (struct account_status, "Status")
    ∷ [])

abbrev pub account_list : FieldTypes
account_list = struct_of (
    (flat, "TypeMeta")
    ∷ (library "metav1.ListMeta", "ListMeta")
    ∷ (slice (struct account), "Items")
    ∷ [])
