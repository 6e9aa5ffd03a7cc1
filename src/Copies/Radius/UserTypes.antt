-- ===== src/Copies/Radius/UserTypes.antt =====
-- apis/cluster/radius/v1alpha1/zz_user_types.go: the structs below User, by their fields.
use provider_upjet_unifi.Base.{[], ◌∷◌}
use provider_upjet_unifi.Copies.{
  flat, pointer, slice, struct, library, optional, struct_of, FieldTypes,
}

abbrev pub user_timeouts_parameters : FieldTypes
user_timeouts_parameters = struct_of ((optional, "Create Delete Read Update") ∷ [])

abbrev pub user_parameters : FieldTypes
user_parameters = struct_of (
    (optional, "Name NetworkID")
    ∷ (pointer (library "v2.Reference"), "NetworkIDRef")
    ∷ (pointer (library "v2.Selector"), "NetworkIDSelector")
    ∷ (flat, "PasswordSecretRef")
    ∷ (optional, "Site")
    ∷ (pointer (struct user_timeouts_parameters), "Timeouts")
    ∷ (optional, "TunnelConfigType TunnelMediumType TunnelType Vlan")
    ∷ [])

abbrev pub user_timeouts_init_parameters : FieldTypes
user_timeouts_init_parameters = struct_of ((optional, "Create Delete Read Update") ∷ [])

abbrev pub user_init_parameters : FieldTypes
user_init_parameters = struct_of (
    (optional, "Name NetworkID")
    ∷ (pointer (library "v2.Reference"), "NetworkIDRef")
    ∷ (pointer (library "v2.Selector"), "NetworkIDSelector")
    ∷ (flat, "PasswordSecretRef")
    ∷ (optional, "Site")
    ∷ (pointer (struct user_timeouts_init_parameters), "Timeouts")
    ∷ (optional, "TunnelConfigType TunnelMediumType TunnelType Vlan")
    ∷ [])

abbrev pub user_spec : FieldTypes
user_spec = struct_of (
    (library "v2.ClusterManagedResourceSpec", "ClusterManagedResourceSpec")
    ∷ (struct user_parameters, "ForProvider")
    ∷ (struct user_init_parameters, "InitProvider")
    ∷ [])

abbrev pub user_timeouts_observation : FieldTypes
user_timeouts_observation = struct_of ((optional, "Create Delete Read Update") ∷ [])

abbrev pub user_observation : FieldTypes
user_observation = struct_of (
    (optional, "ID Name NetworkID Site")
    ∷ (pointer (struct user_timeouts_observation), "Timeouts")
    ∷ (optional, "TunnelConfigType TunnelMediumType TunnelType Vlan")
    ∷ [])

abbrev pub user_status : FieldTypes
user_status = struct_of (
    (library "v2.ManagedResourceStatus", "ManagedResourceStatus")
    ∷ (struct user_observation, "AtProvider")
    ∷ [])

abbrev pub user : FieldTypes
user = struct_of (
    (flat, "TypeMeta")
    ∷ (library "metav1.ObjectMeta", "ObjectMeta")
    ∷ (struct user_spec, "Spec")
    ∷ (struct user_status, "Status")
    ∷ [])

abbrev pub user_list : FieldTypes
user_list = struct_of (
    (flat, "TypeMeta")
    ∷ (library "metav1.ListMeta", "ListMeta")
    ∷ (slice (struct user), "Items")
    ∷ [])
