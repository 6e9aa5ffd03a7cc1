-- ===== src/Copies/Account/AccountMethods.antt =====
-- apis/cluster/account/v1alpha1/zz_generated.deepcopy.go: the DeepCopyInto methods below Account.
use provider_upjet_unifi.Base.{[], ◌∷◌}
use provider_upjet_unifi.Copies.{
  assigns, calls, allocates, allocates_into, makes_items, own, of_library, method_of, Method,
}

abbrev pub copy_timeouts_parameters : Method
copy_timeouts_parameters = method_of ((allocates, "Create Delete Read Update") ∷ [])

abbrev pub copy_account_parameters : Method
copy_account_parameters = method_of (
    (allocates, "Name NetworkID")
    ∷ (allocates_into (of_library "v2.Reference"), "NetworkIDRef")
    ∷ (allocates_into (of_library "v2.Selector"), "NetworkIDSelector")
    ∷ (assigns, "PasswordSecretRef")
    ∷ (allocates, "Site")
    ∷ (allocates_into (own copy_timeouts_parameters), "Timeouts")
    ∷ (allocates, "TunnelConfigType TunnelMediumType TunnelType Vlan")
    ∷ [])

abbrev pub copy_timeouts_init_parameters : Method
copy_timeouts_init_parameters = method_of ((allocates, "Create Delete Read Update") ∷ [])

abbrev pub copy_account_init_parameters : Method
copy_account_init_parameters = method_of (
    (allocates, "Name NetworkID")
    ∷ (allocates_into (of_library "v2.Reference"), "NetworkIDRef")
    ∷ (allocates_into (of_library "v2.Selector"), "NetworkIDSelector")
    ∷ (assigns, "PasswordSecretRef")
    ∷ (allocates, "Site")
    ∷ (allocates_into (own copy_timeouts_init_parameters), "Timeouts")
    ∷ (allocates, "TunnelConfigType TunnelMediumType TunnelType Vlan")
    ∷ [])

abbrev pub copy_account_spec : Method
copy_account_spec = method_of (
    (calls (of_library "v2.ClusterManagedResourceSpec"), "ClusterManagedResourceSpec")
    ∷ (calls (own copy_account_parameters), "ForProvider")
    ∷ (calls (own copy_account_init_parameters), "InitProvider")
    ∷ [])

abbrev pub copy_timeouts_observation : Method
copy_timeouts_observation = method_of ((allocates, "Create Delete Read Update") ∷ [])

abbrev pub copy_account_observation : Method
copy_account_observation = method_of (
    (allocates, "ID Name NetworkID Site")
    ∷ (allocates_into (own copy_timeouts_observation), "Timeouts")
    ∷ (allocates, "TunnelConfigType TunnelMediumType TunnelType Vlan")
    ∷ [])

abbrev pub copy_account_status : Method
copy_account_status = method_of (
    (calls (of_library "v2.ManagedResourceStatus"), "ManagedResourceStatus")
    ∷ (calls (own copy_account_observation), "AtProvider")
    ∷ [])

abbrev pub copy_account : Method
copy_account = method_of (
    (assigns, "TypeMeta")
    ∷ (calls (of_library "metav1.ObjectMeta"), "ObjectMeta")
    ∷ (calls (own copy_account_spec), "Spec")
    ∷ (calls (own copy_account_status), "Status")
    ∷ [])

abbrev pub copy_account_list : Method
copy_account_list = method_of (
    (assigns, "TypeMeta")
    ∷ (calls (of_library "metav1.ListMeta"), "ListMeta")
    ∷ (makes_items (own copy_account), "Items")
    ∷ [])
