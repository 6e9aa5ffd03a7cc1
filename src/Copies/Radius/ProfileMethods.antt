-- ===== src/Copies/Radius/ProfileMethods.antt =====
-- apis/cluster/radius/v1alpha1/zz_generated.deepcopy.go: the DeepCopyInto methods below Profile.
use provider_upjet_unifi.Base.{[], ◌∷◌}
use provider_upjet_unifi.Copies.{
  assigns, calls, allocates, allocates_into, makes_items, own, of_library, method_of, Method,
}

abbrev pub copy_acct_server_parameters : Method
copy_acct_server_parameters = method_of ((allocates, "IP Port") ∷ (assigns, "SecretSecretRef") ∷ [])

abbrev pub copy_auth_server_parameters : Method
copy_auth_server_parameters = method_of ((allocates, "IP Port") ∷ (assigns, "SecretSecretRef") ∷ [])

abbrev pub copy_timeouts_parameters : Method
copy_timeouts_parameters = method_of ((allocates, "Create Delete Read Update") ∷ [])

abbrev pub copy_profile_parameters : Method
copy_profile_parameters = method_of (
    (allocates, "AccountingEnabled")
    ∷ (makes_items (own copy_acct_server_parameters), "AcctServer")
    ∷ (makes_items (own copy_auth_server_parameters), "AuthServer")
    ∷ (allocates, "InterimUpdateEnabled InterimUpdateInterval Name Site")
    ∷ (allocates_into (own copy_timeouts_parameters), "Timeouts")
    ∷ (allocates, "UseUsgAcctServer UseUsgAuthServer VlanEnabled VlanWlanMode")
    ∷ [])

abbrev pub copy_acct_server_init_parameters : Method
copy_acct_server_init_parameters =
    method_of ((allocates, "IP Port") ∷ (assigns, "SecretSecretRef") ∷ [])

abbrev pub copy_auth_server_init_parameters : Method
copy_auth_server_init_parameters =
    method_of ((allocates, "IP Port") ∷ (assigns, "SecretSecretRef") ∷ [])

abbrev pub copy_timeouts_init_parameters : Method
copy_timeouts_init_parameters = method_of ((allocates, "Create Delete Read Update") ∷ [])

abbrev pub copy_profile_init_parameters : Method
copy_profile_init_parameters = method_of (
    (allocates, "AccountingEnabled")
    ∷ (makes_items (own copy_acct_server_init_parameters), "AcctServer")
    ∷ (makes_items (own copy_auth_server_init_parameters), "AuthServer")
    ∷ (allocates, "InterimUpdateEnabled InterimUpdateInterval Name Site")
    ∷ (allocates_into (own copy_timeouts_init_parameters), "Timeouts")
    ∷ (allocates, "UseUsgAcctServer UseUsgAuthServer VlanEnabled VlanWlanMode")
    ∷ [])

abbrev pub copy_profile_spec : Method
copy_profile_spec = method_of (
    (calls (of_library "v2.ClusterManagedResourceSpec"), "ClusterManagedResourceSpec")
    ∷ (calls (own copy_profile_parameters), "ForProvider")
    ∷ (calls (own copy_profile_init_parameters), "InitProvider")
    ∷ [])

abbrev pub copy_acct_server_observation : Method
copy_acct_server_observation = method_of ((allocates, "IP Port") ∷ [])

abbrev pub copy_auth_server_observation : Method
copy_auth_server_observation = method_of ((allocates, "IP Port") ∷ [])

abbrev pub copy_timeouts_observation : Method
copy_timeouts_observation = method_of ((allocates, "Create Delete Read Update") ∷ [])

abbrev pub copy_profile_observation : Method
copy_profile_observation = method_of (
    (allocates, "AccountingEnabled")
    ∷ (makes_items (own copy_acct_server_observation), "AcctServer")
    ∷ (makes_items (own copy_auth_server_observation), "AuthServer")
    ∷ (allocates, "ID InterimUpdateEnabled InterimUpdateInterval Name Site")
    ∷ (allocates_into (own copy_timeouts_observation), "Timeouts")
    ∷ (allocates, "UseUsgAcctServer UseUsgAuthServer VlanEnabled VlanWlanMode")
    ∷ [])

abbrev pub copy_profile_status : Method
copy_profile_status = method_of (
    (calls (of_library "v2.ManagedResourceStatus"), "ManagedResourceStatus")
    ∷ (calls (own copy_profile_observation), "AtProvider")
    ∷ [])

abbrev pub copy_profile : Method
copy_profile = method_of (
    (assigns, "TypeMeta")
    ∷ (calls (of_library "metav1.ObjectMeta"), "ObjectMeta")
    ∷ (calls (own copy_profile_spec), "Spec")
    ∷ (calls (own copy_profile_status), "Status")
    ∷ [])

abbrev pub copy_profile_list : Method
copy_profile_list = method_of (
    (assigns, "TypeMeta")
    ∷ (calls (of_library "metav1.ListMeta"), "ListMeta")
    ∷ (makes_items (own copy_profile), "Items")
    ∷ [])
