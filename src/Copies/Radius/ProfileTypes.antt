-- ===== src/Copies/Radius/ProfileTypes.antt =====
-- apis/cluster/radius/v1alpha1/zz_profile_types.go: the structs below Profile, by their fields.
use provider_upjet_unifi.Base.{[], ◌∷◌}
use provider_upjet_unifi.Copies.{
  flat, pointer, slice, struct, library, optional, struct_of, FieldTypes,
}

abbrev pub acct_server_parameters : FieldTypes
acct_server_parameters = struct_of ((optional, "IP Port") ∷ (flat, "SecretSecretRef") ∷ [])

abbrev pub auth_server_parameters : FieldTypes
auth_server_parameters = struct_of ((optional, "IP Port") ∷ (flat, "SecretSecretRef") ∷ [])

abbrev pub timeouts_parameters : FieldTypes
timeouts_parameters = struct_of ((optional, "Create Delete Read Update") ∷ [])

abbrev pub profile_parameters : FieldTypes
profile_parameters = struct_of (
    (optional, "AccountingEnabled")
    ∷ (slice (struct acct_server_parameters), "AcctServer")
    ∷ (slice (struct auth_server_parameters), "AuthServer")
    ∷ (optional, "InterimUpdateEnabled InterimUpdateInterval Name Site")
    ∷ (pointer (struct timeouts_parameters), "Timeouts")
    ∷ (optional, "UseUsgAcctServer UseUsgAuthServer VlanEnabled VlanWlanMode")
    ∷ [])

abbrev pub acct_server_init_parameters : FieldTypes
acct_server_init_parameters = struct_of ((optional, "IP Port") ∷ (flat, "SecretSecretRef") ∷ [])

abbrev pub auth_server_init_parameters : FieldTypes
auth_server_init_parameters = struct_of ((optional, "IP Port") ∷ (flat, "SecretSecretRef") ∷ [])

abbrev pub timeouts_init_parameters : FieldTypes
timeouts_init_parameters = struct_of ((optional, "Create Delete Read Update") ∷ [])

abbrev pub profile_init_parameters : FieldTypes
profile_init_parameters = struct_of (
    (optional, "AccountingEnabled")
    ∷ (slice (struct acct_server_init_parameters), "AcctServer")
    ∷ (slice (struct auth_server_init_parameters), "AuthServer")
    ∷ (optional, "InterimUpdateEnabled InterimUpdateInterval Name Site")
    ∷ (pointer (struct timeouts_init_parameters), "Timeouts")
    ∷ (optional, "UseUsgAcctServer UseUsgAuthServer VlanEnabled VlanWlanMode")
    ∷ [])

abbrev pub profile_spec : FieldTypes
profile_spec = struct_of (
    (library "v2.ClusterManagedResourceSpec", "ClusterManagedResourceSpec")
    ∷ (struct profile_parameters, "ForProvider")
    ∷ (struct profile_init_parameters, "InitProvider")
    ∷ [])

abbrev pub acct_server_observation : FieldTypes
acct_server_observation = struct_of ((optional, "IP Port") ∷ [])

abbrev pub auth_server_observation : FieldTypes
auth_server_observation = struct_of ((optional, "IP Port") ∷ [])

abbrev pub timeouts_observation : FieldTypes
timeouts_observation = struct_of ((optional, "Create Delete Read Update") ∷ [])

abbrev pub profile_observation : FieldTypes
profile_observation = struct_of (
    (optional, "AccountingEnabled")
    ∷ (slice (struct acct_server_observation), "AcctServer")
    ∷ (slice (struct auth_server_observation), "AuthServer")
    ∷ (optional, "ID InterimUpdateEnabled InterimUpdateInterval Name Site")
    ∷ (pointer (struct timeouts_observation), "Timeouts")
    ∷ (optional, "UseUsgAcctServer UseUsgAuthServer VlanEnabled VlanWlanMode")
    ∷ [])

abbrev pub profile_status : FieldTypes
profile_status = struct_of (
    (library "v2.ManagedResourceStatus", "ManagedResourceStatus")
    ∷ (struct profile_observation, "AtProvider")
    ∷ [])

abbrev pub profile : FieldTypes
profile = struct_of (
    (flat, "TypeMeta")
    ∷ (library "metav1.ObjectMeta", "ObjectMeta")
    ∷ (struct profile_spec, "Spec")
    ∷ (struct profile_status, "Status")
    ∷ [])

abbrev pub profile_list : FieldTypes
profile_list = struct_of (
    (flat, "TypeMeta")
    ∷ (library "metav1.ListMeta", "ListMeta")
    ∷ (slice (struct profile), "Items")
    ∷ [])
