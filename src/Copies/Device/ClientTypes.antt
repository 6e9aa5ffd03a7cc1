-- ===== src/Copies/Device/ClientTypes.antt =====
-- apis/cluster/device/v1alpha1/zz_client_types.go: the structs below Client, by their fields.
use provider_upjet_unifi.Base.{[], ◌∷◌}
use provider_upjet_unifi.Copies.{
  flat, pointer, slice, struct, library, optional, struct_of, FieldTypes,
}

abbrev pub qos_rate_parameters : FieldTypes
qos_rate_parameters = struct_of ((optional, "ID MaxDown MaxUp Name") ∷ [])

abbrev pub timeouts_parameters : FieldTypes
timeouts_parameters = struct_of ((optional, "Create Delete Read Update") ∷ [])

abbrev pub client_parameters : FieldTypes
client_parameters = struct_of (
    (optional, "AllowExisting Blocked DisplayName FixedApMac FixedIP")
    ∷ (slice optional, "Groups")
    ∷ (optional, "LocalDNSRecord Mac Name NetworkID")
    ∷ (pointer (library "v2.Reference"), "NetworkIDRef")
    ∷ (pointer (library "v2.Selector"), "NetworkIDSelector")
    ∷ (optional, "Note")
    ∷ (pointer (struct qos_rate_parameters), "QosRate")
    ∷ (optional, "Site SkipForgetOnDestroy")
    ∷ (pointer (struct timeouts_parameters), "Timeouts")
    ∷ [])

abbrev pub qos_rate_init_parameters : FieldTypes
qos_rate_init_parameters = struct_of ((optional, "ID MaxDown MaxUp Name") ∷ [])

abbrev pub timeouts_init_parameters : FieldTypes
timeouts_init_parameters = struct_of ((optional, "Create Delete Read Update") ∷ [])

abbrev pub client_init_parameters : FieldTypes
client_init_parameters = struct_of (
    (optional, "AllowExisting Blocked DisplayName FixedApMac FixedIP")
    ∷ (slice optional, "Groups")
    ∷ (optional, "LocalDNSRecord Mac Name NetworkID")
    ∷ (pointer (library "v2.Reference"), "NetworkIDRef")
    ∷ (pointer (library "v2.Selector"), "NetworkIDSelector")
    ∷ (optional, "Note")
    ∷ (pointer (struct qos_rate_init_parameters), "QosRate")
    ∷ (optional, "Site SkipForgetOnDestroy")
    ∷ (pointer (struct timeouts_init_parameters), "Timeouts")
    ∷ [])

abbrev pub client_spec : FieldTypes
client_spec = struct_of (
    (library "v2.ClusterManagedResourceSpec", "ClusterManagedResourceSpec")
    ∷ (struct client_parameters, "ForProvider")
    ∷ (struct client_init_parameters, "InitProvider")
    ∷ [])

abbrev pub qos_rate_observation : FieldTypes
qos_rate_observation = struct_of ((optional, "ID MaxDown MaxUp Name") ∷ [])

abbrev pub timeouts_observation : FieldTypes
timeouts_observation = struct_of ((optional, "Create Delete Read Update") ∷ [])

abbrev pub client_observation : FieldTypes
client_observation = struct_of (
    (optional, "AllowExisting Blocked DisplayName FixedApMac FixedIP")
    ∷ (slice optional, "Groups")
    ∷ (optional, "Hostname ID LastIP LocalDNSRecord Mac Name NetworkID Note")
    ∷ (pointer (struct qos_rate_observation), "QosRate")
    ∷ (optional, "Site SkipForgetOnDestroy")
    ∷ (pointer (struct timeouts_observation), "Timeouts")
    ∷ [])

abbrev pub client_status : FieldTypes
client_status = struct_of (
    (library "v2.ManagedResourceStatus", "ManagedResourceStatus")
    ∷ (struct client_observation, "AtProvider")
    ∷ [])

abbrev pub client : FieldTypes
client = struct_of (
    (flat, "TypeMeta")
    ∷ (library "metav1.ObjectMeta", "ObjectMeta")
    ∷ (struct client_spec, "Spec")
    ∷ (struct client_status, "Status")
    ∷ [])

abbrev pub client_list : FieldTypes
client_list = struct_of (
    (flat, "TypeMeta")
    ∷ (library "metav1.ListMeta", "ListMeta")
    ∷ (slice (struct client), "Items")
    ∷ [])
