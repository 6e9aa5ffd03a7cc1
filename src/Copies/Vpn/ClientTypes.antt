-- ===== src/Copies/Vpn/ClientTypes.antt =====
-- apis/cluster/vpn/v1alpha1/zz_client_types.go: the structs below Client, by their fields.
use provider_upjet_unifi.Base.{[], ◌∷◌}
use provider_upjet_unifi.Copies.{
  flat, pointer, slice, struct, library, optional, struct_of, FieldTypes,
}

abbrev pub client_timeouts_parameters : FieldTypes
client_timeouts_parameters = struct_of ((optional, "Create Delete Read Update") ∷ [])

abbrev pub configuration_parameters : FieldTypes
configuration_parameters = struct_of ((flat, "ContentSecretRef") ∷ (optional, "Filename") ∷ [])

abbrev pub peer_parameters : FieldTypes
peer_parameters = struct_of ((optional, "IP Port") ∷ (flat, "PublicKeySecretRef") ∷ [])

abbrev pub wireguard_parameters : FieldTypes
wireguard_parameters = struct_of (
    (pointer (struct configuration_parameters), "Configuration")
    ∷ (slice optional, "DNSServers")
    ∷ (optional, "Interface")
    ∷ (pointer (struct peer_parameters), "Peer")
    ∷ (
      optional,
      "PresharedKeyEnabled PresharedKeySecretRef PrivateKeySecretRef PrivateKeyWoSecretRef PrivateKeyWoVersion",
    )
    ∷ [])

abbrev pub client_parameters : FieldTypes
client_parameters = struct_of (
    (optional, "DefaultRoute Enabled Name PullDNS Site Subnet")
    ∷ (pointer (struct client_timeouts_parameters), "Timeouts")
    ∷ (pointer (struct wireguard_parameters), "Wireguard")
    ∷ [])

abbrev pub client_timeouts_init_parameters : FieldTypes
client_timeouts_init_parameters = struct_of ((optional, "Create Delete Read Update") ∷ [])

abbrev pub configuration_init_parameters : FieldTypes
configuration_init_parameters = struct_of ((flat, "ContentSecretRef") ∷ (optional, "Filename") ∷ [])

abbrev pub peer_init_parameters : FieldTypes
peer_init_parameters = struct_of ((optional, "IP Port") ∷ (flat, "PublicKeySecretRef") ∷ [])

abbrev pub wireguard_init_parameters : FieldTypes
wireguard_init_parameters = struct_of (
    (pointer (struct configuration_init_parameters), "Configuration")
    ∷ (slice optional, "DNSServers")
    ∷ (optional, "Interface")
    ∷ (pointer (struct peer_init_parameters), "Peer")
    ∷ (
      optional,
      "PresharedKeyEnabled PresharedKeySecretRef PrivateKeySecretRef PrivateKeyWoSecretRef PrivateKeyWoVersion",
    )
    ∷ [])

abbrev pub client_init_parameters : FieldTypes
client_init_parameters = struct_of (
    (optional, "DefaultRoute Enabled Name PullDNS Site Subnet")
    ∷ (pointer (struct client_timeouts_init_parameters), "Timeouts")
    ∷ (pointer (struct wireguard_init_parameters), "Wireguard")
    ∷ [])

abbrev pub client_spec : FieldTypes
client_spec = struct_of (
    (library "v2.ClusterManagedResourceSpec", "ClusterManagedResourceSpec")
    ∷ (struct client_parameters, "ForProvider")
    ∷ (struct client_init_parameters, "InitProvider")
    ∷ [])

abbrev pub client_timeouts_observation : FieldTypes
client_timeouts_observation = struct_of ((optional, "Create Delete Read Update") ∷ [])

abbrev pub configuration_observation : FieldTypes
configuration_observation = struct_of ((optional, "Filename") ∷ [])

abbrev pub peer_observation : FieldTypes
peer_observation = struct_of ((optional, "IP Port") ∷ [])

abbrev pub wireguard_observation : FieldTypes
wireguard_observation = struct_of (
    (pointer (struct configuration_observation), "Configuration")
    ∷ (slice optional, "DNSServers")
    ∷ (optional, "Interface")
    ∷ (pointer (struct peer_observation), "Peer")
    ∷ (optional, "PresharedKeyEnabled PrivateKeyWoVersion")
    ∷ [])

abbrev pub client_observation : FieldTypes
client_observation = struct_of (
    (optional, "DefaultRoute Enabled ID Name PullDNS Site Subnet")
    ∷ (pointer (struct client_timeouts_observation), "Timeouts")
    ∷ (pointer (struct wireguard_observation), "Wireguard")
    ∷ [])

abbrev pub client_status : FieldTypes
client_status = struct_of (
    (library "v2.ManagedResourceStatus", "ManagedResourceStatus")
    ∷ (struct client_observation, "AtProvider")
    ∷ [])

abbrev pub client : FieldTypes
client = struct_of (
    (flat, "TypeMeta")
    ∷ (library "metav1.ObjectMeta", "ObjectMeta")
    ∷ (struct client_spec, "Spec")
    ∷ (struct client_status, "Status")
    ∷ [])

abbrev pub client_list : FieldTypes
client_list = struct_of (
    (flat, "TypeMeta")
    ∷ (library "metav1.ListMeta", "ListMeta")
    ∷ (slice (struct client), "Items")
    ∷ [])
