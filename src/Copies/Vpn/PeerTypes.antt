-- ===== src/Copies/Vpn/PeerTypes.antt =====
-- apis/cluster/vpn/v1alpha1/zz_peer_types.go: the structs below Peer, by their fields.
use provider_upjet_unifi.Base.{[], ◌∷◌}
use provider_upjet_unifi.Copies.{
  flat, pointer, slice, struct, library, optional, struct_of, FieldTypes,
}

abbrev pub peer_timeouts_parameters : FieldTypes
peer_timeouts_parameters = struct_of ((optional, "Create Delete Read Update") ∷ [])

abbrev pub peer_parameters2 : FieldTypes
peer_parameters2 = struct_of (
    (slice optional, "AllowedIps")
    ∷ (
      optional,
      "InterfaceIP Name NetworkID PresharedKeySecretRef PresharedKeyWoSecretRef PublicKey Site",
    )
    ∷ (pointer (struct peer_timeouts_parameters), "Timeouts")
    ∷ [])

abbrev pub peer_timeouts_init_parameters : FieldTypes
peer_timeouts_init_parameters = struct_of ((optional, "Create Delete Read Update") ∷ [])

abbrev pub peer_init_parameters2 : FieldTypes
peer_init_parameters2 = struct_of (
    (slice optional, "AllowedIps")
    ∷ (
      optional,
      "InterfaceIP Name NetworkID PresharedKeySecretRef PresharedKeyWoSecretRef PublicKey Site",
    )
    ∷ (pointer (struct peer_timeouts_init_parameters), "Timeouts")
    ∷ [])

abbrev pub peer_spec : FieldTypes
peer_spec = struct_of (
    (library "v2.ClusterManagedResourceSpec", "ClusterManagedResourceSpec")
    ∷ (struct peer_parameters2, "ForProvider")
    ∷ (struct peer_init_parameters2, "InitProvider")
    ∷ [])

abbrev pub peer_timeouts_observation : FieldTypes
peer_timeouts_observation = struct_of ((optional, "Create Delete Read Update") ∷ [])

abbrev pub peer_observation2 : FieldTypes
peer_observation2 = struct_of (
    (slice optional, "AllowedIps")
    ∷ (optional, "ID InterfaceIP Name NetworkID PublicKey Site")
    ∷ (pointer (struct peer_timeouts_observation), "Timeouts")
    ∷ [])

abbrev pub peer_status : FieldTypes
peer_status = struct_of (
    (library "v2.ManagedResourceStatus", "ManagedResourceStatus")
    ∷ (struct peer_observation2, "AtProvider")
    ∷ [])

abbrev pub peer : FieldTypes
peer = struct_of (
    (flat, "TypeMeta")
    ∷ (library "metav1.ObjectMeta", "ObjectMeta")
    ∷ (struct peer_spec, "Spec")
    ∷ (struct peer_status, "Status")
    ∷ [])

abbrev pub peer_list : FieldTypes
peer_list = struct_of (
    (flat, "TypeMeta")
    ∷ (library "metav1.ListMeta", "ListMeta")
    ∷ (slice (struct peer), "Items")
    ∷ [])
