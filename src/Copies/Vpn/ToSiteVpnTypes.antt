-- ===== src/Copies/Vpn/ToSiteVpnTypes.antt =====
-- apis/cluster/vpn/v1alpha1/zz_tositevpn_types.go: the structs below ToSiteVPN, by their fields.
use provider_upjet_unifi.Base.{[], ◌∷◌}
use provider_upjet_unifi.Copies.{
  flat, pointer, slice, struct, library, optional, struct_of, FieldTypes,
}

abbrev pub timeouts_parameters : FieldTypes
timeouts_parameters = struct_of ((optional, "Create Delete Read Update") ∷ [])

abbrev pub to_site_vpn_parameters : FieldTypes
to_site_vpn_parameters = struct_of (
    (
      optional,
      "DynamicRouting Enabled EspDhGroup EspEncryption EspHash EspLifetime IkeDhGroup IkeEncryption IkeHash IkeLifetime Interface KeyExchange LocalIP LocalIdentifier LocalIdentifierEnabled Name PeerIP Pfs PreSharedKeySecretRef PreSharedKeyWoSecretRef Profile RemoteIdentifier RemoteIdentifierEnabled",
    )
    ∷ (slice optional, "RemoteSubnets")
    ∷ (optional, "RouteDistance Site")
    ∷ (pointer (struct timeouts_parameters), "Timeouts")
    ∷ [])

abbrev pub timeouts_init_parameters : FieldTypes
timeouts_init_parameters = struct_of ((optional, "Create Delete Read Update") ∷ [])

abbrev pub to_site_vpn_init_parameters : FieldTypes
to_site_vpn_init_parameters = struct_of (
    (
      optional,
      "DynamicRouting Enabled EspDhGroup EspEncryption EspHash EspLifetime IkeDhGroup IkeEncryption IkeHash IkeLifetime Interface KeyExchange LocalIP LocalIdentifier LocalIdentifierEnabled Name PeerIP Pfs PreSharedKeySecretRef PreSharedKeyWoSecretRef Profile RemoteIdentifier RemoteIdentifierEnabled",
    )
    ∷ (slice optional, "RemoteSubnets")
    ∷ (optional, "RouteDistance Site")
    ∷ (pointer (struct timeouts_init_parameters), "Timeouts")
    ∷ [])

abbrev pub to_site_vpn_spec : FieldTypes
to_site_vpn_spec = struct_of (
    (library "v2.ClusterManagedResourceSpec", "ClusterManagedResourceSpec")
    ∷ (struct to_site_vpn_parameters, "ForProvider")
    ∷ (struct to_site_vpn_init_parameters, "InitProvider")
    ∷ [])

abbrev pub timeouts_observation : FieldTypes
timeouts_observation = struct_of ((optional, "Create Delete Read Update") ∷ [])

abbrev pub to_site_vpn_observation : FieldTypes
to_site_vpn_observation = struct_of (
    (
      optional,
      "DynamicRouting Enabled EspDhGroup EspEncryption EspHash EspLifetime ID IkeDhGroup IkeEncryption IkeHash IkeLifetime Interface KeyExchange LocalIP LocalIdentifier LocalIdentifierEnabled Name PeerIP Pfs Profile RemoteIdentifier RemoteIdentifierEnabled",
    )
    ∷ (slice optional, "RemoteSubnets")
    ∷ (optional, "RouteDistance Site")
    ∷ (pointer (struct timeouts_observation), "Timeouts")
    ∷ [])

abbrev pub to_site_vpn_status : FieldTypes
to_site_vpn_status = struct_of (
    (library "v2.ManagedResourceStatus", "ManagedResourceStatus")
    ∷ (struct to_site_vpn_observation, "AtProvider")
    ∷ [])

abbrev pub to_site_vpn : FieldTypes
to_site_vpn = struct_of (
    (flat, "TypeMeta")
    ∷ (library "metav1.ObjectMeta", "ObjectMeta")
    ∷ (struct to_site_vpn_spec, "Spec")
    ∷ (struct to_site_vpn_status, "Status")
    ∷ [])

abbrev pub to_site_vpn_list : FieldTypes
to_site_vpn_list = struct_of (
    (flat, "TypeMeta")
    ∷ (library "metav1.ListMeta", "ListMeta")
    ∷ (slice (struct to_site_vpn), "Items")
    ∷ [])
