-- ===== src/Copies/Vpn/ToSiteVpnMethods.antt =====
-- apis/cluster/vpn/v1alpha1/zz_generated.deepcopy.go: the DeepCopyInto methods below ToSiteVPN.
use provider_upjet_unifi.Base.{[], ◌∷◌}
use provider_upjet_unifi.Copies.{
  assigns, calls, allocates, allocates_into, makes_pointers, makes_items, own, of_library,
  method_of, Method,
}

abbrev pub copy_timeouts_parameters : Method
copy_timeouts_parameters = method_of ((allocates, "Create Delete Read Update") ∷ [])

abbrev pub copy_to_site_vpn_parameters : Method
copy_to_site_vpn_parameters = method_of (
    (
      allocates,
      "DynamicRouting Enabled EspDhGroup EspEncryption EspHash EspLifetime IkeDhGroup IkeEncryption IkeHash IkeLifetime Interface KeyExchange LocalIP LocalIdentifier LocalIdentifierEnabled Name PeerIP Pfs PreSharedKeySecretRef PreSharedKeyWoSecretRef Profile RemoteIdentifier RemoteIdentifierEnabled",
    )
    ∷ (makes_pointers, "RemoteSubnets")
    ∷ (allocates, "RouteDistance Site")
    ∷ (allocates_into (own copy_timeouts_parameters), "Timeouts")
    ∷ [])

abbrev pub copy_timeouts_init_parameters : Method
copy_timeouts_init_parameters = method_of ((allocates, "Create Delete Read Update") ∷ [])

abbrev pub copy_to_site_vpn_init_parameters : Method
copy_to_site_vpn_init_parameters = method_of (
    (
      allocates,
      "DynamicRouting Enabled EspDhGroup EspEncryption EspHash EspLifetime IkeDhGroup IkeEncryption IkeHash IkeLifetime Interface KeyExchange LocalIP LocalIdentifier LocalIdentifierEnabled Name PeerIP Pfs PreSharedKeySecretRef PreSharedKeyWoSecretRef Profile RemoteIdentifier RemoteIdentifierEnabled",
    )
    ∷ (makes_pointers, "RemoteSubnets")
    ∷ (allocates, "RouteDistance Site")
    ∷ (allocates_into (own copy_timeouts_init_parameters), "Timeouts")
    ∷ [])

abbrev pub copy_to_site_vpn_spec : Method
copy_to_site_vpn_spec = method_of (
    (calls (of_library "v2.ClusterManagedResourceSpec"), "ClusterManagedResourceSpec")
    ∷ (calls (own copy_to_site_vpn_parameters), "ForProvider")
    ∷ (calls (own copy_to_site_vpn_init_parameters), "InitProvider")
    ∷ [])

abbrev pub copy_timeouts_observation : Method
copy_timeouts_observation = method_of ((allocates, "Create Delete Read Update") ∷ [])

abbrev pub copy_to_site_vpn_observation : Method
copy_to_site_vpn_observation = method_of (
    (
      allocates,
      "DynamicRouting Enabled EspDhGroup EspEncryption EspHash EspLifetime ID IkeDhGroup IkeEncryption IkeHash IkeLifetime Interface KeyExchange LocalIP LocalIdentifier LocalIdentifierEnabled Name PeerIP Pfs Profile RemoteIdentifier RemoteIdentifierEnabled",
    )
    ∷ (makes_pointers, "RemoteSubnets")
    ∷ (allocates, "RouteDistance Site")
    ∷ (allocates_into (own copy_timeouts_observation), "Timeouts")
    ∷ [])

abbrev pub copy_to_site_vpn_status : Method
copy_to_site_vpn_status = method_of (
    (calls (of_library "v2.ManagedResourceStatus"), "ManagedResourceStatus")
    ∷ (calls (own copy_to_site_vpn_observation), "AtProvider")
    ∷ [])

abbrev pub copy_to_site_vpn : Method
copy_to_site_vpn = method_of (
    (assigns, "TypeMeta")
    ∷ (calls (of_library "metav1.ObjectMeta"), "ObjectMeta")
    ∷ (calls (own copy_to_site_vpn_spec), "Spec")
    ∷ (calls (own copy_to_site_vpn_status), "Status")
    ∷ [])

abbrev pub copy_to_site_vpn_list : Method
copy_to_site_vpn_list = method_of (
    (assigns, "TypeMeta")
    ∷ (calls (of_library "metav1.ListMeta"), "ListMeta")
    ∷ (makes_items (own copy_to_site_vpn), "Items")
    ∷ [])
