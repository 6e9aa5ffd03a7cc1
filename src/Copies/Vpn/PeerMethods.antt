-- ===== src/Copies/Vpn/PeerMethods.antt =====
-- apis/cluster/vpn/v1alpha1/zz_generated.deepcopy.go: the DeepCopyInto methods below Peer.
use provider_upjet_unifi.Base.{[], ◌∷◌}
use provider_upjet_unifi.Copies.{
  assigns, calls, allocates, allocates_into, makes_pointers, makes_items, own, of_library,
  method_of, Method,
}

abbrev pub copy_peer_timeouts_parameters : Method
copy_peer_timeouts_parameters = method_of ((allocates, "Create Delete Read Update") ∷ [])

abbrev pub copy_peer_parameters2 : Method
copy_peer_parameters2 = method_of (
    (makes_pointers, "AllowedIps")
    ∷ (
      allocates,
      "InterfaceIP Name NetworkID PresharedKeySecretRef PresharedKeyWoSecretRef PublicKey Site",
    )
    ∷ (allocates_into (own copy_peer_timeouts_parameters), "Timeouts")
    ∷ [])

abbrev pub copy_peer_timeouts_init_parameters : Method
copy_peer_timeouts_init_parameters = method_of ((allocates, "Create Delete Read Update") ∷ [])

abbrev pub copy_peer_init_parameters2 : Method
copy_peer_init_parameters2 = method_of (
    (makes_pointers, "AllowedIps")
    ∷ (
      allocates,
      "InterfaceIP Name NetworkID PresharedKeySecretRef PresharedKeyWoSecretRef PublicKey Site",
    )
    ∷ (allocates_into (own copy_peer_timeouts_init_parameters), "Timeouts")
    ∷ [])

abbrev pub copy_peer_spec : Method
copy_peer_spec = method_of (
    (calls (of_library "v2.ClusterManagedResourceSpec"), "ClusterManagedResourceSpec")
    ∷ (calls (own copy_peer_parameters2), "ForProvider")
    ∷ (calls (own copy_peer_init_parameters2), "InitProvider")
    ∷ [])

abbrev pub copy_peer_timeouts_observation : Method
copy_peer_timeouts_observation = method_of ((allocates, "Create Delete Read Update") ∷ [])

abbrev pub copy_peer_observation2 : Method
copy_peer_observation2 = method_of (
    (makes_pointers, "AllowedIps")
    ∷ (allocates, "ID InterfaceIP Name NetworkID PublicKey Site")
    ∷ (allocates_into (own copy_peer_timeouts_observation), "Timeouts")
    ∷ [])

abbrev pub copy_peer_status : Method
copy_peer_status = method_of (
    (calls (of_library "v2.ManagedResourceStatus"), "ManagedResourceStatus")
    ∷ (calls (own copy_peer_observation2), "AtProvider")
    ∷ [])

abbrev pub copy_peer : Method
copy_peer = method_of (
    (assigns, "TypeMeta")
    ∷ (calls (of_library "metav1.ObjectMeta"), "ObjectMeta")
    ∷ (calls (own copy_peer_spec), "Spec")
    ∷ (calls (own copy_peer_status), "Status")
    ∷ [])

abbrev pub copy_peer_list : Method
copy_peer_list = method_of (
    (assigns, "TypeMeta")
    ∷ (calls (of_library "metav1.ListMeta"), "ListMeta")
    ∷ (makes_items (own copy_peer), "Items")
    ∷ [])
