-- ===== src/Copies/Vpn/ClientMethods.antt =====
-- apis/cluster/vpn/v1alpha1/zz_generated.deepcopy.go: the DeepCopyInto methods below Client.
use provider_upjet_unifi.Base.{[], ◌∷◌}
use provider_upjet_unifi.Copies.{
  assigns, calls, allocates, allocates_into, makes_pointers, makes_items, own, of_library,
  method_of, Method,
}

abbrev pub copy_client_timeouts_parameters : Method
copy_client_timeouts_parameters = method_of ((allocates, "Create Delete Read Update") ∷ [])

abbrev pub copy_configuration_parameters : Method
copy_configuration_parameters =
    method_of ((assigns, "ContentSecretRef") ∷ (allocates, "Filename") ∷ [])

abbrev pub copy_peer_parameters : Method
copy_peer_parameters = method_of ((allocates, "IP Port") ∷ (assigns, "PublicKeySecretRef") ∷ [])

abbrev pub copy_wireguard_parameters : Method
copy_wireguard_parameters = method_of (
    (allocates_into (own copy_configuration_parameters), "Configuration")
    ∷ (makes_pointers, "DNSServers")
    ∷ (allocates, "Interface")
    ∷ (allocates_into (own copy_peer_parameters), "Peer")
    ∷ (
      allocates,
      "PresharedKeyEnabled PresharedKeySecretRef PrivateKeySecretRef PrivateKeyWoSecretRef PrivateKeyWoVersion",
    )
    ∷ [])

abbrev pub copy_client_parameters : Method
copy_client_parameters = method_of (
    (allocates, "DefaultRoute Enabled Name PullDNS Site Subnet")
    ∷ (allocates_into (own copy_client_timeouts_parameters), "Timeouts")
    ∷ (allocates_into (own copy_wireguard_parameters), "Wireguard")
    ∷ [])

abbrev pub copy_client_timeouts_init_parameters : Method
copy_client_timeouts_init_parameters = method_of ((allocates, "Create Delete Read Update") ∷ [])

abbrev pub copy_configuration_init_parameters : Method
copy_configuration_init_parameters =
    method_of ((assigns, "ContentSecretRef") ∷ (allocates, "Filename") ∷ [])

abbrev pub copy_peer_init_parameters : Method
copy_peer_init_parameters =
    method_of ((allocates, "IP Port") ∷ (assigns, "PublicKeySecretRef") ∷ [])

abbrev pub copy_wireguard_init_parameters : Method
copy_wireguard_init_parameters = method_of (
    (allocates_into (own copy_configuration_init_parameters), "Configuration")
    ∷ (makes_pointers, "DNSServers")
    ∷ (allocates, "Interface")
    ∷ (allocates_into (own copy_peer_init_parameters), "Peer")
    ∷ (
      allocates,
      "PresharedKeyEnabled PresharedKeySecretRef PrivateKeySecretRef PrivateKeyWoSecretRef PrivateKeyWoVersion",
    )
    ∷ [])

abbrev pub copy_client_init_parameters : Method
copy_client_init_parameters = method_of (
    (allocates, "DefaultRoute Enabled Name PullDNS Site Subnet")
    ∷ (allocates_into (own copy_client_timeouts_init_parameters), "Timeouts")
    ∷ (allocates_into (own copy_wireguard_init_parameters), "Wireguard")
    ∷ [])

abbrev pub copy_client_spec : Method
copy_client_spec = method_of (
    (calls (of_library "v2.ClusterManagedResourceSpec"), "ClusterManagedResourceSpec")
    ∷ (calls (own copy_client_parameters), "ForProvider")
    ∷ (calls (own copy_client_init_parameters), "InitProvider")
    ∷ [])

abbrev pub copy_client_timeouts_observation : Method
copy_client_timeouts_observation = method_of ((allocates, "Create Delete Read Update") ∷ [])

abbrev pub copy_configuration_observation : Method
copy_configuration_observation = method_of ((allocates, "Filename") ∷ [])

abbrev pub copy_peer_observation : Method
copy_peer_observation = method_of ((allocates, "IP Port") ∷ [])

abbrev pub copy_wireguard_observation : Method
copy_wireguard_observation = method_of (
    (allocates_into (own copy_configuration_observation), "Configuration")
    ∷ (makes_pointers, "DNSServers")
    ∷ (allocates, "Interface")
    ∷ (allocates_into (own copy_peer_observation), "Peer")
    ∷ (allocates, "PresharedKeyEnabled PrivateKeyWoVersion")
    ∷ [])

abbrev pub copy_client_observation : Method
copy_client_observation = method_of (
    (allocates, "DefaultRoute Enabled ID Name PullDNS Site Subnet")
    ∷ (allocates_into (own copy_client_timeouts_observation), "Timeouts")
    ∷ (allocates_into (own copy_wireguard_observation), "Wireguard")
    ∷ [])

abbrev pub copy_client_status : Method
copy_client_status = method_of (
    (calls (of_library "v2.ManagedResourceStatus"), "ManagedResourceStatus")
    ∷ (calls (own copy_client_observation), "AtProvider")
    ∷ [])

abbrev pub copy_client : Method
copy_client = method_of (
    (assigns, "TypeMeta")
    ∷ (calls (of_library "metav1.ObjectMeta"), "ObjectMeta")
    ∷ (calls (own copy_client_spec), "Spec")
    ∷ (calls (own copy_client_status), "Status")
    ∷ [])

abbrev pub copy_client_list : Method
copy_client_list = method_of (
    (assigns, "TypeMeta")
    ∷ (calls (of_library "metav1.ListMeta"), "ListMeta")
    ∷ (makes_items (own copy_client), "Items")
    ∷ [])
