-- ===== src/Copies/Vpn/ServerMethods.antt =====
-- apis/cluster/vpn/v1alpha1/zz_generated.deepcopy.go: the DeepCopyInto methods below Server.
use provider_upjet_unifi.Base.{[], ◌∷◌}
use provider_upjet_unifi.Copies.{
  assigns, calls, allocates, allocates_into, makes_pointers, makes_items, own, of_library,
  method_of, Method,
}

abbrev pub copy_dns_parameters : Method
copy_dns_parameters = method_of ((allocates, "Enabled") ∷ (makes_pointers, "Servers") ∷ [])

abbrev pub copy_l2_tp_parameters : Method
copy_l2_tp_parameters =
    method_of ((allocates, "AllowWeakCiphers") ∷ (assigns, "PreSharedKeySecretRef") ∷ [])

abbrev pub copy_openvpn_parameters : Method
copy_openvpn_parameters = method_of ((allocates, "EncryptionCipher Mode Port") ∷ [])

abbrev pub copy_server_timeouts_parameters : Method
copy_server_timeouts_parameters = method_of ((allocates, "Create Delete Read Update") ∷ [])

abbrev pub copy_wan_parameters : Method
copy_wan_parameters = method_of ((allocates, "IP Interface") ∷ [])

abbrev pub copy_server_wireguard_parameters : Method
copy_server_wireguard_parameters = method_of ((allocates, "Port PrivateKeySecretRef") ∷ [])

abbrev pub copy_server_parameters : Method
copy_server_parameters = method_of (
    (allocates_into (own copy_dns_parameters), "DNS")
    ∷ (allocates, "Enabled")
    ∷ (allocates_into (own copy_l2_tp_parameters), "L2Tp")
    ∷ (allocates, "Name")
    ∷ (allocates_into (own copy_openvpn_parameters), "Openvpn")
    ∷ (allocates, "RadiusprofileID")
    ∷ (allocates_into (of_library "v2.Reference"), "RadiusprofileIDRef")
    ∷ (allocates_into (of_library "v2.Selector"), "RadiusprofileIDSelector")
    ∷ (allocates, "Site Subnet")
    ∷ (allocates_into (own copy_server_timeouts_parameters), "Timeouts")
    ∷ (allocates_into (own copy_wan_parameters), "Wan")
    ∷ (allocates_into (own copy_server_wireguard_parameters), "Wireguard")
    ∷ [])

abbrev pub copy_dns_init_parameters : Method
copy_dns_init_parameters = method_of ((allocates, "Enabled") ∷ (makes_pointers, "Servers") ∷ [])

abbrev pub copy_l2_tp_init_parameters : Method
copy_l2_tp_init_parameters =
    method_of ((allocates, "AllowWeakCiphers") ∷ (assigns, "PreSharedKeySecretRef") ∷ [])

abbrev pub copy_openvpn_init_parameters : Method
copy_openvpn_init_parameters = method_of ((allocates, "EncryptionCipher Mode Port") ∷ [])

abbrev pub copy_server_timeouts_init_parameters : Method
copy_server_timeouts_init_parameters = method_of ((allocates, "Create Delete Read Update") ∷ [])

abbrev pub copy_wan_init_parameters : Method
copy_wan_init_parameters = method_of ((allocates, "IP Interface") ∷ [])

abbrev pub copy_server_wireguard_init_parameters : Method
copy_server_wireguard_init_parameters = method_of ((allocates, "Port PrivateKeySecretRef") ∷ [])

abbrev pub copy_server_init_parameters : Method
copy_server_init_parameters = method_of (
    (allocates_into (own copy_dns_init_parameters), "DNS")
    ∷ (allocates, "Enabled")
    ∷ (allocates_into (own copy_l2_tp_init_parameters), "L2Tp")
    ∷ (allocates, "Name")
    ∷ (allocates_into (own copy_openvpn_init_parameters), "Openvpn")
    ∷ (allocates, "RadiusprofileID")
    ∷ (allocates_into (of_library "v2.Reference"), "RadiusprofileIDRef")
    ∷ (allocates_into (of_library "v2.Selector"), "RadiusprofileIDSelector")
    ∷ (allocates, "Site Subnet")
    ∷ (allocates_into (own copy_server_timeouts_init_parameters), "Timeouts")
    ∷ (allocates_into (own copy_wan_init_parameters), "Wan")
    ∷ (allocates_into (own copy_server_wireguard_init_parameters), "Wireguard")
    ∷ [])

abbrev pub copy_server_spec : Method
copy_server_spec = method_of (
    (calls (of_library "v2.ClusterManagedResourceSpec"), "ClusterManagedResourceSpec")
    ∷ (calls (own copy_server_parameters), "ForProvider")
    ∷ (calls (own copy_server_init_parameters), "InitProvider")
    ∷ [])

abbrev pub copy_dns_observation : Method
copy_dns_observation = method_of ((allocates, "Enabled") ∷ (makes_pointers, "Servers") ∷ [])

abbrev pub copy_l2_tp_observation : Method
copy_l2_tp_observation = method_of ((allocates, "AllowWeakCiphers") ∷ [])

abbrev pub copy_openvpn_observation : Method
copy_openvpn_observation = method_of ((allocates, "EncryptionCipher Mode Port") ∷ [])

abbrev pub copy_server_timeouts_observation : Method
copy_server_timeouts_observation = method_of ((allocates, "Create Delete Read Update") ∷ [])

abbrev pub copy_wan_observation : Method
copy_wan_observation = method_of ((allocates, "IP Interface") ∷ [])

abbrev pub copy_server_wireguard_observation : Method
copy_server_wireguard_observation = method_of ((allocates, "Port PublicKey") ∷ [])

abbrev pub copy_server_observation : Method
copy_server_observation = method_of (
    (allocates_into (own copy_dns_observation), "DNS")
    ∷ (allocates, "Enabled ID")
    ∷ (allocates_into (own copy_l2_tp_observation), "L2Tp")
    ∷ (allocates, "Name")
    ∷ (allocates_into (own copy_openvpn_observation), "Openvpn")
    ∷ (allocates, "RadiusprofileID Site Subnet")
    ∷ (allocates_into (own copy_server_timeouts_observation), "Timeouts")
    ∷ (allocates_into (own copy_wan_observation), "Wan")
    ∷ (allocates_into (own copy_server_wireguard_observation), "Wireguard")
    ∷ [])

abbrev pub copy_server_status : Method
copy_server_status = method_of (
    (calls (of_library "v2.ManagedResourceStatus"), "ManagedResourceStatus")
    ∷ (calls (own copy_server_observation), "AtProvider")
    ∷ [])

abbrev pub copy_server : Method
copy_server = method_of (
    (assigns, "TypeMeta")
    ∷ (calls (of_library "metav1.ObjectMeta"), "ObjectMeta")
    ∷ (calls (own copy_server_spec), "Spec")
    ∷ (calls (own copy_server_status), "Status")
    ∷ [])

abbrev pub copy_server_list : Method
copy_server_list = method_of (
    (assigns, "TypeMeta")
    ∷ (calls (of_library "metav1.ListMeta"), "ListMeta")
    ∷ (makes_items (own copy_server), "Items")
    ∷ [])
