-- ===== src/Copies/Vpn/ServerTypes.antt =====
-- apis/cluster/vpn/v1alpha1/zz_server_types.go: the structs below Server, by their fields.
use provider_upjet_unifi.Base.{[], ◌∷◌}
use provider_upjet_unifi.Copies.{
  flat, pointer, slice, struct, library, optional, struct_of, FieldTypes,
}

abbrev pub dns_parameters : FieldTypes
dns_parameters = struct_of ((optional, "Enabled") ∷ (slice optional, "Servers") ∷ [])

abbrev pub l2_tp_parameters : FieldTypes
l2_tp_parameters = struct_of ((optional, "AllowWeakCiphers") ∷ (flat, "PreSharedKeySecretRef") ∷ [])

abbrev pub openvpn_parameters : FieldTypes
openvpn_parameters = struct_of ((optional, "EncryptionCipher Mode Port") ∷ [])

abbrev pub server_timeouts_parameters : FieldTypes
server_timeouts_parameters = struct_of ((optional, "Create Delete Read Update") ∷ [])

abbrev pub wan_parameters : FieldTypes
wan_parameters = struct_of ((optional, "IP Interface") ∷ [])

abbrev pub server_wireguard_parameters : FieldTypes
server_wireguard_parameters = struct_of ((optional, "Port PrivateKeySecretRef") ∷ [])

abbrev pub server_parameters : FieldTypes
server_parameters = struct_of (
    (pointer (struct dns_parameters), "DNS")
    ∷ (optional, "Enabled")
    ∷ (pointer (struct l2_tp_parameters), "L2Tp")
    ∷ (optional, "Name")
    ∷ (pointer (struct openvpn_parameters), "Openvpn")
    ∷ (optional, "RadiusprofileID")
    ∷ (pointer (library "v2.Reference"), "RadiusprofileIDRef")
    ∷ (pointer (library "v2.Selector"), "RadiusprofileIDSelector")
    ∷ (optional, "Site Subnet")
    ∷ (pointer (struct server_timeouts_parameters), "Timeouts")
    ∷ (pointer (struct wan_parameters), "Wan")
    ∷ (pointer (struct server_wireguard_parameters), "Wireguard")
    ∷ [])

abbrev pub dns_init_parameters : FieldTypes
dns_init_parameters = struct_of ((optional, "Enabled") ∷ (slice optional, "Servers") ∷ [])

abbrev pub l2_tp_init_parameters : FieldTypes
l2_tp_init_parameters =
    struct_of ((optional, "AllowWeakCiphers") ∷ (flat, "PreSharedKeySecretRef") ∷ [])

abbrev pub openvpn_init_parameters : FieldTypes
openvpn_init_parameters = struct_of ((optional, "EncryptionCipher Mode Port") ∷ [])

abbrev pub server_timeouts_init_parameters : FieldTypes
server_timeouts_init_parameters = struct_of ((optional, "Create Delete Read Update") ∷ [])

abbrev pub wan_init_parameters : FieldTypes
wan_init_parameters = struct_of ((optional, "IP Interface") ∷ [])

abbrev pub server_wireguard_init_parameters : FieldTypes
server_wireguard_init_parameters = struct_of ((optional, "Port PrivateKeySecretRef") ∷ [])

abbrev pub server_init_parameters : FieldTypes
server_init_parameters = struct_of (
    (pointer (struct dns_init_parameters), "DNS")
    ∷ (optional, "Enabled")
    ∷ (pointer (struct l2_tp_init_parameters), "L2Tp")
    ∷ (optional, "Name")
    ∷ (pointer (struct openvpn_init_parameters), "Openvpn")
    ∷ (optional, "RadiusprofileID")
    ∷ (pointer (library "v2.Reference"), "RadiusprofileIDRef")
    ∷ (pointer (library "v2.Selector"), "RadiusprofileIDSelector")
    ∷ (optional, "Site Subnet")
    ∷ (pointer (struct server_timeouts_init_parameters), "Timeouts")
    ∷ (pointer (struct wan_init_parameters), "Wan")
    ∷ (pointer (struct server_wireguard_init_parameters), "Wireguard")
    ∷ [])

abbrev pub server_spec : FieldTypes
server_spec = struct_of (
    (library "v2.ClusterManagedResourceSpec", "ClusterManagedResourceSpec")
    ∷ (struct server_parameters, "ForProvider")
    ∷ (struct server_init_parameters, "InitProvider")
    ∷ [])

abbrev pub dns_observation : FieldTypes
dns_observation = struct_of ((optional, "Enabled") ∷ (slice optional, "Servers") ∷ [])

abbrev pub l2_tp_observation : FieldTypes
l2_tp_observation = struct_of ((optional, "AllowWeakCiphers") ∷ [])

abbrev pub openvpn_observation : FieldTypes
openvpn_observation = struct_of ((optional, "EncryptionCipher Mode Port") ∷ [])

abbrev pub server_timeouts_observation : FieldTypes
server_timeouts_observation = struct_of ((optional, "Create Delete Read Update") ∷ [])

abbrev pub wan_observation : FieldTypes
wan_observation = struct_of ((optional, "IP Interface") ∷ [])

abbrev pub server_wireguard_observation : FieldTypes
server_wireguard_observation = struct_of ((optional, "Port PublicKey") ∷ [])

abbrev pub server_observation : FieldTypes
server_observation = struct_of (
    (pointer (struct dns_observation), "DNS")
    ∷ (optional, "Enabled ID")
    ∷ (pointer (struct l2_tp_observation), "L2Tp")
    ∷ (optional, "Name")
    ∷ (pointer (struct openvpn_observation), "Openvpn")
    ∷ (optional, "RadiusprofileID Site Subnet")
    ∷ (pointer (struct server_timeouts_observation), "Timeouts")
    ∷ (pointer (struct wan_observation), "Wan")
    ∷ (pointer (struct server_wireguard_observation), "Wireguard")
    ∷ [])

abbrev pub server_status : FieldTypes
server_status = struct_of (
    (library "v2.ManagedResourceStatus", "ManagedResourceStatus")
    ∷ (struct server_observation, "AtProvider")
    ∷ [])

abbrev pub server : FieldTypes
server = struct_of (
    (flat, "TypeMeta")
    ∷ (library "metav1.ObjectMeta", "ObjectMeta")
    ∷ (struct server_spec, "Spec")
    ∷ (struct server_status, "Status")
    ∷ [])

abbrev pub server_list : FieldTypes
server_list = struct_of (
    (flat, "TypeMeta")
    ∷ (library "metav1.ListMeta", "ListMeta")
    ∷ (slice (struct server), "Items")
    ∷ [])
