-- ===== src/Copies/Namespaced/Vpn.antt =====
-- apis/namespaced/vpn/v1alpha1/zz_generated.deepcopy.go: its longer methods, and those of the kinds.
use provider_upjet_unifi.Copies.{Method}
use provider_upjet_unifi.Copies.Namespaced.{in_namespace}
use provider_upjet_unifi.Copies.Vpn.ClientMethods
use provider_upjet_unifi.Copies.Vpn.PeerMethods
use provider_upjet_unifi.Copies.Vpn.ServerMethods
use provider_upjet_unifi.Copies.Vpn.ToSiteVpnMethods

abbrev pub namespaced_copy_wireguard_parameters : Method
namespaced_copy_wireguard_parameters = in_namespace ClientMethods.copy_wireguard_parameters

abbrev pub namespaced_copy_client_parameters : Method
namespaced_copy_client_parameters = in_namespace ClientMethods.copy_client_parameters

abbrev pub namespaced_copy_wireguard_init_parameters : Method
namespaced_copy_wireguard_init_parameters =
    in_namespace ClientMethods.copy_wireguard_init_parameters

abbrev pub namespaced_copy_client_init_parameters : Method
namespaced_copy_client_init_parameters = in_namespace ClientMethods.copy_client_init_parameters

abbrev pub namespaced_copy_wireguard_observation : Method
namespaced_copy_wireguard_observation = in_namespace ClientMethods.copy_wireguard_observation

abbrev pub namespaced_copy_client_observation : Method
namespaced_copy_client_observation = in_namespace ClientMethods.copy_client_observation

abbrev pub namespaced_copy_client : Method
namespaced_copy_client = in_namespace ClientMethods.copy_client

abbrev pub namespaced_copy_client_list : Method
namespaced_copy_client_list = in_namespace ClientMethods.copy_client_list

abbrev pub namespaced_copy_peer_parameters2 : Method
namespaced_copy_peer_parameters2 = in_namespace PeerMethods.copy_peer_parameters2

abbrev pub namespaced_copy_peer_init_parameters2 : Method
namespaced_copy_peer_init_parameters2 = in_namespace PeerMethods.copy_peer_init_parameters2

abbrev pub namespaced_copy_peer_observation2 : Method
namespaced_copy_peer_observation2 = in_namespace PeerMethods.copy_peer_observation2

abbrev pub namespaced_copy_peer : Method
namespaced_copy_peer = in_namespace PeerMethods.copy_peer

abbrev pub namespaced_copy_peer_list : Method
namespaced_copy_peer_list = in_namespace PeerMethods.copy_peer_list

abbrev pub namespaced_copy_server_parameters : Method
namespaced_copy_server_parameters = in_namespace ServerMethods.copy_server_parameters

abbrev pub namespaced_copy_server_init_parameters : Method
namespaced_copy_server_init_parameters = in_namespace ServerMethods.copy_server_init_parameters

abbrev pub namespaced_copy_server_observation : Method
namespaced_copy_server_observation = in_namespace ServerMethods.copy_server_observation

abbrev pub namespaced_copy_server : Method
namespaced_copy_server = in_namespace ServerMethods.copy_server

abbrev pub namespaced_copy_server_list : Method
namespaced_copy_server_list = in_namespace ServerMethods.copy_server_list

abbrev pub namespaced_copy_to_site_vpn_parameters : Method
namespaced_copy_to_site_vpn_parameters = in_namespace ToSiteVpnMethods.copy_to_site_vpn_parameters

abbrev pub namespaced_copy_to_site_vpn_init_parameters : Method
namespaced_copy_to_site_vpn_init_parameters =
    in_namespace ToSiteVpnMethods.copy_to_site_vpn_init_parameters

abbrev pub namespaced_copy_to_site_vpn_observation : Method
namespaced_copy_to_site_vpn_observation = in_namespace ToSiteVpnMethods.copy_to_site_vpn_observation

abbrev pub namespaced_copy_to_site_vpn : Method
namespaced_copy_to_site_vpn = in_namespace ToSiteVpnMethods.copy_to_site_vpn

abbrev pub namespaced_copy_to_site_vpn_list : Method
namespaced_copy_to_site_vpn_list = in_namespace ToSiteVpnMethods.copy_to_site_vpn_list
