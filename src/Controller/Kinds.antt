-- ===== src/Controller/Kinds.antt =====
-- The controllers that internal/controller/cluster/zz_setup.go and its namespaced twin list, in
-- their order, each with the API group, the Kind and the Terraform resource of its package.
use provider_upjet_unifi.Base.{String, List, [], ◌∷◌}

pub record ManagedKind : Type 0 where
  pub group : String
  pub kind : String
  pub terraform_name : String

abbrev of_group : String → String → String → ManagedKind
of_group group kind terraform_name = record {
  group = group;
  kind = kind;
  terraform_name = terraform_name;
}

abbrev pub account_kind : ManagedKind
account_kind = of_group "account" "Account" "unifi_account"

abbrev pub device_client_kind : ManagedKind
device_client_kind = of_group "device" "Client" "unifi_client"

abbrev pub device_kind : ManagedKind
device_kind = of_group "device" "Device" "unifi_device"

abbrev pub device_qos_rate_kind : ManagedKind
device_qos_rate_kind = of_group "device" "QosRate" "unifi_client_qos_rate"

abbrev pub device_supervisor_kind : ManagedKind
device_supervisor_kind = of_group "device" "Supervisor" "unifi_power_supervisor"

abbrev pub dns_record_kind : ManagedKind
dns_record_kind = of_group "dns" "Record" "unifi_dns_record"

abbrev pub firewall_group_kind : ManagedKind
firewall_group_kind = of_group "firewall" "Group" "unifi_firewall_group"

abbrev pub firewall_policy_kind : ManagedKind
firewall_policy_kind = of_group "firewall" "Policy" "unifi_firewall_policy"

abbrev pub firewall_rule_kind : ManagedKind
firewall_rule_kind = of_group "firewall" "Rule" "unifi_firewall_rule"

abbrev pub firewall_zone_kind : ManagedKind
firewall_zone_kind = of_group "firewall" "Zone" "unifi_firewall_zone"

abbrev pub network_bgp_kind : ManagedKind
network_bgp_kind = of_group "network" "BGP" "unifi_bgp"

abbrev pub network_kind : ManagedKind
network_kind = of_group "network" "Network" "unifi_network"

abbrev pub network_wan_kind : ManagedKind
network_wan_kind = of_group "network" "Wan" "unifi_wan"

abbrev pub port_forward_kind : ManagedKind
port_forward_kind = of_group "port" "Forward" "unifi_port_forward"

abbrev pub port_profile_kind : ManagedKind
port_profile_kind = of_group "port" "Profile" "unifi_port_profile"

abbrev pub radius_profile_kind : ManagedKind
radius_profile_kind = of_group "radius" "Profile" "unifi_radius_profile"

abbrev pub radius_user_kind : ManagedKind
radius_user_kind = of_group "radius" "User" "unifi_radius_user"

abbrev pub route_static_route_kind : ManagedKind
route_static_route_kind = of_group "route" "StaticRoute" "unifi_static_route"

abbrev pub route_traffic_route_kind : ManagedKind
route_traffic_route_kind = of_group "route" "TrafficRoute" "unifi_traffic_route"

abbrev pub setting_dns_kind : ManagedKind
setting_dns_kind = of_group "setting" "DNS" "unifi_dynamic_dns"

abbrev pub setting_kind : ManagedKind
setting_kind = of_group "setting" "Setting" "unifi_setting"

abbrev pub site_kind : ManagedKind
site_kind = of_group "site" "Site" "unifi_site"

abbrev pub vpn_client_kind : ManagedKind
vpn_client_kind = of_group "vpn" "Client" "unifi_vpn_client"

abbrev pub vpn_peer_kind : ManagedKind
vpn_peer_kind = of_group "vpn" "Peer" "unifi_wireguard_peer"

abbrev pub vpn_server_kind : ManagedKind
vpn_server_kind = of_group "vpn" "Server" "unifi_vpn_server"

abbrev pub vpn_to_site_vpn_kind : ManagedKind
vpn_to_site_vpn_kind = of_group "vpn" "ToSiteVPN" "unifi_site_to_site_vpn"

abbrev pub wlan_ap_group_kind : ManagedKind
wlan_ap_group_kind = of_group "wlan" "ApGroup" "unifi_ap_group"

abbrev pub wlan_kind : ManagedKind
wlan_kind = of_group "wlan" "Wlan" "unifi_wlan"

pub data Controller : Type 0 where
  managed : ManagedKind → Controller
  provider_config : Controller

unfoldable pub controllers : List Controller
controllers =
    managed account_kind
    ∷ managed device_client_kind
    ∷ managed device_kind
    ∷ managed device_qos_rate_kind
    ∷ managed device_supervisor_kind
    ∷ managed dns_record_kind
    ∷ managed firewall_group_kind
    ∷ managed firewall_policy_kind
    ∷ managed firewall_rule_kind
    ∷ managed firewall_zone_kind
    ∷ managed network_bgp_kind
    ∷ managed network_kind
    ∷ managed network_wan_kind
    ∷ managed port_forward_kind
    ∷ managed port_profile_kind
    ∷ provider_config
    ∷ managed radius_profile_kind
    ∷ managed radius_user_kind
    ∷ managed route_static_route_kind
    ∷ managed route_traffic_route_kind
    ∷ managed setting_dns_kind
    ∷ managed setting_kind
    ∷ managed site_kind
    ∷ managed vpn_client_kind
    ∷ managed vpn_peer_kind
    ∷ managed vpn_server_kind
    ∷ managed vpn_to_site_vpn_kind
    ∷ managed wlan_ap_group_kind
    ∷ managed wlan_kind
    ∷ []
