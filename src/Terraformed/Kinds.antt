-- ===== src/Terraformed/Kinds.antt =====
-- The files apis/*/*/v1alpha1/zz_*_terraformed.go, one by one.
use provider_upjet_unifi.Base.{[], ◌∷◌}
use provider_upjet_unifi.Base.Dict.{Dict}
use provider_upjet_unifi.Controller.{Scope, cluster, namespaced}
use provider_upjet_unifi.Terraformed.{Generated, methods_of}
use provider_upjet_unifi.Terraformed.Tables.{
  account_constants, device_client_constants, device_constants, device_qos_rate_constants,
  device_supervisor_constants, dns_record_constants, firewall_group_constants,
  firewall_policy_constants, firewall_rule_constants, firewall_zone_constants,
  network_bgp_constants, network_constants, network_wan_constants, port_forward_constants,
  port_profile_constants, radius_profile_constants, radius_user_constants,
  route_static_route_constants, route_traffic_route_constants, setting_dns_constants,
  setting_constants, site_constants, vpn_client_constants, vpn_peer_constants, vpn_server_constants,
  vpn_to_site_vpn_constants, wlan_ap_group_constants, wlan_constants,
}

abbrev pub cluster_account_methods : Generated
cluster_account_methods = methods_of account_constants

abbrev pub cluster_device_client_methods : Generated
cluster_device_client_methods = methods_of device_client_constants

abbrev pub cluster_device_methods : Generated
cluster_device_methods = methods_of device_constants

abbrev pub cluster_device_qos_rate_methods : Generated
cluster_device_qos_rate_methods = methods_of device_qos_rate_constants

abbrev pub cluster_device_supervisor_methods : Generated
cluster_device_supervisor_methods = methods_of device_supervisor_constants

abbrev pub cluster_dns_record_methods : Generated
cluster_dns_record_methods = methods_of dns_record_constants

abbrev pub cluster_firewall_group_methods : Generated
cluster_firewall_group_methods = methods_of firewall_group_constants

abbrev pub cluster_firewall_policy_methods : Generated
cluster_firewall_policy_methods = methods_of firewall_policy_constants

abbrev pub cluster_firewall_rule_methods : Generated
cluster_firewall_rule_methods = methods_of firewall_rule_constants

abbrev pub cluster_firewall_zone_methods : Generated
cluster_firewall_zone_methods = methods_of firewall_zone_constants

abbrev pub cluster_network_bgp_methods : Generated
cluster_network_bgp_methods = methods_of network_bgp_constants

abbrev pub cluster_network_methods : Generated
cluster_network_methods = methods_of network_constants

abbrev pub cluster_network_wan_methods : Generated
cluster_network_wan_methods = methods_of network_wan_constants

abbrev pub cluster_port_forward_methods : Generated
cluster_port_forward_methods = methods_of port_forward_constants

abbrev pub cluster_port_profile_methods : Generated
cluster_port_profile_methods = methods_of port_profile_constants

abbrev pub cluster_radius_profile_methods : Generated
cluster_radius_profile_methods = methods_of radius_profile_constants

abbrev pub cluster_radius_user_methods : Generated
cluster_radius_user_methods = methods_of radius_user_constants

abbrev pub cluster_route_static_route_methods : Generated
cluster_route_static_route_methods = methods_of route_static_route_constants

abbrev pub cluster_route_traffic_route_methods : Generated
cluster_route_traffic_route_methods = methods_of route_traffic_route_constants

abbrev pub cluster_setting_dns_methods : Generated
cluster_setting_dns_methods = methods_of setting_dns_constants

abbrev pub cluster_setting_methods : Generated
cluster_setting_methods = methods_of setting_constants

abbrev pub cluster_site_methods : Generated
cluster_site_methods = methods_of site_constants

abbrev pub cluster_vpn_client_methods : Generated
cluster_vpn_client_methods = methods_of vpn_client_constants

abbrev pub cluster_vpn_peer_methods : Generated
cluster_vpn_peer_methods = methods_of vpn_peer_constants

abbrev pub cluster_vpn_server_methods : Generated
cluster_vpn_server_methods = methods_of vpn_server_constants

abbrev pub cluster_vpn_to_site_vpn_methods : Generated
cluster_vpn_to_site_vpn_methods = methods_of vpn_to_site_vpn_constants

abbrev pub cluster_wlan_ap_group_methods : Generated
cluster_wlan_ap_group_methods = methods_of wlan_ap_group_constants

abbrev pub cluster_wlan_methods : Generated
cluster_wlan_methods = methods_of wlan_constants

abbrev pub namespaced_account_methods : Generated
namespaced_account_methods = methods_of account_constants

abbrev pub namespaced_device_client_methods : Generated
namespaced_device_client_methods = methods_of device_client_constants

abbrev pub namespaced_device_methods : Generated
namespaced_device_methods = methods_of device_constants

abbrev pub namespaced_device_qos_rate_methods : Generated
namespaced_device_qos_rate_methods = methods_of device_qos_rate_constants

abbrev pub namespaced_device_supervisor_methods : Generated
namespaced_device_supervisor_methods = methods_of device_supervisor_constants

abbrev pub namespaced_dns_record_methods : Generated
namespaced_dns_record_methods = methods_of dns_record_constants

abbrev pub namespaced_firewall_group_methods : Generated
namespaced_firewall_group_methods = methods_of firewall_group_constants

abbrev pub namespaced_firewall_policy_methods : Generated
namespaced_firewall_policy_methods = methods_of firewall_policy_constants

abbrev pub namespaced_firewall_rule_methods : Generated
namespaced_firewall_rule_methods = methods_of firewall_rule_constants

abbrev pub namespaced_firewall_zone_methods : Generated
namespaced_firewall_zone_methods = methods_of firewall_zone_constants

abbrev pub namespaced_network_bgp_methods : Generated
namespaced_network_bgp_methods = methods_of network_bgp_constants

abbrev pub namespaced_network_methods : Generated
namespaced_network_methods = methods_of network_constants

abbrev pub namespaced_network_wan_methods : Generated
namespaced_network_wan_methods = methods_of network_wan_constants

abbrev pub namespaced_port_forward_methods : Generated
namespaced_port_forward_methods = methods_of port_forward_constants

abbrev pub namespaced_port_profile_methods : Generated
namespaced_port_profile_methods = methods_of port_profile_constants

abbrev pub namespaced_radius_profile_methods : Generated
namespaced_radius_profile_methods = methods_of radius_profile_constants

abbrev pub namespaced_radius_user_methods : Generated
namespaced_radius_user_methods = methods_of radius_user_constants

abbrev pub namespaced_route_static_route_methods : Generated
namespaced_route_static_route_methods = methods_of route_static_route_constants

abbrev pub namespaced_route_traffic_route_methods : Generated
namespaced_route_traffic_route_methods = methods_of route_traffic_route_constants

abbrev pub namespaced_setting_dns_methods : Generated
namespaced_setting_dns_methods = methods_of setting_dns_constants

abbrev pub namespaced_setting_methods : Generated
namespaced_setting_methods = methods_of setting_constants

abbrev pub namespaced_site_methods : Generated
namespaced_site_methods = methods_of site_constants

abbrev pub namespaced_vpn_client_methods : Generated
namespaced_vpn_client_methods = methods_of vpn_client_constants

abbrev pub namespaced_vpn_peer_methods : Generated
namespaced_vpn_peer_methods = methods_of vpn_peer_constants

abbrev pub namespaced_vpn_server_methods : Generated
namespaced_vpn_server_methods = methods_of vpn_server_constants

abbrev pub namespaced_vpn_to_site_vpn_methods : Generated
namespaced_vpn_to_site_vpn_methods = methods_of vpn_to_site_vpn_constants

abbrev pub namespaced_wlan_ap_group_methods : Generated
namespaced_wlan_ap_group_methods = methods_of wlan_ap_group_constants

abbrev pub namespaced_wlan_methods : Generated
namespaced_wlan_methods = methods_of wlan_constants

abbrev cluster_methods : Dict Generated
cluster_methods =
    ("account.Account", cluster_account_methods)
    ∷ ("device.Client", cluster_device_client_methods)
    ∷ ("device.Device", cluster_device_methods)
    ∷ ("device.QosRate", cluster_device_qos_rate_methods)
    ∷ ("device.Supervisor", cluster_device_supervisor_methods)
    ∷ ("dns.Record", cluster_dns_record_methods)
    ∷ ("firewall.Group", cluster_firewall_group_methods)
    ∷ ("firewall.Policy", cluster_firewall_policy_methods)
    ∷ ("firewall.Rule", cluster_firewall_rule_methods)
    ∷ ("firewall.Zone", cluster_firewall_zone_methods)
    ∷ ("network.BGP", cluster_network_bgp_methods)
    ∷ ("network.Network", cluster_network_methods)
    ∷ ("network.Wan", cluster_network_wan_methods)
    ∷ ("port.Forward", cluster_port_forward_methods)
    ∷ ("port.Profile", cluster_port_profile_methods)
    ∷ ("radius.Profile", cluster_radius_profile_methods)
    ∷ ("radius.User", cluster_radius_user_methods)
    ∷ ("route.StaticRoute", cluster_route_static_route_methods)
    ∷ ("route.TrafficRoute", cluster_route_traffic_route_methods)
    ∷ ("setting.DNS", cluster_setting_dns_methods)
    ∷ ("setting.Setting", cluster_setting_methods)
    ∷ ("site.Site", cluster_site_methods)
    ∷ ("vpn.Client", cluster_vpn_client_methods)
    ∷ ("vpn.Peer", cluster_vpn_peer_methods)
    ∷ ("vpn.Server", cluster_vpn_server_methods)
    ∷ ("vpn.ToSiteVPN", cluster_vpn_to_site_vpn_methods)
    ∷ ("wlan.ApGroup", cluster_wlan_ap_group_methods)
    ∷ ("wlan.Wlan", cluster_wlan_methods)
    ∷ []

abbrev namespaced_methods : Dict Generated
namespaced_methods =
    ("account.Account", namespaced_account_methods)
    ∷ ("device.Client", namespaced_device_client_methods)
    ∷ ("device.Device", namespaced_device_methods)
    ∷ ("device.QosRate", namespaced_device_qos_rate_methods)
    ∷ ("device.Supervisor", namespaced_device_supervisor_methods)
    ∷ ("dns.Record", namespaced_dns_record_methods)
    ∷ ("firewall.Group", namespaced_firewall_group_methods)
    ∷ ("firewall.Policy", namespaced_firewall_policy_methods)
    ∷ ("firewall.Rule", namespaced_firewall_rule_methods)
    ∷ ("firewall.Zone", namespaced_firewall_zone_methods)
    ∷ ("network.BGP", namespaced_network_bgp_methods)
    ∷ ("network.Network", namespaced_network_methods)
    ∷ ("network.Wan", namespaced_network_wan_methods)
    ∷ ("port.Forward", namespaced_port_forward_methods)
    ∷ ("port.Profile", namespaced_port_profile_methods)
    ∷ ("radius.Profile", namespaced_radius_profile_methods)
    ∷ ("radius.User", namespaced_radius_user_methods)
    ∷ ("route.StaticRoute", namespaced_route_static_route_methods)
    ∷ ("route.TrafficRoute", namespaced_route_traffic_route_methods)
    ∷ ("setting.DNS", namespaced_setting_dns_methods)
    ∷ ("setting.Setting", namespaced_setting_methods)
    ∷ ("site.Site", namespaced_site_methods)
    ∷ ("vpn.Client", namespaced_vpn_client_methods)
    ∷ ("vpn.Peer", namespaced_vpn_peer_methods)
    ∷ ("vpn.Server", namespaced_vpn_server_methods)
    ∷ ("vpn.ToSiteVPN", namespaced_vpn_to_site_vpn_methods)
    ∷ ("wlan.ApGroup", namespaced_wlan_ap_group_methods)
    ∷ ("wlan.Wlan", namespaced_wlan_methods)
    ∷ []

-- The generated methods of a scope, by API group and Kind.
unfoldable pub generated : Scope → Dict Generated
generated cluster = cluster_methods
generated namespaced = namespaced_methods
