-- ===== src/Accessors/Kinds.antt =====
-- The accessors of each kind, apis/*/*/v1alpha1/zz_generated.managed.go, which are alike within a
-- scope, and GetItems of each list of zz_generated.managedlist.go.
use provider_upjet_unifi.Accessors.{Cluster, Namespaced, cluster_accessors, accessors}
use provider_upjet_unifi.Accessors.Items.{Items, get_items}

abbrev pub cluster_account_accessors : Cluster
cluster_account_accessors S C = cluster_accessors C

abbrev pub cluster_account_items : Items
cluster_account_items Item = get_items

abbrev pub cluster_device_client_accessors : Cluster
cluster_device_client_accessors S C = cluster_accessors C

abbrev pub cluster_device_client_items : Items
cluster_device_client_items Item = get_items

abbrev pub cluster_device_accessors : Cluster
cluster_device_accessors S C = cluster_accessors C

abbrev pub cluster_device_items : Items
cluster_device_items Item = get_items

abbrev pub cluster_device_qos_rate_accessors : Cluster
cluster_device_qos_rate_accessors S C = cluster_accessors C

abbrev pub cluster_device_qos_rate_items : Items
cluster_device_qos_rate_items Item = get_items

abbrev pub cluster_device_supervisor_accessors : Cluster
cluster_device_supervisor_accessors S C = cluster_accessors C

abbrev pub cluster_device_supervisor_items : Items
cluster_device_supervisor_items Item = get_items

abbrev pub cluster_dns_record_accessors : Cluster
cluster_dns_record_accessors S C = cluster_accessors C

abbrev pub cluster_dns_record_items : Items
cluster_dns_record_items Item = get_items

abbrev pub cluster_firewall_group_accessors : Cluster
cluster_firewall_group_accessors S C = cluster_accessors C

abbrev pub cluster_firewall_group_items : Items
cluster_firewall_group_items Item = get_items

abbrev pub cluster_firewall_policy_accessors : Cluster
cluster_firewall_policy_accessors S C = cluster_accessors C

abbrev pub cluster_firewall_policy_items : Items
cluster_firewall_policy_items Item = get_items

abbrev pub cluster_firewall_rule_accessors : Cluster
cluster_firewall_rule_accessors S C = cluster_accessors C

abbrev pub cluster_firewall_rule_items : Items
cluster_firewall_rule_items Item = get_items

abbrev pub cluster_firewall_zone_accessors : Cluster
cluster_firewall_zone_accessors S C = cluster_accessors C

abbrev pub cluster_firewall_zone_items : Items
cluster_firewall_zone_items Item = get_items

abbrev pub cluster_network_bgp_accessors : Cluster
cluster_network_bgp_accessors S C = cluster_accessors C

abbrev pub cluster_network_bgp_items : Items
cluster_network_bgp_items Item = get_items

abbrev pub cluster_network_accessors : Cluster
cluster_network_accessors S C = cluster_accessors C

abbrev pub cluster_network_items : Items
cluster_network_items Item = get_items

abbrev pub cluster_network_wan_accessors : Cluster
cluster_network_wan_accessors S C = cluster_accessors C

abbrev pub cluster_network_wan_items : Items
cluster_network_wan_items Item = get_items

abbrev pub cluster_port_forward_accessors : Cluster
cluster_port_forward_accessors S C = cluster_accessors C

abbrev pub cluster_port_forward_items : Items
cluster_port_forward_items Item = get_items

abbrev pub cluster_port_profile_accessors : Cluster
cluster_port_profile_accessors S C = cluster_accessors C

abbrev pub cluster_port_profile_items : Items
cluster_port_profile_items Item = get_items

abbrev pub cluster_radius_profile_accessors : Cluster
cluster_radius_profile_accessors S C = cluster_accessors C

abbrev pub cluster_radius_profile_items : Items
cluster_radius_profile_items Item = get_items

abbrev pub cluster_radius_user_accessors : Cluster
cluster_radius_user_accessors S C = cluster_accessors C

abbrev pub cluster_radius_user_items : Items
cluster_radius_user_items Item = get_items

abbrev pub cluster_route_static_route_accessors : Cluster
cluster_route_static_route_accessors S C = cluster_accessors C

abbrev pub cluster_route_static_route_items : Items
cluster_route_static_route_items Item = get_items

abbrev pub cluster_route_traffic_route_accessors : Cluster
cluster_route_traffic_route_accessors S C = cluster_accessors C

abbrev pub cluster_route_traffic_route_items : Items
cluster_route_traffic_route_items Item = get_items

abbrev pub cluster_setting_dns_accessors : Cluster
cluster_setting_dns_accessors S C = cluster_accessors C

abbrev pub cluster_setting_dns_items : Items
cluster_setting_dns_items Item = get_items

abbrev pub cluster_setting_accessors : Cluster
cluster_setting_accessors S C = cluster_accessors C

abbrev pub cluster_setting_items : Items
cluster_setting_items Item = get_items

abbrev pub cluster_site_accessors : Cluster
cluster_site_accessors S C = cluster_accessors C

abbrev pub cluster_site_items : Items
cluster_site_items Item = get_items

abbrev pub cluster_vpn_client_accessors : Cluster
cluster_vpn_client_accessors S C = cluster_accessors C

abbrev pub cluster_vpn_client_items : Items
cluster_vpn_client_items Item = get_items

abbrev pub cluster_vpn_peer_accessors : Cluster
cluster_vpn_peer_accessors S C = cluster_accessors C

abbrev pub cluster_vpn_peer_items : Items
cluster_vpn_peer_items Item = get_items

abbrev pub cluster_vpn_server_accessors : Cluster
cluster_vpn_server_accessors S C = cluster_accessors C

abbrev pub cluster_vpn_server_items : Items
cluster_vpn_server_items Item = get_items

abbrev pub cluster_vpn_to_site_vpn_accessors : Cluster
cluster_vpn_to_site_vpn_accessors S C = cluster_accessors C

abbrev pub cluster_vpn_to_site_vpn_items : Items
cluster_vpn_to_site_vpn_items Item = get_items

abbrev pub cluster_wlan_ap_group_accessors : Cluster
cluster_wlan_ap_group_accessors S C = cluster_accessors C

abbrev pub cluster_wlan_ap_group_items : Items
cluster_wlan_ap_group_items Item = get_items

abbrev pub cluster_wlan_accessors : Cluster
cluster_wlan_accessors S C = cluster_accessors C

abbrev pub cluster_wlan_items : Items
cluster_wlan_items Item = get_items

abbrev pub namespaced_account_accessors : Namespaced
namespaced_account_accessors S C = accessors C

abbrev pub namespaced_account_items : Items
namespaced_account_items Item = get_items

abbrev pub namespaced_device_client_accessors : Namespaced
namespaced_device_client_accessors S C = accessors C

abbrev pub namespaced_device_client_items : Items
namespaced_device_client_items Item = get_items

abbrev pub namespaced_device_accessors : Namespaced
namespaced_device_accessors S C = accessors C

abbrev pub namespaced_device_items : Items
namespaced_device_items Item = get_items

abbrev pub namespaced_device_qos_rate_accessors : Namespaced
namespaced_device_qos_rate_accessors S C = accessors C

abbrev pub namespaced_device_qos_rate_items : Items
namespaced_device_qos_rate_items Item = get_items

abbrev pub namespaced_device_supervisor_accessors : Namespaced
namespaced_device_supervisor_accessors S C = accessors C

abbrev pub namespaced_device_supervisor_items : Items
namespaced_device_supervisor_items Item = get_items

abbrev pub namespaced_dns_record_accessors : Namespaced
namespaced_dns_record_accessors S C = accessors C

abbrev pub namespaced_dns_record_items : Items
namespaced_dns_record_items Item = get_items

abbrev pub namespaced_firewall_group_accessors : Namespaced
namespaced_firewall_group_accessors S C = accessors C

abbrev pub namespaced_firewall_group_items : Items
namespaced_firewall_group_items Item = get_items

abbrev pub namespaced_firewall_policy_accessors : Namespaced
namespaced_firewall_policy_accessors S C = accessors C

abbrev pub namespaced_firewall_policy_items : Items
namespaced_firewall_policy_items Item = get_items

abbrev pub namespaced_firewall_rule_accessors : Namespaced
namespaced_firewall_rule_accessors S C = accessors C

abbrev pub namespaced_firewall_rule_items : Items
namespaced_firewall_rule_items Item = get_items

abbrev pub namespaced_firewall_zone_accessors : Namespaced
namespaced_firewall_zone_accessors S C = accessors C

abbrev pub namespaced_firewall_zone_items : Items
namespaced_firewall_zone_items Item = get_items

abbrev pub namespaced_network_bgp_accessors : Namespaced
namespaced_network_bgp_accessors S C = accessors C

abbrev pub namespaced_network_bgp_items : Items
namespaced_network_bgp_items Item = get_items

abbrev pub namespaced_network_accessors : Namespaced
namespaced_network_accessors S C = accessors C

abbrev pub namespaced_network_items : Items
namespaced_network_items Item = get_items

abbrev pub namespaced_network_wan_accessors : Namespaced
namespaced_network_wan_accessors S C = accessors C

abbrev pub namespaced_network_wan_items : Items
namespaced_network_wan_items Item = get_items

abbrev pub namespaced_port_forward_accessors : Namespaced
namespaced_port_forward_accessors S C = accessors C

abbrev pub namespaced_port_forward_items : Items
namespaced_port_forward_items Item = get_items

abbrev pub namespaced_port_profile_accessors : Namespaced
namespaced_port_profile_accessors S C = accessors C

abbrev pub namespaced_port_profile_items : Items
namespaced_port_profile_items Item = get_items

abbrev pub namespaced_radius_profile_accessors : Namespaced
namespaced_radius_profile_accessors S C = accessors C

abbrev pub namespaced_radius_profile_items : Items
namespaced_radius_profile_items Item = get_items

abbrev pub namespaced_radius_user_accessors : Namespaced
namespaced_radius_user_accessors S C = accessors C

abbrev pub namespaced_radius_user_items : Items
namespaced_radius_user_items Item = get_items

abbrev pub namespaced_route_static_route_accessors : Namespaced
namespaced_route_static_route_accessors S C = accessors C

abbrev pub namespaced_route_static_route_items : Items
namespaced_route_static_route_items Item = get_items

abbrev pub namespaced_route_traffic_route_accessors : Namespaced
namespaced_route_traffic_route_accessors S C = accessors C

abbrev pub namespaced_route_traffic_route_items : Items
namespaced_route_traffic_route_items Item = get_items

abbrev pub namespaced_setting_dns_accessors : Namespaced
namespaced_setting_dns_accessors S C = accessors C

abbrev pub namespaced_setting_dns_items : Items
namespaced_setting_dns_items Item = get_items

abbrev pub namespaced_setting_accessors : Namespaced
namespaced_setting_accessors S C = accessors C

abbrev pub namespaced_setting_items : Items
namespaced_setting_items Item = get_items

abbrev pub namespaced_site_accessors : Namespaced
namespaced_site_accessors S C = accessors C

abbrev pub namespaced_site_items : Items
namespaced_site_items Item = get_items

abbrev pub namespaced_vpn_client_accessors : Namespaced
namespaced_vpn_client_accessors S C = accessors C

abbrev pub namespaced_vpn_client_items : Items
namespaced_vpn_client_items Item = get_items

abbrev pub namespaced_vpn_peer_accessors : Namespaced
namespaced_vpn_peer_accessors S C = accessors C

abbrev pub namespaced_vpn_peer_items : Items
namespaced_vpn_peer_items Item = get_items

abbrev pub namespaced_vpn_server_accessors : Namespaced
namespaced_vpn_server_accessors S C = accessors C

abbrev pub namespaced_vpn_server_items : Items
namespaced_vpn_server_items Item = get_items

abbrev pub namespaced_vpn_to_site_vpn_accessors : Namespaced
namespaced_vpn_to_site_vpn_accessors S C = accessors C

abbrev pub namespaced_vpn_to_site_vpn_items : Items
namespaced_vpn_to_site_vpn_items Item = get_items

abbrev pub namespaced_wlan_ap_group_accessors : Namespaced
namespaced_wlan_ap_group_accessors S C = accessors C

abbrev pub namespaced_wlan_ap_group_items : Items
namespaced_wlan_ap_group_items Item = get_items

abbrev pub namespaced_wlan_accessors : Namespaced
namespaced_wlan_accessors S C = accessors C

abbrev pub namespaced_wlan_items : Items
namespaced_wlan_items Item = get_items
