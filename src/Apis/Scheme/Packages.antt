-- ===== src/Apis/Scheme/Packages.antt =====
-- apis/*/zz_register.go and the packages that it lists: their group and version (zz_groupversion_info.go,
-- register.go), and the objects that the init functions of zz_*_types.go and register.go register. The
-- types of resources register the same objects in both scopes.
use provider_upjet_unifi.Base.{String, List, [], ◌∷◌}
use provider_upjet_unifi.Apis.Scheme.{GroupVersion, Package, package_of}

abbrev pub cluster_account_version : GroupVersion
cluster_account_version = record { group = "account.unifi.crossplane.io"; version = "v1alpha1" }

abbrev pub cluster_device_version : GroupVersion
cluster_device_version = record { group = "device.unifi.crossplane.io"; version = "v1alpha1" }

abbrev pub cluster_dns_version : GroupVersion
cluster_dns_version = record { group = "dns.unifi.crossplane.io"; version = "v1alpha1" }

abbrev pub cluster_firewall_version : GroupVersion
cluster_firewall_version = record { group = "firewall.unifi.crossplane.io"; version = "v1alpha1" }

abbrev pub cluster_network_version : GroupVersion
cluster_network_version = record { group = "network.unifi.crossplane.io"; version = "v1alpha1" }

abbrev pub cluster_port_version : GroupVersion
cluster_port_version = record { group = "port.unifi.crossplane.io"; version = "v1alpha1" }

abbrev pub cluster_radius_version : GroupVersion
cluster_radius_version = record { group = "radius.unifi.crossplane.io"; version = "v1alpha1" }

abbrev pub cluster_route_version : GroupVersion
cluster_route_version = record { group = "route.unifi.crossplane.io"; version = "v1alpha1" }

abbrev pub cluster_setting_version : GroupVersion
cluster_setting_version = record { group = "setting.unifi.crossplane.io"; version = "v1alpha1" }

abbrev pub cluster_site_version : GroupVersion
cluster_site_version = record { group = "site.unifi.crossplane.io"; version = "v1alpha1" }

abbrev pub cluster_root_version : GroupVersion
cluster_root_version = record { group = "unifi.unifi.crossplane.io"; version = "v1alpha1" }

abbrev pub cluster_config_version : GroupVersion
cluster_config_version = record { group = "unifi.crossplane.io"; version = "v1beta1" }

abbrev pub cluster_vpn_version : GroupVersion
cluster_vpn_version = record { group = "vpn.unifi.crossplane.io"; version = "v1alpha1" }

abbrev pub cluster_wlan_version : GroupVersion
cluster_wlan_version = record { group = "wlan.unifi.crossplane.io"; version = "v1alpha1" }

abbrev pub namespaced_account_version : GroupVersion
namespaced_account_version = record {
  group = "account.unifi.m.crossplane.io";
  version = "v1alpha1";
}

abbrev pub namespaced_device_version : GroupVersion
namespaced_device_version = record { group = "device.unifi.m.crossplane.io"; version = "v1alpha1" }

abbrev pub namespaced_dns_version : GroupVersion
namespaced_dns_version = record { group = "dns.unifi.m.crossplane.io"; version = "v1alpha1" }

abbrev pub namespaced_firewall_version : GroupVersion
namespaced_firewall_version = record {
  group = "firewall.unifi.m.crossplane.io";
  version = "v1alpha1";
}

abbrev pub namespaced_network_version : GroupVersion
namespaced_network_version = record {
  group = "network.unifi.m.crossplane.io";
  version = "v1alpha1";
}

abbrev pub namespaced_port_version : GroupVersion
namespaced_port_version = record { group = "port.unifi.m.crossplane.io"; version = "v1alpha1" }

abbrev pub namespaced_radius_version : GroupVersion
namespaced_radius_version = record { group = "radius.unifi.m.crossplane.io"; version = "v1alpha1" }

abbrev pub namespaced_route_version : GroupVersion
namespaced_route_version = record { group = "route.unifi.m.crossplane.io"; version = "v1alpha1" }

abbrev pub namespaced_setting_version : GroupVersion
namespaced_setting_version = record {
  group = "setting.unifi.m.crossplane.io";
  version = "v1alpha1";
}

abbrev pub namespaced_site_version : GroupVersion
namespaced_site_version = record { group = "site.unifi.m.crossplane.io"; version = "v1alpha1" }

abbrev pub namespaced_root_version : GroupVersion
namespaced_root_version = record { group = "unifi.m.unifi.crossplane.io"; version = "v1alpha1" }

abbrev pub namespaced_config_version : GroupVersion
namespaced_config_version = record { group = "unifi.m.crossplane.io"; version = "v1beta1" }

abbrev pub namespaced_vpn_version : GroupVersion
namespaced_vpn_version = record { group = "vpn.unifi.m.crossplane.io"; version = "v1alpha1" }

abbrev pub namespaced_wlan_version : GroupVersion
namespaced_wlan_version = record { group = "wlan.unifi.m.crossplane.io"; version = "v1alpha1" }

abbrev pub account_objects : List String
account_objects = "Account" ∷ "AccountList" ∷ []

abbrev pub device_client_objects : List String
device_client_objects = "Client" ∷ "ClientList" ∷ []

abbrev pub device_objects : List String
device_objects = "Device" ∷ "DeviceList" ∷ []

abbrev pub device_qos_rate_objects : List String
device_qos_rate_objects = "QosRate" ∷ "QosRateList" ∷ []

abbrev pub device_supervisor_objects : List String
device_supervisor_objects = "Supervisor" ∷ "SupervisorList" ∷ []

abbrev pub dns_record_objects : List String
dns_record_objects = "Record" ∷ "RecordList" ∷ []

abbrev pub firewall_group_objects : List String
firewall_group_objects = "Group" ∷ "GroupList" ∷ []

abbrev pub firewall_policy_objects : List String
firewall_policy_objects = "Policy" ∷ "PolicyList" ∷ []

abbrev pub firewall_rule_objects : List String
firewall_rule_objects = "Rule" ∷ "RuleList" ∷ []

abbrev pub firewall_zone_objects : List String
firewall_zone_objects = "Zone" ∷ "ZoneList" ∷ []

abbrev pub network_bgp_objects : List String
network_bgp_objects = "BGP" ∷ "BGPList" ∷ []

abbrev pub network_objects : List String
network_objects = "Network" ∷ "NetworkList" ∷ []

abbrev pub network_wan_objects : List String
network_wan_objects = "Wan" ∷ "WanList" ∷ []

abbrev pub port_forward_objects : List String
port_forward_objects = "Forward" ∷ "ForwardList" ∷ []

abbrev pub port_profile_objects : List String
port_profile_objects = "Profile" ∷ "ProfileList" ∷ []

abbrev pub radius_profile_objects : List String
radius_profile_objects = "Profile" ∷ "ProfileList" ∷ []

abbrev pub radius_user_objects : List String
radius_user_objects = "User" ∷ "UserList" ∷ []

abbrev pub route_static_route_objects : List String
route_static_route_objects = "StaticRoute" ∷ "StaticRouteList" ∷ []

abbrev pub route_traffic_route_objects : List String
route_traffic_route_objects = "TrafficRoute" ∷ "TrafficRouteList" ∷ []

abbrev pub setting_dns_objects : List String
setting_dns_objects = "DNS" ∷ "DNSList" ∷ []

abbrev pub setting_objects : List String
setting_objects = "Setting" ∷ "SettingList" ∷ []

abbrev pub site_objects : List String
site_objects = "Site" ∷ "SiteList" ∷ []

abbrev pub cluster_config_objects : List String
cluster_config_objects =
    "ProviderConfig" ∷ "ProviderConfigList" ∷ "ProviderConfigUsage" ∷ "ProviderConfigUsageList" ∷ []

abbrev pub vpn_client_objects : List String
vpn_client_objects = "Client" ∷ "ClientList" ∷ []

abbrev pub vpn_peer_objects : List String
vpn_peer_objects = "Peer" ∷ "PeerList" ∷ []

abbrev pub vpn_server_objects : List String
vpn_server_objects = "Server" ∷ "ServerList" ∷ []

abbrev pub vpn_to_site_vpn_objects : List String
vpn_to_site_vpn_objects = "ToSiteVPN" ∷ "ToSiteVPNList" ∷ []

abbrev pub wlan_ap_group_objects : List String
wlan_ap_group_objects = "ApGroup" ∷ "ApGroupList" ∷ []

abbrev pub wlan_objects : List String
wlan_objects = "Wlan" ∷ "WlanList" ∷ []

abbrev pub namespaced_config_objects : List String
namespaced_config_objects =
    "ProviderConfig" ∷ "ProviderConfigList" ∷ "ClusterProviderConfig" ∷ "ClusterProviderConfigList"
    ∷ "ProviderConfigUsage" ∷ "ProviderConfigUsageList" ∷ []

abbrev pub cluster_add_to_schemes : List Package
cluster_add_to_schemes =
    package_of cluster_account_version (account_objects ∷ [])
    ∷ package_of cluster_device_version (
        device_client_objects ∷ device_objects ∷ device_qos_rate_objects ∷ device_supervisor_objects
        ∷ [])
    ∷ package_of cluster_dns_version (dns_record_objects ∷ [])
    ∷ package_of cluster_firewall_version (
        firewall_group_objects ∷ firewall_policy_objects ∷ firewall_rule_objects
        ∷ firewall_zone_objects ∷ [])
    ∷ package_of cluster_network_version
        (network_bgp_objects ∷ network_objects ∷ network_wan_objects ∷ [])
    ∷ package_of cluster_port_version (port_forward_objects ∷ port_profile_objects ∷ [])
    ∷ package_of cluster_radius_version (radius_profile_objects ∷ radius_user_objects ∷ [])
    ∷ package_of cluster_route_version
        (route_static_route_objects ∷ route_traffic_route_objects ∷ [])
    ∷ package_of cluster_setting_version (setting_dns_objects ∷ setting_objects ∷ [])
    ∷ package_of cluster_site_version (site_objects ∷ [])
    ∷ package_of cluster_root_version ([])
    ∷ package_of cluster_config_version (cluster_config_objects ∷ [])
    ∷ package_of cluster_vpn_version
        (vpn_client_objects ∷ vpn_peer_objects ∷ vpn_server_objects ∷ vpn_to_site_vpn_objects ∷ [])
    ∷ package_of cluster_wlan_version (wlan_ap_group_objects ∷ wlan_objects ∷ [])
    ∷ []

abbrev pub namespaced_add_to_schemes : List Package
namespaced_add_to_schemes =
    package_of namespaced_account_version (account_objects ∷ [])
    ∷ package_of namespaced_device_version (
        device_client_objects ∷ device_objects ∷ device_qos_rate_objects ∷ device_supervisor_objects
        ∷ [])
    ∷ package_of namespaced_dns_version (dns_record_objects ∷ [])
    ∷ package_of namespaced_firewall_version (
        firewall_group_objects ∷ firewall_policy_objects ∷ firewall_rule_objects
        ∷ firewall_zone_objects ∷ [])
    ∷ package_of namespaced_network_version
        (network_bgp_objects ∷ network_objects ∷ network_wan_objects ∷ [])
    ∷ package_of namespaced_port_version (port_forward_objects ∷ port_profile_objects ∷ [])
    ∷ package_of namespaced_radius_version (radius_profile_objects ∷ radius_user_objects ∷ [])
    ∷ package_of namespaced_route_version
        (route_static_route_objects ∷ route_traffic_route_objects ∷ [])
    ∷ package_of namespaced_setting_version (setting_dns_objects ∷ setting_objects ∷ [])
    ∷ package_of namespaced_site_version (site_objects ∷ [])
    ∷ package_of namespaced_root_version ([])
    ∷ package_of namespaced_config_version (namespaced_config_objects ∷ [])
    ∷ package_of namespaced_vpn_version
        (vpn_client_objects ∷ vpn_peer_objects ∷ vpn_server_objects ∷ vpn_to_site_vpn_objects ∷ [])
    ∷ package_of namespaced_wlan_version (wlan_ap_group_objects ∷ wlan_objects ∷ [])
    ∷ []
