-- ===== src/Copies/Groups.antt =====
-- The registered types of which the tables are listed, with their methods, and that these fit.
use provider_upjet_unifi.Base.{◌≡◌, refl, String, Bool, true, some, [], ◌∷◌}
use provider_upjet_unifi.Base.Dict
use provider_upjet_unifi.Base.Dict.{Dict, all_entries, all_entries-get}
use provider_upjet_unifi.Controller.{Scope, cluster, namespaced}
use provider_upjet_unifi.Copies.{FieldTypes, Method, fits}
use provider_upjet_unifi.Copies.Namespaced
use provider_upjet_unifi.Copies.Namespaced.{in_namespace, fields_in, namespaced_name}
use provider_upjet_unifi.Copies.Account
use provider_upjet_unifi.Copies.Dns
use provider_upjet_unifi.Copies.Site
use provider_upjet_unifi.Copies.Radius
use provider_upjet_unifi.Copies.Route
use provider_upjet_unifi.Copies.Wlan
use provider_upjet_unifi.Copies.Port
use provider_upjet_unifi.Copies.Firewall
use provider_upjet_unifi.Copies.Vpn
use provider_upjet_unifi.Copies.Device
use provider_upjet_unifi.Copies.ClusterConfig
use provider_upjet_unifi.Copies.NamespacedConfig

abbrev pub entry : String → FieldTypes → Method → String × (FieldTypes × Method)
entry name ts m = (name, (ts, m))

unfoldable pub generated : Scope → Dict (FieldTypes × Method)
generated cluster =
    entry "account.Account" Account.AccountTypes.account Account.AccountMethods.copy_account
    ∷ entry "account.AccountList" Account.AccountTypes.account_list
        Account.AccountMethods.copy_account_list
    ∷ entry "dns.Record" Dns.RecordTypes.record_object Dns.RecordMethods.copy_record_object
    ∷ entry "dns.RecordList" Dns.RecordTypes.record_list Dns.RecordMethods.copy_record_list
    ∷ entry "site.Site" Site.SiteTypes.site Site.SiteMethods.copy_site
    ∷ entry "site.SiteList" Site.SiteTypes.site_list Site.SiteMethods.copy_site_list
    ∷ entry "radius.Profile" Radius.ProfileTypes.profile Radius.ProfileMethods.copy_profile
    ∷ entry "radius.ProfileList" Radius.ProfileTypes.profile_list
        Radius.ProfileMethods.copy_profile_list
    ∷ entry "radius.User" Radius.UserTypes.user Radius.UserMethods.copy_user
    ∷ entry "radius.UserList" Radius.UserTypes.user_list Radius.UserMethods.copy_user_list
    ∷ entry "route.StaticRoute" Route.StaticRouteTypes.static_route
        Route.StaticRouteMethods.copy_static_route
    ∷ entry "route.StaticRouteList" Route.StaticRouteTypes.static_route_list
        Route.StaticRouteMethods.copy_static_route_list
    ∷ entry "route.TrafficRoute" Route.TrafficRouteTypes.traffic_route
        Route.TrafficRouteMethods.copy_traffic_route
    ∷ entry "route.TrafficRouteList" Route.TrafficRouteTypes.traffic_route_list
        Route.TrafficRouteMethods.copy_traffic_route_list
    ∷ entry "wlan.ApGroup" Wlan.ApGroupTypes.ap_group Wlan.ApGroupMethods.copy_ap_group
    ∷ entry "wlan.ApGroupList" Wlan.ApGroupTypes.ap_group_list
        Wlan.ApGroupMethods.copy_ap_group_list
    ∷ entry "wlan.Wlan" Wlan.WlanTypes.wlan Wlan.WlanMethods.copy_wlan
    ∷ entry "wlan.WlanList" Wlan.WlanTypes.wlan_list Wlan.WlanMethods.copy_wlan_list
    ∷ entry "port.Forward" Port.ForwardTypes.forward Port.ForwardMethods.copy_forward
    ∷ entry "port.ForwardList" Port.ForwardTypes.forward_list Port.ForwardMethods.copy_forward_list
    ∷ entry "port.Profile" Port.ProfileTypes.profile Port.ProfileMethods.copy_profile
    ∷ entry "port.ProfileList" Port.ProfileTypes.profile_list Port.ProfileMethods.copy_profile_list
    ∷ entry "firewall.Group" Firewall.GroupTypes.group Firewall.GroupMethods.copy_group
    ∷ entry "firewall.GroupList" Firewall.GroupTypes.group_list
        Firewall.GroupMethods.copy_group_list
    ∷ entry "firewall.Policy" Firewall.PolicyTypes.policy Firewall.PolicyMethods.copy_policy
    ∷ entry "firewall.PolicyList" Firewall.PolicyTypes.policy_list
        Firewall.PolicyMethods.copy_policy_list
    ∷ entry "firewall.Rule" Firewall.RuleTypes.rule_object Firewall.RuleMethods.copy_rule_object
    ∷ entry "firewall.RuleList" Firewall.RuleTypes.rule_list Firewall.RuleMethods.copy_rule_list
    ∷ entry "firewall.Zone" Firewall.ZoneTypes.zone Firewall.ZoneMethods.copy_zone
    ∷ entry "firewall.ZoneList" Firewall.ZoneTypes.zone_list Firewall.ZoneMethods.copy_zone_list
    ∷ entry "vpn.Client" Vpn.ClientTypes.client Vpn.ClientMethods.copy_client
    ∷ entry "vpn.ClientList" Vpn.ClientTypes.client_list Vpn.ClientMethods.copy_client_list
    ∷ entry "vpn.Peer" Vpn.PeerTypes.peer Vpn.PeerMethods.copy_peer
    ∷ entry "vpn.PeerList" Vpn.PeerTypes.peer_list Vpn.PeerMethods.copy_peer_list
    ∷ entry "vpn.Server" Vpn.ServerTypes.server Vpn.ServerMethods.copy_server
    ∷ entry "vpn.ServerList" Vpn.ServerTypes.server_list Vpn.ServerMethods.copy_server_list
    ∷ entry "vpn.ToSiteVPN" Vpn.ToSiteVpnTypes.to_site_vpn Vpn.ToSiteVpnMethods.copy_to_site_vpn
    ∷ entry "vpn.ToSiteVPNList" Vpn.ToSiteVpnTypes.to_site_vpn_list
        Vpn.ToSiteVpnMethods.copy_to_site_vpn_list
    ∷ entry "device.Client" Device.ClientTypes.client Device.ClientMethods.copy_client
    ∷ entry "device.ClientList" Device.ClientTypes.client_list Device.ClientMethods.copy_client_list
    ∷ entry "device.QosRate" Device.QosRateTypes.qos_rate Device.QosRateMethods.copy_qos_rate
    ∷ entry "device.QosRateList" Device.QosRateTypes.qos_rate_list
        Device.QosRateMethods.copy_qos_rate_list
    ∷ entry "device.Supervisor" Device.SupervisorTypes.supervisor
        Device.SupervisorMethods.copy_supervisor
    ∷ entry "device.SupervisorList" Device.SupervisorTypes.supervisor_list
        Device.SupervisorMethods.copy_supervisor_list
    ∷ entry "cluster_config.ProviderConfig" ClusterConfig.ProviderConfigTypes.provider_config
        ClusterConfig.ProviderConfigMethods.copy_provider_config
    ∷ entry "cluster_config.ProviderConfigList"
        ClusterConfig.ProviderConfigTypes.provider_config_list
        ClusterConfig.ProviderConfigMethods.copy_provider_config_list
    ∷ entry "cluster_config.ProviderConfigUsage"
        ClusterConfig.ProviderConfigUsageTypes.provider_config_usage
        ClusterConfig.ProviderConfigUsageMethods.copy_provider_config_usage
    ∷ entry "cluster_config.ProviderConfigUsageList"
        ClusterConfig.ProviderConfigUsageTypes.provider_config_usage_list
        ClusterConfig.ProviderConfigUsageMethods.copy_provider_config_usage_list
    ∷ []
generated namespaced =
    entry "account.Account" (fields_in Account.AccountTypes.account)
      Namespaced.Account.namespaced_copy_account
    ∷ entry "account.AccountList" (fields_in Account.AccountTypes.account_list)
        Namespaced.Account.namespaced_copy_account_list
    ∷ entry "dns.Record" (fields_in Dns.RecordTypes.record_object)
        Namespaced.Dns.namespaced_copy_record_object
    ∷ entry "dns.RecordList" (fields_in Dns.RecordTypes.record_list)
        Namespaced.Dns.namespaced_copy_record_list
    ∷ entry "site.Site" (fields_in Site.SiteTypes.site) Namespaced.Site.namespaced_copy_site
    ∷ entry "site.SiteList" (fields_in Site.SiteTypes.site_list)
        Namespaced.Site.namespaced_copy_site_list
    ∷ entry "radius.Profile" (fields_in Radius.ProfileTypes.profile)
        Namespaced.Radius.namespaced_copy_profile
    ∷ entry "radius.ProfileList" (fields_in Radius.ProfileTypes.profile_list)
        Namespaced.Radius.namespaced_copy_profile_list
    ∷ entry "radius.User" (fields_in Radius.UserTypes.user) Namespaced.Radius.namespaced_copy_user
    ∷ entry "radius.UserList" (fields_in Radius.UserTypes.user_list)
        Namespaced.Radius.namespaced_copy_user_list
    ∷ entry "route.StaticRoute" (fields_in Route.StaticRouteTypes.static_route)
        Namespaced.Route.namespaced_copy_static_route
    ∷ entry "route.StaticRouteList" (fields_in Route.StaticRouteTypes.static_route_list)
        Namespaced.Route.namespaced_copy_static_route_list
    ∷ entry "route.TrafficRoute" (fields_in Route.TrafficRouteTypes.traffic_route)
        Namespaced.Route.namespaced_copy_traffic_route
    ∷ entry "route.TrafficRouteList" (fields_in Route.TrafficRouteTypes.traffic_route_list)
        Namespaced.Route.namespaced_copy_traffic_route_list
    ∷ entry "wlan.ApGroup" (fields_in Wlan.ApGroupTypes.ap_group)
        Namespaced.Wlan.namespaced_copy_ap_group
    ∷ entry "wlan.ApGroupList" (fields_in Wlan.ApGroupTypes.ap_group_list)
        Namespaced.Wlan.namespaced_copy_ap_group_list
    ∷ entry "wlan.Wlan" (fields_in Wlan.WlanTypes.wlan) Namespaced.Wlan.namespaced_copy_wlan
    ∷ entry "wlan.WlanList" (fields_in Wlan.WlanTypes.wlan_list)
        Namespaced.Wlan.namespaced_copy_wlan_list
    ∷ entry "port.Forward" (fields_in Port.ForwardTypes.forward)
        Namespaced.Port.namespaced_copy_forward
    ∷ entry "port.ForwardList" (fields_in Port.ForwardTypes.forward_list)
        Namespaced.Port.namespaced_copy_forward_list
    ∷ entry "port.Profile" (fields_in Port.ProfileTypes.profile)
        Namespaced.Port.namespaced_copy_profile
    ∷ entry "port.ProfileList" (fields_in Port.ProfileTypes.profile_list)
        Namespaced.Port.namespaced_copy_profile_list
    ∷ entry "firewall.Group" (fields_in Firewall.GroupTypes.group)
        Namespaced.Firewall.namespaced_copy_group
    ∷ entry "firewall.GroupList" (fields_in Firewall.GroupTypes.group_list)
        Namespaced.Firewall.namespaced_copy_group_list
    ∷ entry "firewall.Policy" (fields_in Firewall.PolicyTypes.policy)
        Namespaced.Firewall.namespaced_copy_policy
    ∷ entry "firewall.PolicyList" (fields_in Firewall.PolicyTypes.policy_list)
        Namespaced.Firewall.namespaced_copy_policy_list
    ∷ entry "firewall.Rule" (fields_in Firewall.RuleTypes.rule_object)
        Namespaced.Firewall.namespaced_copy_rule_object
    ∷ entry "firewall.RuleList" (fields_in Firewall.RuleTypes.rule_list)
        Namespaced.Firewall.namespaced_copy_rule_list
    ∷ entry "firewall.Zone" (fields_in Firewall.ZoneTypes.zone)
        Namespaced.Firewall.namespaced_copy_zone
    ∷ entry "firewall.ZoneList" (fields_in Firewall.ZoneTypes.zone_list)
        Namespaced.Firewall.namespaced_copy_zone_list
    ∷ entry "vpn.Client" (fields_in Vpn.ClientTypes.client) Namespaced.Vpn.namespaced_copy_client
    ∷ entry "vpn.ClientList" (fields_in Vpn.ClientTypes.client_list)
        Namespaced.Vpn.namespaced_copy_client_list
    ∷ entry "vpn.Peer" (fields_in Vpn.PeerTypes.peer) Namespaced.Vpn.namespaced_copy_peer
    ∷ entry "vpn.PeerList" (fields_in Vpn.PeerTypes.peer_list)
        Namespaced.Vpn.namespaced_copy_peer_list
    ∷ entry "vpn.Server" (fields_in Vpn.ServerTypes.server) Namespaced.Vpn.namespaced_copy_server
    ∷ entry "vpn.ServerList" (fields_in Vpn.ServerTypes.server_list)
        Namespaced.Vpn.namespaced_copy_server_list
    ∷ entry "vpn.ToSiteVPN" (fields_in Vpn.ToSiteVpnTypes.to_site_vpn)
        Namespaced.Vpn.namespaced_copy_to_site_vpn
    ∷ entry "vpn.ToSiteVPNList" (fields_in Vpn.ToSiteVpnTypes.to_site_vpn_list)
        Namespaced.Vpn.namespaced_copy_to_site_vpn_list
    ∷ entry "device.Client" (fields_in Device.ClientTypes.client)
        Namespaced.Device.namespaced_copy_client
    ∷ entry "device.ClientList" (fields_in Device.ClientTypes.client_list)
        Namespaced.Device.namespaced_copy_client_list
    ∷ entry "device.QosRate" (fields_in Device.QosRateTypes.qos_rate)
        Namespaced.Device.namespaced_copy_qos_rate
    ∷ entry "device.QosRateList" (fields_in Device.QosRateTypes.qos_rate_list)
        Namespaced.Device.namespaced_copy_qos_rate_list
    ∷ entry "device.Supervisor" (fields_in Device.SupervisorTypes.supervisor)
        Namespaced.Device.namespaced_copy_supervisor
    ∷ entry "device.SupervisorList" (fields_in Device.SupervisorTypes.supervisor_list)
        Namespaced.Device.namespaced_copy_supervisor_list
    ∷ entry "namespaced_config.ProviderConfig" NamespacedConfig.ProviderConfigTypes.provider_config
        NamespacedConfig.ProviderConfigMethods.copy_provider_config
    ∷ entry "namespaced_config.ProviderConfigList"
        NamespacedConfig.ProviderConfigTypes.provider_config_list
        NamespacedConfig.ProviderConfigMethods.copy_provider_config_list
    ∷ entry "namespaced_config.ProviderConfigUsage"
        NamespacedConfig.ProviderConfigUsageTypes.provider_config_usage
        NamespacedConfig.ProviderConfigUsageMethods.copy_provider_config_usage
    ∷ entry "namespaced_config.ProviderConfigUsageList"
        NamespacedConfig.ProviderConfigUsageTypes.provider_config_usage_list
        NamespacedConfig.ProviderConfigUsageMethods.copy_provider_config_usage_list
    ∷ entry "namespaced_config.ClusterProviderConfig"
        NamespacedConfig.ClusterProviderConfigTypes.cluster_provider_config
        NamespacedConfig.ClusterProviderConfigMethods.copy_cluster_provider_config
    ∷ entry "namespaced_config.ClusterProviderConfigList"
        NamespacedConfig.ClusterProviderConfigTypes.cluster_provider_config_list
        NamespacedConfig.ClusterProviderConfigMethods.copy_cluster_provider_config_list
    ∷ []

abbrev is_fitting : String → FieldTypes × Method → Bool
is_fitting name (ts, m) = fits ts m

all_fitting : (scope : Scope) → all_entries is_fitting (generated scope) ≡ true
unfolding all_entries generated fits in_namespace fields_in namespaced_name
all_fitting cluster = refl
all_fitting namespaced = refl

-- Every type of the table of a scope has a method that fits it: with the types of its fields as the
-- structs declare them, no pointer and no slice is left to the plain assignment.
pub generated-fits :
    (scope : Scope) (name : String) (ts : FieldTypes) (m : Method)
    → Dict.get name (generated scope) ≡ some (ts, m)
    → fits ts m ≡ true
generated-fits scope name ts m h =
    all_entries-get is_fitting (generated scope) name (ts, m) (all_fitting scope) h
