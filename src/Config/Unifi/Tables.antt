-- ===== src/Config/Unifi/Tables.antt =====
-- The tables of config/unifi/config.go. Go leaves open in which order they are visited: the
-- theorems about the loops over them do not depend on it.
use provider_upjet_unifi.Base.{String, [], ◌∷◌}
use provider_upjet_unifi.Base.Dict.{Dict}
use provider_upjet_unifi.Config.Resource.{Reference, to}

abbrev pub res_vpn_client : String
res_vpn_client = "unifi_vpn_client"

abbrev pub res_firewall_group : String
res_firewall_group = "unifi_firewall_group"

abbrev pub res_firewall_zone : String
res_firewall_zone = "unifi_firewall_zone"

abbrev pub res_network : String
res_network = "unifi_network"

abbrev pub field_network_id : String
field_network_id = "network_id"

unfoldable pub short_groups : Dict String
short_groups =
    ("unifi_account", "account")
    ∷ ("unifi_dns_record", "dns")
    ∷ ("unifi_device", "device")
    ∷ ("unifi_client", "device")
    ∷ ("unifi_client_qos_rate", "device")
    ∷ ("unifi_power_supervisor", "device")
    ∷ (res_firewall_group, "firewall")
    ∷ ("unifi_firewall_policy", "firewall")
    ∷ ("unifi_firewall_rule", "firewall")
    ∷ (res_firewall_zone, "firewall")
    ∷ (res_network, "network")
    ∷ ("unifi_wan", "network")
    ∷ ("unifi_bgp", "network")
    ∷ ("unifi_port_forward", "port")
    ∷ ("unifi_port_profile", "port")
    ∷ ("unifi_radius_profile", "radius")
    ∷ ("unifi_radius_user", "radius")
    ∷ ("unifi_static_route", "route")
    ∷ ("unifi_traffic_route", "route")
    ∷ ("unifi_setting", "setting")
    ∷ ("unifi_dynamic_dns", "setting")
    ∷ ("unifi_site", "site")
    ∷ ("unifi_site_to_site_vpn", "vpn")
    ∷ (res_vpn_client, "vpn")
    ∷ ("unifi_vpn_server", "vpn")
    ∷ ("unifi_wireguard_peer", "vpn")
    ∷ ("unifi_wlan", "wlan")
    ∷ ("unifi_ap_group", "wlan")
    ∷ []

unfoldable pub kind_overrides : Dict String
kind_overrides =
    ("unifi_static_route", "StaticRoute")
    ∷ ("unifi_traffic_route", "TrafficRoute")
    ∷ ("unifi_ap_group", "ApGroup")
    ∷ []

unfoldable pub references : Dict (Dict Reference)
references =
    ("unifi_traffic_route", (field_network_id, to res_vpn_client) ∷ [])
    ∷ (
      "unifi_firewall_rule",
      ("src_firewall_group_ids", to res_firewall_group)
          ∷ ("dst_firewall_group_ids", to res_firewall_group)
          ∷ ("src_network_id", to res_network)
          ∷ ("dst_network_id", to res_network)
          ∷ [],
    )
    ∷ (
      "unifi_wlan",
      ("ap_group_ids", to "unifi_ap_group")
          ∷ (field_network_id, to res_network)
          ∷ ("radius_profile_id", to "unifi_radius_profile")
          ∷ ("private_preshared_keys.network_id", to res_network)
          ∷ [],
    )
    ∷ ("unifi_radius_user", (field_network_id, to res_network) ∷ [])
    ∷ ("unifi_vpn_server", ("radiusprofile_id", to "unifi_radius_profile") ∷ [])
    ∷ ("unifi_account", (field_network_id, to res_network) ∷ [])
    ∷ ("unifi_client", (field_network_id, to res_network) ∷ [])
    ∷ (
      "unifi_device",
      ("mgmt_network_id", to res_network)
          ∷ ("port_override.port_profile_id", to "unifi_port_profile")
          ∷ ("port_override.native_networkconf_id", to res_network)
          ∷ ("port_override.voice_networkconf_id", to res_network)
          ∷ ("port_override.tagged_networkconf_ids", to res_network)
          ∷ ("port_override.excluded_networkconf_ids", to res_network)
          ∷ ("port_override.multicast_router_networkconf_ids", to res_network)
          ∷ [],
    )
    ∷ (res_firewall_zone, ("network_ids", to res_network) ∷ [])
    ∷ (
      "unifi_port_profile",
      ("native_networkconf_id", to res_network)
          ∷ ("voice_networkconf_id", to res_network)
          ∷ ("tagged_networkconf_ids", to res_network)
          ∷ ("excluded_networkconf_ids", to res_network)
          ∷ ("multicast_router_networkconf_ids", to res_network)
          ∷ [],
    )
    ∷ (
      "unifi_setting",
      ("igmp_snooping.network_ids", to res_network)
          ∷ ("ips.honeypot.network_id", to res_network)
          ∷ [],
    )
    ∷ (
      "unifi_firewall_policy",
      ("source.network_ids", to res_network)
          ∷ ("source.zone_id", to res_firewall_zone)
          ∷ ("destination.network_ids", to res_network)
          ∷ ("destination.zone_id", to res_firewall_zone)
          ∷ ("source.ip_group_id", to res_firewall_group)
          ∷ ("source.port_group_id", to res_firewall_group)
          ∷ ("destination.ip_group_id", to res_firewall_group)
          ∷ ("destination.port_group_id", to res_firewall_group)
          ∷ [],
    )
    ∷ ("unifi_port_forward", ("source_limiting.firewall_group_id", to res_firewall_group) ∷ [])
    ∷ []
