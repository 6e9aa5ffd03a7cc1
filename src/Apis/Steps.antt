-- ===== src/Apis/Steps.antt =====
-- The blocks of the ResolveReferences methods, in their order. The methods of the cluster and of the
-- namespaced scope have the same blocks, each once for Spec.ForProvider and once for
-- Spec.InitProvider.
use provider_upjet_unifi.Base.{String, List, [], ◌∷◌}
use provider_upjet_unifi.Base.Dict.{Dict}
use provider_upjet_unifi.Apis.{To, Step, resolves, resolves_multiple, within, each}

abbrev pub to_type : String → String → To
to_type group kind = record { group = group; kind = kind }

abbrev pub account_account : List Step
account_account = resolves "NetworkID" (to_type "network" "Network") ∷ []

abbrev pub device_client : List Step
device_client = resolves "NetworkID" (to_type "network" "Network") ∷ []

abbrev pub device_device : List Step
device_device =
    resolves "MgmtNetworkID" (to_type "network" "Network")
    ∷ each "PortOverride" "i3"
        (resolves_multiple "ExcludedNetworkconfIds" (to_type "network" "Network"))
    ∷ each "PortOverride" "i3"
        (resolves_multiple "MulticastRouterNetworkconfIds" (to_type "network" "Network"))
    ∷ each "PortOverride" "i3" (resolves "NativeNetworkconfID" (to_type "network" "Network"))
    ∷ each "PortOverride" "i3" (resolves "PortProfileID" (to_type "port" "Profile"))
    ∷ each "PortOverride" "i3"
        (resolves_multiple "TaggedNetworkconfIds" (to_type "network" "Network"))
    ∷ each "PortOverride" "i3" (resolves "VoiceNetworkconfID" (to_type "network" "Network"))
    ∷ []

abbrev pub firewall_policy : List Step
firewall_policy =
    within "Destination" (resolves "IPGroupID" (to_type "firewall" "Group"))
    ∷ within "Destination" (resolves_multiple "NetworkIds" (to_type "network" "Network"))
    ∷ within "Destination" (resolves "PortGroupID" (to_type "firewall" "Group"))
    ∷ within "Destination" (resolves "ZoneID" (to_type "firewall" "Zone"))
    ∷ within "Source" (resolves "IPGroupID" (to_type "firewall" "Group"))
    ∷ within "Source" (resolves_multiple "NetworkIds" (to_type "network" "Network"))
    ∷ within "Source" (resolves "PortGroupID" (to_type "firewall" "Group"))
    ∷ within "Source" (resolves "ZoneID" (to_type "firewall" "Zone"))
    ∷ []

abbrev pub firewall_rule : List Step
firewall_rule =
    resolves_multiple "DstFirewallGroupIds" (to_type "firewall" "Group")
    ∷ resolves "DstNetworkID" (to_type "network" "Network")
    ∷ resolves_multiple "SrcFirewallGroupIds" (to_type "firewall" "Group")
    ∷ resolves "SrcNetworkID" (to_type "network" "Network")
    ∷ []

abbrev pub firewall_zone : List Step
firewall_zone = resolves_multiple "NetworkIds" (to_type "network" "Network") ∷ []

abbrev pub port_forward : List Step
port_forward =
    within "SourceLimiting" (resolves "FirewallGroupID" (to_type "firewall" "Group")) ∷ []

abbrev pub port_profile : List Step
port_profile =
    resolves_multiple "ExcludedNetworkconfIds" (to_type "network" "Network")
    ∷ resolves_multiple "MulticastRouterNetworkconfIds" (to_type "network" "Network")
    ∷ resolves "NativeNetworkconfID" (to_type "network" "Network")
    ∷ resolves_multiple "TaggedNetworkconfIds" (to_type "network" "Network")
    ∷ resolves "VoiceNetworkconfID" (to_type "network" "Network")
    ∷ []

abbrev pub radius_user : List Step
radius_user = resolves "NetworkID" (to_type "network" "Network") ∷ []

abbrev pub route_traffic_route : List Step
route_traffic_route = resolves "NetworkID" (to_type "vpn" "Client") ∷ []

abbrev pub setting_setting : List Step
setting_setting =
    within "IgmpSnooping" (resolves_multiple "NetworkIds" (to_type "network" "Network"))
    ∷ within "Ips" (each "Honeypot" "i4" (resolves "NetworkID" (to_type "network" "Network")))
    ∷ []

abbrev pub vpn_server : List Step
vpn_server = resolves "RadiusprofileID" (to_type "radius" "Profile") ∷ []

abbrev pub wlan_wlan : List Step
wlan_wlan =
    resolves_multiple "ApGroupIds" (to_type "wlan" "ApGroup")
    ∷ resolves "NetworkID" (to_type "network" "Network")
    ∷ each "PrivatePresharedKeys" "i3" (resolves "NetworkID" (to_type "network" "Network"))
    ∷ resolves "RadiusProfileID" (to_type "radius" "Profile")
    ∷ []

-- The methods by the Terraform resource of their kind.
unfoldable pub resolvers : Dict (List Step)
resolvers =
    ("unifi_account", account_account)
    ∷ ("unifi_client", device_client)
    ∷ ("unifi_device", device_device)
    ∷ ("unifi_firewall_policy", firewall_policy)
    ∷ ("unifi_firewall_rule", firewall_rule)
    ∷ ("unifi_firewall_zone", firewall_zone)
    ∷ ("unifi_port_forward", port_forward)
    ∷ ("unifi_port_profile", port_profile)
    ∷ ("unifi_radius_user", radius_user)
    ∷ ("unifi_traffic_route", route_traffic_route)
    ∷ ("unifi_setting", setting_setting)
    ∷ ("unifi_vpn_server", vpn_server)
    ∷ ("unifi_wlan", wlan_wlan)
    ∷ []
