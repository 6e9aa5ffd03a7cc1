-- ===== src/Controller/Packages.antt =====
-- The packages of internal/controller: the zz_controller.go of each kind, which are alike but for the
-- kind, and config.go of the provider configurations.
use provider_upjet_unifi.Base.{◌≡◌, refl, List, [], ◌∷◌}
use provider_upjet_unifi.Controller.{
  Scope, cluster, namespaced, Options, Manager, Functions, functions_of, setup, setup_gated,
  setup_webhook_with_manager, run_all,
}
use provider_upjet_unifi.Controller.Kinds.{
  managed, provider_config, controllers, account_kind, device_client_kind, device_kind,
  device_qos_rate_kind, device_supervisor_kind, dns_record_kind, firewall_group_kind,
  firewall_policy_kind, firewall_rule_kind, firewall_zone_kind, network_bgp_kind, network_kind,
  network_wan_kind, port_forward_kind, port_profile_kind, radius_profile_kind, radius_user_kind,
  route_static_route_kind, route_traffic_route_kind, setting_dns_kind, setting_kind, site_kind,
  vpn_client_kind, vpn_peer_kind, vpn_server_kind, vpn_to_site_vpn_kind, wlan_ap_group_kind,
  wlan_kind,
}

module _ (m : Manager) where
  abbrev pub cluster_account_functions : Functions m
  cluster_account_functions = functions_of m cluster (managed account_kind)

  abbrev pub cluster_device_client_functions : Functions m
  cluster_device_client_functions = functions_of m cluster (managed device_client_kind)

  abbrev pub cluster_device_functions : Functions m
  cluster_device_functions = functions_of m cluster (managed device_kind)

  abbrev pub cluster_device_qos_rate_functions : Functions m
  cluster_device_qos_rate_functions = functions_of m cluster (managed device_qos_rate_kind)

  abbrev pub cluster_device_supervisor_functions : Functions m
  cluster_device_supervisor_functions = functions_of m cluster (managed device_supervisor_kind)

  abbrev pub cluster_dns_record_functions : Functions m
  cluster_dns_record_functions = functions_of m cluster (managed dns_record_kind)

  abbrev pub cluster_firewall_group_functions : Functions m
  cluster_firewall_group_functions = functions_of m cluster (managed firewall_group_kind)

  abbrev pub cluster_firewall_policy_functions : Functions m
  cluster_firewall_policy_functions = functions_of m cluster (managed firewall_policy_kind)

  abbrev pub cluster_firewall_rule_functions : Functions m
  cluster_firewall_rule_functions = functions_of m cluster (managed firewall_rule_kind)

  abbrev pub cluster_firewall_zone_functions : Functions m
  cluster_firewall_zone_functions = functions_of m cluster (managed firewall_zone_kind)

  abbrev pub cluster_network_bgp_functions : Functions m
  cluster_network_bgp_functions = functions_of m cluster (managed network_bgp_kind)

  abbrev pub cluster_network_functions : Functions m
  cluster_network_functions = functions_of m cluster (managed network_kind)

  abbrev pub cluster_network_wan_functions : Functions m
  cluster_network_wan_functions = functions_of m cluster (managed network_wan_kind)

  abbrev pub cluster_port_forward_functions : Functions m
  cluster_port_forward_functions = functions_of m cluster (managed port_forward_kind)

  abbrev pub cluster_port_profile_functions : Functions m
  cluster_port_profile_functions = functions_of m cluster (managed port_profile_kind)

  abbrev pub cluster_config_functions : Functions m
  cluster_config_functions = functions_of m cluster provider_config

  abbrev pub cluster_radius_profile_functions : Functions m
  cluster_radius_profile_functions = functions_of m cluster (managed radius_profile_kind)

  abbrev pub cluster_radius_user_functions : Functions m
  cluster_radius_user_functions = functions_of m cluster (managed radius_user_kind)

  abbrev pub cluster_route_static_route_functions : Functions m
  cluster_route_static_route_functions = functions_of m cluster (managed route_static_route_kind)

  abbrev pub cluster_route_traffic_route_functions : Functions m
  cluster_route_traffic_route_functions = functions_of m cluster (managed route_traffic_route_kind)

  abbrev pub cluster_setting_dns_functions : Functions m
  cluster_setting_dns_functions = functions_of m cluster (managed setting_dns_kind)

  abbrev pub cluster_setting_functions : Functions m
  cluster_setting_functions = functions_of m cluster (managed setting_kind)

  abbrev pub cluster_site_functions : Functions m
  cluster_site_functions = functions_of m cluster (managed site_kind)

  abbrev pub cluster_vpn_client_functions : Functions m
  cluster_vpn_client_functions = functions_of m cluster (managed vpn_client_kind)

  abbrev pub cluster_vpn_peer_functions : Functions m
  cluster_vpn_peer_functions = functions_of m cluster (managed vpn_peer_kind)

  abbrev pub cluster_vpn_server_functions : Functions m
  cluster_vpn_server_functions = functions_of m cluster (managed vpn_server_kind)

  abbrev pub cluster_vpn_to_site_vpn_functions : Functions m
  cluster_vpn_to_site_vpn_functions = functions_of m cluster (managed vpn_to_site_vpn_kind)

  abbrev pub cluster_wlan_ap_group_functions : Functions m
  cluster_wlan_ap_group_functions = functions_of m cluster (managed wlan_ap_group_kind)

  abbrev pub cluster_wlan_functions : Functions m
  cluster_wlan_functions = functions_of m cluster (managed wlan_kind)

  abbrev pub namespaced_account_functions : Functions m
  namespaced_account_functions = functions_of m namespaced (managed account_kind)

  abbrev pub namespaced_device_client_functions : Functions m
  namespaced_device_client_functions = functions_of m namespaced (managed device_client_kind)

  abbrev pub namespaced_device_functions : Functions m
  namespaced_device_functions = functions_of m namespaced (managed device_kind)

  abbrev pub namespaced_device_qos_rate_functions : Functions m
  namespaced_device_qos_rate_functions = functions_of m namespaced (managed device_qos_rate_kind)

  abbrev pub namespaced_device_supervisor_functions : Functions m
  namespaced_device_supervisor_functions =
      functions_of m namespaced (managed device_supervisor_kind)

  abbrev pub namespaced_dns_record_functions : Functions m
  namespaced_dns_record_functions = functions_of m namespaced (managed dns_record_kind)

  abbrev pub namespaced_firewall_group_functions : Functions m
  namespaced_firewall_group_functions = functions_of m namespaced (managed firewall_group_kind)

  abbrev pub namespaced_firewall_policy_functions : Functions m
  namespaced_firewall_policy_functions = functions_of m namespaced (managed firewall_policy_kind)

  abbrev pub namespaced_firewall_rule_functions : Functions m
  namespaced_firewall_rule_functions = functions_of m namespaced (managed firewall_rule_kind)

  abbrev pub namespaced_firewall_zone_functions : Functions m
  namespaced_firewall_zone_functions = functions_of m namespaced (managed firewall_zone_kind)

  abbrev pub namespaced_network_bgp_functions : Functions m
  namespaced_network_bgp_functions = functions_of m namespaced (managed network_bgp_kind)

  abbrev pub namespaced_network_functions : Functions m
  namespaced_network_functions = functions_of m namespaced (managed network_kind)

  abbrev pub namespaced_network_wan_functions : Functions m
  namespaced_network_wan_functions = functions_of m namespaced (managed network_wan_kind)

  abbrev pub namespaced_port_forward_functions : Functions m
  namespaced_port_forward_functions = functions_of m namespaced (managed port_forward_kind)

  abbrev pub namespaced_port_profile_functions : Functions m
  namespaced_port_profile_functions = functions_of m namespaced (managed port_profile_kind)

  abbrev pub namespaced_config_functions : Functions m
  namespaced_config_functions = functions_of m namespaced provider_config

  abbrev pub namespaced_radius_profile_functions : Functions m
  namespaced_radius_profile_functions = functions_of m namespaced (managed radius_profile_kind)

  abbrev pub namespaced_radius_user_functions : Functions m
  namespaced_radius_user_functions = functions_of m namespaced (managed radius_user_kind)

  abbrev pub namespaced_route_static_route_functions : Functions m
  namespaced_route_static_route_functions =
      functions_of m namespaced (managed route_static_route_kind)

  abbrev pub namespaced_route_traffic_route_functions : Functions m
  namespaced_route_traffic_route_functions =
      functions_of m namespaced (managed route_traffic_route_kind)

  abbrev pub namespaced_setting_dns_functions : Functions m
  namespaced_setting_dns_functions = functions_of m namespaced (managed setting_dns_kind)

  abbrev pub namespaced_setting_functions : Functions m
  namespaced_setting_functions = functions_of m namespaced (managed setting_kind)

  abbrev pub namespaced_site_functions : Functions m
  namespaced_site_functions = functions_of m namespaced (managed site_kind)

  abbrev pub namespaced_vpn_client_functions : Functions m
  namespaced_vpn_client_functions = functions_of m namespaced (managed vpn_client_kind)

  abbrev pub namespaced_vpn_peer_functions : Functions m
  namespaced_vpn_peer_functions = functions_of m namespaced (managed vpn_peer_kind)

  abbrev pub namespaced_vpn_server_functions : Functions m
  namespaced_vpn_server_functions = functions_of m namespaced (managed vpn_server_kind)

  abbrev pub namespaced_vpn_to_site_vpn_functions : Functions m
  namespaced_vpn_to_site_vpn_functions = functions_of m namespaced (managed vpn_to_site_vpn_kind)

  abbrev pub namespaced_wlan_ap_group_functions : Functions m
  namespaced_wlan_ap_group_functions = functions_of m namespaced (managed wlan_ap_group_kind)

  abbrev pub namespaced_wlan_functions : Functions m
  namespaced_wlan_functions = functions_of m namespaced (managed wlan_kind)

  abbrev cluster_functions : List (Functions m)
  cluster_functions =
      cluster_account_functions ∷ cluster_device_client_functions ∷ cluster_device_functions
      ∷ cluster_device_qos_rate_functions ∷ cluster_device_supervisor_functions
      ∷ cluster_dns_record_functions ∷ cluster_firewall_group_functions
      ∷ cluster_firewall_policy_functions ∷ cluster_firewall_rule_functions
      ∷ cluster_firewall_zone_functions ∷ cluster_network_bgp_functions ∷ cluster_network_functions
      ∷ cluster_network_wan_functions ∷ cluster_port_forward_functions
      ∷ cluster_port_profile_functions ∷ cluster_config_functions ∷ cluster_radius_profile_functions
      ∷ cluster_radius_user_functions ∷ cluster_route_static_route_functions
      ∷ cluster_route_traffic_route_functions ∷ cluster_setting_dns_functions
      ∷ cluster_setting_functions ∷ cluster_site_functions ∷ cluster_vpn_client_functions
      ∷ cluster_vpn_peer_functions ∷ cluster_vpn_server_functions
      ∷ cluster_vpn_to_site_vpn_functions ∷ cluster_wlan_ap_group_functions ∷ cluster_wlan_functions
      ∷ []

  abbrev namespaced_functions : List (Functions m)
  namespaced_functions =
      namespaced_account_functions ∷ namespaced_device_client_functions
      ∷ namespaced_device_functions ∷ namespaced_device_qos_rate_functions
      ∷ namespaced_device_supervisor_functions ∷ namespaced_dns_record_functions
      ∷ namespaced_firewall_group_functions ∷ namespaced_firewall_policy_functions
      ∷ namespaced_firewall_rule_functions ∷ namespaced_firewall_zone_functions
      ∷ namespaced_network_bgp_functions ∷ namespaced_network_functions
      ∷ namespaced_network_wan_functions ∷ namespaced_port_forward_functions
      ∷ namespaced_port_profile_functions ∷ namespaced_config_functions
      ∷ namespaced_radius_profile_functions ∷ namespaced_radius_user_functions
      ∷ namespaced_route_static_route_functions ∷ namespaced_route_traffic_route_functions
      ∷ namespaced_setting_dns_functions ∷ namespaced_setting_functions ∷ namespaced_site_functions
      ∷ namespaced_vpn_client_functions ∷ namespaced_vpn_peer_functions
      ∷ namespaced_vpn_server_functions ∷ namespaced_vpn_to_site_vpn_functions
      ∷ namespaced_wlan_ap_group_functions ∷ namespaced_wlan_functions ∷ []

  -- The packages in the order of zz_setup.go.
  pub functions : Scope → List (Functions m)
  functions cluster = cluster_functions
  functions namespaced = namespaced_functions

  -- The three loops of zz_setup.go are the loops over what the packages of their scope declare.
  pub loops-eq-functions :
      (scope : Scope) (o : Options) (w : m.World)
      → (setup m scope o w ≡ run_all m (λ f. f.setup o) (functions scope) w)
        × (setup_gated m scope o w ≡ run_all m (λ f. f.setup_gated o) (functions scope) w)
        × (setup_webhook_with_manager m scope w
            ≡ run_all m (λ f. f.setup_webhook_with_manager) (functions scope) w)
  unfolding setup setup_gated setup_webhook_with_manager functions controllers run_all
  loops-eq-functions cluster o w = (refl, refl, refl)
  loops-eq-functions namespaced o w = (refl, refl, refl)
