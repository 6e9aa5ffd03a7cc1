-- ===== src/Apis/Methods.antt =====
-- The ResolveReferences methods of both scopes: their blocks, and the resolver that they make.
use provider_upjet_unifi.Base.{String, ◌≡◌, refl, [], ◌∷◌, List}
use provider_upjet_unifi.Base.Dict.{Dict}
use provider_upjet_unifi.Controller.{Scope, cluster, namespaced}
use provider_upjet_unifi.Apis.{Types, Step, Resolver, Spec, Ran, resolve_references}
use provider_upjet_unifi.Apis.Steps.{
  resolvers, account_account, device_client, device_device, firewall_policy, firewall_rule,
  firewall_zone, port_forward, port_profile, radius_user, route_traffic_route, setting_setting,
  vpn_server, wlan_wlan,
}

pub record Method : Type 0 where
  pub scope : Scope
  pub steps : List Step

abbrev pub method_in : Scope → List Step → Method
method_in scope steps = record { scope = scope; steps = steps }

abbrev pub namespaced_account_account : Method
namespaced_account_account = method_in namespaced account_account

abbrev pub namespaced_device_client : Method
namespaced_device_client = method_in namespaced device_client

abbrev pub namespaced_device_device : Method
namespaced_device_device = method_in namespaced device_device

abbrev pub namespaced_firewall_policy : Method
namespaced_firewall_policy = method_in namespaced firewall_policy

abbrev pub namespaced_firewall_rule : Method
namespaced_firewall_rule = method_in namespaced firewall_rule

abbrev pub namespaced_firewall_zone : Method
namespaced_firewall_zone = method_in namespaced firewall_zone

abbrev pub namespaced_port_forward : Method
namespaced_port_forward = method_in namespaced port_forward

abbrev pub namespaced_port_profile : Method
namespaced_port_profile = method_in namespaced port_profile

abbrev pub namespaced_radius_user : Method
namespaced_radius_user = method_in namespaced radius_user

abbrev pub namespaced_route_traffic_route : Method
namespaced_route_traffic_route = method_in namespaced route_traffic_route

abbrev pub namespaced_setting_setting : Method
namespaced_setting_setting = method_in namespaced setting_setting

abbrev pub namespaced_vpn_server : Method
namespaced_vpn_server = method_in namespaced vpn_server

abbrev pub namespaced_wlan_wlan : Method
namespaced_wlan_wlan = method_in namespaced wlan_wlan

abbrev pub methods : Scope → Dict Method
methods cluster =
    ("unifi_account", method_in cluster account_account)
    ∷ ("unifi_client", method_in cluster device_client)
    ∷ ("unifi_device", method_in cluster device_device)
    ∷ ("unifi_firewall_policy", method_in cluster firewall_policy)
    ∷ ("unifi_firewall_rule", method_in cluster firewall_rule)
    ∷ ("unifi_firewall_zone", method_in cluster firewall_zone)
    ∷ ("unifi_port_forward", method_in cluster port_forward)
    ∷ ("unifi_port_profile", method_in cluster port_profile)
    ∷ ("unifi_radius_user", method_in cluster radius_user)
    ∷ ("unifi_traffic_route", method_in cluster route_traffic_route)
    ∷ ("unifi_setting", method_in cluster setting_setting)
    ∷ ("unifi_vpn_server", method_in cluster vpn_server)
    ∷ ("unifi_wlan", method_in cluster wlan_wlan)
    ∷ []
methods namespaced =
    ("unifi_account", namespaced_account_account)
    ∷ ("unifi_client", namespaced_device_client)
    ∷ ("unifi_device", namespaced_device_device)
    ∷ ("unifi_firewall_policy", namespaced_firewall_policy)
    ∷ ("unifi_firewall_rule", namespaced_firewall_rule)
    ∷ ("unifi_firewall_zone", namespaced_firewall_zone)
    ∷ ("unifi_port_forward", namespaced_port_forward)
    ∷ ("unifi_port_profile", namespaced_port_profile)
    ∷ ("unifi_radius_user", namespaced_radius_user)
    ∷ ("unifi_traffic_route", namespaced_route_traffic_route)
    ∷ ("unifi_setting", namespaced_setting_setting)
    ∷ ("unifi_vpn_server", namespaced_vpn_server)
    ∷ ("unifi_wlan", namespaced_wlan_wlan)
    ∷ []

abbrev in_scope : Scope → Dict (List Step) → Dict Method
in_scope scope [] = []
in_scope scope ((name, steps) ∷ rest) = (name, method_in scope steps) ∷ in_scope scope rest

-- The resources that have such a method, and the blocks of the methods, are the same in both scopes.
pub methods-eq : (scope : Scope) → methods scope ≡ in_scope scope resolvers
unfolding resolvers
methods-eq cluster = refl
methods-eq namespaced = refl

-- reference.NewAPIResolver and reference.NewAPINamespacedResolver, one of which a method calls first.
pub record Resolvers (T : Types) : Type 0 where
  pub new_api_resolver : Resolver T
  pub new_api_namespaced_resolver : Resolver T

module _ {T : Types} (r : Resolvers T) where
  abbrev pub resolver_of : Scope → Resolver T
  resolver_of cluster = r.new_api_resolver
  resolver_of namespaced = r.new_api_namespaced_resolver

  -- The method of a resource, in the resource's namespace.
  abbrev pub run_method : Method → String → Spec T → T.World → Ran T (Spec T)
  run_method m namespace mg w = resolve_references (resolver_of m.scope) namespace m.steps mg w
