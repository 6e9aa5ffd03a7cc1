-- ===== src/Config/ExternalName.antt =====
-- config/external_name.go. `identifier_from_provider` stands for upjet's value of that name.
use provider_upjet_unifi.Base.{ℕ, zero, suc, ◌+◌, String, ◌<>◌, Option, none, some, List, [], ◌∷◌}
use provider_upjet_unifi.Base.Dict
use provider_upjet_unifi.Base.Dict.{Dict}
use provider_upjet_unifi.Config.Resource.{Resource}
pub mod Patterns

module _ {E : Type 0} (identifier_from_provider : E) where
  unfoldable pub external_name_configs : Dict E
  external_name_configs =
      ("unifi_account", identifier_from_provider)
      ∷ ("unifi_ap_group", identifier_from_provider)
      ∷ ("unifi_bgp", identifier_from_provider)
      ∷ ("unifi_client", identifier_from_provider)
      ∷ ("unifi_client_qos_rate", identifier_from_provider)
      ∷ ("unifi_device", identifier_from_provider)
      ∷ ("unifi_dns_record", identifier_from_provider)
      ∷ ("unifi_dynamic_dns", identifier_from_provider)
      ∷ ("unifi_firewall_group", identifier_from_provider)
      ∷ ("unifi_firewall_policy", identifier_from_provider)
      ∷ ("unifi_firewall_rule", identifier_from_provider)
      ∷ ("unifi_firewall_zone", identifier_from_provider)
      ∷ ("unifi_network", identifier_from_provider)
      ∷ ("unifi_port_forward", identifier_from_provider)
      ∷ ("unifi_port_profile", identifier_from_provider)
      ∷ ("unifi_power_supervisor", identifier_from_provider)
      ∷ ("unifi_radius_profile", identifier_from_provider)
      ∷ ("unifi_radius_user", identifier_from_provider)
      ∷ ("unifi_setting", identifier_from_provider)
      ∷ ("unifi_site", identifier_from_provider)
      ∷ ("unifi_site_to_site_vpn", identifier_from_provider)
      ∷ ("unifi_static_route", identifier_from_provider)
      ∷ ("unifi_traffic_route", identifier_from_provider)
      ∷ ("unifi_vpn_client", identifier_from_provider)
      ∷ ("unifi_vpn_server", identifier_from_provider)
      ∷ ("unifi_wan", identifier_from_provider)
      ∷ ("unifi_wireguard_peer", identifier_from_provider)
      ∷ ("unifi_wlan", identifier_from_provider)
      ∷ []

  abbrev pub named : Option E → Resource E → Resource E
  named none r = r
  named (some e) r = record r { external_name = e }

  -- The resource option that ExternalNameConfigurations returns.
  unfoldable pub external_name_configurations : Resource E → Resource E
  external_name_configurations r = named (Dict.get r.name external_name_configs) r

-- make([]string, n)
pub make : ℕ → List String
make zero = []
make (suc n) = "" ∷ make n

-- l[i] = v, which panics out of range.
pub set : List String → ℕ → String → Option (List String)
set [] i v = none
set (x ∷ l) zero v = some (v ∷ l)
set (x ∷ l) (suc i) v = elim (set l i v) [ none ↦ none | some l' ↦ some (x ∷ l') ]

-- The loop over the table, with `l` and `i` as the rounds before left them; `none` is a panic.
pub fill : {V : Type 0} → Dict V → List String → ℕ → Option (List String)
fill [] l i = some l
fill ((name, v) ∷ rest) l i = elim (set l i (name <> "$")) [
  | none ↦ none
  | some l' ↦ fill rest l' (i + 1)
]

abbrev pub count : {V : Type 0} → Dict V → ℕ
count [] = 0
count (entry ∷ rest) = suc (count rest)

-- ExternalNameConfigured, over the table in the order in which Go visits it.
unfoldable pub external_name_configured : {V : Type 0} → Dict V → Option (List String)
unfolding make set fill
external_name_configured configs = fill configs (make (count configs)) 0
