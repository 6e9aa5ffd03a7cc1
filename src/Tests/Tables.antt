-- ===== src/Tests/Tables.antt =====
-- The tables of the configuration and the list of controllers, at some of their entries.
use text.Mathlib.Text.{◌==◌}
use provider_upjet_unifi.Base.{◌≡◌, refl, String, true, none, some, [], ◌∷◌, if◌then◌else◌}
use provider_upjet_unifi.Base.Dict
use provider_upjet_unifi.Base.Dict.{Dict}
use provider_upjet_unifi.Config.Resource.{Resource, Reference, to}
use provider_upjet_unifi.Config.ExternalName.{external_name_configured}
use provider_upjet_unifi.Config.ExternalName.Patterns.{external_name_configured-eq-patterns}
use provider_upjet_unifi.Config.Unifi.{configure_over}
use provider_upjet_unifi.Config.Unifi.Tables.{short_groups, references, res_firewall_group}
use provider_upjet_unifi.Config.Unifi.Configure.{Registry}
use provider_upjet_unifi.Config.Unifi.Configured.{HasTables, configure_over-HasTables}
use provider_upjet_unifi.Config.Unifi.Consistency.{references-resolve}
use provider_upjet_unifi.Controller.Kinds.{ManagedKind}
use provider_upjet_unifi.Controller.Coverage.{kinds, has-kinds}

-- A provider that is the function it applies to a resource.
abbrev registry : Registry String
registry = record {
  Provider = Resource String → Resource String;
  add = λ name f p r. if name == r.name then f (p r) else p r;
  applied = λ p r. p r;
  applied-add = λ name f p r. refl;
}

abbrev route : Resource String
route = record {
  name = "unifi_static_route";
  short_group = "unifi";
  kind = "Route";
  references = [];
  external_name = "";
  schema = none;
}

short_groups-unique : Dict.unique short_groups ≡ true
unfolding short_groups Dict.get
short_groups-unique = refl

configure_over-HasTables_example :
    HasTables "unifi_static_route"
      (registry.applied (λ r. r) route)
      (registry.applied (configure_over registry.add short_groups (λ r. r)) route)
configure_over-HasTables_example =
    configure_over-HasTables registry short_groups (λ r. r) route short_groups-unique (λ name. refl)

abbrev limited : Dict Reference
limited = ("source_limiting.firewall_group_id", to res_firewall_group) ∷ []

references-resolve_example :
    (Dict.has "unifi_port_forward" short_groups ≡ true)
    × (Dict.has res_firewall_group short_groups ≡ true)
unfolding references Dict.get
references-resolve_example =
    references-resolve "unifi_port_forward" "source_limiting.firewall_group_id" limited
      (to res_firewall_group) refl refl

abbrev identifier : String
identifier = "identifier"

external_name_configured-eq-patterns_example :
    external_name_configured (("a", tt) ∷ ("b", tt) ∷ []) ≡ some ("a$" ∷ "b$" ∷ [])
external_name_configured-eq-patterns_example =
    external_name_configured-eq-patterns (("a", tt) ∷ ("b", tt) ∷ [])

abbrev static_route : ManagedKind
static_route = record {
  group = "route";
  kind = "StaticRoute";
  terraform_name = "unifi_static_route";
}

static_route_listed : Dict.get "unifi_static_route" kinds ≡ some static_route
unfolding kinds Dict.get
static_route_listed = refl

has-kinds_example :
    (Dict.has "unifi_wan" kinds ≡ Dict.has "unifi_wan" short_groups) × (Dict.unique kinds ≡ true)
has-kinds_example = has-kinds "unifi_wan"
