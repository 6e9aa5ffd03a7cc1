-- ===== src/Tests/Assembly.antt =====
-- The two providers, over an upjet whose provider is the function that it applies to a resource.
use package.text.Mathlib.Text.{◌==◌}
use provider_upjet_unifi.Base.{◌≡◌, refl, String, true, some, [], if◌then◌else◌}
use provider_upjet_unifi.Base.Dict
use provider_upjet_unifi.Text.{Text, text, text_eq, cut_suffix}
use provider_upjet_unifi.Config.WriteOnly.{
  Attributes, nil, cons, schema, other, find, write_only_base, write_only_version_base,
}
use provider_upjet_unifi.Config.Resource.{Resource}
use provider_upjet_unifi.Config.ExternalName.{external_name_configs}
use provider_upjet_unifi.Config.Unifi.Tables.{short_groups}
use provider_upjet_unifi.Config.Unifi.Configure.{Registry}
use provider_upjet_unifi.Controller.{namespaced}
use provider_upjet_unifi.Controller.Kinds.{ManagedKind}
use provider_upjet_unifi.Controller.Coverage.{kinds}
use provider_upjet_unifi.Apis.Scheme.Registered.{IsKnown, kinds-IsKnown}
use provider_upjet_unifi.Config.Provider.{Upjet, apply_all, default_options, get_provider}
use provider_upjet_unifi.Config.Provider.Assembled.{IsFinished, resource-get_provider}

abbrev pub registry : Registry String
registry = record {
  Provider = Resource String → Resource String;
  add = λ name f p r. if name == r.name then f (p r) else p r;
  applied = λ p r. p r;
  applied-add = λ name f p r. refl;
}

abbrev pub upjet : Upjet String
upjet = record {
  registry = registry;
  new_provider = λ o. some (λ r. apply_all o.default_resource_options r);
  configure_resources = λ p. p;
  resource = λ p r. p r;
  applied-new_provider = λ o p r h. cc h;
  resource-configure_resources = λ p r. refl;
}

abbrev pub identifier : String
identifier = "identifier"

abbrev pub unchanged : Text → Text
unchanged s = s

-- A password and its write-only form.
abbrev attributes : Attributes
attributes =
    cons (text "key") (schema (text "Key.") true other)
      (cons (text "key_wo") (schema (text "Write-only.") true other) nil)

abbrev wan : Resource String
wan = record {
  name = "unifi_wan";
  short_group = "unifi";
  kind = "Wan";
  references = [];
  external_name = "";
  schema = some attributes;
}

short_groups-unique_entries : Dict.unique short_groups ≡ true
unfolding short_groups Dict.get
short_groups-unique_entries = refl

resource-get_provider_example :
    (p : Resource String → Resource String) × (get_provider upjet identifier unchanged
        (external_name_configs identifier)
        short_groups
      ≡ some p)
    × IsFinished identifier unchanged wan (p wan) attributes
unfolding find text_eq write_only_base cut_suffix write_only_version_base
resource-get_provider_example =
    resource-get_provider upjet identifier unchanged (external_name_configs identifier) short_groups
      (λ r. apply_all (default_options upjet identifier unchanged) r) wan attributes refl
      short_groups-unique_entries (λ name. refl) refl (refl, (refl, tt)) refl

abbrev wan_kind : ManagedKind
wan_kind = record { group = "network"; kind = "Wan"; terraform_name = "unifi_wan" }

wan_kind_is_reconciled : Dict.get "unifi_wan" kinds ≡ some wan_kind
unfolding kinds Dict.get
wan_kind_is_reconciled = refl

kinds-IsKnown_example : IsKnown upjet identifier unchanged [] namespaced wan_kind
kinds-IsKnown_example =
    kinds-IsKnown upjet identifier unchanged [] namespaced "unifi_wan" wan_kind
      wan_kind_is_reconciled
