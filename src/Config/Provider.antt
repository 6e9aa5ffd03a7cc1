-- ===== src/Config/Provider.antt =====
-- config/provider.go. upjet's NewProvider and ConfigureResources are fields of `Upjet`; the schema and
-- the metadata that the code embeds are part of what `new_provider` stands for.
use provider_upjet_unifi.Base.{◌≡◌, String, Option, none, some, List, [], ◌∷◌}
use provider_upjet_unifi.Base.Dict.{Dict}
use provider_upjet_unifi.Text.{Text}
use provider_upjet_unifi.Config.Resource.{Resource}
use provider_upjet_unifi.Config.WriteOnly.{write_only_descriptions}
use provider_upjet_unifi.Config.ExternalName.{
  external_name_configurations, external_name_configured,
}
use provider_upjet_unifi.Config.Unifi.{configure_over}
use provider_upjet_unifi.Config.Unifi.Configure.{Registry}
pub mod Assembled

-- The options that the two functions hand to NewProvider.
pub record ProviderOptions (E : Type 0) : Type 0 where
  pub resource_prefix : String
  pub module_path : String
  pub root_group : String
  pub include_list : List String
  pub features_package : String
  pub default_resource_options : List (Resource E → Resource E)
  pub managed_resource_namespace : Option String

abbrev pub apply_all : {E : Type 0} → List (Resource E → Resource E) → Resource E → Resource E
apply_all [] r = r
apply_all (option ∷ rest) r = apply_all rest (option r)

-- NewProvider makes each resource of the schema and applies the default options to it in their
-- order, or panics (`none`); ConfigureResources applies the registered configurators.
pub record Upjet (E : Type 0) : Type 1 where
  pub registry : Registry E
  pub new_provider : ProviderOptions E → Option registry.Provider
  pub configure_resources : registry.Provider → registry.Provider
  -- what a provider holds for a resource that the schema gives as `r`
  pub resource : registry.Provider → Resource E → Resource E
  pub applied-new_provider :
      (o : ProviderOptions E) (p : registry.Provider) (r : Resource E)
      → new_provider o ≡ some p
      → registry.applied p r ≡ apply_all o.default_resource_options r
  pub resource-configure_resources :
      (p : registry.Provider) (r : Resource E)
      → resource (configure_resources p) r ≡ registry.applied p r

-- The resource option that WriteOnlyDescriptions returns.
abbrev pub write_only_option : {E : Type 0} → (Text → Text) → Resource E → Resource E
write_only_option lower_camel r = record r { schema = write_only_descriptions lower_camel r.schema }

module _ {E : Type 0} (U : Upjet E) (identifier_from_provider : E) (lower_camel : Text → Text) where
  open U use {registry, new_provider, configure_resources}

  abbrev pub default_options : List (Resource E → Resource E)
  default_options =
      external_name_configurations identifier_from_provider ∷ write_only_option lower_camel ∷ []

  abbrev pub options : List String → ProviderOptions E
  options include_list = record {
    resource_prefix = "unifi";
    module_path = "github.com/devantler-tech/provider-upjet-unifi";
    root_group = "unifi.crossplane.io";
    include_list = include_list;
    features_package = "internal/features";
    default_resource_options = default_options;
    managed_resource_namespace = none;
  }

  abbrev pub namespaced_options : List String → ProviderOptions E
  namespaced_options include_list = record (options include_list) {
    root_group = "unifi.m.crossplane.io";
    managed_resource_namespace = some "crossplane-system";
  }

  abbrev pub configured_with : Dict String → Option registry.Provider → Option registry.Provider
  configured_with groups none = none
  configured_with groups (some p) =
      some (configure_resources (configure_over registry.add groups p))

  abbrev assemble :
      (List String → ProviderOptions E)
      → Dict String
      → Option (List String)
      → Option registry.Provider
  assemble o groups none = none
  assemble o groups (some include_list) = configured_with groups (new_provider (o include_list))

  -- The tables are given in the order in which Go visits them; `none` is a panic.
  unfoldable pub get_provider : Dict E → Dict String → Option registry.Provider
  get_provider configs groups = assemble options groups (external_name_configured configs)

  unfoldable pub get_provider_namespaced : Dict E → Dict String → Option registry.Provider
  get_provider_namespaced configs groups =
      assemble namespaced_options groups (external_name_configured configs)
