-- ===== src/Config/Unifi.antt =====
-- config/unifi/config.go: Configure. The provider of upjet is a parameter: `add` is its
-- AddResourceConfigurator.
use text.Mathlib.Text.{◌==◌}
use provider_upjet_unifi.Base.{String, Option, none, some, [], ◌∷◌, if◌then◌else◌}
use provider_upjet_unifi.Base.Dict
use provider_upjet_unifi.Base.Dict.{Dict}
use provider_upjet_unifi.Config.Resource.{Resource, Reference}
use provider_upjet_unifi.Config.Unifi.Tables.{kind_overrides, references}
pub mod Tables
pub mod Configure
pub mod Configured
pub mod Consistency

-- m[k] for a map of strings and for a map of maps: the zero value where there is no entry.
abbrev pub get_or_empty : Option String → String
get_or_empty none = ""
get_or_empty (some s) = s

abbrev pub get_or_nil : {V : Type 0} → Option (Dict V) → Dict V
get_or_nil none = []
get_or_nil (some m) = m

-- for field, ref := range refs { r.References[field] = ref }
pub add_references : Dict Reference → Dict Reference → Dict Reference
add_references [] declared = declared
add_references ((field, ref) ∷ refs) declared = add_references refs (Dict.put field ref declared)

module _ {E : Type 0} where
  -- The configurator that Configure registers for one resource.
  pub configurator : String → String → Dict Reference → Resource E → Resource E
  unfolding add_references
  configurator group kind refs r = record r {
    short_group = group;
    kind = if kind == "" then r.kind else kind;
    references = add_references refs r.references;
  }

  module _ {P : Type 0} (add : String → (Resource E → Resource E) → P → P) where
    -- The loop over shortGroups.
    pub configure_over : Dict String → P → P
    configure_over [] p = p
    configure_over ((name, group) ∷ rest) p =
        let kind = get_or_empty (Dict.get name kind_overrides) in
        let refs = get_or_nil (Dict.get name references) in
        configure_over rest (add name (configurator group kind refs) p)
