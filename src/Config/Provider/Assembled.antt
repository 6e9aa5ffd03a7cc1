-- ===== src/Config/Provider/Assembled.antt =====
-- What the two providers hold for a resource: the work of the tables, of the external names and of the
-- write-only descriptions together.
use provider_upjet_unifi.Base.{
  ◌≡◌, refl, ap, ◌∙◌, String, true, Option, none, some, List, [], ◌∷◌, inl, inr, Option-cases,
  Bool-cases, if◌then◌else◌,
}
use text.Mathlib.Text.{◌==◌}
use provider_upjet_unifi.Base.Dict
use provider_upjet_unifi.Base.Dict.{Dict}
use provider_upjet_unifi.Text.{Text}
use provider_upjet_unifi.Config.Resource.{Resource}
use provider_upjet_unifi.Config.WriteOnly.{
  Attributes, find, describe_write_only, write_only_descriptions,
}
use provider_upjet_unifi.Config.WriteOnly.Loop.{alter}
use provider_upjet_unifi.Config.WriteOnly.Describe.{UniqueKeys, chain_free, described}
use provider_upjet_unifi.Config.WriteOnly.Order.{find-describe_write_only}
use provider_upjet_unifi.Config.ExternalName.{
  external_name_configs, named, external_name_configurations,
}
use provider_upjet_unifi.Config.ExternalName.Patterns.{
  patterns, external_name_configured-eq-patterns,
}
use provider_upjet_unifi.Config.Unifi.{configure_over}
use provider_upjet_unifi.Config.Unifi.Tables.{short_groups, kind_overrides}
use provider_upjet_unifi.Config.Unifi.Configure.{or_declared}
use provider_upjet_unifi.Config.Unifi.Configured.{
  HasTables, configure_over-HasTables, entry_or, declared,
}
use provider_upjet_unifi.Config.Unifi.Consistency.{has-short_groups}
use provider_upjet_unifi.Config.Provider.{
  ProviderOptions, Upjet, apply_all, write_only_option, default_options, options,
  namespaced_options, get_provider, get_provider_namespaced,
}

module _ {E : Type 0} (identifier_from_provider : E) (lower_camel : Text → Text) where
  -- What a provider holds for the resource `before` of the schema, whose attributes are `m`: the group,
  -- kind and references of the tables, the identifier from the provider as the external name of
  -- every resource with a group, and the described attributes.
  pub record IsFinished (before after : Resource E) (m : Attributes) : Type 0 where
    pub short_group :
        after.short_group ≡ entry_or (Dict.get before.name short_groups) before.short_group
    pub kind : after.kind ≡ entry_or (Dict.get before.name kind_overrides) before.kind
    pub references :
        (field : String)
        → Dict.get field after.references
          ≡ or_declared (declared before.name field) (Dict.get field before.references)
    pub external_name : after.external_name ≡ (
        if Dict.has before.name short_groups
        then identifier_from_provider
        else before.external_name)
    pub attributes : Attributes
    pub schema : after.schema ≡ some attributes
    pub find-attributes :
        (k : Text) → find k attributes ≡ alter (described lower_camel m k) (find k m)

  abbrev all_identifiers : List (String × Unit {0}) → Dict E
  all_identifiers [] = []
  all_identifiers ((name, u) ∷ m) = (name, identifier_from_provider) ∷ all_identifiers m

  get-all_identifiers :
      (m : List (String × Unit {0})) (name : String) (e : E)
      → Dict.get name (all_identifiers m) ≡ some e
      → e ≡ identifier_from_provider
  unfolding Dict.get
  get-all_identifiers [] name e h = cc
  get-all_identifiers ((n, u) ∷ m) name e h = elim (Bool-cases (n == name)) [
    | inl same ↦ cc (rw same at h)
    | inr other ↦ get-all_identifiers m name e (rw other at h)
  ]

  configs-eq-identifiers :
      external_name_configs identifier_from_provider ≡ all_identifiers (external_name_configs tt)
  unfolding external_name_configs
  configs-eq-identifiers = refl

  -- Exactly the resources with a group get the identifier from the provider as their external name.
  external_name-configured :
      (r : Resource E)
      → (external_name_configurations identifier_from_provider r).external_name
        ≡ (if Dict.has r.name short_groups then identifier_from_provider else r.external_name)
  unfolding external_name_configurations
  external_name-configured r =
      let grouped = has-short_groups identifier_from_provider r.name in
      let configs = external_name_configs identifier_from_provider in
      elim (Option-cases (Dict.get r.name configs)) [
        | inl absent ↦ rw (grouped, absent) refl
        | inr (e, found) ↦
            rw (grouped, found)
              (get-all_identifiers (external_name_configs tt) r.name e
                (rw (← configs-eq-identifiers) found))
      ]

  IsFinished-lem :
      (before r after : Resource E) (m : Attributes)
      → r.name ≡ before.name
      → r.short_group ≡ before.short_group
      → r.kind ≡ before.kind
      → r.references ≡ before.references
      → r.external_name ≡ (
          if Dict.has before.name short_groups
          then identifier_from_provider
          else before.external_name)
      → r.schema ≡ some (describe_write_only lower_camel m)
      → UniqueKeys m
      → chain_free m m ≡ true
      → HasTables before.name r after
      → IsFinished before after m
  IsFinished-lem before r after m n g k f x s u c h = record {
    short_group = h.short_group ∙ ap (entry_or (Dict.get before.name short_groups)) g;
    kind = h.kind ∙ ap (entry_or (Dict.get before.name kind_overrides)) k;
    references = λ field.
        h.references field
        ∙ ap (λ d. or_declared (declared before.name field) (Dict.get field d)) f;
    external_name = h.external_name ∙ x;
    attributes = describe_write_only lower_camel m;
    schema = h.schema ∙ s;
    find-attributes = find-describe_write_only lower_camel m u c;
  }

module _ {E : Type 0} (U : Upjet E) (identifier_from_provider : E) (lower_camel : Text → Text) where
  open U use {registry, resource}

  -- The external name is all that the first option writes.
  record IsNamed (before after : Resource E) : Type 0 where
    name : after.name ≡ before.name
    short_group : after.short_group ≡ before.short_group
    kind : after.kind ≡ before.kind
    references : after.references ≡ before.references
    schema : after.schema ≡ before.schema

  IsNamed-named : (o : Option E) (r : Resource E) → IsNamed r (named identifier_from_provider o r)
  IsNamed-named none r = record {
    name = refl;
    short_group = refl;
    kind = refl;
    references = refl;
    schema = refl;
  }
  IsNamed-named (some e) r = record {
    name = refl;
    short_group = refl;
    kind = refl;
    references = refl;
    schema = refl;
  }

  prepared-IsNamed :
      (r : Resource E) → IsNamed r (external_name_configurations identifier_from_provider r)
  unfolding external_name_configurations
  prepared-IsNamed r =
      IsNamed-named (Dict.get r.name (external_name_configs identifier_from_provider)) r

  HasTables-configured :
      (o : ProviderOptions E) (p : registry.Provider) (groups : Dict String) (r : Resource E)
      → o.default_resource_options ≡ default_options U identifier_from_provider lower_camel
      → U.new_provider o ≡ some p
      → Dict.unique groups ≡ true
      → ((name : String) → Dict.get name groups ≡ Dict.get name short_groups)
      → HasTables r.name
          (write_only_option lower_camel (external_name_configurations identifier_from_provider r))
          (resource (U.configure_resources (configure_over registry.add groups p)) r)
  HasTables-configured o p groups r standard made u same =
      let options_applied = ap (λ l. apply_all l r) standard in
      rw (U.resource-configure_resources, ← options_applied, ← U.applied-new_provider o p r made)
        (configure_over-HasTables registry groups p r u same)

  IsFinished-configured :
      (o : ProviderOptions E) (p : registry.Provider) (groups : Dict String) (r : Resource E)
      (m : Attributes)
      → o.default_resource_options ≡ default_options U identifier_from_provider lower_camel
      → U.new_provider o ≡ some p
      → Dict.unique groups ≡ true
      → ((name : String) → Dict.get name groups ≡ Dict.get name short_groups)
      → r.schema ≡ some m
      → UniqueKeys m
      → chain_free m m ≡ true
      → IsFinished identifier_from_provider lower_camel r
          (resource (U.configure_resources (configure_over registry.add groups p)) r)
          m
  unfolding write_only_descriptions
  IsFinished-configured o p groups r m standard made u same s distinct unchained =
      let first = prepared-IsNamed r in
      IsFinished-lem identifier_from_provider lower_camel r
        (write_only_option lower_camel (external_name_configurations identifier_from_provider r))
        (resource (U.configure_resources (configure_over registry.add groups p)) r) m first.name
        first.short_group first.kind first.references
        (external_name-configured identifier_from_provider lower_camel r)
        (ap (write_only_descriptions lower_camel) (first.schema ∙ s)) distinct unchained
        (HasTables-configured o p groups r standard made u same)

  -- In whatever order Go visits the tables, where NewProvider returns a provider, so does GetProvider, and a
  -- resource of the schema whose attributes have distinct keys and no chain of write-only forms
  -- then has the group, kind and references of the tables, the identifier from the provider as its
  -- external name if it has a group, and the described attributes.
  pub resource-get_provider :
      (configs : Dict E) (groups : Dict String) (made : registry.Provider) (r : Resource E)
      (m : Attributes)
      → U.new_provider (options U identifier_from_provider lower_camel (patterns configs))
        ≡ some made
      → Dict.unique groups ≡ true
      → ((name : String) → Dict.get name groups ≡ Dict.get name short_groups)
      → r.schema ≡ some m
      → UniqueKeys m
      → chain_free m m ≡ true
      → (p : registry.Provider) × (get_provider U identifier_from_provider lower_camel configs
            groups
          ≡ some p)
        × IsFinished identifier_from_provider lower_camel r (resource p r) m
  unfolding get_provider
  resource-get_provider configs groups made r m h u same s distinct unchained = (
    U.configure_resources (configure_over registry.add groups made),
    rw (external_name_configured-eq-patterns configs, h) refl,
    IsFinished-configured (options U identifier_from_provider lower_camel (patterns configs)) made
        groups r m refl h u same s distinct unchained,
  )

  -- The same for GetProviderNamespaced.
  resource-get_provider_namespaced :
      (configs : Dict E) (groups : Dict String) (made : registry.Provider) (r : Resource E)
      (m : Attributes)
      → U.new_provider
          (namespaced_options U identifier_from_provider lower_camel (patterns configs))
        ≡ some made
      → Dict.unique groups ≡ true
      → ((name : String) → Dict.get name groups ≡ Dict.get name short_groups)
      → r.schema ≡ some m
      → UniqueKeys m
      → chain_free m m ≡ true
      → (p : registry.Provider) × (get_provider_namespaced U identifier_from_provider lower_camel
            configs groups
          ≡ some p)
        × IsFinished identifier_from_provider lower_camel r (resource p r) m
  unfolding get_provider_namespaced
  resource-get_provider_namespaced configs groups made r m h u same s distinct unchained = (
    U.configure_resources (configure_over registry.add groups made),
    rw (external_name_configured-eq-patterns configs, h) refl,
    IsFinished-configured
        (namespaced_options U identifier_from_provider lower_camel (patterns configs)) made groups r
        m refl h u same s distinct unchained,
  )
