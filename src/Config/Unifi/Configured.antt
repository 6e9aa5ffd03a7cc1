-- ===== src/Config/Unifi/Configured.antt =====
-- What Configure of config/unifi/config.go leaves in a resource, by what its three tables hold.
use text.Mathlib.Text.{◌==◌}
use provider_upjet_unifi.Base.{
  ◌≡◌, refl, String, Bool, true, not, arith, ◌&&◌, Option, none, some, inl, inr, Option-cases,
}
use provider_upjet_unifi.Base.Dict
use provider_upjet_unifi.Base.Dict.{Dict, all_entries, all_entries-get, and_left, and_right}
use provider_upjet_unifi.Config.Resource.{Resource, Reference}
use provider_upjet_unifi.Config.Unifi.{get_or_empty, get_or_nil, configurator, configure_over}
use provider_upjet_unifi.Config.Unifi.Tables.{kind_overrides, references, short_groups}
use provider_upjet_unifi.Config.Unifi.Configure.{
  Registry, configured, applied-configure, or_declared, get-add_references,
}

-- The entry of a table, or else what the resource had.
abbrev pub entry_or : {A : Type 0} → Option A → A → A
entry_or none old = old
entry_or (some a) old = a

-- The reference that the table declares for a field of a resource.
abbrev declared_in : Option (Dict Reference) → String → Option Reference
declared_in none field = none
declared_in (some fields) field = Dict.get field fields

abbrev pub declared : String → String → Option Reference
declared name field = declared_in (Dict.get name references) field

-- The resource `after` has the entries of the tables for the name where `before` has its own.
pub record HasTables {E : Type 0} (name : String) (before after : Resource E) : Type 0 where
  pub short_group : after.short_group ≡ entry_or (Dict.get name short_groups) before.short_group
  pub kind : after.kind ≡ entry_or (Dict.get name kind_overrides) before.kind
  pub references :
      (field : String)
      → Dict.get field after.references
        ≡ or_declared (declared name field) (Dict.get field before.references)
  pub same_name : after.name ≡ before.name
  pub external_name : after.external_name ≡ before.external_name
  pub schema : after.schema ≡ before.schema

abbrev override_known : String → String → Bool
override_known name kind = Dict.has name short_groups && not (kind == "")

overrides_known : all_entries override_known kind_overrides ≡ true
unfolding all_entries kind_overrides short_groups Dict.get
overrides_known = refl

abbrev fields_known : String → Dict Reference → Bool
fields_known name fields = Dict.has name short_groups && Dict.unique fields

all_fields_known : all_entries fields_known references ≡ true
unfolding all_entries references short_groups Dict.get
all_fields_known = refl

-- A table whose names all have a group holds nothing for a name without one.
get-none_of_no_group :
    {V : Type 0} (test : String → V → Bool) (m : Dict V) (name : String)
    → all_entries (λ n v. Dict.has n short_groups && test n v) m ≡ true
    → Dict.get name short_groups ≡ none
    → Dict.get name m ≡ none
get-none_of_no_group test m name known absent = elim (Option-cases (Dict.get name m)) [
  | inl e ↦ e
  | inr (v, e) ↦
      let grouped =
        and_left (Dict.has name short_groups) (test name v)
          (all_entries-get (λ n v'. Dict.has n short_groups && test n v') m name v known e) in
      cc (rw absent at grouped)
]

module _ {E : Type 0} where
  kind-configured :
      (name group : String) (refs : Dict Reference) (o : Option String) (r : Resource E)
      → Dict.get name kind_overrides ≡ o
      → (configurator group (get_or_empty o) refs r).kind ≡ entry_or o r.kind
  unfolding configurator
  kind-configured name group refs none r e = refl
  kind-configured name group refs (some kind) r e =
      let known = all_entries-get override_known kind_overrides name kind overrides_known e in
      ground (arith, and_right (Dict.has name short_groups) (not (kind == "")) known)

  references-configured :
      (name group kind : String) (o : Option (Dict Reference)) (r : Resource E) (field : String)
      → Dict.get name references ≡ o
      → Dict.get field (configurator group kind (get_or_nil o) r).references
        ≡ or_declared (declared_in o field) (Dict.get field r.references)
  unfolding configurator Dict.get
  references-configured name group kind none r field e = refl
  references-configured name group kind (some fields) r field e =
      get-add_references fields r.references field (
        and_right (Dict.has name short_groups) _
          (all_entries-get fields_known references name fields all_fields_known e))

  HasTables-configured :
      (name : String) (o : Option String) (r : Resource E)
      → Dict.get name short_groups ≡ o
      → HasTables name r (configured o name r)
  unfolding configurator
  HasTables-configured name none r e =
      let no_kind =
        get-none_of_no_group (λ n kind. not (kind == "")) kind_overrides name overrides_known e in
      let no_references =
        get-none_of_no_group (λ n fields. Dict.unique fields) references name all_fields_known e in
      record {
        short_group = rw e refl;
        kind = rw no_kind refl;
        references = λ field. rw no_references refl;
        same_name = refl;
        external_name = refl;
        schema = refl;
      }
  HasTables-configured name (some group) r e = record {
    short_group = rw e refl;
    kind =
        kind-configured name group (get_or_nil (Dict.get name references))
          (Dict.get name kind_overrides) r refl;
    references = λ field.
        references-configured name group (get_or_empty (Dict.get name kind_overrides))
          (Dict.get name references) r field refl;
    same_name = refl;
    external_name = refl;
    schema = refl;
  }

  -- Whatever the order in which Go visits shortGroups: after Configure, a resource has the group, the
  -- kind and at each field the reference that the tables hold for its name, its own where they hold
  -- none, and nothing else of it has changed.
  pub configure_over-HasTables :
      (R : Registry E) (groups : Dict String) (p : R.Provider) (r : Resource E)
      → Dict.unique groups ≡ true
      → ((name : String) → Dict.get name groups ≡ Dict.get name short_groups)
      → HasTables r.name (R.applied p r) (R.applied (configure_over R.add groups p) r)
  configure_over-HasTables R groups p r u same =
      rw (applied-configure R groups p r u same)
        (HasTables-configured r.name (Dict.get r.name short_groups) (R.applied p r) refl)
