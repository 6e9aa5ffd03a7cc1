-- ===== src/Config/Unifi/Consistency.antt =====
-- The tables agree with one another.
use provider_upjet_unifi.Base.{◌≡◌, refl, String, Bool, true, ◌&&◌, some}
use provider_upjet_unifi.Base.Dict
use provider_upjet_unifi.Base.Dict.{
  Dict, all_entries, all_entries-get, and_left, and_right, same_has,
}
use provider_upjet_unifi.Config.Resource.{Reference}
use provider_upjet_unifi.Config.ExternalName.{external_name_configs}
use provider_upjet_unifi.Config.Unifi.Tables.{short_groups, references}

abbrev targets_known : String → Dict Reference → Bool
targets_known name fields =
    Dict.has name short_groups
    && (Dict.unique fields
        && all_entries (λ field ref. Dict.has ref.terraform_name short_groups) fields)

references_known : all_entries targets_known references ≡ true
unfolding all_entries references short_groups Dict.get
references_known = refl

-- No reference dangles: it is declared on a resource that has a group, and so does its target.
pub references-resolve :
    (name field : String) (fields : Dict Reference) (ref : Reference)
    → Dict.get name references ≡ some fields
    → Dict.get field fields ≡ some ref
    → (Dict.has name short_groups ≡ true) × (Dict.has ref.terraform_name short_groups ≡ true)
references-resolve name field fields ref h k =
    let known = all_entries-get targets_known references name fields references_known h in
    let checked = and_right _ _ known in
    (
      and_left _ _ known,
      all_entries-get (λ f r. Dict.has r.terraform_name short_groups) fields field ref
          (and_right (Dict.unique fields) _ checked) k,
    )

module _ {E : Type 0} (identifier_from_provider : E) where
  abbrev names : Dict E
  names = external_name_configs identifier_from_provider

  groups_named : all_entries (λ name group. Dict.has name names) short_groups ≡ true
  unfolding all_entries short_groups external_name_configs Dict.get
  groups_named = refl

  names_grouped : all_entries (λ name e. Dict.has name short_groups) names ≡ true
  unfolding all_entries short_groups external_name_configs Dict.get
  names_grouped = refl

  -- The resources that get an API group are exactly those that get an external name.
  pub has-short_groups :
      (name : String)
      → Dict.has name short_groups ≡ Dict.has name (external_name_configs identifier_from_provider)
  has-short_groups name =
      same_has short_groups names name
        (λ group h.
          all_entries-get (λ n g. Dict.has n names) short_groups name group groups_named h)
        (λ e h. all_entries-get (λ n g. Dict.has n short_groups) names name e names_grouped h)
