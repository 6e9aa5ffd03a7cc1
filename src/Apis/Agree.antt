-- ===== src/Apis/Agree.antt =====
-- The generated methods against the references that config/unifi/config.go declares.
use text.Mathlib.Text.{◌==◌}
use provider_upjet_unifi.Base.{
  ◌≡◌, refl, String, ◌<>◌, Bool, true, ◌&&◌, Option, none, some, List, [], ◌∷◌, if◌then◌else◌,
}
use provider_upjet_unifi.Base.Dict
use provider_upjet_unifi.Base.Dict.{Dict, all_entries, all_entries-get}
use provider_upjet_unifi.Config.Resource.{Reference, to}
use provider_upjet_unifi.Config.Unifi.{get_or_empty, get_or_nil}
use provider_upjet_unifi.Config.Unifi.Tables.{references}
use provider_upjet_unifi.Controller.Kinds.{ManagedKind}
use provider_upjet_unifi.Controller.Coverage.{kinds}
use provider_upjet_unifi.Apis.{To, Step, resolves, resolves_multiple, within, each}
use provider_upjet_unifi.Apis.Steps.{resolvers}

-- The `tf` tags of the fields, as the parameter structs of zz_*_types.go have them.
abbrev terraform_names : Dict String
terraform_names =
    ("ApGroupIds", "ap_group_ids")
    ∷ ("Destination", "destination")
    ∷ ("DstFirewallGroupIds", "dst_firewall_group_ids")
    ∷ ("DstNetworkID", "dst_network_id")
    ∷ ("ExcludedNetworkconfIds", "excluded_networkconf_ids")
    ∷ ("FirewallGroupID", "firewall_group_id")
    ∷ ("Honeypot", "honeypot")
    ∷ ("IPGroupID", "ip_group_id")
    ∷ ("IgmpSnooping", "igmp_snooping")
    ∷ ("Ips", "ips")
    ∷ ("MgmtNetworkID", "mgmt_network_id")
    ∷ ("MulticastRouterNetworkconfIds", "multicast_router_networkconf_ids")
    ∷ ("NativeNetworkconfID", "native_networkconf_id")
    ∷ ("NetworkID", "network_id")
    ∷ ("NetworkIds", "network_ids")
    ∷ ("PortGroupID", "port_group_id")
    ∷ ("PortOverride", "port_override")
    ∷ ("PortProfileID", "port_profile_id")
    ∷ ("PrivatePresharedKeys", "private_preshared_keys")
    ∷ ("RadiusProfileID", "radius_profile_id")
    ∷ ("RadiusprofileID", "radiusprofile_id")
    ∷ ("Source", "source")
    ∷ ("SourceLimiting", "source_limiting")
    ∷ ("SrcFirewallGroupIds", "src_firewall_group_ids")
    ∷ ("SrcNetworkID", "src_network_id")
    ∷ ("TaggedNetworkconfIds", "tagged_networkconf_ids")
    ∷ ("VoiceNetworkconfID", "voice_networkconf_id")
    ∷ ("ZoneID", "zone_id")
    ∷ []

unfoldable pub terraform_name : String → String
unfolding Dict.get
terraform_name name = get_or_empty (Dict.get name terraform_names)

-- The Terraform resource of the kind that a block resolves to.
abbrev resource_of : To → Dict ManagedKind → String
resource_of t [] = ""
resource_of t ((name, k) ∷ rest) =
    if k.group == t.group && k.kind == t.kind then name else resource_of t rest

-- The Terraform field that a block resolves, and the resource that it resolves it to.
abbrev resolved_field : Step → String
resolved_field (resolves name t) = terraform_name name
resolved_field (resolves_multiple name t) = terraform_name name
resolved_field (within name step) = terraform_name name <> "." <> resolved_field step
resolved_field (each name index step) = terraform_name name <> "." <> resolved_field step

abbrev target_of : Step → To
target_of (resolves name t) = t
target_of (resolves_multiple name t) = t
target_of (within name step) = target_of step
target_of (each name index step) = target_of step

unfoldable pub resolved : List Step → Dict String
resolved [] = []
resolved (step ∷ rest) = (resolved_field step, resource_of (target_of step) kinds) ∷ resolved rest

abbrev pub blocks : Option (List Step) → List Step
blocks none = []
blocks (some steps) = steps

-- What the method of a resource resolves, by the Terraform field.
abbrev pub resolved_by : String → Dict String
resolved_by name = resolved (blocks (Dict.get name resolvers))

abbrev target_name : Option Reference → Option String
target_name none = none
target_name (some ref) = some ref.terraform_name

abbrev all_resolved : String → Dict Reference → Bool
all_resolved name fields =
    all_entries (λ field ref. Dict.holds (Dict.get field (resolved_by name)) ref.terraform_name)
      fields

abbrev all_declared : String → List Step → Bool
all_declared name steps =
    all_entries
      (λ field target.
        Dict.holds (target_name (Dict.get field (get_or_nil (Dict.get name references)))) target)
      (resolved steps)

declared_are_resolved : all_entries all_resolved references ≡ true
unfolding all_entries references resolvers resolved terraform_name kinds Dict.get
declared_are_resolved = refl

resolved_are_declared : all_entries all_declared resolvers ≡ true
unfolding all_entries references resolvers resolved terraform_name kinds Dict.get
resolved_are_declared = refl

-- Every reference that the configuration declares for a field of a resource is resolved by the
-- generated method of that resource, and to the kind of the declared target.
pub resolves-declared :
    (name field : String) (fields : Dict Reference) (ref : Reference)
    → Dict.get name references ≡ some fields
    → Dict.get field fields ≡ some ref
    → Dict.get field (resolved_by name) ≡ some ref.terraform_name
resolves-declared name field fields ref h k = Dict.eq_of_holds _ _ (
    all_entries-get (λ f r. Dict.holds (Dict.get f (resolved_by name)) r.terraform_name) fields
      field ref (all_entries-get all_resolved references name fields declared_are_resolved h) k)

target_name-eq-some :
    (o : Option Reference) (target : String) → target_name o ≡ some target → o ≡ some (to target)
target_name-eq-some none target h = cc
target_name-eq-some (some ref) target h = cc

-- The generated methods resolve no field but those with a declared reference, and each to the kind
-- of its declared target.
pub declares-resolved :
    (name field target : String) (steps : List Step)
    → Dict.get name resolvers ≡ some steps
    → Dict.get field (resolved steps) ≡ some target
    → Dict.get field (get_or_nil (Dict.get name references)) ≡ some (to target)
declares-resolved name field target steps h k = target_name-eq-some _ target (
    Dict.eq_of_holds _ _ (
      all_entries-get
        (λ f t. Dict.holds (target_name (Dict.get f (get_or_nil (Dict.get name references)))) t)
        (resolved steps) field target
        (all_entries-get all_declared resolvers name steps resolved_are_declared h) k))
