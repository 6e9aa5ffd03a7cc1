-- ===== src/Tests/Terraformed.antt =====
-- The generated methods over a runtime in which structs, maps and JSON are all lists of entries.
use package.text.Mathlib.Text.{◌==◌}
use provider_upjet_unifi.Base.{
  ◌≡◌, refl, ap, sym, ◌∙◌, String, Bool, true, false, Option, none, some, [], ◌∷◌, ◌++◌, inl, inr,
  ◌⊎◌, Bool-cases, Option-cases, if◌then◌else◌,
}
use provider_upjet_unifi.Base.Dict
use provider_upjet_unifi.Base.Dict.{Dict}
use provider_upjet_unifi.Text.{text}
use provider_upjet_unifi.Terraformed.{
  Shapes, Error, foreign, wrap, Marshalled, marshalled, unmarshallable, Object, Runtime,
  with_for_provider, get_attributes, get_parameters, get_init_parameters, get_merged_parameters,
  merge_parameters, merge_init, merge_options, set_parameters,
}
use provider_upjet_unifi.Terraformed.Merging.{
  IsMerge, configured, overlaid, get_merged_parameters-overlaid,
}
use provider_upjet_unifi.Terraformed.Observing.{IsCodec, set_parameters-get_parameters}
use provider_upjet_unifi.Controller.{cluster, namespaced}
use provider_upjet_unifi.Terraformed.Kinds.{generated, cluster_network_wan_methods}
use provider_upjet_unifi.Terraformed.Details.{
  resource_type, kinds-configured, pinned_or, camel, details-named,
}
use provider_upjet_unifi.Config.Unifi.Tables.{short_groups, kind_overrides}
use provider_upjet_unifi.Controller.Kinds.{ManagedKind}
use provider_upjet_unifi.Controller.Coverage.{kinds}

abbrev shapes : Shapes
shapes = record {
  Parameters = Dict String;
  InitParameters = Dict String;
  Observed = Unit;
  Attributes = Dict String;
  Bytes = Dict String;
  Failure = String;
  MergeOther = Bool;
  Name = String;
  Filter = String;
}

-- Decoding puts the entries before those that are there.
abbrev decode : Dict String → Dict String → Dict String × Option String
decode j m = (j ++ m, none)

-- A struct with the name "broken" cannot be encoded.
abbrev encode : Dict String → Marshalled shapes
encode m = if Dict.has "broken" m then unmarshallable "broken" else marshalled m

abbrev merge_by : Bool → Dict String → Dict String → Dict String
merge_by true a b = b ++ a
merge_by false a b = a ++ b

abbrev runtime : Runtime shapes
runtime = record {
  no_map = [];
  empty_map = [];
  zero_parameters = [];
  marshal_parameters = marshalled;
  marshal_init_parameters = encode;
  marshal_observation = λ a. marshalled [];
  marshal_attributes = marshalled;
  unmarshal_attributes = decode;
  unmarshal_parameters = decode;
  unmarshal_observation = λ j a. (a, none);
  default_config = record { overwrite = false; other = false };
  with_slice_deep_copy = λ c. record { overwrite = true; other = true };
  merge = λ a b options. (
    merge_by (configured options record { overwrite = false; other = false }).overwrite a b,
    none,
  );
  name_wildcard = "*";
  omit_empty_filter = λ name. name;
  late_initialize = λ filters p observed. (p ++ observed, (true, none));
}

append_nil : (m : Dict String) → (m ++ []) ≡ m
append_nil [] = refl
append_nil (e ∷ m) = ap (λ rest. e ∷ rest) (append_nil m)

abbrev or_else : Option String → Option String → Option String
or_else none o = o
or_else (some v) o = some v

get-append :
    (k : String) (a b : Dict String) → Dict.get k (a ++ b) ≡ or_else (Dict.get k a) (Dict.get k b)
unfolding Dict.get
get-append k [] b = refl
get-append k ((j, v) ∷ a) b = elim (Bool-cases (j == k)) [
  | inl e ↦ rw e
  | inr e ↦ rw e (get-append k a b)
]

kept_merge :
    (x : Bool) (a b : Dict String) (k v : String)
    → x ≡ false
    → Dict.get k a ≡ some v
    → Dict.get k (merge_by x a b) ≡ some v
kept_merge true a b k v off known = cc
kept_merge false a b k v off known = rw (get-append k a b, known)

filled_merge :
    (x : Bool) (a b : Dict String) (k : String)
    → Dict.get k a ≡ none
    → Dict.get k (merge_by x a b) ≡ Dict.get k b
filled_merge true a b k missing = elim (Option-cases (Dict.get k b)) [
  | inl e ↦ rw (get-append k b a, missing, e)
  | inr (v, e) ↦ rw (get-append k b a, e)
]
filled_merge false a b k missing = rw (get-append k a b, missing)

runtime-IsMerge : IsMerge runtime String (λ m k. Dict.get k m) (λ v. true)
runtime-IsMerge = record {
  keeps = λ a b c options k v merge off known kept.
      ap (Dict.get k) (sym (ap (λ x. x.0) merge)) ∙ kept_merge _ a b k v off known;
  fills = λ a b c options k merge missing.
      ap (Dict.get k) (sym (ap (λ x. x.0) merge)) ∙ filled_merge _ a b k missing;
}

marshalled_inj :
    (p j : Dict String) → ◌≡◌ {A = Marshalled shapes} (marshalled p) (marshalled j) → p ≡ j
marshalled_inj p j h = cc

runtime-IsCodec : IsCodec runtime (Dict String) (λ j. j)
runtime-IsCodec = record {
  attributes = λ j m h. (m, refl, sym (ap (λ x. x.0) h) ∙ append_nil j);
  decoding = λ j j' p same. rw same;
  parameters =
      λ j p h. (p, rw (append_nil j) (ap (λ x. (x, none)) (sym (marshalled_inj p j h))), h);
}

abbrev object : Dict String → Dict String → Object shapes
object for_provider init_provider = record {
  namespace = "team-a";
  name = "guest";
  for_provider = for_provider;
  init_provider = init_provider;
  at_provider = record { id = some "17"; rest = tt };
}

abbrev guest : Object shapes
guest = object (("name", "guest") ∷ []) (("name", "init") ∷ ("vlan", "7") ∷ [])

abbrev merged_guest : Dict String
merged_guest = ("name", "guest") ∷ ("name", "init") ∷ ("vlan", "7") ∷ []

guest_is_merged : get_merged_parameters runtime true guest ≡ (merged_guest, none)
unfolding get_merged_parameters get_parameters get_init_parameters get_attributes merge_parameters
    merge_init merge_options Dict.get
guest_is_merged = refl

get_merged_parameters-overlaid_example :
    (p : Dict String) × (i : Dict String) × (get_parameters runtime guest ≡ (p, none))
    × (get_init_parameters runtime guest ≡ (i, none))
    × ((k : String)
        → Dict.get k merged_guest
          ≡ overlaid (λ v. true) (Dict.get k p) (Dict.get k i) (Dict.get k merged_guest))
get_merged_parameters-overlaid_example =
    get_merged_parameters-overlaid runtime (λ m k. Dict.get k m) (λ v. true) runtime-IsMerge guest
      merged_guest guest_is_merged

abbrev broken : Object shapes
broken = object [] (("broken", "") ∷ [])

abbrev not_encoded : Error shapes
not_encoded = wrap (foreign "broken") "cannot get init parameters for resource \"team-a/guest\""

broken_fails : get_merged_parameters runtime true broken ≡ ([], some not_encoded)
unfolding get_merged_parameters get_parameters get_init_parameters get_attributes merge_parameters
    merge_init Dict.get
broken_fails = refl

guest_is_read : get_parameters runtime guest ≡ (("name", "guest") ∷ [], none)
unfolding get_parameters get_attributes
guest_is_read = refl

set_parameters-get_parameters_example :
    (p : Dict String) × (set_parameters runtime (("name", "guest") ∷ []) (object [] [])
      ≡ (with_for_provider p (object [] []), none))
    × (get_parameters runtime (with_for_provider p (object [] [])) ≡ (("name", "guest") ∷ [], none))
set_parameters-get_parameters_example =
    set_parameters-get_parameters runtime (λ j. j) runtime-IsCodec guest (object [] [])
      (("name", "guest") ∷ []) guest_is_read refl

abbrev wan : ManagedKind
wan = record { group = "network"; kind = "Wan"; terraform_name = "unifi_wan" }

wan_is_reconciled : Dict.get "unifi_wan" kinds ≡ some wan
unfolding kinds Dict.get
wan_is_reconciled = refl

kinds-configured_example :
    (Dict.get "unifi_wan" short_groups ≡ some "network")
    × (pinned_or (Dict.get "unifi_wan" kind_overrides) "Wan" ≡ "Wan")
    × (resource_type runtime (Dict.get "network.Wan" (generated namespaced)) ≡ some "unifi_wan")
kinds-configured_example = kinds-configured runtime namespaced "unifi_wan" wan wan_is_reconciled

wan_is_generated : Dict.get "network.Wan" (generated cluster) ≡ some cluster_network_wan_methods
unfolding generated Dict.get
wan_is_generated = refl

password_is_listed :
    Dict.get "password_wo"
      (cluster_network_wan_methods shapes runtime).get_connection_details_mapping
    ≡ some "passwordWoSecretRef"
unfolding Dict.get
password_is_listed = refl

details-named_example :
    (text "passwordWoSecretRef" ≡ camel (text "password_wo") ++ text "SecretRef")
    ⊎ (text "passwordWoSecretRef" ≡ text "status.atProvider." ++ camel (text "password_wo"))
details-named_example =
    details-named runtime cluster "network.Wan" cluster_network_wan_methods "password_wo"
      "passwordWoSecretRef" wan_is_generated password_is_listed
