-- ===== src/Tests/Clients.antt =====
-- The setup function over an API server that counts its calls, for a namespaced resource whose
-- configuration names a secret in another namespace.
use text.Mathlib.Text.{◌==◌}
use provider_upjet_unifi.Base.{
  ℕ, suc, ◌≡◌, ◌≢◌, refl, String, Option, none, some, [], ◌∷◌, if◌then◌else◌,
}
use provider_upjet_unifi.Base.Dict
use provider_upjet_unifi.Base.Dict.{Dict}
use provider_upjet_unifi.Clients.{
  Types, Error, wrap, foreign, Result, ok, err, SecretRef, ProviderConfigSpec,
  ProviderConfigReference, Managed, legacy, modern, Object, provider_config,
  cluster_provider_config, Api, Setup, returned, panicked, forward, unifi_keys, resolve_modern,
  resolve_legacy, resolve_provider_config, to_shared_pc_spec, select_spec, as_client_object,
  extract_with, unmarshal_with, configure_with, forward_value, unmarshal_shared, pointer_to,
  terraform_setup_builder,
}
use provider_upjet_unifi.Clients.Forward.{get-forward}
use provider_upjet_unifi.Clients.Resolve.{ResolvedModern, resolve_modern-ResolvedModern}
use provider_upjet_unifi.Clients.Builder.{
  resolve_modern-secret_namespace, setup_error_keeps_secret, terraform_setup_builder-returns,
  Configured, terraform_setup_builder-Configured,
}

abbrev types : Types
types = record {
  World = ℕ;
  Failure = String;
  Source = String;
  SecretName = String;
  OtherSelectors = Unit;
  Identity = String;
  Bytes = String;
}

abbrev named : String → SecretRef types
named namespace = record { namespace = namespace; rest = "unifi-creds" }

abbrev spec : String → ProviderConfigSpec types
spec namespace = record {
  credentials = record {
    source = "Secret";
    selectors = record { secret_ref = some (named namespace); rest = tt };
  };
}

abbrev found : String → Result types Object
found kind =
    if kind == "ProviderConfig"
    then ok provider_config
    else if kind == "ClusterProviderConfig"
    then ok cluster_provider_config
    else err (foreign "kind")

abbrev creds : Dict String
creds = ("api_url", "https://unifi") ∷ ("site", "") ∷ ("other", "x") ∷ []

-- Only a secret in the namespace `team-a` can be read.
abbrev read : Option (SecretRef types) → Result types String
read none = err (foreign "no secret")
read (some s) = if s.namespace == "team-a" then ok "creds" else err (foreign "no such secret")

abbrev api : Api types
api = record {
  get_legacy = λ name w. (ok (record { credentials = (spec "elsewhere").credentials }), suc w);
  get = λ object name namespace w. (ok (spec "elsewhere"), suc w);
  new_object = found;
  track_legacy = λ mg w. (ok tt, suc w);
  track = λ mg w. (ok tt, suc w);
  extract = λ source selectors w. (read selectors.secret_ref, suc w);
  marshal = λ pc. ok pc.credentials.source;
  unmarshal_spec = λ bytes. ok (spec "elsewhere");
  unmarshal_creds = λ bytes. ok creds;
}

abbrev ref : ProviderConfigReference
ref = record { name = "default"; kind = "ProviderConfig" }

abbrev resource : Managed types
resource = modern (some ref) "team-a" "record"

abbrev ps : Setup
ps = record {
  version = "1.5";
  requirement = record { source = "filipowm/unifi"; version = "1.0" };
  configuration = some (("api_url", "https://unifi") ∷ []);
}

abbrev started : Setup
started = record {
  version = "1.5";
  requirement = record { source = "filipowm/unifi"; version = "1.0" };
  configuration = none;
}

resolved : resolve_modern api (some ref) "team-a" "record" 0 ≡ (ok (some (spec "team-a")), 2)
unfolding resolve_modern as_client_object select_spec
resolved = refl

set_up : terraform_setup_builder api "1.5" "filipowm/unifi" "1.0" resource 0 ≡ (returned ps none, 3)
unfolding terraform_setup_builder resolve_provider_config resolve_modern forward as_client_object
    select_spec extract_with unmarshal_with configure_with forward_value Dict.get Dict.put
set_up = refl

-- A cluster-scoped resource: its secret stays in the namespace that the configuration names.
failed : Error types
failed = wrap (foreign "no such secret") "cannot extract credentials"

set_up_legacy :
    terraform_setup_builder api "1.5" "filipowm/unifi" "1.0" (legacy (some "default") "record") 0
    ≡ (returned started (some failed), 3)
unfolding terraform_setup_builder resolve_provider_config resolve_legacy to_shared_pc_spec
    unmarshal_shared pointer_to extract_with unmarshal_with failed
set_up_legacy = refl

resolve_modern-ResolvedModern_example : ResolvedModern api ref "team-a" "record" 0 2 (spec "team-a")
resolve_modern-ResolvedModern_example =
    resolve_modern-ResolvedModern api ref "team-a" "record" 0 2 (spec "team-a") resolved

resolve_modern-secret_namespace_example : (named "team-a").namespace ≡ "team-a"
resolve_modern-secret_namespace_example =
    resolve_modern-secret_namespace api ref "team-a" "record" 0 2 (spec "team-a") (named "team-a")
      refl resolved refl

terraform_setup_builder-Configured_example :
    Configured api "1.5" "filipowm/unifi" "1.0" resource 0 3 ps
terraform_setup_builder-Configured_example =
    terraform_setup_builder-Configured api "1.5" "filipowm/unifi" "1.0" resource 0 3 ps set_up

terraform_setup_builder-returns_example :
    (terraform_setup_builder api "1.5" "filipowm/unifi" "1.0" resource 0).0 ≢ panicked
terraform_setup_builder-returns_example =
    terraform_setup_builder-returns api "1.5" "filipowm/unifi" "1.0" resource 0

setup_error_keeps_secret_example : started.configuration ≡ none
setup_error_keeps_secret_example =
    setup_error_keeps_secret api "1.5" "filipowm/unifi" "1.0" (legacy (some "default") "record") 0
      started failed (λ i. (set_up_legacy i).0)

get-forward_example : Dict.get "api_url" (forward creds unifi_keys []) ≡ some "https://unifi"
unfolding Dict.get
get-forward_example = get-forward creds "api_url"
