-- ===== src/Clients.antt =====
-- internal/clients/unifi.go: from a managed resource to the configuration of the Terraform
-- provider. What the code calls in other repositories is the record `Api`, over the opaque
-- types of `Types`; `World` is the state of the API server and of whatever else a call touches.
use provider_upjet_unifi.Base.{
  String, Bool, true, false, Option, none, some, List, [], ◌∷◌, if◌then◌else◌,
}
use provider_upjet_unifi.Base.Dict
use provider_upjet_unifi.Base.Dict.{Dict}
use text.Mathlib.Text.{◌==◌}
pub mod Forward
pub mod Resolve
pub mod Builder
pub mod Legacy

pub record Types : Type 1 where
  pub World : Type 0
  pub Failure : Type 0
  pub Source : Type 0
  pub SecretName : Type 0
  pub OtherSelectors : Type 0
  pub Identity : Type 0
  pub Bytes : Type 0

-- errors.New, errors.Wrap, and an error of another package.
pub data Error (T : Types) : Type 0 where
  new : String → Error T
  wrap : Error T → String → Error T
  foreign : T.Failure → Error T

pub data Result (T : Types) (A : Type 0) : Type 0 where
  ok : A → Result T A
  err : Error T → Result T A

abbrev pub Exec : Types → Type 0 → Type 0
Exec T A = T.World → Result T A × T.World

-- The SecretRef of xpv2.CommonCredentialSelectors, of which the code writes the namespace.
pub record SecretRef (T : Types) : Type 0 where
  pub namespace : String
  pub rest : T.SecretName

pub record Selectors (T : Types) : Type 0 where
  pub secret_ref : Option (SecretRef T)
  pub rest : T.OtherSelectors

pub record ProviderCredentials (T : Types) : Type 0 where
  pub source : T.Source
  pub selectors : Selectors T

pub record ProviderConfigSpec (T : Types) : Type 0 where
  pub credentials : ProviderCredentials T

-- The spec of the cluster-scoped API group, a Go type of its own.
pub record ClusterSpec (T : Types) : Type 0 where
  pub credentials : ProviderCredentials T

pub record ProviderConfigReference : Type 0 where
  pub name : String
  pub kind : String

-- The dynamic type of a resource.Managed. GetProviderConfigReference has another result type in
-- each of the two interfaces, so no type implements both.
pub data Managed (T : Types) : Type 0 where
  legacy : Option String → T.Identity → Managed T
  modern : Option ProviderConfigReference → String → T.Identity → Managed T
  neither : T.Identity → Managed T

-- The dynamic type of what Scheme().New returns: one of the two kinds of configuration, another
-- client.Object, or no client.Object at all.
pub data Object : Type 0 where
  provider_config cluster_provider_config other_object not_object : Object

pub record Api (T : Types) : Type 0 where
  -- client.Get of a cluster-scoped ProviderConfig, and of an object in the namespaced group. A
  -- Get fills the object that it is given, so it does not change the object's type.
  pub get_legacy : String → Exec T (ClusterSpec T)
  pub get : Object → String → String → Exec T (ProviderConfigSpec T)
  pub new_object : String → Result T Object
  pub track_legacy : T.Identity → Exec T (Unit {0})
  pub track : T.Identity → Exec T (Unit {0})
  pub extract : T.Source → Selectors T → Exec T T.Bytes
  pub marshal : ClusterSpec T → Result T T.Bytes
  pub unmarshal_spec : T.Bytes → Result T (ProviderConfigSpec T)
  pub unmarshal_creds : T.Bytes → Result T (Dict String)

module _ {T : Types} {A B : Type 0} where
  abbrev pub continue : Result T A → (A → Exec T B) → Exec T B
  continue (ok a) f w = f a w
  continue (err e) f w = (err e, w)

  infixl 5 ◌>>=◌
  abbrev pub ◌>>=◌ : Exec T A → (A → Exec T B) → Exec T B
  ◌>>=◌ m f w = continue (m w).0 f (m w).1

module _ {T : Types} {A : Type 0} where
  abbrev pub pure : A → Exec T A
  pure a w = (ok a, w)

  abbrev pub lift : Result T A → Exec T A
  lift r w = (r, w)

  abbrev pub wrapped : Result T A → String → Result T A
  wrapped (ok a) message = ok a
  wrapped (err e) message = err (wrap e message)

  -- if err := m(); err != nil { return nil, errors.Wrap(err, message) }
  abbrev pub or_wrap : Exec T A → String → Exec T A
  or_wrap m message w = (wrapped (m w).0 message, (m w).1)

abbrev pub err_unknown_gvk : String
err_unknown_gvk = "unknown GVK for ProviderConfig"

abbrev pub err_no_provider_config : String
err_no_provider_config = "no providerConfigRef provided"

abbrev pub err_get_provider_config : String
err_get_provider_config = "cannot get referenced ProviderConfig"

abbrev pub err_track_usage : String
err_track_usage = "cannot track ProviderConfig usage"

abbrev pub err_extract_credentials : String
err_extract_credentials = "cannot extract credentials"

abbrev pub err_unmarshal_credentials : String
err_unmarshal_credentials = "cannot unmarshal unifi credentials as JSON"

-- The keys that the loop of the setup function goes through, in its order.
abbrev pub unifi_keys : List String
unifi_keys =
    "api_url" ∷ "username" ∷ "password" ∷ "api_key" ∷ "site" ∷ "allow_insecure" ∷ "hardware_id"
    ∷ "cloud_connector" ∷ []

pub record ProviderRequirement : Type 0 where
  pub source : String
  pub version : String

-- terraform.Setup, as far as the code fills it; `none` is the nil map.
pub record Setup : Type 0 where
  pub version : String
  pub requirement : ProviderRequirement
  pub configuration : Option (Dict String)

abbrev pub empty_setup : Setup
empty_setup = record {
  version = "";
  requirement = record { source = ""; version = "" };
  configuration = none;
}

-- if v, ok := creds[key]; ok && v != "" { ps.Configuration[key] = v }
unfoldable pub forward_value : Option String → String → Dict String → Dict String
forward_value none key configuration = configuration
forward_value (some v) key configuration =
    if v == "" then configuration else Dict.put key v configuration

unfoldable pub forward : Dict String → List String → Dict String → Dict String
unfolding forward_value
forward creds [] configuration = configuration
forward creds (key ∷ rest) configuration =
    forward creds rest (forward_value (Dict.get key creds) key configuration)

-- What the setup function returns, or a nil dereference.
pub data Outcome (T : Types) : Type 0 where
  returned : Setup → Option (Error T) → Outcome T
  panicked : Outcome T

abbrev relocated : {T : Types} → String → Option (SecretRef T) → Option (SecretRef T)
relocated namespace none = none
relocated namespace (some s) = some (record s { namespace = namespace })

-- pcSpec.Credentials.SecretRef.Namespace = namespace, where there is a SecretRef
abbrev pub with_secret_namespace :
    {T : Types} → String → ProviderConfigSpec T → ProviderConfigSpec T
with_secret_namespace namespace spec = record {
  credentials = record {
    source = spec.credentials.source;
    selectors = record {
      secret_ref = relocated namespace spec.credentials.selectors.secret_ref;
      rest = spec.credentials.selectors.rest;
    };
  };
}

-- pcRuntimeObj.(client.Object)
unfoldable pub as_client_object : {T : Types} → Object → Result T Object
as_client_object not_object = err (new " is not an Object")
as_client_object object = ok object

-- The switch on the type of the object that was read.
unfoldable pub select_spec :
    {T : Types} → Object → String → ProviderConfigSpec T → Result T (ProviderConfigSpec T)
select_spec provider_config namespace spec = ok (with_secret_namespace namespace spec)
select_spec cluster_provider_config namespace spec = ok spec
select_spec _ namespace spec = err (new "unknown provider config type")

-- return &mSpec, err
unfoldable pub pointer_to : {T : Types} {A : Type 0} → Result T A → Result T (Option A)
pointer_to (err e) = err e
pointer_to (ok spec) = ok (some spec)

module _ {T : Types} (api : Api T) where
  open api use {
    get_legacy, new_object, track_legacy, track, extract, marshal, unmarshal_spec, unmarshal_creds,
  }

  unfoldable pub unmarshal_shared : Result T T.Bytes → Result T (Option (ProviderConfigSpec T))
  unmarshal_shared (err e) = err e
  unmarshal_shared (ok bytes) = pointer_to (unmarshal_spec bytes)

  unfoldable pub to_shared_pc_spec :
      Option (ClusterSpec T) → Result T (Option (ProviderConfigSpec T))
  unfolding unmarshal_shared pointer_to
  to_shared_pc_spec none = ok none
  to_shared_pc_spec (some pc) = unmarshal_shared (marshal pc)

  unfoldable pub resolve_legacy :
      Option String → T.Identity → Exec T (Option (ProviderConfigSpec T))
  resolve_legacy none mg = lift (err (new err_no_provider_config))
  resolve_legacy (some name) mg = do
    pc ← or_wrap (get_legacy name) err_get_provider_config
    _ ← or_wrap (track_legacy mg) err_track_usage
    lift (to_shared_pc_spec (some pc))

  unfoldable pub resolve_modern :
      Option ProviderConfigReference → String → T.Identity → Exec T (Option (ProviderConfigSpec T))
  resolve_modern none namespace mg = lift (err (new err_no_provider_config))
  resolve_modern (some config_ref) namespace mg = do
    made ← or_wrap (lift (new_object config_ref.kind)) err_unknown_gvk
    pc_obj ← lift (as_client_object made)
    spec ← or_wrap (api.get pc_obj config_ref.name namespace) err_get_provider_config
    pc_spec ← lift (select_spec pc_obj namespace spec)
    _ ← or_wrap (track mg) err_track_usage
    pure (some pc_spec)

  unfoldable pub resolve_provider_config : Managed T → Exec T (Option (ProviderConfigSpec T))
  resolve_provider_config (legacy ref mg) = resolve_legacy ref mg
  resolve_provider_config (modern ref namespace mg) = resolve_modern ref namespace mg
  resolve_provider_config (neither mg) = lift (err (new "resource is not a managed resource"))

  unfoldable pub configure_with : Setup → Result T (Dict String) → Outcome T
  configure_with ps (err e) = returned ps (some (wrap e err_unmarshal_credentials))
  configure_with ps (ok creds) =
      returned (record ps { configuration = some (forward creds unifi_keys []) }) none

  unfoldable pub unmarshal_with : Setup → Result T T.Bytes → Outcome T
  unfolding configure_with
  unmarshal_with ps (err e) = returned ps (some (wrap e err_extract_credentials))
  unmarshal_with ps (ok bytes) = configure_with ps (unmarshal_creds bytes)

  unfoldable pub extract_with :
      Setup → Result T (Option (ProviderConfigSpec T)) → T.World → Outcome T × T.World
  unfolding unmarshal_with
  extract_with ps (err e) w =
      (returned empty_setup (some (wrap e "cannot resolve provider config")), w)
  extract_with ps (ok none) w = (panicked, w)
  extract_with ps (ok (some spec)) w =
      let r = extract spec.credentials.source spec.credentials.selectors w in
      (unmarshal_with ps r.0, r.1)

  -- The function that TerraformSetupBuilder returns.
  unfoldable pub terraform_setup_builder :
      String → String → String → Managed T → T.World → Outcome T × T.World
  unfolding extract_with
  terraform_setup_builder version provider_source provider_version mg w =
      let ps : Setup = record {
        version = version;
        requirement = record { source = provider_source; version = provider_version };
        configuration = none;
      } in
      let r = resolve_provider_config mg w in extract_with ps r.0 r.1
