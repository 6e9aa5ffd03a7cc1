-- ===== src/Clients/Builder.antt =====
-- What the setup function returns, on success and on failure.
use provider_upjet_unifi.Base.{
  ◌≡◌, ◌≢◌, ◌⊎◌, inl, inr, refl, ◌∙◌, ap, sym, String, Option, none, some, [], arith,
}
use provider_upjet_unifi.Base.Dict.{Dict}
use provider_upjet_unifi.Clients.{
  Types, Error, Result, ok, err, Exec, lift, or_wrap, SecretRef, ProviderConfigSpec, ClusterSpec,
  ProviderConfigReference, Managed, legacy, modern, neither, Object, provider_config,
  cluster_provider_config, other_object, not_object, Api, err_unknown_gvk, err_get_provider_config,
  err_track_usage, as_client_object, select_spec, to_shared_pc_spec, resolve_legacy, resolve_modern,
  resolve_provider_config, terraform_setup_builder, Outcome, returned, panicked, Setup, forward,
  unifi_keys, extract_with, unmarshal_with, relocated,
}
use provider_upjet_unifi.Clients.Resolve.{>>=-eq-ok, Selected, resolve_modern-ResolvedModern}

namespace_of-relocated :
    {T : Types} (namespace : String) (o : Option (SecretRef T)) {s : SecretRef T}
    → relocated namespace o ≡ some s
    → s.namespace ≡ namespace
namespace_of-relocated namespace none h = cc
namespace_of-relocated namespace (some s) h = ground arith

namespace_of-Selected :
    {T : Types} (object : Object) (namespace : String) (stored spec : ProviderConfigSpec T)
    (s : SecretRef T)
    → Path (Result T Object) (ok object) (ok provider_config)
    → Selected object namespace stored spec
    → spec.credentials.selectors.secret_ref ≡ some s
    → s.namespace ≡ namespace
namespace_of-Selected provider_config namespace stored spec s k sel e =
    namespace_of-relocated namespace stored.credentials.selectors.secret_ref
      (ap (λ p. p.credentials.selectors.secret_ref) (sym sel) ∙ e)
namespace_of-Selected cluster_provider_config namespace stored spec s k sel e = cc
namespace_of-Selected other_object namespace stored spec s k sel e = cc
namespace_of-Selected not_object namespace stored spec s k sel e = cc

Result-cases :
    {T : Types} {A : Type 0} (r : Result T A)
    → ((e : Error T) × (r ≡ err e)) ⊎ ((a : A) × (r ≡ ok a))
Result-cases (err e) = inl (e, refl)
Result-cases (ok a) = inr (a, refl)

module _ {T : Types} (api : Api T) where
  -- A namespaced resource whose reference is to a ProviderConfig never has its credentials read
  -- from a secret in another namespace, whatever the configuration names.
  pub resolve_modern-secret_namespace :
      (ref : ProviderConfigReference) (namespace : String) (mg : T.Identity) (w w' : T.World)
      (spec : ProviderConfigSpec T) (s : SecretRef T)
      → api.new_object ref.kind ≡ ok provider_config
      → resolve_modern api (some ref) namespace mg w ≡ (ok (some spec), w')
      → spec.credentials.selectors.secret_ref ≡ some s
      → s.namespace ≡ namespace
  resolve_modern-secret_namespace ref namespace mg w w' spec s kind h e =
      let r = resolve_modern-ResolvedModern api ref namespace mg w w' spec h in
      namespace_of-Selected r.object namespace r.stored spec s (sym r.kind_known ∙ kind) r.selected
        e

  to_shared-eq-ok :
      (pc : ClusterSpec T) (o : Option (ProviderConfigSpec T))
      → to_shared_pc_spec api (some pc) ≡ ok o
      → (spec : ProviderConfigSpec T) × (o ≡ some spec)
  unfolding to_shared_pc_spec
  to_shared-eq-ok pc o h = elim (Result-cases (api.marshal pc)) [
    | inl (e, f) ↦ cc (rw f at h)
    | inr (bytes, f) ↦ elim (Result-cases (api.unmarshal_spec bytes)) [
      | inl (e, g) ↦ cc (rw (f, g) at h)
      | inr (spec, g) ↦ (spec, cc (rw (f, g) at h))
    ]
  ]

  -- On every failure the configuration is nil: no credential is in what an error returns.
  pub setup_error_keeps_secret :
      (version source provider_version : String) (mg : Managed T) (w : T.World) (ps : Setup)
      (e : Error T)
      → (terraform_setup_builder api version source provider_version mg w).0 ≡ returned ps (some e)
      → ps.configuration ≡ none
  unfolding terraform_setup_builder
  setup_error_keeps_secret version source provider_version mg w ps e h = ground arith

  abbrev Given : Option (ProviderConfigSpec T) → Type 0
  Given o = (spec : ProviderConfigSpec T) × (o ≡ some spec)

  Given-pure :
      (spec : ProviderConfigSpec T) (o : Option (ProviderConfigSpec T)) (w w' : T.World)
      → Path (Result T (Option (ProviderConfigSpec T)) × T.World) (ok (some spec), w) (ok o, w')
      → Given o
  Given-pure spec o w w' h = (spec, cc (ap (λ p. p.0) h))

  resolve_provider_config-Given :
      (mg : Managed T) (o : Option (ProviderConfigSpec T)) (w w' : T.World)
      → resolve_provider_config api mg w ≡ (ok o, w')
      → Given o
  unfolding resolve_provider_config resolve_legacy resolve_modern
  resolve_provider_config-Given (legacy none mg) o w w' h = cc (ap (λ p. p.0) h)
  resolve_provider_config-Given (legacy (some name) mg) o w w' h =
      let (pc, w₁, e₁, h₁) =
        >>=-eq-ok {T = T} (or_wrap (api.get_legacy name) err_get_provider_config) _ w w' h in
      let (done, w₂, e₂, h₂) =
        >>=-eq-ok {T = T} (or_wrap (api.track_legacy mg) err_track_usage) _ w₁ w' h₁ in
      to_shared-eq-ok pc o (ap (λ p. p.0) h₂)
  resolve_provider_config-Given (modern none namespace mg) o w w' h = cc (ap (λ p. p.0) h)
  resolve_provider_config-Given (modern (some ref) namespace mg) o w w' h =
      let make : Exec T Object = lift (api.new_object ref.kind) in
      let (made, w₁, e₁, h₁) = >>=-eq-ok {T = T} (or_wrap make err_unknown_gvk) _ w w' h in
      let (object, w₂, e₂, h₂) = >>=-eq-ok {T = T} (lift (as_client_object made)) _ w₁ w' h₁ in
      let read = api.get object ref.name namespace in
      let (stored, w₃, e₃, h₃) =
        >>=-eq-ok {T = T} (or_wrap read err_get_provider_config) _ w₂ w' h₂ in
      let (chosen, w₄, e₄, h₄) =
        >>=-eq-ok {T = T} (lift (select_spec object namespace stored)) _ w₃ w' h₃ in
      let (done, w₅, e₅, h₅) =
        >>=-eq-ok {T = T} (or_wrap (api.track mg) err_track_usage) _ w₄ w' h₄ in
      Given-pure chosen o w₅ w' h₅
  resolve_provider_config-Given (neither mg) o w w' h = cc (ap (λ p. p.0) h)

  extract_with-returns :
      (ps : Setup) (p : Result T (Option (ProviderConfigSpec T)) × T.World)
      → ((o : Option (ProviderConfigSpec T)) (w' : T.World) → p ≡ (ok o, w') → Given o)
      → (extract_with api ps p.0 p.1).0 ≢ panicked
  unfolding extract_with
  extract_with-returns ps (err e, v) g h = cc
  extract_with-returns ps (ok none, v) g h = cc ((g none v refl).1)
  extract_with-returns ps (ok (some spec), v) g h = ground arith

  -- The setup function returns for every resource and every behaviour of the API: the
  -- specification that it goes on to read is never nil.
  pub terraform_setup_builder-returns :
      (version source provider_version : String) (mg : Managed T) (w : T.World)
      → (terraform_setup_builder api version source provider_version mg w).0 ≢ panicked
  unfolding terraform_setup_builder
  terraform_setup_builder-returns version source provider_version mg w =
      extract_with-returns _ (resolve_provider_config api mg w)
        (λ o w' e. resolve_provider_config-Given mg o w w' e)

  -- How the setup function comes to succeed.
  pub record Configured (version source provider_version : String) (mg : Managed T) (w w' : T.World)
      (ps : Setup) : Type 0 where
    pub spec : ProviderConfigSpec T
    pub resolved : T.World
    pub bytes : T.Bytes
    pub creds : Dict String
    pub was_resolved : resolve_provider_config api mg w ≡ (ok (some spec), resolved)
    pub was_extracted :
        api.extract spec.credentials.source spec.credentials.selectors resolved ≡ (ok bytes, w')
    pub was_decoded : api.unmarshal_creds bytes ≡ ok creds
    pub kept_version : ps.version ≡ version
    pub kept_source : ps.requirement.source ≡ source
    pub kept_provider_version : ps.requirement.version ≡ provider_version
    pub configured : ps.configuration ≡ some (forward creds unifi_keys [])

  abbrev started : String → String → String → Setup
  started version source provider_version = record {
    version = version;
    requirement = record { source = source; version = provider_version };
    configuration = none;
  }

  module _ (version source provider_version : String) (mg : Managed T) (w w' : T.World)
      (ps : Setup) where
    open T use {World}

    Configured-at :
        (spec : ProviderConfigSpec T) (v : World) (q : Result T T.Bytes × World)
        → resolve_provider_config api mg w ≡ (ok (some spec), v)
        → api.extract spec.credentials.source spec.credentials.selectors v ≡ q
        → Path
            (Outcome T × World)
            (unmarshal_with api (started version source provider_version) q.0, q.1)
            (returned ps none, w')
        → Configured version source provider_version mg w w' ps
    unfolding unmarshal_with
    Configured-at spec v (err e, u) r x h = cc (ap (λ q. q.0) h)
    Configured-at spec v (ok bytes, u) r x h = elim (Result-cases (api.unmarshal_creds bytes)) [
      | inl (e, f) ↦ cc (rw f at (ap (λ q. q.0) h))
      | inr (creds, f) ↦
          let start = started version source provider_version in
          let made : Setup = record start { configuration = some (forward creds unifi_keys []) } in
          let same : made ≡ ps = cc (rw f at (ap (λ q. q.0) h)) in
          record {
            spec = spec;
            resolved = v;
            bytes = bytes;
            creds = creds;
            was_resolved = r;
            was_extracted = x ∙ ap (λ u. (ok bytes, u)) (ap (λ q. q.1) h);
            was_decoded = f;
            kept_version = ap (λ p. p.version) (sym same);
            kept_source = ap (λ p. p.requirement.source) (sym same);
            kept_provider_version = ap (λ p. p.requirement.version) (sym same);
            configured = ap (λ p. p.configuration) (sym same);
          }
    ]

    Configured-from :
        (p : Result T (Option (ProviderConfigSpec T)) × World)
        → resolve_provider_config api mg w ≡ p
        → extract_with api (started version source provider_version) p.0 p.1
          ≡ (returned ps none, w')
        → Configured version source provider_version mg w w' ps
    unfolding extract_with
    Configured-from (err e, v) r h = cc (ap (λ q. q.0) h)
    Configured-from (ok none, v) r h = cc (ap (λ q. q.0) h)
    Configured-from (ok (some spec), v) r h = Configured-at spec v _ r refl h

    -- Success means: the configuration of the resource was resolved, its credentials were
    -- extracted and decoded, the three versions are those the builder was given, and the
    -- configuration is what `forward` makes of the decoded credentials.
    pub terraform_setup_builder-Configured :
        terraform_setup_builder api version source provider_version mg w ≡ (returned ps none, w')
        → Configured version source provider_version mg w w' ps
    unfolding terraform_setup_builder
    terraform_setup_builder-Configured h = Configured-from (resolve_provider_config api mg w) refl h
