-- ===== src/Clients/Resolve.antt =====
-- What a successful resolution of a provider configuration has done and returns.
use mathlib.Core.Path.{subst}
use provider_upjet_unifi.Base.{◌≡◌, refl, ◌∙◌, ap, sym, String, Option, some}
use provider_upjet_unifi.Clients.{
  Types, Result, ok, err, Exec, ◌>>=◌, lift, or_wrap, continue, wrapped, ProviderConfigSpec,
  ProviderConfigReference, Object, provider_config, cluster_provider_config, other_object,
  not_object, Api, err_unknown_gvk, err_get_provider_config, err_track_usage, with_secret_namespace,
  as_client_object, select_spec, resolve_modern,
}

module _ {T : Types} {A B : Type 0} where
  pub >>=-eq-ok :
      (m : Exec T A) (f : A → Exec T B) (w w' : T.World) {b : B}
      → (m >>= f) w ≡ (ok b, w')
      → (a : A) × (v : T.World) × (m w ≡ (ok a, v)) × (f a v ≡ (ok b, w'))
  >>=-eq-ok m f w w' {b} h = go (m w) h
    where
      go :
          (p : Result T A × T.World)
          → continue p.0 f p.1 ≡ (ok b, w')
          → (a : A) × (v : T.World) × (p ≡ (ok a, v)) × (f a v ≡ (ok b, w'))
      go (ok a, v) k = (a, v, refl, k)
      go (err e, v) k = cc (ap (λ p. p.0) k)

module _ {T : Types} {A : Type 0} where
  pub or_wrap-eq-ok :
      (m : Exec T A) (message : String) (w w' : T.World) {a : A}
      → or_wrap m message w ≡ (ok a, w')
      → m w ≡ (ok a, w')
  or_wrap-eq-ok m message w w' {a} h = go (m w) h
    where
      go :
          (p : Result T A × T.World)
          → Path (Result T A × T.World) (wrapped p.0 message, p.1) (ok a, w')
          → p ≡ (ok a, w')
      go (ok a', v) k = k
      go (err e, v) k = cc (ap (λ p. p.0) k)

-- Which specification a read object yields: a namespaced ProviderConfig has its secret looked up
-- in the resource's own namespace, a ClusterProviderConfig is taken as it is stored, and nothing
-- else is accepted.
abbrev pub Selected :
    {T : Types} → Object → String → ProviderConfigSpec T → ProviderConfigSpec T → Type 0
Selected provider_config namespace stored spec = spec ≡ with_secret_namespace namespace stored
Selected cluster_provider_config namespace stored spec = spec ≡ stored
Selected _ namespace stored spec = ⊥

ok_injective : {T : Types} {A : Type 0} {a b : A} → Path (Result T A) (ok a) (ok b) → a ≡ b
ok_injective e = cc

select_spec-eq-ok :
    {T : Types} (object : Object) (namespace : String) (stored : ProviderConfigSpec T)
    {spec : ProviderConfigSpec T}
    → select_spec object namespace stored ≡ ok spec
    → Selected object namespace stored spec
unfolding select_spec
select_spec-eq-ok provider_config namespace stored h = sym (ok_injective h)
select_spec-eq-ok cluster_provider_config namespace stored h = sym (ok_injective h)
select_spec-eq-ok other_object namespace stored h = cc
select_spec-eq-ok not_object namespace stored h = cc

as_client_object-eq-ok :
    {T : Types} (object object' : Object)
    → Path (Result T Object) (as_client_object object) (ok object')
    → object ≡ object'
unfolding as_client_object
as_client_object-eq-ok provider_config o h = ok_injective h
as_client_object-eq-ok cluster_provider_config o h = ok_injective h
as_client_object-eq-ok other_object o h = ok_injective h
as_client_object-eq-ok not_object o h = cc

-- What a successful resolution did for a namespaced resource: the kind of its reference is known,
-- the object was read by that name in the resource's namespace, the specification is the one that
-- `Selected` says, and the usage of the configuration was recorded last.
pub record ResolvedModern {T : Types} (api : Api T) (ref : ProviderConfigReference)
    (namespace : String) (mg : T.Identity) (w w' : T.World) (spec : ProviderConfigSpec T)
    : Type 0 where
  pub object : Object
  pub stored : ProviderConfigSpec T
  pub read : T.World
  pub kind_known : api.new_object ref.kind ≡ ok object
  pub was_read : api.get object ref.name namespace w ≡ (ok stored, read)
  pub selected : Selected object namespace stored spec
  pub tracked : api.track mg read ≡ (ok tt, w')

module _ {T : Types} (api : Api T) where
  -- The record from the equation of each step of the do block.
  resolved_from :
      (ref : ProviderConfigReference) (namespace : String) (mg : T.Identity)
      (w w₁ w₂ w₃ w₄ w₅ w' : T.World) (made object : Object)
      (stored chosen spec : ProviderConfigSpec T)
      → Path (Result T Object × T.World) (api.new_object ref.kind, w) (ok made, w₁)
      → Path (Result T Object × T.World) (as_client_object made, w₁) (ok object, w₂)
      → api.get object ref.name namespace w₂ ≡ (ok stored, w₃)
      → Path
          (Result T (ProviderConfigSpec T) × T.World)
          (select_spec object namespace stored, w₃)
          (ok chosen, w₄)
      → api.track mg w₄ ≡ (ok tt, w₅)
      → Path
          (Result T (Option (ProviderConfigSpec T)) × T.World)
          (ok (some chosen), w₅)
          (ok (some spec), w')
      → ResolvedModern api ref namespace mg w w' spec
  resolved_from ref namespace mg w w₁ w₂ w₃ w₄ w₅ w' made object stored chosen spec k a g s t r =
      let same : chosen ≡ spec = cc (ap (λ p. p.0) r) in
      record {
        object = object;
        stored = stored;
        read = w₃;
        kind_known = ap (λ p. p.0) k ∙ ap ok (as_client_object-eq-ok made object (ap (λ p. p.0) a));
        was_read = ap (api.get object ref.name namespace) (ap (λ p. p.1) k ∙ ap (λ p. p.1) a) ∙ g;
        selected =
            subst (Selected object namespace stored) same
              (select_spec-eq-ok object namespace stored (ap (λ p. p.0) s));
        tracked = ap (api.track mg) (ap (λ p. p.1) s) ∙ t ∙ ap (λ v. (ok tt, v)) (ap (λ p. p.1) r);
      }

  -- A resolution that succeeds for a namespaced resource has done the four things that
  -- `ResolvedModern` lists, and returns the specification that it names.
  pub resolve_modern-ResolvedModern :
      (ref : ProviderConfigReference) (namespace : String) (mg : T.Identity) (w w' : T.World)
      (spec : ProviderConfigSpec T)
      → resolve_modern api (some ref) namespace mg w ≡ (ok (some spec), w')
      → ResolvedModern api ref namespace mg w w' spec
  unfolding resolve_modern
  resolve_modern-ResolvedModern ref namespace mg w w' spec h =
      let make : Exec T Object = lift (api.new_object ref.kind) in
      let (made, w₁, e₁, h₁) = >>=-eq-ok {T = T} (or_wrap make err_unknown_gvk) _ w w' h in
      let (object, w₂, e₂, h₂) = >>=-eq-ok {T = T} (lift (as_client_object made)) _ w₁ w' h₁ in
      let read = api.get object ref.name namespace in
      let (stored, w₃, e₃, h₃) =
        >>=-eq-ok {T = T} (or_wrap read err_get_provider_config) _ w₂ w' h₂ in
      let (chosen, w₄, e₄, h₄) =
        >>=-eq-ok {T = T} (lift (select_spec object namespace stored)) _ w₃ w' h₃ in
      let (done, w₅, e₅, h₅) =
        >>=-eq-ok {T = T} (or_wrap (api.track mg) err_track_usage) _ w₄ w' h₄ in
      resolved_from ref namespace mg w w₁ w₂ w₃ w₄ w₅ w' made object stored chosen spec
        (or_wrap-eq-ok {T = T} make err_unknown_gvk w w₁ e₁) e₂
        (or_wrap-eq-ok {T = T} read err_get_provider_config w₂ w₃ e₃) e₄
        (or_wrap-eq-ok {T = T} (api.track mg) err_track_usage w₄ w₅ e₅) h₅
