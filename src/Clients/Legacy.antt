-- ===== src/Clients/Legacy.antt =====
-- Cluster-scoped resources: the way of their specification through JSON.
use provider_upjet_unifi.Base.{◌≡◌, refl, ◌∙◌, ap, Option, some, String}
use provider_upjet_unifi.Clients.{
  Types, Result, ok, err, or_wrap, ProviderConfigSpec, ClusterSpec, Api, err_get_provider_config,
  err_track_usage, to_shared_pc_spec, resolve_legacy, unmarshal_shared, pointer_to,
}
use provider_upjet_unifi.Clients.Resolve.{>>=-eq-ok, or_wrap-eq-ok}

-- The specification of the namespaced API group with the same credentials.
abbrev pub shared : {T : Types} → ClusterSpec T → ProviderConfigSpec T
shared pc = record { credentials = pc.credentials }

module _ {T : Types} (api : Api T) where
  -- What encoding/json makes of one of the two specifications reads back as the other: their fields
  -- have the same names and types.
  abbrev pub ReadsBack : Type 0
  ReadsBack =
      (pc : ClusterSpec T) (bytes : T.Bytes)
      → api.marshal pc ≡ ok bytes
      → api.unmarshal_spec bytes ≡ ok (shared pc)

  to_shared-eq :
      (pc : ClusterSpec T) (r : Result T T.Bytes) (o : Option (ProviderConfigSpec T))
      → ReadsBack
      → api.marshal pc ≡ r
      → unmarshal_shared api r ≡ ok o
      → o ≡ some (shared pc)
  unfolding unmarshal_shared pointer_to
  to_shared-eq pc (err e) o back m h = cc
  to_shared-eq pc (ok bytes) o back m h = cc (rw (back pc bytes m) at h)

  -- What a successful resolution did for a cluster-scoped resource.
  pub record ResolvedLegacy (name : String) (mg : T.Identity) (w w' : T.World)
      (o : Option (ProviderConfigSpec T)) : Type 0 where
    pub stored : ClusterSpec T
    pub read : T.World
    pub was_read : api.get_legacy name w ≡ (ok stored, read)
    pub tracked : api.track_legacy mg read ≡ (ok tt, w')
    pub converted : o ≡ some (shared stored)

  -- Where JSON reads one specification back as the other, a resolution that succeeds for a
  -- cluster-scoped resource has read the configuration of that name, has tracked its usage, and
  -- returns exactly the credentials that the configuration holds.
  pub resolve_legacy-ResolvedLegacy :
      (name : String) (mg : T.Identity) (w w' : T.World) (o : Option (ProviderConfigSpec T))
      → ReadsBack
      → resolve_legacy api (some name) mg w ≡ (ok o, w')
      → ResolvedLegacy name mg w w' o
  unfolding resolve_legacy to_shared_pc_spec
  resolve_legacy-ResolvedLegacy name mg w w' o back h =
      let (pc, w₁, e₁, h₁) =
        >>=-eq-ok {T = T} (or_wrap (api.get_legacy name) err_get_provider_config) _ w w' h in
      let (done, w₂, e₂, h₂) =
        >>=-eq-ok {T = T} (or_wrap (api.track_legacy mg) err_track_usage) _ w₁ w' h₁ in
      record {
        stored = pc;
        read = w₁;
        was_read = or_wrap-eq-ok {T = T} (api.get_legacy name) err_get_provider_config w w₁ e₁;
        tracked =
            or_wrap-eq-ok {T = T} (api.track_legacy mg) err_track_usage w₁ w₂ e₂
            ∙ ap (λ v. (ok tt, v)) (ap (λ p. p.1) h₂);
        converted = to_shared-eq pc (api.marshal pc) o back refl (ap (λ p. p.0) h₂);
      }
