-- ===== src/Tests/Legacy.antt =====
-- A cluster-scoped resource over an API server whose JSON is the pair of what it encodes.
use provider_upjet_unifi.Base.{ℕ, suc, ◌≡◌, refl, ◌∙◌, sym, ap, String, Option, none, some, []}
use provider_upjet_unifi.Clients.{
  Types, Result, ok, err, foreign, SecretRef, ProviderConfigSpec, ClusterSpec, Api, resolve_legacy,
  to_shared_pc_spec, unmarshal_shared, pointer_to,
}
use provider_upjet_unifi.Clients.Legacy.{
  shared, ReadsBack, ResolvedLegacy, resolve_legacy-ResolvedLegacy,
}

abbrev types : Types
types = record {
  World = ℕ;
  Failure = String;
  Source = String;
  SecretName = String;
  OtherSelectors = Unit;
  Identity = String;
  Bytes = String × Option (String × String);
}

abbrev encode : Option (SecretRef types) → Option (String × String)
encode none = none
encode (some s) = some (s.namespace, s.rest)

abbrev decode : Option (String × String) → Option (SecretRef types)
decode none = none
decode (some (namespace, name)) = some (record { namespace = namespace; rest = name })

decode-encode : (o : Option (SecretRef types)) → decode (encode o) ≡ o
decode-encode none = refl
decode-encode (some s) = refl

abbrev marshal : ClusterSpec types → String × Option (String × String)
marshal pc = (pc.credentials.source, encode pc.credentials.selectors.secret_ref)

abbrev spec_of : String → Option (SecretRef types) → ProviderConfigSpec types
spec_of source s = record {
  credentials = record { source = source; selectors = record { secret_ref = s; rest = tt } };
}

abbrev stored : ClusterSpec types
stored = record {
  credentials = record {
    source = "Secret";
    selectors = record {
      secret_ref = some (record { namespace = "crossplane-system"; rest = "unifi" });
      rest = tt;
    };
  };
}

abbrev api : Api types
api = record {
  get_legacy = λ name w. (ok stored, suc w);
  get = λ object name namespace w. (err (foreign "not found"), w);
  new_object = λ kind. err (foreign "no kind");
  track_legacy = λ mg w. (ok tt, suc w);
  track = λ mg w. (ok tt, suc w);
  extract = λ source selectors w. (err (foreign "not found"), w);
  marshal = λ pc. ok (marshal pc);
  unmarshal_spec = λ bytes. ok (spec_of bytes.0 (decode bytes.1));
  unmarshal_creds = λ bytes. ok [];
}

ok_injective :
    {a b : String × Option (String × String)}
    → Path (Result types (String × Option (String × String))) (ok a) (ok b)
    → a ≡ b
ok_injective e = cc

reads_back : ReadsBack api
reads_back pc bytes h =
    ap (λ b. ok (spec_of b.0 (decode b.1))) (sym (ok_injective h))
    ∙ ap (λ s. ok (spec_of pc.credentials.source s))
        (decode-encode pc.credentials.selectors.secret_ref)

resolved : resolve_legacy api (some "default") "record" 0 ≡ (ok (some (shared stored)), 2)
unfolding resolve_legacy to_shared_pc_spec unmarshal_shared pointer_to
resolved = refl

resolve_legacy-ResolvedLegacy_example :
    ResolvedLegacy api "default" "record" 0 2 (some (shared stored))
resolve_legacy-ResolvedLegacy_example =
    resolve_legacy-ResolvedLegacy api "default" "record" 0 2 (some (shared stored)) reads_back
      resolved
