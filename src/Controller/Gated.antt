-- ===== src/Controller/Gated.antt =====
-- SetupGated: what it leaves with the gate.
use provider_upjet_unifi.Base.{
  ◌≡◌, ◌≢◌, refl, ◌<>◌, Bool, true, false, if◌then◌else◌, none, some, List, [], ◌∷◌,
}
use provider_upjet_unifi.Controller.{
  failed, wrapped, panicked, Scope, cluster, namespaced, Options, Manager, Result, GroupVersionKind,
  root_group, gate_kinds, run_all, setup_one, logged, setup_gated_one, setup_gated,
}
use provider_upjet_unifi.Controller.Kinds.{Controller, managed, provider_config, controllers}
use provider_upjet_unifi.Controller.Loop.{IsComplete, setup_one-ne-panicked}

-- The kinds whose controllers Setup of the package builds.
abbrev pub reconciled : Scope → Controller → List GroupVersionKind
reconciled scope (managed k) =
    record { group = k.group <> "." <> root_group scope; version = "v1alpha1"; kind = k.kind } ∷ []
reconciled cluster provider_config =
    record { group = "unifi.crossplane.io"; version = "v1beta1"; kind = "ProviderConfig" } ∷ []
reconciled namespaced provider_config =
    record { group = "unifi.m.crossplane.io"; version = "v1beta1"; kind = "ProviderConfig" }
    ∷ record {
      group = "unifi.m.crossplane.io";
      version = "v1beta1";
      kind = "ClusterProviderConfig";
    }
    ∷ []

pub data Among (g : GroupVersionKind) : List GroupVersionKind → Type 0 where
  here : {l : List GroupVersionKind} → Among g (g ∷ l)
  there : {h : GroupVersionKind} {l : List GroupVersionKind} → Among g l → Among g (h ∷ l)

pub data AllAmong (kinds : List GroupVersionKind) : List GroupVersionKind → Type 0 where
  nothing : AllAmong kinds []
  also :
      {g : GroupVersionKind} {l : List GroupVersionKind}
      → Among g kinds
      → AllAmong kinds l
      → AllAmong kinds (g ∷ l)

module _ (m : Manager) (o : Options) where
  open m use {World, Failure, register, log_error}

  -- The world after a Setup, with its error logged if it returned one.
  abbrev pub settled : Result m → World
  settled (none, v) = v
  settled (some f, v) = log_error f v

  -- One registration for each controller, in their order: it waits for every kind that the controller's
  -- Setup builds a controller for, and its callback runs that Setup, logs its error, and returns.
  pub data Registers (scope : Scope) : List Controller → World → World → Type 0 where
    stop : (w : World) → Registers scope [] w w
    next :
        {c : Controller} {rest : List Controller} {w u : World} (kinds : List GroupVersionKind)
        (callback : World → Result m)
        → AllAmong kinds (reconciled scope c)
        → ((v : World) → callback v ≡ (none, settled (setup_one m scope o c v)))
        → Registers scope rest (register kinds callback w) u
        → Registers scope (c ∷ rest) w u

  AllAmong-gate_kinds :
      (scope : Scope) (c : Controller) → AllAmong (gate_kinds scope c) (reconciled scope c)
  AllAmong-gate_kinds scope (managed k) = also here nothing
  AllAmong-gate_kinds cluster provider_config = also here nothing
  AllAmong-gate_kinds namespaced provider_config = also (there here) (also here nothing)

  logged-settled : (r : Result m) → r.0 ≢ some panicked → logged m r ≡ (none, settled r)
  unfolding logged
  logged-settled (none, v) h = refl
  logged-settled (some (failed e), v) h = refl
  logged-settled (some (wrapped e s), v) h = refl
  logged-settled (some panicked, v) h = absurd (h refl)

  -- What a run returned, and the world that the registrations lead to.
  Gated : Scope → List Controller → World → Result m → Type 0
  Gated scope l w r = (r.0 ≡ none) × Registers scope l w r.1

  if_true : (test : Bool) (r r' : Result m) → test ≡ true → (if test then r else r') ≡ r
  if_true true r r' h = refl
  if_true false r r' h = cc

  setup_gated_one-registers :
      (scope : Scope) (c : Controller) (w : World)
      → o.gate ≡ true
      → setup_gated_one m scope o c w
        ≡ (none, register (gate_kinds scope c) (λ v. logged m (setup_one m scope o c v)) w)
  unfolding setup_gated_one
  setup_gated_one-registers scope c w gate = if_true o.gate _ _ gate

  run_all-Gated :
      (scope : Scope) (l : List Controller) (w : World)
      → IsComplete m o
      → o.gate ≡ true
      → Gated scope l w (run_all m (setup_gated_one m scope o) l w)
  unfolding run_all Gated
  run_all-Gated scope [] w complete gate = (refl, stop w)
  run_all-Gated scope (c ∷ rest) w complete gate =
      let callback : World → Result m = λ v. logged m (setup_one m scope o c v) in
      let (ok, registers) =
        run_all-Gated scope rest (register (gate_kinds scope c) callback w) complete gate in
      rw (setup_gated_one-registers scope c w gate) (
        ok,
        next (gate_kinds scope c) callback (AllAmong-gate_kinds scope c)
            (λ v.
              logged-settled (setup_one m scope o c v)
                (setup_one-ne-panicked m o scope c v complete))
            registers,
      )

  -- With a gate, a logger, a provider, and change logs enabled only together with their options,
  -- SetupGated returns nil and leaves the manager as one registration for each controller does, in the
  -- order of zz_setup.go. Each waits for every kind that the controller's Setup builds a controller
  -- for, and its callback, whenever it is called, runs that Setup without a panic and logs its error.
  pub setup_gated-Registers :
      (scope : Scope) (w : World)
      → IsComplete m o
      → o.gate ≡ true
      → ((setup_gated m scope o w).0 ≡ none)
        × Registers scope controllers w (setup_gated m scope o w).1
  unfolding setup_gated Gated
  setup_gated-Registers scope w complete gate = run_all-Gated scope controllers w complete gate
