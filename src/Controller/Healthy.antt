-- ===== src/Controller/Healthy.antt =====
-- The setup loops over a manager of which no call fails.
use provider_upjet_unifi.Base.{
  String, Bool, true, ◌≡◌, refl, none, some, List, [], ◌∷◌, Bool-cases, inl, inr, arith,
}
use provider_upjet_unifi.Controller.{
  Scope, cluster, namespaced, Options, ReconcilerOption, Manager, Result, proceed, returns,
  returns_wrapped, record_state, build_controller, setup_managed, setup_provider_config,
  setup_config, dereferenced, read_metrics, setup_one, run_all, setup, setup_webhook_one,
  setup_webhook_with_manager,
}
use provider_upjet_unifi.Controller.Kinds.{
  ManagedKind, Controller, managed, provider_config, controllers,
}
use provider_upjet_unifi.Controller.Loop.{IsComplete}

pub record IsHealthy (m : Manager) : Type 0 where
  pub add_state_recorder :
      (scope : Scope) (k : ManagedKind) (w : m.World) → (m.add_state_recorder scope k w).0 ≡ none
  pub complete :
      (scope : Scope) (k : ManagedKind) (options : List ReconcilerOption) (w : m.World)
      → (m.complete scope k options w).0 ≡ none
  pub complete_config :
      (scope : Scope) (kind : String) (w : m.World) → (m.complete_config scope kind w).0 ≡ none
  pub complete_webhook :
      (scope : Scope) (k : ManagedKind) (w : m.World) → (m.complete_webhook scope k w).0 ≡ none

module _ (m : Manager) (healthy : IsHealthy m) where
  open m use {World, Failure}

  proceed-none :
      (r : Result m) (rest : World → Result m)
      → r.0 ≡ none
      → ((v : World) → (rest v).0 ≡ none)
      → (proceed m r rest).0 ≡ none
  proceed-none (none, v) rest e h = h v
  proceed-none (some f, v) rest e h = cc

  run_all-none :
      {C : Type 0} (step : C → World → Result m) (l : List C) (w : World)
      → ((c : C) (v : World) → (step c v).0 ≡ none)
      → (run_all m step l w).0 ≡ none
  unfolding run_all
  run_all-none step [] w h = refl
  run_all-none step (c ∷ rest) w h =
      proceed-none (step c w) (λ v. run_all m step rest v) (h c w) (λ v. run_all-none step rest v h)

  build_controller-none :
      (scope : Scope) (k : ManagedKind) (o : Options) (w : World)
      → IsComplete m o
      → (build_controller m scope k o w).0 ≡ none
  unfolding build_controller returns
  build_controller-none scope k o w ready = elim (Bool-cases o.change_logs_enabled) [
    | inl e ↦ rw (e, ready.change_logs e, healthy.complete scope k _ w)
    | inr e ↦ rw (e, healthy.complete scope k _ w)
  ]

  record_state-none :
      (scope : Scope) (k : ManagedKind) (o : Options) (w : World)
      → (record_state m scope k o w).0 ≡ none
  unfolding record_state returns_wrapped
  record_state-none scope k o w = ground (arith, healthy.add_state_recorder scope k w)

  read_metrics-none : (o : Options) (w : World) → (read_metrics m o w).0 ≡ none
  unfolding read_metrics
  read_metrics-none o w = ground arith

  setup_config-none :
      (scope : Scope) (kind : String) (o : Options) (w : World)
      → o.logger ≡ true
      → (setup_config m scope kind o w).0 ≡ none
  unfolding setup_config dereferenced returns
  setup_config-none scope kind o w h = rw (h, healthy.complete_config scope kind w)

  dereferenced-none : (set : Bool) (w : World) → set ≡ true → (dereferenced m set w).0 ≡ none
  unfolding dereferenced
  dereferenced-none set w h = rw h

  setup_one-none :
      (scope : Scope) (o : Options) (c : Controller) (w : World)
      → IsComplete m o
      → (setup_one m scope o c w).0 ≡ none
  unfolding setup_one setup_managed setup_provider_config
  setup_one-none scope o (managed k) w ready =
      proceed-none (dereferenced m o.logger w) _ (dereferenced-none o.logger w ready.logger) λ w₁.
        proceed-none (dereferenced m o.provider w₁) _
          (dereferenced-none o.provider w₁ ready.provider)
          λ w₂. proceed-none (read_metrics m o w₂) _ (read_metrics-none o w₂) λ w₃.
            proceed-none (record_state m scope k o w₃) _ (record_state-none scope k o w₃)
              (λ v. build_controller-none scope k o v ready)
  setup_one-none cluster o provider_config w ready =
      setup_config-none cluster "ProviderConfig" o w ready.logger
  setup_one-none namespaced o provider_config w ready =
      proceed-none (setup_config m namespaced "ClusterProviderConfig" o w) _
        (setup_config-none namespaced "ClusterProviderConfig" o w ready.logger)
        (λ v. setup_config-none namespaced "ProviderConfig" o v ready.logger)

  setup_webhook_one-none :
      (scope : Scope) (c : Controller) (w : World) → (setup_webhook_one m scope c w).0 ≡ none
  unfolding setup_webhook_one returns_wrapped
  setup_webhook_one-none scope (managed k) w = rw (healthy.complete_webhook scope k w)
  setup_webhook_one-none scope provider_config w = refl

  -- Where no call of the manager fails, setting up all controllers of a scope returns nil.
  pub setup-none :
      (scope : Scope) (o : Options) (w : World) → IsComplete m o → (setup m scope o w).0 ≡ none
  unfolding setup
  setup-none scope o w ready =
      run_all-none (setup_one m scope o) controllers w (λ c v. setup_one-none scope o c v ready)

  -- So does setting up their webhooks.
  pub setup_webhook-none :
      (scope : Scope) (w : World) → (setup_webhook_with_manager m scope w).0 ≡ none
  unfolding setup_webhook_with_manager
  setup_webhook-none scope w =
      run_all-none (setup_webhook_one m scope) controllers w (setup_webhook_one-none scope)
