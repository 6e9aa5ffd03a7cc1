-- ===== src/Controller/Loop.antt =====
-- The setup loops: how far they get, and that they do not panic.
use provider_upjet_unifi.Base.{◌≡◌, ◌≢◌, refl, ap, true, none, some, List, [], ◌∷◌, ◌++◌, arith}
use provider_upjet_unifi.Controller.{
  Fault, panicked, Scope, Options, Manager, Result, proceed, run_all, setup_one, setup_managed,
  record_state, build_controller, setup_provider_config, setup_config, dereferenced, read_metrics,
  setup, setup_gated_one, setup_gated, setup_webhook_one, setup_webhook_with_manager, logged,
  gate_kinds, returns, returns_wrapped, cluster, namespaced,
}
use provider_upjet_unifi.Controller.Kinds.{Controller, managed, provider_config, controllers}

module _ (m : Manager) {C : Type 0} (step : C → m.World → Result m) where
  open m use {World, Failure}

  -- The steps run in order, and each returns nil.
  pub data Ran : List C → World → World → Type 0 where
    stop : (w : World) → Ran [] w w
    go :
        {c : C} {rest : List C} {w v u : World}
        → step c w ≡ (none, v)
        → Ran rest v u
        → Ran (c ∷ rest) w u

  -- A loop that failed with `f`: the steps before the failing one have run, and those behind it have not.
  pub record Stopped (l : List C) (w u : World) (f : Fault Failure) : Type 0 where
    pub before : List C
    pub failing : C
    pub behind : List C
    pub reached : World
    pub split : l ≡ before ++ (failing ∷ behind)
    pub ran : Ran before w reached
    pub failure : step failing reached ≡ (some f, u)

  -- What a loop's result says of its steps.
  abbrev pub Explained : List C → World → Result m → Type 0
  Explained l w (none, u) = Ran l w u
  Explained l w (some f, u) = Stopped l w u f

  Explained-proceed :
      (c : C) (rest : List C) (w : World) (r : Result m)
      → step c w ≡ r
      → ((v : World) → Explained rest v (run_all m step rest v))
      → Explained (c ∷ rest) w (proceed m r (λ v. run_all m step rest v))
  Explained-proceed c rest w (some f, u) e ih = record {
    before = [];
    failing = c;
    behind = rest;
    reached = w;
    split = refl;
    ran = stop w;
    failure = e;
  }
  Explained-proceed c rest w (none, v) e ih = onward (run_all m step rest v) (ih v)
    where
      onward : (r : Result m) → Explained rest v r → Explained (c ∷ rest) w r
      onward (none, u) h = go e h
      onward (some f, u) h = record {
        before = c ∷ h.before;
        failing = h.failing;
        behind = h.behind;
        reached = h.reached;
        split = ap (λ l. c ∷ l) h.split;
        ran = go e h.ran;
        failure = h.failure;
      }

  -- A setup loop returns nil exactly after all its steps have, in order. Otherwise it returns
  -- the error of the first step that fails, and none of the later ones has run.
  pub run_all-Explained : (l : List C) (w : World) → Explained l w (run_all m step l w)
  unfolding run_all
  run_all-Explained [] w = stop w
  run_all-Explained (c ∷ rest) w =
      Explained-proceed c rest w (step c w) refl (λ v. run_all-Explained rest v)

  pub run_all-ne-panicked :
      (l : List C) (w : World)
      → ((c : C) (v : World) → (step c v).0 ≢ some panicked)
      → (run_all m step l w).0 ≢ some panicked
  unfolding run_all
  run_all-ne-panicked [] w h = λ e. cc e
  run_all-ne-panicked (c ∷ rest) w h = onward (step c w) (h c w) (λ v. run_all-ne-panicked rest v h)
    where
      onward :
          (r : Result m)
          → r.0 ≢ some panicked
          → ((v : World) → (run_all m step rest v).0 ≢ some panicked)
          → (proceed m r (λ v. run_all m step rest v)).0 ≢ some panicked
      onward (none, v) h ih = ih v
      onward (some f, v) h ih = h

setup_webhook_one-ne-panicked :
    (m : Manager) (scope : Scope) (c : Controller) (w : m.World)
    → (setup_webhook_one m scope c w).0 ≢ some panicked
unfolding setup_webhook_one returns_wrapped
setup_webhook_one-ne-panicked m scope (managed k) w = ground arith
setup_webhook_one-ne-panicked m scope provider_config w = ground arith

pub setup_webhook-ne-panicked :
    (m : Manager) (scope : Scope) (w : m.World)
    → (setup_webhook_with_manager m scope w).0 ≢ some panicked
unfolding setup_webhook_with_manager
setup_webhook-ne-panicked m scope w =
    run_all-ne-panicked m (setup_webhook_one m scope) controllers w
      (λ c v. setup_webhook_one-ne-panicked m scope c v)

module _ (m : Manager) (o : Options) where
  -- The logger and the provider are there, and change logs are enabled only together with their
  -- options.
  pub record IsComplete : Type 0 where
    pub logger : o.logger ≡ true
    pub provider : o.provider ≡ true
    pub change_logs : o.change_logs_enabled ≡ true → o.change_log_options ≡ true

  pub setup_one-ne-panicked :
      (scope : Scope) (c : Controller) (w : m.World)
      → IsComplete
      → (setup_one m scope o c w).0 ≢ some panicked
  unfolding setup_one setup_managed dereferenced read_metrics record_state build_controller
      setup_provider_config setup_config returns returns_wrapped
  setup_one-ne-panicked scope (managed k) w h = ground (arith, h.logger, h.provider, h.change_logs)
  setup_one-ne-panicked cluster provider_config w h = ground (arith, h.logger)
  setup_one-ne-panicked namespaced provider_config w h = ground (arith, h.logger)

  -- With a logger, a provider, and change logs enabled only together with their options, setting up
  -- all controllers of a scope dereferences none of the options while it is nil: not the metric
  -- options either, which may be nil.
  pub setup-ne-panicked :
      (scope : Scope) (w : m.World) → IsComplete → (setup m scope o w).0 ≢ some panicked
  unfolding setup
  setup-ne-panicked scope w h =
      run_all-ne-panicked m (setup_one m scope o) controllers w
        (λ c v. setup_one-ne-panicked scope c v h)

  -- The gate after one registration for each controller, in their order.
  abbrev pub registered : Scope → List Controller → m.World → m.World
  registered scope [] w = w
  registered scope (c ∷ rest) w =
      registered scope rest
        (m.register (gate_kinds scope c) (λ v. logged m (setup_one m scope o c v)) w)

  run_gated :
      (scope : Scope) (l : List Controller) (w : m.World)
      → o.gate ≡ true
      → run_all m (setup_gated_one m scope o) l w ≡ (none, registered scope l w)
  unfolding run_all setup_gated_one
  run_gated scope [] w h = refl
  run_gated scope (c ∷ rest) w h = rw h (run_gated scope rest _ h)

  -- With a gate SetupGated never fails: it registers one callback for each controller, which waits for that
  -- controller's kinds, in the order of the list, and sets nothing up itself.
  pub setup_gated-eq-registered :
      (scope : Scope) (w : m.World)
      → o.gate ≡ true
      → setup_gated m scope o w ≡ (none, registered scope controllers w)
  unfolding setup_gated
  setup_gated-eq-registered scope w h = run_gated scope controllers w h
