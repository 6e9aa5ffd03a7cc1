-- ===== src/Controller.antt =====
-- internal/controller: how the controllers are set up. The manager of controller-runtime, the gate
-- and the webhooks are the record `Manager`, over its state `World`.
use provider_upjet_unifi.Base.{
  ℕ, String, ◌<>◌, Bool, true, false, Option, none, some, List, [], ◌∷◌, ◌++◌, ◌==◌, if◌then◌else◌,
}
use provider_upjet_unifi.Controller.Kinds.{
  ManagedKind, Controller, managed, provider_config, controllers,
}
pub mod Kinds
pub mod Loop
pub mod Gated
pub mod Coverage
pub mod Healthy
pub mod Packages

-- What can stop a setup function: an error that it returns, wrapped or not, or a nil dereference.
pub data Fault (Failure : Type 0) : Type 0 where
  failed : Failure → Fault Failure
  wrapped : Failure → String → Fault Failure
  panicked : Fault Failure

pub data Scope : Type 0 where
  cluster namespaced : Scope

-- managed.ReconcilerOption
pub data ReconcilerOption : Type 0 where
  external_connecter : String → ReconcilerOption
  logger recorder finalizer initializers poll_interval : ReconcilerOption
  timeout_minutes : ℕ → ReconcilerOption
  poll_jitter_hook : ℕ → ReconcilerOption
  management_policies metric_recorder change_logger : ReconcilerOption

pub record MetricOptions : Type 0 where
  -- MRStateMetrics is not nil
  pub mr_state_metrics : Bool

-- The fields of tjcontroller.Options that decide how a controller is set up.
pub record Options : Type 0 where
  -- Logger, Provider and Gate are not nil
  pub logger : Bool
  pub provider : Bool
  pub gate : Bool
  pub poll_jitter : ℕ
  pub management_policies_enabled : Bool
  pub change_logs_enabled : Bool
  pub metric_options : Option MetricOptions
  -- ChangeLogOptions is not nil
  pub change_log_options : Bool

abbrev with_jitter : ℕ → List ReconcilerOption
with_jitter jitter = if jitter == 0 then [] else poll_jitter_hook jitter ∷ []

abbrev with_option : Bool → ReconcilerOption → List ReconcilerOption
with_option test option = if test then option ∷ [] else []

abbrev is_set : Option MetricOptions → Bool
is_set none = false
is_set (some metrics) = true

-- `opts` before the state metrics recorder is added.
pub reconciler_options : ManagedKind → Options → List ReconcilerOption
reconciler_options k o =
    (external_connecter k.terraform_name
      ∷ logger
      ∷ recorder
      ∷ finalizer
      ∷ timeout_minutes 3
      ∷ initializers
      ∷ poll_interval
      ∷ [])
    ++ (with_jitter o.poll_jitter
        ++ (with_option o.management_policies_enabled management_policies
            ++ with_option (is_set o.metric_options) metric_recorder))

abbrev pub as_failed : {Failure : Type 0} → Option Failure → Option (Fault Failure)
as_failed none = none
as_failed (some e) = some (failed e)

abbrev as_wrapped : {Failure : Type 0} → String → Option Failure → Option (Fault Failure)
as_wrapped message none = none
as_wrapped message (some e) = some (wrapped e message)

-- schema.GroupVersionKind
pub record GroupVersionKind : Type 0 where
  pub group : String
  pub version : String
  pub kind : String

-- The API group of the kinds of provider configuration.
abbrev pub root_group : Scope → String
root_group cluster = "unifi.crossplane.io"
root_group namespaced = "unifi.m.crossplane.io"

abbrev pub managed_gvk : Scope → ManagedKind → GroupVersionKind
managed_gvk scope k = record {
  group = k.group <> "." <> root_group scope;
  version = "v1alpha1";
  kind = k.kind;
}

abbrev pub config_gvk : Scope → String → GroupVersionKind
config_gvk scope kind = record { group = root_group scope; version = "v1beta1"; kind = kind }

abbrev pub gate_kinds : Scope → Controller → List GroupVersionKind
gate_kinds scope (managed k) = managed_gvk scope k ∷ []
gate_kinds cluster provider_config =
    config_gvk cluster "ProviderConfig" ∷ config_gvk cluster "ProviderConfigUsage" ∷ []
gate_kinds namespaced provider_config =
    config_gvk namespaced "ClusterProviderConfig"
    ∷ config_gvk namespaced "ProviderConfig"
    ∷ config_gvk namespaced "ProviderConfigUsage"
    ∷ []

pub record Manager : Type 1 where
  pub World : Type 0
  pub Failure : Type 0
  -- mgr.Add of the state metrics recorder of a kind
  pub add_state_recorder : Scope → ManagedKind → World → Option Failure × World
  -- NewControllerManagedBy(mgr) … Complete
  pub complete : Scope → ManagedKind → List ReconcilerOption → World → Option Failure × World
  -- the same for the kinds of provider configuration
  pub complete_config : Scope → String → World → Option Failure × World
  -- NewWebhookManagedBy(mgr, …).Complete()
  pub complete_webhook : Scope → ManagedKind → World → Option Failure × World
  -- o.Gate.Register(callback, kinds…)
  pub register : List GroupVersionKind → (World → Option (Fault Failure) × World) → World → World
  -- mgr.GetLogger().Error
  pub log_error : Fault Failure → World → World

module _ (m : Manager) where
  open m use {
    World, Failure, add_state_recorder, complete, complete_config, complete_webhook, register,
    log_error,
  }

  abbrev pub Result : Type 0
  Result = Option (Fault Failure) × World

  -- if err := …; err != nil { return errors.Wrap(err, message) }, and then the rest
  abbrev pub proceed : Option (Fault Failure) × World → (World → Result) → Result
  proceed (none, w) rest = rest w
  proceed (some f, w) rest = (some f, w)

  returns : Option Failure × World → Result
  returns (e, w) = (as_failed e, w)

  returns_wrapped : String → Option Failure × World → Result
  returns_wrapped message (e, w) = (as_wrapped message e, w)

  -- A method or a field of what is nil, where the flag is false, is a panic.
  pub dereferenced : Bool → World → Result
  dereferenced set w = if set then (none, w) else (some panicked, w)

  abbrev with_metrics : Option MetricOptions → (MetricOptions → Result) → World → Result
  with_metrics none rest w = (some panicked, w)
  with_metrics (some metrics) rest w = rest metrics

  -- if o.MetricOptions != nil { … o.MetricOptions.MRMetrics }
  pub read_metrics : Options → World → Result
  read_metrics o w =
      if is_set o.metric_options
      then with_metrics o.metric_options (λ metrics. (none, w)) w
      else (none, w)

  pub record_state : Scope → ManagedKind → Options → World → Result
  record_state scope k o w =
      if is_set o.metric_options
      then with_metrics o.metric_options
          (λ metrics.
            if metrics.mr_state_metrics
            then returns_wrapped
                ("cannot register MR state metrics recorder for kind v1alpha1." <> k.kind <> "List")
                (add_state_recorder scope k w)
            else (none, w))
          w
      else (none, w)

  -- The end of Setup: `o.ChangeLogOptions.ChangeLogger` is read where change logs are enabled.
  pub build_controller : Scope → ManagedKind → Options → World → Result
  build_controller scope k o w =
      let opts = reconciler_options k o in
      if o.change_logs_enabled
      then (if o.change_log_options
          then returns (complete scope k (opts ++ (change_logger ∷ [])) w)
          else (some panicked, w))
      else returns (complete scope k opts w)

  -- Setup of a generated controller: o.Logger.WithValues, o.Provider.Resources and
  -- o.MetricOptions.MRMetrics are read for `opts`.
  pub setup_managed : Scope → ManagedKind → Options → World → Result
  setup_managed scope k o w = proceed (dereferenced o.logger w) λ w₁.
      proceed (dereferenced o.provider w₁) λ w₂.
        proceed (read_metrics o w₂)
          λ w₃. proceed (record_state scope k o w₃) (λ w₄. build_controller scope k o w₄)

  pub setup_config : Scope → String → Options → World → Result
  setup_config scope kind o w =
      proceed (dereferenced o.logger w) (λ w'. returns (complete_config scope kind w'))

  -- Setup of internal/controller/…/providerconfig: the namespaced one sets up two controllers.
  pub setup_provider_config : Scope → Options → World → Result
  setup_provider_config cluster o w = setup_config cluster "ProviderConfig" o w
  setup_provider_config namespaced o w =
      proceed (setup_config namespaced "ClusterProviderConfig" o w)
        (λ w'. setup_config namespaced "ProviderConfig" o w')

  pub setup_one : Scope → Options → Controller → World → Result
  setup_one scope o (managed k) w = setup_managed scope k o w
  setup_one scope o provider_config w = setup_provider_config scope o w

  -- for _, setup := range […] { if err := setup(mgr, o); err != nil { return err } }; return nil
  pub run_all : {C : Type 0} → (C → World → Result) → List C → World → Result
  run_all setup [] w = (none, w)
  run_all setup (c ∷ rest) w = proceed (setup c w) (λ w'. run_all setup rest w')

  pub setup : Scope → Options → World → Result
  setup scope o = run_all (setup_one scope o) controllers

  -- The registered callback sets the controller up and logs an error; a panic goes through.
  unfoldable pub logged : Result → Result
  logged (none, w) = (none, w)
  logged (some panicked, w) = (some panicked, w)
  logged (some f, w) = (none, log_error f w)

  pub setup_gated_one : Scope → Options → Controller → World → Result
  setup_gated_one scope o c w =
      if o.gate
      then (none, register (gate_kinds scope c) (λ v. logged (setup_one scope o c v)) w)
      else (some panicked, w)

  pub setup_gated : Scope → Options → World → Result
  setup_gated scope o = run_all (setup_gated_one scope o) controllers

  pub setup_webhook_one : Scope → Controller → World → Result
  setup_webhook_one scope (managed k) w =
      returns_wrapped ("cannot register webhook for the kind v1alpha1." <> k.kind)
        (complete_webhook scope k w)
  setup_webhook_one scope provider_config w = (none, w)

  pub setup_webhook_with_manager : Scope → World → Result
  setup_webhook_with_manager scope = run_all (setup_webhook_one scope) controllers

  -- The functions of a controller's package.
  pub record Functions : Type 0 where
    pub setup : Options → World → Result
    pub setup_gated : Options → World → Result
    pub setup_webhook_with_manager : World → Result

  abbrev pub functions_of : Scope → Controller → Functions
  functions_of scope c = record {
    setup = λ o. setup_one scope o c;
    setup_gated = λ o. setup_gated_one scope o c;
    setup_webhook_with_manager = setup_webhook_one scope c;
  }
