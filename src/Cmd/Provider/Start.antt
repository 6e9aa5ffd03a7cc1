-- ===== src/Cmd/Provider/Start.antt =====
-- main of cmd/provider/main.go: that it does not crash.
use text.Mathlib.Text.{◌==◌}
use provider_upjet_unifi.Base.{
  ◌≡◌, ◌≢◌, refl, ap, String, Bool, true, false, Option, none, some, List, [], ◌∷◌, arith,
  if◌then◌else◌,
}
use provider_upjet_unifi.Controller.{
  Fault, failed, wrapped, panicked, Scope, cluster, namespaced, Options, setup, setup_gated,
  setup_webhook_with_manager,
}
use provider_upjet_unifi.Controller.Loop.{
  setup-ne-panicked, setup_gated-eq-registered, setup_webhook-ne-panicked, IsComplete,
}
use provider_upjet_unifi.Cmd.Provider

module _ (P : Provider.Platform) where
  open P use {manager}
  open manager use {World, Failure}

  NoPanic : Option (Fault Failure) × World → Type 0
  NoPanic r = r.0 ≢ some panicked

  NoCrash : Provider.Run P → Type 0
  NoCrash r = r.0 ≢ some Provider.crashed

  if-NoCrash :
      (test : Bool) (r s : Provider.Run P) → NoCrash r → NoCrash s → NoCrash (if test then r else s)
  if-NoCrash true r s h h' = h
  if-NoCrash false r s h h' = h'

  made-NoCrash :
      (test : Bool) (r s : Provider.Run P)
      → test ≡ true
      → NoCrash r
      → NoCrash (if test then r else s)
  made-NoCrash true r s e h = h
  made-NoCrash false r s e h = cc

  fatal_if-NoCrash :
      (message : String) (r : Option (Fault Failure) × World) (rest : World → Provider.Run P)
      → NoPanic r
      → ((v : World) → NoCrash (rest v))
      → NoCrash (Provider.fatal_if P message r rest)
  unfolding Provider.fatal_if NoPanic NoCrash
  fatal_if-NoCrash message (none, v) rest h ih = ih v
  fatal_if-NoCrash message (some panicked, v) rest h ih = λ e. h refl
  fatal_if-NoCrash message (some (failed e), v) rest h ih = λ e. cc e
  fatal_if-NoCrash message (some (wrapped e m), v) rest h ih = λ e. cc e

  plain-NoPanic : (r : Option Failure × World) → NoPanic (Provider.plain P r)
  unfolding NoPanic Provider.plain
  plain-NoPanic r = ground arith

  connect_change_logs-NoPanic :
      (flags : Provider.Flags) (w : World) → NoPanic (Provider.connect_change_logs P flags w)
  unfolding NoPanic Provider.connect_change_logs Provider.plain
  connect_change_logs-NoPanic flags w = ground arith

  start_manager-NoCrash : (w : World) → NoCrash (Provider.start_manager P w)
  unfolding Provider.start_manager NoCrash
  start_manager-NoCrash w = fatal_if-NoCrash _ _ _ (plain-NoPanic (P.start w)) (λ v. cc)

  setup_gated-NoPanic :
      (scope : Scope) (o : Options) (w : World)
      → NoPanic (setup_gated manager scope (record o { gate = true }) w)
  unfolding NoPanic
  setup_gated-NoPanic scope o w =
      let h =
        ap (λ r. r.0) (setup_gated-eq-registered manager (record o { gate = true }) scope w refl) in
      λ e. cc

  setup_with_gate-NoCrash : (o : Options) (w : World) → NoCrash (Provider.setup_with_gate P o w)
  unfolding Provider.setup_with_gate
  setup_with_gate-NoCrash o w = fatal_if-NoCrash _ _ _ (plain-NoPanic _) λ w₁.
      fatal_if-NoCrash _ _ _ (setup_gated-NoPanic cluster o w₁)
        λ w₂. fatal_if-NoCrash _ _ _ (setup_gated-NoPanic namespaced o w₂) start_manager-NoCrash

  setup-NoPanic :
      (scope : Scope) (o : Options) (w : World)
      → IsComplete manager o
      → NoPanic (setup manager scope o w)
  unfolding NoPanic
  setup-NoPanic scope o w h = setup-ne-panicked manager o scope w h

  setup_at_once-NoCrash :
      (o : Options) (w : World) → IsComplete manager o → NoCrash (Provider.setup_at_once P o w)
  unfolding Provider.setup_at_once
  setup_at_once-NoCrash o w h =
      fatal_if-NoCrash _ _ _ (setup-NoPanic cluster o w h)
        λ w₁. fatal_if-NoCrash _ _ _ (setup-NoPanic namespaced o w₁ h) start_manager-NoCrash

  on_answer-ne-panicked :
      (r : Provider.Review Failure) (v : World) (rest : World → Provider.Watch P)
      → ((v : World) → (rest v).0 ≢ Provider.refused panicked)
      → (Provider.on_answer P r v rest).0 ≢ Provider.refused panicked
  on_answer-ne-panicked (Provider.refused f) v rest ih = λ e. cc
  on_answer-ne-panicked (Provider.answered false) v rest ih = λ e. cc
  on_answer-ne-panicked (Provider.answered true) v rest ih = ih v

  check_verbs-ne-panicked :
      (verbs : List String) (w : World)
      → (Provider.check_verbs P verbs w).0 ≢ Provider.refused panicked
  unfolding Provider.check_verbs
  check_verbs-ne-panicked [] w = λ e. cc
  check_verbs-ne-panicked (verb ∷ verbs) w =
      on_answer-ne-panicked _ _ _ (λ v. check_verbs-ne-panicked verbs v)

  can_watch_crd-ne-panicked :
      (w : World) → (Provider.can_watch_crd P w).0 ≢ Provider.refused panicked
  unfolding Provider.can_watch_crd
  can_watch_crd-ne-panicked w = onward (P.add_to_scheme_authorization w)
    where
      onward :
          (r : Option Failure × World)
          → (Provider.on_scheme P r
              (λ v. Provider.check_verbs P ("get" ∷ "list" ∷ "watch" ∷ []) v)).0
            ≢ Provider.refused panicked
      onward (none, v) = check_verbs-ne-panicked ("get" ∷ "list" ∷ "watch" ∷ []) v
      onward (some e, v) = λ e. cc

  on_precheck-NoCrash :
      (o : Options) (r : Provider.Watch P)
      → IsComplete manager o
      → r.0 ≢ Provider.refused panicked
      → NoCrash (Provider.on_precheck P o r)
  unfolding Provider.on_precheck NoCrash NoPanic
  on_precheck-NoCrash o (Provider.refused f, w) h t = fatal_if-NoCrash _ _ _ (λ e. t cc) (λ v. cc)
  on_precheck-NoCrash o (Provider.answered true, w) h t = setup_with_gate-NoCrash o w
  on_precheck-NoCrash o (Provider.answered false, w) h t = setup_at_once-NoCrash o w h

  after_precheck-NoCrash :
      (o : Options) (w : World)
      → IsComplete manager o
      → NoCrash (Provider.on_precheck P o (Provider.can_watch_crd P w))
  after_precheck-NoCrash o w h =
      on_precheck-NoCrash o (Provider.can_watch_crd P w) h (can_watch_crd-ne-panicked w)

  setup_webhook-NoPanic :
      (scope : Scope) (w : World) → NoPanic (setup_webhook_with_manager manager scope w)
  unfolding NoPanic
  setup_webhook-NoPanic scope w = setup_webhook-ne-panicked manager scope w

  setup_webhooks-NoCrash :
      (certs_dir : String) (o : Options) (w : World)
      → IsComplete manager o
      → NoCrash (Provider.setup_webhooks P certs_dir o w)
  unfolding Provider.setup_webhooks
  setup_webhooks-NoCrash certs_dir o w h =
      if-NoCrash (certs_dir == "") _ _ (after_precheck-NoCrash o w h) (
        fatal_if-NoCrash _ _ _ (setup_webhook-NoPanic cluster w) λ w₁.
          fatal_if-NoCrash _ _ _ (setup_webhook-NoPanic namespaced w₁)
            λ w₂. after_precheck-NoCrash o w₂ h)

  pub controller_options-IsComplete :
      (flags : Provider.Flags) → IsComplete manager (Provider.controller_options P flags)
  unfolding Provider.controller_options
  controller_options-IsComplete flags = record {
    logger = refl;
    provider = refl;
    change_logs = λ e. e;
  }

  -- Where GetProvider and GetProviderNamespaced return, main ends by returning or by
  -- kingpin.FatalIfError with a message, however its calls fail: what main itself runs of the setup
  -- functions dereferences neither the change log options nor the gate while they are nil.
  pub main-ne-crashed :
      (flags : Provider.Flags) (getenv : String → String) (w : World)
      → P.providers_made ≡ true
      → (Provider.main P flags getenv w).0 ≢ some Provider.crashed
  unfolding Provider.main NoCrash
  main-ne-crashed flags getenv w made = fatal_if-NoCrash _ _ _ (plain-NoPanic _) λ w₁.
      fatal_if-NoCrash _ _ _ (plain-NoPanic _) λ w₂. fatal_if-NoCrash _ _ _ (plain-NoPanic _) λ w₃.
        fatal_if-NoCrash _ _ _ (plain-NoPanic _) λ w₄.
          fatal_if-NoCrash _ _ _ (plain-NoPanic _) λ w₅.
            fatal_if-NoCrash _ _ _ (plain-NoPanic _) λ w₆. made-NoCrash P.providers_made _ _ made (
              fatal_if-NoCrash _ _ _ (connect_change_logs-NoPanic flags w₆)
                λ w₇. setup_webhooks-NoCrash _ _ w₇ (controller_options-IsComplete flags))
