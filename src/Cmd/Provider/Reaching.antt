-- ===== src/Cmd/Provider/Reaching.antt =====
-- main of cmd/provider/main.go: that it comes to start the manager.
use text.Mathlib.Text.{◌==◌}
use provider_upjet_unifi.Base.{
  ◌≡◌, refl, ap, String, Bool, true, false, Option, none, some, List, [], ◌∷◌, if◌then◌else◌,
}
use provider_upjet_unifi.Controller.{Fault, Scope, cluster, namespaced, Options, setup_gated}
use provider_upjet_unifi.Controller.Loop.{setup_gated-eq-registered, IsComplete}
use provider_upjet_unifi.Controller.Healthy.{IsHealthy, setup-none, setup_webhook-none}
use provider_upjet_unifi.Cmd.Provider
use provider_upjet_unifi.Cmd.Provider.Start.{controller_options-IsComplete}

-- Both providers are made, no call before mgr.Start fails, and every review of the access to the CRDs is answered.
pub record IsReady (P : Provider.Platform) : Type 0 where
  pub healthy : IsHealthy P.manager
  pub providers_made : P.providers_made ≡ true
  pub get_config : (w : P.manager.World) → (P.get_config w).0 ≡ none
  pub new_manager :
      (certs_dir : String) (w : P.manager.World) → (P.new_manager certs_dir w).0 ≡ none
  pub add_to_scheme_cluster : (w : P.manager.World) → (P.add_to_scheme_cluster w).0 ≡ none
  pub add_to_scheme_namespaced : (w : P.manager.World) → (P.add_to_scheme_namespaced w).0 ≡ none
  pub add_to_scheme_apiextensions :
      (w : P.manager.World) → (P.add_to_scheme_apiextensions w).0 ≡ none
  pub add_to_scheme_authorization :
      (w : P.manager.World) → (P.add_to_scheme_authorization w).0 ≡ none
  pub new_grpc_client : (w : P.manager.World) → (P.new_grpc_client w).0 ≡ none
  pub create_review :
      (verb : String) (w : P.manager.World)
      → (allowed : Bool) × ((P.create_review verb w).0 ≡ Provider.answered allowed)
  pub setup_crd_gate : (w : P.manager.World) → (P.setup_crd_gate w).0 ≡ none

module _ (P : Provider.Platform) (ready : IsReady P) where
  open P use {manager}
  open manager use {World, Failure}

  Starts : Provider.Run P → Type 0
  Starts r = (v : World) × (r ≡ Provider.start_manager P v)

  if-Starts :
      (test : Bool) (r s : Provider.Run P) → Starts r → Starts s → Starts (if test then r else s)
  if-Starts true r s h h' = h
  if-Starts false r s h h' = h'

  made-Starts :
      (test : Bool) (r s : Provider.Run P) → test ≡ true → Starts r → Starts (if test then r else s)
  made-Starts true r s e h = h
  made-Starts false r s e h = cc

  fatal_if-Starts :
      (message : String) (r : Option (Fault Failure) × World) (rest : World → Provider.Run P)
      → r.0 ≡ none
      → ((v : World) → Starts (rest v))
      → Starts (Provider.fatal_if P message r rest)
  unfolding Provider.fatal_if
  fatal_if-Starts message (none, v) rest e h = h v
  fatal_if-Starts message (some f, v) rest e h = cc

  plain-none : (r : Option Failure × World) → r.0 ≡ none → (Provider.plain P r).0 ≡ none
  unfolding Provider.plain
  plain-none (none, w) e = refl
  plain-none (some f, w) e = cc

  connect_change_logs-none :
      (flags : Provider.Flags) (w : World) → (Provider.connect_change_logs P flags w).0 ≡ none
  unfolding Provider.connect_change_logs
  connect_change_logs-none flags w =
      if-none flags.enable_change_logs (Provider.plain P (P.new_grpc_client w)) (none, w)
        (plain-none (P.new_grpc_client w) (ready.new_grpc_client w)) refl
    where
      if-none :
          (test : Bool) (r s : Option (Fault Failure) × World)
          → r.0 ≡ none
          → s.0 ≡ none
          → (if test then r else s).0 ≡ none
      if-none true r s h h' = h
      if-none false r s h h' = h'

  start_manager-Starts : (w : World) → Starts (Provider.start_manager P w)
  unfolding Starts
  start_manager-Starts w = (w, refl)

  setup_gated-none :
      (scope : Scope) (o : Options) (w : World)
      → (setup_gated manager scope (record o { gate = true }) w).0 ≡ none
  setup_gated-none scope o w =
      ap (λ r. r.0) (setup_gated-eq-registered manager (record o { gate = true }) scope w refl)

  setup_with_gate-Starts : (o : Options) (w : World) → Starts (Provider.setup_with_gate P o w)
  unfolding Provider.setup_with_gate
  setup_with_gate-Starts o w =
      fatal_if-Starts _ _ _ (plain-none (P.setup_crd_gate w) (ready.setup_crd_gate w)) λ w₁.
        fatal_if-Starts _ _ _ (setup_gated-none cluster o w₁)
          λ w₂. fatal_if-Starts _ _ _ (setup_gated-none namespaced o w₂) start_manager-Starts

  setup_at_once-Starts :
      (o : Options) (w : World) → IsComplete manager o → Starts (Provider.setup_at_once P o w)
  unfolding Provider.setup_at_once
  setup_at_once-Starts o w logs =
      fatal_if-Starts _ _ _ (setup-none manager ready.healthy cluster o w logs) λ w₁.
        fatal_if-Starts _ _ _ (setup-none manager ready.healthy namespaced o w₁ logs)
          start_manager-Starts

  -- canWatchCRD answers.
  Answers : Provider.Watch P → Type 0
  Answers r = (allowed : Bool) × (r.0 ≡ Provider.answered allowed)

  on_answer-Answers :
      (r : Provider.Review Failure) (v : World) (rest : World → Provider.Watch P)
      → (allowed : Bool) × (r ≡ Provider.answered allowed)
      → ((u : World) → Answers (rest u))
      → Answers (Provider.on_answer P r v rest)
  unfolding Answers
  on_answer-Answers (Provider.refused f) v rest (allowed, e) h = cc
  on_answer-Answers (Provider.answered false) v rest answer h = (false, refl)
  on_answer-Answers (Provider.answered true) v rest answer h = h v

  check_verbs-Answers : (verbs : List String) (w : World) → Answers (Provider.check_verbs P verbs w)
  unfolding Provider.check_verbs Answers
  check_verbs-Answers [] w = (true, refl)
  check_verbs-Answers (verb ∷ verbs) w =
      on_answer-Answers _ _ _ (ready.create_review verb w) (λ v. check_verbs-Answers verbs v)

  can_watch_crd-Answers : (w : World) → Answers (Provider.can_watch_crd P w)
  unfolding Provider.can_watch_crd
  can_watch_crd-Answers w =
      onward (P.add_to_scheme_authorization w) (ready.add_to_scheme_authorization w)
    where
      onward :
          (r : Option Failure × World)
          → r.0 ≡ none
          → Answers (
              Provider.on_scheme P r
                (λ v. Provider.check_verbs P ("get" ∷ "list" ∷ "watch" ∷ []) v))
      onward (none, v) e = check_verbs-Answers ("get" ∷ "list" ∷ "watch" ∷ []) v
      onward (some f, v) e = cc

  on_precheck-Starts :
      (o : Options) (r : Provider.Watch P)
      → IsComplete manager o
      → Answers r
      → Starts (Provider.on_precheck P o r)
  unfolding Provider.on_precheck Answers
  on_precheck-Starts o (Provider.refused f, w) logs (allowed, e) = cc
  on_precheck-Starts o (Provider.answered true, w) logs answer = setup_with_gate-Starts o w
  on_precheck-Starts o (Provider.answered false, w) logs answer = setup_at_once-Starts o w logs

  after_precheck-Starts :
      (o : Options) (w : World)
      → IsComplete manager o
      → Starts (Provider.on_precheck P o (Provider.can_watch_crd P w))
  after_precheck-Starts o w logs =
      on_precheck-Starts o (Provider.can_watch_crd P w) logs (can_watch_crd-Answers w)

  setup_webhooks-Starts :
      (certs_dir : String) (o : Options) (w : World)
      → IsComplete manager o
      → Starts (Provider.setup_webhooks P certs_dir o w)
  unfolding Provider.setup_webhooks
  setup_webhooks-Starts certs_dir o w logs =
      if-Starts (certs_dir == "") _ _ (after_precheck-Starts o w logs) (
        fatal_if-Starts _ _ _ (setup_webhook-none manager ready.healthy cluster w) λ w₁.
          fatal_if-Starts _ _ _ (setup_webhook-none manager ready.healthy namespaced w₁)
            λ w₂. after_precheck-Starts o w₂ logs)

  -- Where both providers are made, no call before it fails and every review is answered, with
  -- whatever answer, main comes to start the manager, and ends as that call ends.
  pub main-Starts :
      (flags : Provider.Flags) (getenv : String → String) (w : World)
      → (v : World) × (Provider.main P flags getenv w ≡ Provider.start_manager P v)
  unfolding Provider.main Starts
  main-Starts flags getenv w =
      fatal_if-Starts _ _ _ (plain-none (P.get_config w) (ready.get_config w)) λ w₁.
        fatal_if-Starts _ _ _ (plain-none _ (ready.new_manager _ w₁)) λ w₂.
          fatal_if-Starts _ _ _ (plain-none _ (ready.add_to_scheme_cluster w₂)) λ w₃.
            fatal_if-Starts _ _ _ (plain-none _ (ready.add_to_scheme_namespaced w₃)) λ w₄.
              fatal_if-Starts _ _ _ (plain-none _ (ready.add_to_scheme_apiextensions w₄)) λ w₅.
                fatal_if-Starts _ _ _ (plain-none _ (ready.add_to_scheme_authorization w₅)) λ w₆.
                  made-Starts P.providers_made _ _ ready.providers_made (
                    fatal_if-Starts _ _ _ (connect_change_logs-none flags w₆)
                      λ w₇. setup_webhooks-Starts _ _ w₇ (controller_options-IsComplete P flags))
