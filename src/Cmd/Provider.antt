-- ===== src/Cmd/Provider.antt =====
-- cmd/provider/main.go. What main calls outside the repository is the record `Platform`, over the
-- manager's state; the flags are given as kingpin has parsed them.
use text.Mathlib.Text.{◌==◌}
use provider_upjet_unifi.Base.{
  String, ◌<>◌, Bool, true, false, Option, none, some, List, [], ◌∷◌, if◌then◌else◌,
}
use provider_upjet_unifi.Controller.{
  Fault, failed, wrapped, panicked, Scope, cluster, namespaced, Options, Manager, Result, as_failed,
  setup, setup_gated, setup_webhook_with_manager,
}
pub mod CertsDir
pub mod Access
pub mod Start
pub mod Reaching

-- The order in which main looks for a certificate directory in the environment.
pub certs_dir_from_env : (String → String) → String
certs_dir_from_env getenv =
    let first = getenv "CERTS_DIR" in
    let second = if first == "" then getenv "TLS_SERVER_CERTS_DIR" else first in
    if second == "" then getenv "WEBHOOK_TLS_CERT_DIR" else second

pub choose_certs_dir : Bool → String → (String → String) → String
unfolding certs_dir_from_env
choose_certs_dir certs_dir_set certs_dir getenv =
    if certs_dir_set
    then certs_dir
    else (let xp_certs_dir = certs_dir_from_env getenv in
        if xp_certs_dir == "" then certs_dir else xp_certs_dir)

pub record Flags : Type 0 where
  pub enable_management_policies : Bool
  pub enable_change_logs : Bool
  pub changelogs_socket_path : String
  pub certs_dir_set : Bool
  pub certs_dir : String

-- The answer to a review that was created: an error, or whether the access is allowed.
pub data Review (Failure : Type 0) : Type 0 where
  refused : Failure → Review Failure
  answered : Bool → Review Failure

pub record Platform : Type 1 where
  pub manager : Manager
  -- GetProvider and GetProviderNamespaced return without a panic
  pub providers_made : Bool
  pub get_config : manager.World → Option manager.Failure × manager.World
  -- the directory of the webhook server's certificates
  pub new_manager : String → manager.World → Option manager.Failure × manager.World
  pub add_to_scheme_cluster : manager.World → Option manager.Failure × manager.World
  pub add_to_scheme_namespaced : manager.World → Option manager.Failure × manager.World
  pub add_to_scheme_apiextensions : manager.World → Option manager.Failure × manager.World
  pub add_to_scheme_authorization : manager.World → Option manager.Failure × manager.World
  pub new_grpc_client : manager.World → Option manager.Failure × manager.World
  -- mgr.GetClient().Create of a SelfSubjectAccessReview for a verb on the CRDs
  pub create_review : String → manager.World → Review manager.Failure × manager.World
  pub setup_crd_gate : manager.World → Option manager.Failure × manager.World
  pub start : manager.World → Option manager.Failure × manager.World

-- How main ends: by kingpin.FatalIfError with its message, by a panic, or by returning.
pub data Stop (Failure : Type 0) : Type 0 where
  fatal : String → Fault Failure → Stop Failure
  crashed : Stop Failure

module _ (P : Platform) where
  open P use {
    manager, get_config, new_manager, add_to_scheme_cluster, add_to_scheme_namespaced,
    add_to_scheme_apiextensions, add_to_scheme_authorization, new_grpc_client, create_review,
    setup_crd_gate, start,
  }
  open manager use {World, Failure}

  -- The message of errors.Wrapf, in which canWatchCRD prints the list `verbs`.
  abbrev pub rbac_failure : String
  rbac_failure =
      "unable to perform RBAC check for verb [get list watch] on CustomResourceDefinitions"

  -- What canWatchCRD returns.
  abbrev pub Watch : Type 0
  Watch = Review (Fault Failure) × World

  abbrev pub on_answer : Review Failure → World → (World → Watch) → Watch
  on_answer (refused e) w rest = (refused (wrapped e rbac_failure), w)
  on_answer (answered false) w rest = (answered false, w)
  on_answer (answered true) w rest = rest w

  pub check_verbs : List String → World → Watch
  check_verbs [] w = (answered true, w)
  check_verbs (verb ∷ verbs) w =
      on_answer (create_review verb w).0 (create_review verb w).1 (λ v. check_verbs verbs v)

  abbrev pub on_scheme : Option Failure × World → (World → Watch) → Watch
  on_scheme (none, w) rest = rest w
  on_scheme (some e, w) rest = (refused (failed e), w)

  pub can_watch_crd : World → Watch
  can_watch_crd w =
      on_scheme (add_to_scheme_authorization w) (λ v. check_verbs ("get" ∷ "list" ∷ "watch" ∷ []) v)

  abbrev pub Run : Type 0
  Run = Option (Stop Failure) × World

  -- kingpin.FatalIfError(…, message), and then the rest
  pub fatal_if : String → Option (Fault Failure) × World → (World → Run) → Run
  fatal_if message (none, w) rest = rest w
  fatal_if message (some panicked, w) rest = (some crashed, w)
  fatal_if message (some f, w) rest = (some (fatal message f), w)

  pub plain : Option Failure × World → Option (Fault Failure) × World
  plain (e, w) = (as_failed e, w)

  -- clusterOpts and namespacedOpts, which main fills alike, with the provider that is made for them.
  pub controller_options : Flags → Options
  controller_options flags = record {
    logger = true;
    provider = true;
    gate = false;
    poll_jitter = 0;
    management_policies_enabled = flags.enable_management_policies;
    change_logs_enabled = flags.enable_change_logs;
    metric_options = some (record { mr_state_metrics = true });
    change_log_options = flags.enable_change_logs;
  }

  pub start_manager : World → Run
  start_manager w = fatal_if "Cannot start controller manager" (plain (start w)) (λ v. (none, v))

  pub setup_with_gate : Options → World → Run
  setup_with_gate o w = fatal_if "Cannot setup CRD gate" (plain (setup_crd_gate w)) λ w₁.
      fatal_if "Cannot setup cluster-scoped UniFi controllers"
        (setup_gated manager cluster (record o { gate = true }) w₁)
        λ w₂.
          fatal_if "Cannot setup namespaced UniFi controllers"
            (setup_gated manager namespaced (record o { gate = true }) w₂) start_manager

  pub setup_at_once : Options → World → Run
  setup_at_once o w =
      fatal_if "Cannot setup cluster-scoped UniFi controllers" (setup manager cluster o w) λ w₁.
        fatal_if "Cannot setup namespaced UniFi controllers" (setup manager namespaced o w₁)
          start_manager

  pub on_precheck : Options → Watch → Run
  on_precheck o (refused f, w) = fatal_if "SafeStart precheck failed" (some f, w) (λ v. (none, v))
  on_precheck o (answered true, w) = setup_with_gate o w
  on_precheck o (answered false, w) = setup_at_once o w

  pub setup_webhooks : String → Options → World → Run
  setup_webhooks certs_dir o w =
      if certs_dir == ""
      then on_precheck o (can_watch_crd w)
      else (fatal_if "Cannot setup cluster-scoped UniFi conversion webhooks"
          (setup_webhook_with_manager manager cluster w)
          λ w₁.
            fatal_if "Cannot setup namespaced UniFi conversion webhooks"
              (setup_webhook_with_manager manager namespaced w₁)
              λ w₂. on_precheck o (can_watch_crd w₂))

  pub connect_change_logs : Flags → World → Option (Fault Failure) × World
  connect_change_logs flags w =
      if flags.enable_change_logs then plain (new_grpc_client w) else (none, w)

  -- clusterOpts and namespacedOpts are made by the two functions of config.
  abbrev if_made : Run → World → Run
  if_made rest w = if P.providers_made then rest else (some crashed, w)

  -- main, from the parsed flags on.
  pub main : Flags → (String → String) → World → Run
  main flags getenv w =
      let certs_dir = choose_certs_dir flags.certs_dir_set flags.certs_dir getenv in
      fatal_if "Cannot get API server rest config" (plain (get_config w)) λ w₁.
        fatal_if "Cannot create controller manager" (plain (new_manager certs_dir w₁)) λ w₂.
          fatal_if "Cannot add cluster-scoped UniFi APIs to scheme"
            (plain (add_to_scheme_cluster w₂))
            λ w₃.
              fatal_if "Cannot add namespaced UniFi APIs to scheme"
                (plain (add_to_scheme_namespaced w₃))
                λ w₄.
                  fatal_if "Cannot add api-extensions APIs to scheme"
                    (plain (add_to_scheme_apiextensions w₄))
                    λ w₅.
                      fatal_if "Cannot add k8s authorization APIs to scheme"
                        (plain (add_to_scheme_authorization w₅))
                        λ w₆.
                          if_made
                            (fatal_if
                              ("failed to create change logs client connection at "
                                <> flags.changelogs_socket_path)
                              (connect_change_logs flags w₆)
                              λ w₇. setup_webhooks certs_dir (controller_options flags) w₇)
                            w₆
