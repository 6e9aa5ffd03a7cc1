-- ===== src/Tests/Setup.antt =====
-- The setup of the controllers and main, over a manager that counts its calls.
use provider_upjet_unifi.Base.{
  ℕ, zero, suc, ◌≡◌, ◌≢◌, refl, String, true, false, none, some, [], ◌∷◌,
}
use provider_upjet_unifi.Controller.{
  panicked, namespaced, Options, Manager, Result, run_all, setup, setup_gated,
}
use provider_upjet_unifi.Controller.Kinds.{controllers}
use provider_upjet_unifi.Controller.Loop.{
  Explained, run_all-Explained, setup-ne-panicked, IsComplete,
}
use provider_upjet_unifi.Controller.Gated.{Registers, setup_gated-Registers}
use provider_upjet_unifi.Cmd.Provider.{
  Platform, answered, Flags, crashed, main, start_manager, choose_certs_dir, check_verbs,
}
use provider_upjet_unifi.Cmd.Provider.CertsDir.{preferred, choose_certs_dir-eq-preferred}
use provider_upjet_unifi.Cmd.Provider.Access.{Verdict, check_verbs-Verdict}
use provider_upjet_unifi.Cmd.Provider.Start.{main-ne-crashed}
use provider_upjet_unifi.Cmd.Provider.Reaching.{IsReady, main-Starts}
use provider_upjet_unifi.Controller.Healthy.{IsHealthy}

abbrev manager : Manager
manager = record {
  World = ℕ;
  Failure = String;
  add_state_recorder = λ scope k w. (none, suc w);
  complete = λ scope k options w. (none, suc w);
  complete_config = λ scope kind w. (none, suc w);
  complete_webhook = λ scope k w. (none, suc w);
  register = λ kinds callback w. suc w;
  log_error = λ f w. w;
}

abbrev platform : Platform
platform = record {
  manager = manager;
  providers_made = true;
  get_config = λ w. (none, w);
  new_manager = λ certs_dir w. (none, w);
  add_to_scheme_cluster = λ w. (none, w);
  add_to_scheme_namespaced = λ w. (none, w);
  add_to_scheme_apiextensions = λ w. (none, w);
  add_to_scheme_authorization = λ w. (none, w);
  new_grpc_client = λ w. (none, w);
  create_review = λ verb w. (answered true, suc w);
  setup_crd_gate = λ w. (none, w);
  start = λ w. (none, w);
}

abbrev options : Options
options = record {
  logger = true;
  provider = true;
  gate = true;
  poll_jitter = 5;
  management_policies_enabled = true;
  change_logs_enabled = true;
  metric_options = none;
  change_log_options = true;
}

abbrev flags : Flags
flags = record {
  enable_management_policies = true;
  enable_change_logs = true;
  changelogs_socket_path = "/var/run/changelogs.sock";
  certs_dir_set = false;
  certs_dir = "/tls/server";
}

-- A step that fails from the second call on.
abbrev stepping : ℕ → ℕ → Result manager
stepping n zero = (none, n)
stepping n (suc w) = (some panicked, w)

run_all-Explained_example :
    Explained manager stepping (1 ∷ 2 ∷ []) 0 (run_all manager stepping (1 ∷ 2 ∷ []) 0)
run_all-Explained_example = run_all-Explained manager stepping (1 ∷ 2 ∷ []) 0

options-IsComplete : IsComplete manager options
options-IsComplete = record { logger = refl; provider = refl; change_logs = λ e. refl }

setup-ne-panicked_example : (setup manager namespaced options 0).0 ≢ some panicked
setup-ne-panicked_example = setup-ne-panicked manager options namespaced 0 options-IsComplete

abbrev getenv : String → String
getenv v = ""

choose_certs_dir-eq-preferred_example :
    choose_certs_dir false "/tls/server" getenv ≡ preferred false "/tls/server" getenv
choose_certs_dir-eq-preferred_example = choose_certs_dir-eq-preferred false "/tls/server" getenv

check_verbs-Verdict_example :
    Verdict platform ("get" ∷ "list" ∷ []) 0 (check_verbs platform ("get" ∷ "list" ∷ []) 0)
check_verbs-Verdict_example = check_verbs-Verdict platform ("get" ∷ "list" ∷ []) 0

main-ne-crashed_example : (main platform flags getenv 0).0 ≢ some crashed
main-ne-crashed_example = main-ne-crashed platform flags getenv 0 refl

manager-IsHealthy : IsHealthy manager
manager-IsHealthy = record {
  add_state_recorder = λ scope k w. refl;
  complete = λ scope k options w. refl;
  complete_config = λ scope kind w. refl;
  complete_webhook = λ scope k w. refl;
}

platform-IsReady : IsReady platform
platform-IsReady = record {
  healthy = manager-IsHealthy;
  providers_made = refl;
  get_config = λ w. refl;
  new_manager = λ certs_dir w. refl;
  add_to_scheme_cluster = λ w. refl;
  add_to_scheme_namespaced = λ w. refl;
  add_to_scheme_apiextensions = λ w. refl;
  add_to_scheme_authorization = λ w. refl;
  new_grpc_client = λ w. refl;
  create_review = λ verb w. (true, refl);
  setup_crd_gate = λ w. refl;
}

main-Starts_example : (v : ℕ) × (main platform flags getenv 0 ≡ start_manager platform v)
main-Starts_example = main-Starts platform platform-IsReady flags getenv 0

setup_gated-Registers_example :
    ((setup_gated manager namespaced options 0).0 ≡ none)
    × Registers manager options namespaced controllers 0
        (setup_gated manager namespaced options 0).1
setup_gated-Registers_example =
    setup_gated-Registers manager options namespaced 0 options-IsComplete refl
