-- ===== src/Cmd/Provider/CertsDir.antt =====
-- The directory of the webhook server's certificates, as cmd/provider/main.go chooses it.
use text.Mathlib.Text.{◌==◌}
use provider_upjet_unifi.Base.{
  ◌≡◌, refl, String, Bool, true, false, List, [], ◌∷◌, if◌then◌else◌, arith,
}
use provider_upjet_unifi.Cmd.Provider.{certs_dir_from_env, choose_certs_dir}

-- The first of the variables that is not empty, and otherwise `otherwise`.
abbrev pub first_filled : (String → String) → List String → String → String
first_filled getenv [] otherwise = otherwise
first_filled getenv (v ∷ rest) otherwise =
    let later = first_filled getenv rest otherwise in if getenv v == "" then later else getenv v

-- The preference that the comment of main describes.
abbrev pub preferred : Bool → String → (String → String) → String
preferred true flag getenv = flag
preferred false flag getenv =
    first_filled getenv ("CERTS_DIR" ∷ "TLS_SERVER_CERTS_DIR" ∷ "WEBHOOK_TLS_CERT_DIR" ∷ []) flag

-- The flag given on the command line wins. Without it the first variable of CERTS_DIR,
-- TLS_SERVER_CERTS_DIR and WEBHOOK_TLS_CERT_DIR that is not empty decides, and where all are empty the
-- flag's default does.
pub choose_certs_dir-eq-preferred :
    (set : Bool) (flag : String) (getenv : String → String)
    → choose_certs_dir set flag getenv ≡ preferred set flag getenv
unfolding choose_certs_dir certs_dir_from_env
choose_certs_dir-eq-preferred true flag getenv = refl
choose_certs_dir-eq-preferred false flag getenv = ground arith
