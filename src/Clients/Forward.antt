-- ===== src/Clients/Forward.antt =====
-- The loop that forwards the credentials to the Terraform provider's configuration.
use text.Mathlib.Text.{◌==◌}
use text.Mathlib.TextEquality.{eq_iff}
use text.Mathlib.TextPositions.{eq_refl}
use provider_upjet_unifi.Base.{
  ◌≡◌, refl, ◌∙◌, String, Bool, true, false, Option, none, some, List, [], ◌∷◌, arith, inl, inr,
  Bool-cases, if◌then◌else◌,
}
use provider_upjet_unifi.Base.Dict
use provider_upjet_unifi.Base.Dict.{Dict, member, get-put}
use provider_upjet_unifi.Clients.{forward, forward_value, unifi_keys}

-- A value that is forwarded: one that is there and is not empty.
abbrev pub filled : Option String → Option String
filled none = none
filled (some v) = if v == "" then none else some v

abbrev pub or_old : Option String → Option String → Option String
or_old none old = old
or_old (some v) old = some v

abbrev pub forwarded : Bool → Option String → Option String → Option String
forwarded listed v old = if listed then or_old (filled v) old else old

get-forward_value :
    (o : Option String) (configuration : Dict String) (key j : String)
    → Dict.get j (forward_value o key configuration)
      ≡ forwarded (key == j) o (Dict.get j configuration)
unfolding forward_value
get-forward_value none configuration key j = ground arith
get-forward_value (some v) configuration key j = elim (Bool-cases (v == "")) [
  | inl e ↦ rw e (ground arith)
  | inr e ↦ rw (e, get-put) (ground arith)
]

forwarded_twice :
    (b : Bool) (v old : Option String) → forwarded b v (forwarded true v old) ≡ forwarded true v old
forwarded_twice b v old = ground arith

or_old-none : (o : Option String) → or_old o none ≡ o
or_old-none none = refl
or_old-none (some v) = refl

forwarded-none :
    (b : Bool) (v : Option String) → forwarded b v none ≡ (if b then filled v else none)
forwarded-none true v = or_old-none (filled v)
forwarded-none false v = refl

get-forward_onto :
    (creds configuration : Dict String) (keys : List String) (j : String)
    → Dict.get j (forward creds keys configuration)
      ≡ forwarded (member j keys) (Dict.get j creds) (Dict.get j configuration)
unfolding forward
get-forward_onto creds configuration [] j = refl
get-forward_onto creds configuration (key ∷ keys) j =
    get-forward_onto creds (forward_value (Dict.get key creds) key configuration) keys j
    ∙ rw get-forward_value (elim (Bool-cases (key == j)) [
      | inl e ↦
          rw ((eq_iff key j).0 e, eq_refl j)
            (forwarded_twice (member j keys) (Dict.get j creds) (Dict.get j configuration))
      | inr e ↦ rw e
    ])

-- The configuration holds, for each of the eight recognised keys, the credential under that key if
-- it is there and not empty, and nothing else.
pub get-forward :
    (creds : Dict String) (j : String)
    → Dict.get j (forward creds unifi_keys [])
      ≡ (if member j unifi_keys then filled (Dict.get j creds) else none)
unfolding Dict.get
get-forward creds j =
    get-forward_onto creds [] unifi_keys j ∙ forwarded-none (member j unifi_keys) (Dict.get j creds)
