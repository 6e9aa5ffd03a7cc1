-- ===== src/Terraformed/Details.antt =====
-- The constants of the generated methods, against the list of controllers and against the names that
-- the connection details stand for.
use Prim.Native.Nat.{◌-◌}
use provider_upjet_unifi.Base.{
  ℕ, String, ◌<>◌, ◌≡◌, refl, ◌⊎◌, inl, inr, Bool, true, false, ◌&&◌, ◌||◌, Option, none, some, [],
  ◌∷◌, ◌++◌, leb, if◌then◌else◌, Bool-cases, Option-cases, sym,
}
use provider_upjet_unifi.Base.Equal.{same}
use provider_upjet_unifi.Base.Dict
use provider_upjet_unifi.Base.Dict.{Dict, all_entries, all_entries-get, holds, eq_of_holds}
use provider_upjet_unifi.Text.{Text, text, text_eq}
use provider_upjet_unifi.Text.Equality.{text_eq_iff}
use provider_upjet_unifi.Controller.Kinds.{ManagedKind}
use provider_upjet_unifi.Controller.Coverage.{kinds, kinds-group, kinds-kind}
use provider_upjet_unifi.Config.Unifi.Tables.{short_groups, kind_overrides}
use provider_upjet_unifi.Controller.{Scope, cluster, namespaced}
use provider_upjet_unifi.Terraformed.{Shapes, Runtime, Generated}
use provider_upjet_unifi.Terraformed.Kinds.{generated}

module _ {S : Shapes} (R : Runtime S) where
  abbrev pub resource_type : Option Generated → Option String
  resource_type none = none
  resource_type (some g) = some (g S R).get_terraform_resource_type

  abbrev is_typed : Scope → String → ManagedKind → Bool
  is_typed scope name k =
      holds (resource_type (Dict.get (k.group <> "." <> k.kind) (generated scope))) name

  all_typed : (scope : Scope) → all_entries (is_typed scope) kinds ≡ true
  unfolding all_entries kinds generated Dict.get
  all_typed cluster = refl
  all_typed namespaced = refl

  -- The controller of a resource reconciles a kind whose GetTerraformResourceType returns that resource.
  pub resource_type-kinds :
      (scope : Scope) (name : String) (k : ManagedKind)
      → Dict.get name kinds ≡ some k
      → resource_type (Dict.get (k.group <> "." <> k.kind) (generated scope)) ≡ some name
  resource_type-kinds scope name k h =
      eq_of_holds (resource_type (Dict.get (k.group <> "." <> k.kind) (generated scope))) name
        (all_entries-get (is_typed scope) kinds name k (all_typed scope) h)

abbrev pub pinned_or : Option String → String → String
pinned_or none kind = kind
pinned_or (some pinned) kind = pinned

-- What the configuration and the generated code say of a resource that a controller reconciles agree:
-- its API group is that of shortGroups, its Kind the one of kindOverrides where it has an entry there,
-- and, in either scope, GetTerraformResourceType of that kind returns its name.
pub kinds-configured :
    {S : Shapes} (R : Runtime S) (scope : Scope) (name : String) (k : ManagedKind)
    → Dict.get name kinds ≡ some k
    → (Dict.get name short_groups ≡ some k.group)
      × (pinned_or (Dict.get name kind_overrides) k.kind ≡ k.kind)
      × (resource_type R (Dict.get (k.group <> "." <> k.kind) (generated scope)) ≡ some name)
kinds-configured R scope name k h =
    (kinds-group name k h, pinned, resource_type-kinds R scope name k h)
  where
    pinned : pinned_or (Dict.get name kind_overrides) k.kind ≡ k.kind
    pinned = elim (Option-cases (Dict.get name kind_overrides)) [
      | inl e ↦ rw e
      | inr (kind, e) ↦ rw e (sym (kinds-kind name kind k h e))
    ]

abbrev upper : ℕ → ℕ
upper c = if leb 97 c && leb c 122 then c - 32 else c

-- A Terraform path in the names of the API: a letter after an underscore is a capital, and the
-- underscores go.
abbrev camel_from : Bool → Text → Text
camel_from up [] = []
camel_from up (c ∷ s) =
    let rest = camel_from (same c 95) s in
    let here = (if up then upper c else c) in if same c 95 then rest else here ∷ rest

abbrev pub camel : Text → Text
camel s = camel_from false s

abbrev is_secret : String → String → Bool
is_secret key path = text_eq (text path) (camel (text key) ++ text "SecretRef")

abbrev is_status : String → String → Bool
is_status key path = text_eq (text path) (text "status.atProvider." ++ camel (text key))

abbrev is_detail : String → String → Bool
is_detail key path = is_secret key path || is_status key path

of_is_detail :
    (key path : String)
    → is_detail key path ≡ true
    → (text path ≡ camel (text key) ++ text "SecretRef")
      ⊎ (text path ≡ text "status.atProvider." ++ camel (text key))
of_is_detail key path h = elim (Bool-cases (is_secret key path)) [
  | inl e ↦ inl ((text_eq_iff (text path) _).0 e)
  | inr e ↦ inr ((text_eq_iff (text path) _).0 (rw e at h))
]

module _ {S : Shapes} (R : Runtime S) where
  abbrev has_details : String → Generated → Bool
  has_details kind g = all_entries is_detail (g S R).get_connection_details_mapping

  all_details : (scope : Scope) → all_entries has_details (generated scope) ≡ true
  unfolding all_entries generated text_eq
  all_details cluster = refl
  all_details namespaced = refl

  -- In either scope GetConnectionDetailsMapping maps a sensitive attribute of Terraform to the secret
  -- reference of the field of the same name in the specification, or to the field of the same name in
  -- the status.
  pub details-named :
      (scope : Scope) (kind : String) (g : Generated) (key path : String)
      → Dict.get kind (generated scope) ≡ some g
      → Dict.get key (g S R).get_connection_details_mapping ≡ some path
      → (text path ≡ camel (text key) ++ text "SecretRef")
        ⊎ (text path ≡ text "status.atProvider." ++ camel (text key))
  details-named scope kind g key path known listed = of_is_detail key path (
      all_entries-get is_detail (g S R).get_connection_details_mapping key path
        (all_entries-get has_details (generated scope) kind g (all_details scope) known) listed)
