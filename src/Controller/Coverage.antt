-- ===== src/Controller/Coverage.antt =====
-- The list of controllers against the tables of the configuration.
use text.Mathlib.Text.{◌==◌}
use text.Mathlib.TextEquality.{eq_iff}
use provider_upjet_unifi.Base.{
  ◌≡◌, refl, String, Bool, true, not, ◌&&◌, ◌||◌, Option, none, some, List, [], ◌∷◌, arith,
}
use provider_upjet_unifi.Base.Dict
use provider_upjet_unifi.Base.Dict.{
  Dict, all_entries, all_entries-get, same_has, and_left, and_right,
}
use provider_upjet_unifi.Config.Unifi.Tables.{short_groups, kind_overrides}
use provider_upjet_unifi.Controller.Kinds.{
  ManagedKind, Controller, managed, provider_config, controllers,
}

-- The generated controllers by the Terraform resource that they reconcile.
by_resource : List Controller → Dict ManagedKind
by_resource [] = []
by_resource (managed k ∷ rest) = (k.terraform_name, k) ∷ by_resource rest
by_resource (provider_config ∷ rest) = by_resource rest

unfoldable pub kinds : Dict ManagedKind
unfolding by_resource controllers
kinds = by_resource controllers

abbrev is_override : Option String → String → Bool
is_override none kind = true
is_override (some pinned) kind = pinned == kind

abbrev agrees : String → ManagedKind → Bool
agrees name k =
    Dict.holds (Dict.get name short_groups) k.group
    && is_override (Dict.get name kind_overrides) k.kind

abbrev apart : String → ManagedKind → String → ManagedKind → Bool
apart name k name' k' = not (k.group == k'.group && k.kind == k'.kind) || name == name'

abbrev apart_from_all : String → ManagedKind → Bool
apart_from_all name k = all_entries (apart name k) kinds

kinds_agree : all_entries agrees kinds ≡ true
unfolding all_entries kinds short_groups kind_overrides Dict.get
kinds_agree = refl

kinds_apart : all_entries apart_from_all kinds ≡ true
unfolding all_entries kinds
kinds_apart = refl

kinds-unique : Dict.unique kinds ≡ true
unfolding kinds Dict.get
kinds-unique = refl

groups_reconciled : all_entries (λ name group. Dict.has name kinds) short_groups ≡ true
unfolding all_entries kinds short_groups Dict.get
groups_reconciled = refl

-- Exactly the resources that the configuration puts into a group have a controller, and each has
-- one only.
pub has-kinds :
    (name : String)
    → (Dict.has name kinds ≡ Dict.has name short_groups) × (Dict.unique kinds ≡ true)
has-kinds name = (
  same_has kinds short_groups name
      (λ k h.
        grouped (Dict.get name short_groups) k.group
          (and_left _ _ (all_entries-get agrees kinds name k kinds_agree h)))
      (λ g h.
        all_entries-get (λ n group. Dict.has n kinds) short_groups name g groups_reconciled h),
  kinds-unique,
)
  where
    grouped : (o : Option String) (g : String) → Dict.holds o g ≡ true → Dict.is_some o ≡ true
    grouped none g h = cc
    grouped (some g') g h = refl

of_is_override :
    (o : Option String) (kind pinned : String)
    → is_override o kind ≡ true
    → o ≡ some pinned
    → kind ≡ pinned
of_is_override none kind pinned h e = cc
of_is_override (some p) kind pinned h e = cc ((eq_iff p kind).0 h)

-- The generated API of a resource has the group that the configuration gives it.
pub kinds-group :
    (name : String) (k : ManagedKind)
    → Dict.get name kinds ≡ some k
    → Dict.get name short_groups ≡ some k.group
kinds-group name k h =
    Dict.eq_of_holds (Dict.get name short_groups) k.group
      (and_left _ _ (all_entries-get agrees kinds name k kinds_agree h))

-- The generated API of a resource has the Kind that the configuration pins, where it pins one.
pub kinds-kind :
    (name pinned : String) (k : ManagedKind)
    → Dict.get name kinds ≡ some k
    → Dict.get name kind_overrides ≡ some pinned
    → k.kind ≡ pinned
kinds-kind name pinned k h e =
    of_is_override (Dict.get name kind_overrides) k.kind pinned
      (and_right (Dict.holds (Dict.get name short_groups) k.group) _
        (all_entries-get agrees kinds name k kinds_agree h))
      e

-- No two resources share a Kind within a group.
pub kinds-distinct :
    (name name' : String) (k k' : ManagedKind)
    → Dict.get name kinds ≡ some k
    → Dict.get name' kinds ≡ some k'
    → k.group ≡ k'.group
    → k.kind ≡ k'.kind
    → name ≡ name'
kinds-distinct name name' k k' h h' g e =
    let row = all_entries-get apart_from_all kinds name k kinds_apart h in
    let pair = all_entries-get (apart name k) kinds name' k' row h' in
    ground (arith, eq_iff k.group k'.group, eq_iff k.kind k'.kind, eq_iff name name')
