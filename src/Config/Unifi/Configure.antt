-- ===== src/Config/Unifi/Configure.antt =====
-- What the registered configurators make of a resource, whatever the order of the loop.
use text.Mathlib.Text.{◌==◌}
use text.Mathlib.TextEquality.{eq_iff}
use provider_upjet_unifi.Base.{
  ◌≡◌, refl, ◌∙◌, String, true, false, Option, none, some, [], ◌∷◌, arith, inl, inr, Bool-cases,
  if◌then◌else◌,
}
use provider_upjet_unifi.Base.Dict
use provider_upjet_unifi.Base.Dict.{Dict, get-put}
use provider_upjet_unifi.Config.Resource.{Resource, Reference}
use provider_upjet_unifi.Config.Unifi.{
  get_or_empty, get_or_nil, add_references, configurator, configure_over,
}
use provider_upjet_unifi.Config.Unifi.Tables.{kind_overrides, references, short_groups}

-- upjet's provider: AddResourceConfigurator adds to what ConfigureResources, later, applies to the
-- resource of that name.
pub record Registry (E : Type 0) : Type 1 where
  pub Provider : Type 0
  pub add : String → (Resource E → Resource E) → Provider → Provider
  pub applied : Provider → Resource E → Resource E
  pub applied-add :
      (name : String) (f : Resource E → Resource E) (p : Provider) (r : Resource E)
      → applied (add name f p) r ≡ (if name == r.name then f (applied p r) else applied p r)

pub get-none_of_not_has :
    {V : Type 0} (m : Dict V) (k : String) → Dict.has k m ≡ false → Dict.get k m ≡ none
get-none_of_not_has m k h = go (Dict.get k m) h
  where
    go : {V : Type 0} (o : Option V) → Dict.is_some o ≡ false → o ≡ none
    go none h = refl
    go (some v) h = cc

not_has :
    {V : Type 0} (k : String) (v : V) (m : Dict V)
    → Dict.unique ((k, v) ∷ m) ≡ true
    → Dict.has k m ≡ false
not_has k v m u = ground arith

unique-tail :
    {V : Type 0} (k : String) (v : V) (m : Dict V)
    → Dict.unique ((k, v) ∷ m) ≡ true
    → Dict.unique m ≡ true
unique-tail k v m u = ground arith

module _ {E : Type 0} where
  -- What Configure makes of a resource with the group that the table has for it, if any.
  abbrev pub configured : Option String → String → Resource E → Resource E
  configured none name r = r
  configured (some group) name r =
      configurator group (get_or_empty (Dict.get name kind_overrides))
        (get_or_nil (Dict.get name references)) r

  module _ (R : Registry E) where
    applied-configure_over :
        (groups : Dict String) (p : R.Provider) (r : Resource E)
        → Dict.unique groups ≡ true
        → R.applied (configure_over R.add groups p) r
          ≡ configured (Dict.get r.name groups) r.name (R.applied p r)
    unfolding configure_over Dict.get
    applied-configure_over [] p r u = refl
    applied-configure_over ((name, group) ∷ rest) p r u = elim (Bool-cases (name == r.name)) [
      | inl e ↦
          let same : name ≡ r.name = (eq_iff name r.name).0 e in
          let absent : Dict.get r.name rest ≡ none =
            rw (← same) (get-none_of_not_has rest name (not_has name group rest u)) in
          applied-configure_over rest _ r (unique-tail name group rest u)
          ∙ rw (absent, R.applied-add, e, same)
      | inr e ↦
          applied-configure_over rest _ r (unique-tail name group rest u) ∙ rw (R.applied-add, e)
    ]

    -- Whatever the order in which Go visits shortGroups: after Configure, a resource that the table
    -- names has the group, kind and references that the tables hold for it, and any other resource
    -- is as it was.
    pub applied-configure :
        (groups : Dict String) (p : R.Provider) (r : Resource E)
        → Dict.unique groups ≡ true
        → ((name : String) → Dict.get name groups ≡ Dict.get name short_groups)
        → R.applied (configure_over R.add groups p) r
          ≡ configured (Dict.get r.name short_groups) r.name (R.applied p r)
    applied-configure groups p r u same = rw (applied-configure_over groups p r u, same r.name)

abbrev pub or_declared : Option Reference → Option Reference → Option Reference
or_declared none old = old
or_declared (some ref) old = some ref

-- The references that a configurator adds are found under their fields, and the other fields keep
-- theirs.
pub get-add_references :
    (refs declared : Dict Reference) (field : String)
    → Dict.unique refs ≡ true
    → Dict.get field (add_references refs declared)
      ≡ or_declared (Dict.get field refs) (Dict.get field declared)
unfolding add_references Dict.get
get-add_references [] declared field u = refl
get-add_references ((f, ref) ∷ refs) declared field u = elim (Bool-cases (f == field)) [
  | inl e ↦
      let same : f ≡ field = (eq_iff f field).0 e in
      let absent : Dict.get field refs ≡ none =
        rw (← same) (get-none_of_not_has refs f (not_has f ref refs u)) in
      get-add_references refs (Dict.put f ref declared) field (unique-tail f ref refs u)
      ∙ rw (absent, get-put, e)
  | inr e ↦
      get-add_references refs (Dict.put f ref declared) field (unique-tail f ref refs u)
      ∙ rw (get-put, e)
]
