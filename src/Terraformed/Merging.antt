-- ===== src/Terraformed/Merging.antt =====
-- GetMergedParameters: spec.initProvider fills what spec.forProvider leaves out.
use provider_upjet_unifi.Base.{
  ap, sym, ◌∙◌, Bool-cases, Option-cases, if◌then◌else◌, String, ◌<>◌, ◌≡◌, refl, ◌⊎◌, inl, inr,
  Bool, true, false, Option, none, some, List, [], ◌∷◌,
}
use provider_upjet_unifi.Terraformed.{
  Shapes, Error, foreign, wrap, MergeConfig, Object, Runtime, quoted_name, get_parameters,
  get_init_parameters, merge_options, merged, merge_init, merge_parameters, get_merged_parameters,
}

abbrev pub configured :
    {S : Shapes} → List (MergeConfig S → MergeConfig S) → MergeConfig S → MergeConfig S
configured [] c = c
configured (f ∷ fs) c = configured fs (f c)

-- What mergo.Merge documents: without overwriting, a value of the destination that is not empty stays
-- (`is_kept`
-- is left to the library, as it merges maps and, by an option, slices), and a key that the
-- destination lacks gets what the source has for it.
pub record IsMerge {S : Shapes} (R : Runtime S) (V : Type 0)
    (lookup : S.Attributes → String → Option V) (is_kept : V → Bool) : Type 0 where
  pub keeps :
      (a b c : S.Attributes) (options : List (MergeConfig S → MergeConfig S)) (k : String) (v : V)
      → R.merge a b options ≡ (c, none)
      → (configured options R.default_config).overwrite ≡ false
      → lookup a k ≡ some v
      → is_kept v ≡ true
      → lookup c k ≡ some v
  pub fills :
      (a b c : S.Attributes) (options : List (MergeConfig S → MergeConfig S)) (k : String)
      → R.merge a b options ≡ (c, none)
      → lookup a k ≡ none
      → lookup c k ≡ lookup b k

-- A value of the first map stays if mergo keeps it, and the second map fills what the first lacks; the
-- third value is what mergo makes of a value that it does not keep.
abbrev pub overlaid : {V : Type 0} → (V → Bool) → Option V → Option V → Option V → Option V
overlaid is_kept none filled mixed = filled
overlaid is_kept (some v) filled mixed = if is_kept v then some v else mixed

module _ {S : Shapes} (R : Runtime S) where
  merged-inv :
      (o : Object S) (r : S.Attributes × Option S.Failure) (m : S.Attributes)
      → merged R o r ≡ (m, none)
      → r ≡ (m, none)
  merged-inv o (c, none) m h = ap (λ x. (x, none)) (ap (λ x. x.0) h)
  merged-inv o (c, some e) m h = cc (ap (λ x. x.1) h)

  merge_init-inv :
      (o : Object S) (p : S.Attributes) (q : S.Attributes × Option (Error S)) (m : S.Attributes)
      → merge_init R o p q ≡ (m, none)
      → (i : S.Attributes) × (q ≡ (i, none)) × (R.merge p i (merge_options R) ≡ (m, none))
  unfolding merge_init
  merge_init-inv o p (i, none) m h = (i, refl, merged-inv o (R.merge p i (merge_options R)) m h)
  merge_init-inv o p (i, some e) m h = cc (ap (λ x. x.1) h)

  -- A successful merge has read both.
  merge_parameters-inv :
      (o : Object S) (q : S.Attributes × Option (Error S)) (m : S.Attributes)
      → merge_parameters R true o q ≡ (m, none)
      → (p : S.Attributes) × (i : S.Attributes) × (q ≡ (p, none))
        × (get_init_parameters R o ≡ (i, none))
        × (R.merge p i (merge_options R) ≡ (m, none))
  unfolding merge_parameters
  merge_parameters-inv o (p, none) m h =
      let (i, init, merge) = merge_init-inv o p (get_init_parameters R o) m h in
      (p, i, refl, init, merge)
  merge_parameters-inv o (p, some e) m h = cc (ap (λ x. x.1) h)

  not_overwriting : (configured (merge_options R) R.default_config).overwrite ≡ false
  unfolding merge_options
  not_overwriting = refl

  module _ {V : Type 0} (lookup : S.Attributes → String → Option V) (is_kept : V → Bool)
      (law : IsMerge R V lookup is_kept) where
    overlaid-merge :
        (p i m : S.Attributes) (k : String)
        → R.merge p i (merge_options R) ≡ (m, none)
        → lookup m k ≡ overlaid is_kept (lookup p k) (lookup i k) (lookup m k)
    overlaid-merge p i m k merge = elim (Option-cases (lookup p k)) [
      | inl e ↦ rw e (law.fills p i m (merge_options R) k merge e)
      | inr (v, e) ↦ elim (Bool-cases (is_kept v)) [
        | inl kept ↦
            rw (e, kept) (law.keeps p i m (merge_options R) k v merge not_overwriting e kept)
        | inr replaced ↦ rw (e, replaced)
      ]
    ]

    -- When GetMergedParameters succeeds and is to merge, both structs have been read, and of the values
    -- for a key the one of spec.forProvider stays if mergo keeps such a value, while a key that
    -- spec.forProvider lacks has the value of spec.initProvider.
    pub get_merged_parameters-overlaid :
        (o : Object S) (m : S.Attributes)
        → get_merged_parameters R true o ≡ (m, none)
        → (p : S.Attributes) × (i : S.Attributes) × (get_parameters R o ≡ (p, none))
          × (get_init_parameters R o ≡ (i, none))
          × ((k : String) → lookup m k ≡ overlaid is_kept (lookup p k) (lookup i k) (lookup m k))
    unfolding get_merged_parameters
    get_merged_parameters-overlaid o m h =
        let (p, i, params, init, merge) = merge_parameters-inv o (get_parameters R o) m h in
        (p, i, params, init, λ k. overlaid-merge p i m k merge)

  -- An error with one of these texts and the name of the object put before it.
  abbrev pub IsWrapped : Object S → Error S → String → Type 0
  IsWrapped o e text = (e' : Error S) × (e ≡ wrap e' (text <> quoted_name o))

  -- The three ways in which GetMergedParameters fails.
  abbrev pub Explained : Object S → Error S → Type 0
  Explained o e =
      IsWrapped o e "cannot get parameters for resource "
      ⊎ (IsWrapped o e "cannot get init parameters for resource "
          ⊎ IsWrapped o e
              "cannot merge spec.initProvider and spec.forProvider parameters for resource ")

  Failing : Object S → S.Attributes × Option (Error S) → Type 0
  Failing o r = (e : Error S) → r.1 ≡ some e → (r.0 ≡ R.no_map) × Explained o e

  merged-Failing : (o : Object S) (r : S.Attributes × Option S.Failure) → Failing o (merged R o r)
  unfolding Failing
  merged-Failing o (m, none) e h = cc
  merged-Failing o (m, some e') e h = (refl, inr (inr (foreign e', cc)))

  merge_init-Failing :
      (o : Object S) (p : S.Attributes) (q : S.Attributes × Option (Error S))
      → Failing o (merge_init R o p q)
  unfolding Failing merge_init
  merge_init-Failing o p (i, none) e h = merged-Failing o (R.merge p i (merge_options R)) e h
  merge_init-Failing o p (i, some e') e h = (refl, inr (inl (e', cc)))

  merge_parameters-Failing :
      (should : Bool) (o : Object S) (q : S.Attributes × Option (Error S))
      → Failing o (merge_parameters R should o q)
  unfolding Failing merge_parameters
  merge_parameters-Failing false o (p, none) e h = cc
  merge_parameters-Failing true o (p, none) e h =
      merge_init-Failing o p (get_init_parameters R o) e h
  merge_parameters-Failing should o (p, some e') e h = (refl, inl (e', cc))

  -- Beside an error GetMergedParameters returns no map, and the error names the object and which of the
  -- three steps failed.
  pub get_merged_parameters-Explained :
      (should : Bool) (o : Object S) (m : S.Attributes) (e : Error S)
      → get_merged_parameters R should o ≡ (m, some e)
      → (m ≡ R.no_map) × Explained o e
  unfolding get_merged_parameters Failing
  get_merged_parameters-Explained should o m e h =
      let (nothing, why) =
        merge_parameters-Failing should o (get_parameters R o) e (ap (λ x. x.1) h) in
      (sym (ap (λ x. x.0) h) ∙ nothing, why)
