-- ===== src/Config/WriteOnly/Describe.antt =====
-- The loop of describeWriteOnly, followed at one key: its description and its Elem.
use provider_upjet_unifi.Base.{
  ◌≡◌, ◌≢◌, refl, ◌∙◌, ap, Bool, true, false, not, ◌&&◌, Option, none, some, ◌++◌, arith, inl, inr,
  Bool-cases, if◌then◌else◌,
}
use provider_upjet_unifi.Text.{Text, text_eq}
use provider_upjet_unifi.Text.Equality.{text_eq_iff, text_eq_refl, ne_of_text_eq}
use provider_upjet_unifi.Config.WriteOnly.{
  Schema, schema, Elem, Attributes, nil, cons, find, has, is_empty, write_only_suffix,
  write_only_base, write_only_version_base, write_only_description, write_only_version_description,
  without_sentences_naming, field_at, visit, describe_elem, describe_loop,
}
use provider_upjet_unifi.Config.WriteOnly.Loop.{
  alter, SameShape, revise, revised, find-visit, visit-SameShape,
}

-- The keys of a Go map are distinct.
abbrev pub UniqueKeys : Attributes → Type 0
UniqueKeys nil = Unit
UniqueKeys (cons n a m) = (has n m ≡ false) × UniqueKeys m

abbrev is_none {ℓ} : {A : Type ℓ} → Option A → Bool
is_none none = true
is_none (some a) = false

abbrev pub unchained : Option Text → Attributes → Bool
unchained none m = true
unchained (some base) m =
    is_none (write_only_base base m) && is_none (write_only_version_base base m)

-- No base of a write-only attribute is itself a write-only attribute or a version counter.
abbrev pub chain_free : Attributes → Attributes → Bool
chain_free nil m = true
chain_free (cons n a rest) m = unchained (write_only_base n m) m && chain_free rest m

pub chain_free-at :
    (rest m : Attributes) (n base : Text)
    → chain_free rest m ≡ true
    → has n rest ≡ true
    → write_only_base n m ≡ some base
    → (write_only_base base m ≡ none) × (write_only_version_base base m ≡ none)
unfolding find
chain_free-at nil m n base c h w = cc
chain_free-at (cons i a rest) m n base c h w = elim (Bool-cases (text_eq i n)) [
  | inl e ↦ ground (arith, text_eq_iff i n)
  | inr e ↦ chain_free-at rest m n base (ground arith) (rw e at h) w
]

has-cons :
    (n : Text) (a : Schema) (rest : Attributes) (k : Text)
    → has k rest ≡ true
    → has k (cons n a rest) ≡ true
unfolding find
has-cons n a rest k h = ground arith

module _ (lower_camel : Text → Text) (m : Attributes) where
  abbrev pub described_by : Option Text → Option Text → Bool → Text → Text → Text
  described_by (some base) w stood k d =
      write_only_version_description base (field_at lower_camel base (find base m))
  described_by none (some base) stood k d =
      write_only_description base (field_at lower_camel base (find base m))
  described_by none none true k d = without_sentences_naming d (k ++ write_only_suffix)
  described_by none none false k d = d

  -- `k` has a write-only form.
  abbrev pub stood_in : Text → Bool
  stood_in k = not (is_empty k) && has (k ++ write_only_suffix) m

  -- The description of the attribute `k` afterwards: that of a version counter, that of a
  -- write-only attribute, or the old one without the sentences that name its write-only form.
  abbrev pub described_text : Text → Text → Text
  described_text k d =
      described_by (write_only_version_base k m) (write_only_base k m) (stood_in k) k d

  abbrev pub described : Text → Schema → Schema
  described k (schema d s e) = schema (described_text k d) s (describe_elem lower_camel e)

  unfoldable pub after : Attributes → Text → Schema → Schema
  after nil k a = a
  after (cons n (schema d s e) rest) k a =
      after rest k (revised lower_camel m n (describe_elem lower_camel e) k a)

  unfoldable pub after_text : Attributes → Text → Text → Text
  after_text nil k d = d
  after_text (cons n a rest) k d = after_text rest k (revise lower_camel m n k d)

  unfoldable pub after_elem : Attributes → Text → Elem → Elem
  after_elem nil k e = e
  after_elem (cons n (schema d s e') rest) k e =
      after_elem rest k (if text_eq n k then describe_elem lower_camel e' else e)

  alter-alter :
      (f g : Schema → Schema) (o : Option Schema) → alter g (alter f o) ≡ alter (λ a. g (f a)) o
  alter-alter f g none = refl
  alter-alter f g (some a) = refl

  alter_id : (o : Option Schema) → o ≡ alter (λ a. a) o
  alter_id none = refl
  alter_id (some a) = refl

  pub find-describe_loop :
      (rest m' : Attributes) (k : Text)
      → SameShape m' m
      → find k (describe_loop lower_camel rest m') ≡ alter (after rest k) (find k m')
  unfolding describe_elem after
  find-describe_loop nil m' k s = alter_id (find k m')
  find-describe_loop (cons n (schema d t e) rest) m' k s =
      find-describe_loop rest (visit lower_camel n (describe_elem lower_camel e) m') k
        (visit-SameShape lower_camel n (describe_elem lower_camel e) s)
      ∙ rw (find-visit lower_camel m m' n (describe_elem lower_camel e) k s)
          (alter-alter _ (after rest k) (find k m'))

  pub after-parts :
      (rest : Attributes) (k d : Text) (s : Bool) (e : Elem)
      → after rest k (schema d s e) ≡ schema (after_text rest k d) s (after_elem rest k e)
  unfolding after after_text after_elem
  after-parts nil k d s e = refl
  after-parts (cons n (schema d' s' e') rest) k d s e =
      after-parts rest k (revise lower_camel m n k d) s _

  after_elem_absent :
      (rest : Attributes) (k : Text) (e : Elem) → has k rest ≡ false → after_elem rest k e ≡ e
  unfolding after_elem find
  after_elem_absent nil k e h = refl
  after_elem_absent (cons n (schema d s e') rest) k e h = elim (Bool-cases (text_eq n k)) [
    | inl f ↦ cc (rw f at h)
    | inr f ↦ rw f (after_elem_absent rest k e (rw f at h))
  ]

  pub after_elem_present :
      (rest : Attributes) (k d : Text) (s : Bool) (e e' : Elem)
      → UniqueKeys rest
      → find k rest ≡ some (schema d s e)
      → after_elem rest k e' ≡ describe_elem lower_camel e
  unfolding after_elem find
  after_elem_present nil k d s e e' u h = cc
  after_elem_present (cons n (schema d' s' e'') rest) k d s e e' (fresh, u) h =
      elim (Bool-cases (text_eq n k)) [
        | inl f ↦
            let same : n ≡ k = (text_eq_iff n k).0 f in
            rw f (
              after_elem_absent rest k _ (rw same at fresh)
              ∙ ap (describe_elem lower_camel) (ground arith))
        | inr f ↦ rw f (after_elem_present rest k d s e e' u (rw f at h))
      ]

  pub after_text_fixed :
      (rest : Attributes) (k d : Text)
      → ((n : Text) → has n rest ≡ true → revise lower_camel m n k d ≡ d)
      → after_text rest k d ≡ d
  unfolding after_text find
  after_text_fixed nil k d h = refl
  after_text_fixed (cons n a rest) k d h =
      rw (h n (rw text_eq_refl refl))
        (after_text_fixed rest k d λ i found. h i (has-cons n a rest i found))

  -- Only the round for `j` changes the description, and it comes once.
  pub after_text_once :
      (rest : Attributes) (j k d : Text)
      → UniqueKeys rest
      → has j rest ≡ true
      → ((n : Text) → n ≢ j → has n rest ≡ true → (d : Text) → revise lower_camel m n k d ≡ d)
      → after_text rest k d ≡ revise lower_camel m j k d
  unfolding after_text find
  after_text_once nil j k d u h keep = cc
  after_text_once (cons n a rest) j k d (fresh, u) h keep = elim (Bool-cases (text_eq n j)) [
    | inl e ↦
        let same : n ≡ j = (text_eq_iff n j).0 e in
        rw same (
          after_text_fixed rest k _
            λ i found. keep i (λ f. cc (fresh, found, f, same)) (has-cons n a rest i found) _)
    | inr e ↦ rw (keep n (ne_of_text_eq n j e) (rw text_eq_refl refl) d) (
        after_text_once rest j k d u (rw e at h)
          λ i ne found d'. keep i ne (has-cons n a rest i found) d')
  ]
