-- ===== src/Config/WriteOnly/Order.antt =====
-- The whole of describeWriteOnly: what it leaves at each key, and that the order in which the map
-- is visited does not matter.
use mathlib.Core.List.{append_cancel_left, append-nil}
use provider_upjet_unifi.Base.{
  ◌≡◌, ◌≢◌, ◌⊎◌, refl, ◌∙◌, ap, sym, Bool, true, false, Option, none, some, [], ◌++◌, arith, inl,
  inr, Bool-cases, Option-cases,
}
use provider_upjet_unifi.Text.{Text, text_eq}
use provider_upjet_unifi.Text.Equality.{text_eq_iff, text_eq_refl, text_eq_ne, ne_of_text_eq}
use provider_upjet_unifi.Config.WriteOnly.{
  Schema, schema, Elem, Attributes, find, has, write_only_suffix, write_only_base,
  write_only_version_base, describe_write_only,
}
use provider_upjet_unifi.Config.WriteOnly.Bases.{write_only_base_iff, not-version_base_of_base}
use provider_upjet_unifi.Config.WriteOnly.Loop.{
  alter, SameShape, SameShape-refl, SameShape-of_entries, write_only_base-same,
  write_only_version_base-same, revise_by, revise,
}
use provider_upjet_unifi.Config.WriteOnly.Describe.{
  UniqueKeys, chain_free, chain_free-at, stood_in, described_by, described, after, after_text,
  find-describe_loop, after-parts, after_elem_present, after_text_fixed, after_text_once,
}

suffix-ne : (base : Text) → base ≢ base ++ write_only_suffix
suffix-ne base e = cc (append_cancel_left base [] write_only_suffix (append-nil base ∙ e))

module _ (lower_camel : Text → Text) (m : Attributes) where
  revise_by-ne :
      (v w : Option Text) (n k d : Text)
      → n ≢ k
      → (v ≡ none → w ≢ some k)
      → revise_by lower_camel m v w n k d ≡ d
  revise_by-ne (some b) w n k d ne nw = rw (text_eq_ne n k ne)
  revise_by-ne none none n k d ne nw = refl
  revise_by-ne none (some b) n k d ne nw =
      rw (text_eq_ne n k ne, text_eq_ne b k (λ e. nw refl (ap some e)))

  -- A round for an attribute that is neither a counter nor write-only changes nothing at its key.
  revise_plain :
      (n k d : Text)
      → write_only_version_base k m ≡ none
      → write_only_base k m ≡ none
      → (write_only_base n m ≢ some k)
      → revise lower_camel m n k d ≡ d
  revise_plain n k d ev ew nw = elim (Bool-cases (text_eq n k)) [
    | inl e ↦ let same : n ≡ k = (text_eq_iff n k).0 e in rw (same, ev, ew) refl
    | inr e ↦ revise_by-ne _ _ n k d (ne_of_text_eq n k e) (λ _. nw)
  ]

  module _ (u : UniqueKeys m) (c : chain_free m m ≡ true) (k : Text) (h : has k m ≡ true) where
    not_base_of :
        (n b : Text)
        → (write_only_version_base k m ≡ some b) ⊎ (write_only_base k m ≡ some b)
        → has n m ≡ true
        → write_only_base n m ≢ some k
    not_base_of n b (inl ev) found w = cc (ev, (chain_free-at m m n k c found w).1)
    not_base_of n b (inr ew) found w = cc (ew, (chain_free-at m m n k c found w).0)

    -- The description at `k` after the whole loop, by what the bases of `k` are.
    after_text_by :
        (v w : Option Text) (s : Bool) (d : Text)
        → write_only_version_base k m ≡ v
        → write_only_base k m ≡ w
        → stood_in lower_camel m k ≡ s
        → after_text lower_camel m m k d ≡ described_by lower_camel m v w s k d
    after_text_by (some b) w s d ev ew es =
        after_text_once lower_camel m m k k d u h
          (λ n ne found d'. revise_by-ne _ _ n k d' ne (λ _. not_base_of n b (inl ev) found))
        ∙ rw (ev, text_eq_refl) refl
    after_text_by none (some b) s d ev ew es =
        let (named, _, _) = (write_only_base_iff k b m).0 ew in
        after_text_once lower_camel m m k k d u h
          (λ n ne found d'. revise_by-ne _ _ n k d' ne (λ _. not_base_of n b (inr ew) found))
        ∙ rw (ev, ew, text_eq_refl, text_eq_ne b k (λ e. suffix-ne b (e ∙ named))) refl
    after_text_by none none true d ev ew es =
        let j = k ++ write_only_suffix in
        let wj : write_only_base j m ≡ some k =
          (write_only_base_iff j k m).1 (refl, ground arith, ground arith) in
        let vj : write_only_version_base j m ≡ none = not-version_base_of_base j k m wj in
        after_text_once lower_camel m m j k d u (ground arith)
          (λ n ne found d'. revise_plain n k d' ev ew (λ w. ne ((write_only_base_iff n k m).0 w).0))
        ∙ rw (vj, wj, text_eq_ne j k (λ e. suffix-ne k (sym e)), text_eq_refl) refl
    after_text_by none none false d ev ew es = after_text_fixed lower_camel m m k d λ n found.
        revise_plain n k d ev ew λ w.
          let (named, filled, _) = (write_only_base_iff n k m).0 w in
          cc (rw (filled, ← named, found) at es)

    after_lem :
        (d : Text) (s : Bool) (e : Elem)
        → find k m ≡ some (schema d s e)
        → after lower_camel m m k (schema d s e) ≡ described lower_camel m k (schema d s e)
    after_lem d s e f =
        rw
          (
            after-parts lower_camel m m k d s e,
            after_text_by _ _ _ d refl refl refl,
            after_elem_present lower_camel m m k d s e e u f,
          )
          refl

-- For a map with distinct keys in which no base of a write-only attribute is itself a write-only
-- attribute or a version counter, describeWriteOnly leaves at every key exactly this: a version
-- counter and a write-only attribute have the description made for them, any other attribute its
-- own without the sentences that name its write-only form (if it has one), nested blocks are
-- described too, and no attribute is added, lost or made sensitive.
pub find-describe_write_only :
    (lower_camel : Text → Text) (m : Attributes)
    → UniqueKeys m
    → chain_free m m ≡ true
    → (k : Text)
    → find k (describe_write_only lower_camel m) ≡ alter (described lower_camel m k) (find k m)
unfolding describe_write_only
find-describe_write_only lower_camel m u c k =
    find-describe_loop lower_camel m m m k (SameShape-refl m) ∙ (elim (Option-cases (find k m)) [
      | inl e ↦ rw e
      | inr (schema d s e', e) ↦ rw e (ap some (after_lem lower_camel m u c k (rw e refl) d s e' e))
    ])

-- The two maps have the same entries, in any order.
abbrev pub SameEntries : Attributes → Attributes → Type 0
SameEntries m m' = (k : Text) → find k m ≡ find k m'

described_by-same :
    (lower_camel : Text → Text) (m m' : Attributes) (v w : Option Text) (s : Bool) (k d : Text)
    → SameEntries m m'
    → described_by lower_camel m v w s k d ≡ described_by lower_camel m' v w s k d
described_by-same lower_camel m m' (some b) w s k d h = rw (h b)
described_by-same lower_camel m m' none (some b) s k d h = rw (h b)
described_by-same lower_camel m m' none none true k d h = refl
described_by-same lower_camel m m' none none false k d h = refl

described-same :
    (lower_camel : Text → Text) (m m' : Attributes) (k : Text) (o : Option Schema)
    → SameEntries m m'
    → alter (described lower_camel m k) o ≡ alter (described lower_camel m' k) o
described-same lower_camel m m' k none h = refl
described-same lower_camel m m' k (some (schema d s e)) h =
    let same : SameShape m m' = SameShape-of_entries h in
    rw
      (
        described_by-same lower_camel m m' (write_only_version_base k m) (write_only_base k m)
            (stood_in lower_camel m k) k d h,
        write_only_version_base-same same k,
        write_only_base-same same k,
        h (k ++ write_only_suffix),
      )
      refl

-- The order in which Go visits the map does not matter: two maps with the same entries, with
-- distinct keys and no chains, are described alike.
pub describe_write_only-order :
    (lower_camel : Text → Text) (m m' : Attributes)
    → UniqueKeys m
    → UniqueKeys m'
    → chain_free m m ≡ true
    → chain_free m' m' ≡ true
    → SameEntries m m'
    → SameEntries (describe_write_only lower_camel m) (describe_write_only lower_camel m')
describe_write_only-order lower_camel m m' u u' c c' h k =
    find-describe_write_only lower_camel m u c k
    ∙ described-same lower_camel m m' k (find k m) h
    ∙ ap (alter (described lower_camel m' k)) (h k)
    ∙ sym (find-describe_write_only lower_camel m' u' c' k)
