-- ===== src/Config/WriteOnly/Loop.antt =====
-- What one round of describeWriteOnly's loop does to the attribute at a key.
use provider_upjet_unifi.Base.{
  ◌≡◌, refl, ◌∙◌, ap, sym, Bool, true, false, Option, none, some, ◌++◌, arith, if◌then◌else◌,
}
use provider_upjet_unifi.Text.{Text, text_eq, cut_suffix}
use provider_upjet_unifi.Text.Equality.{text_eq_iff}
use provider_upjet_unifi.Config.WriteOnly.{
  Schema, schema, Elem, Attributes, nil, cons, sensitive, find, has, modify, is_some,
  write_only_suffix, write_only_version_suffix, write_only_base, write_only_version_base,
  sibling_base, sibling_version_base, write_only_description, write_only_version_description,
  without_sentences_naming, api_field_name, field_at, with_description, with_elem, without_naming,
  rewrite_by, rewrite_descriptions, visit,
}

abbrev pub alter : (Schema → Schema) → Option Schema → Option Schema
alter f none = none
alter f (some a) = some (f a)

pub find-modify :
    (n k : Text) (f : Schema → Schema) (m : Attributes)
    → find k (modify n f m) ≡ (if text_eq n k then alter f (find k m) else find k m)
unfolding find modify
find-modify n k f nil = ground arith
find-modify n k f (cons i a m) =
    ground (arith, find-modify n k f m, text_eq_iff i n, text_eq_iff i k, text_eq_iff n k)

abbrev flag : Option Schema → Option Bool
flag none = none
flag (some a) = some (sensitive a)

-- The two maps have the same keys, and the same attributes are sensitive.
pub record SameShape (m m' : Attributes) : Type 0 where
  pub flags : (k : Text) → flag (find k m) ≡ flag (find k m')

pub SameShape-refl : (m : Attributes) → SameShape m m
SameShape-refl m = record { flags = λ k. refl }

pub SameShape-of_entries :
    {m m' : Attributes} → ((k : Text) → find k m ≡ find k m') → SameShape m m'
SameShape-of_entries h = record { flags = λ k. ap flag (h k) }

flagged : Option Bool → Bool
flagged none = false
flagged (some b) = true

is_some-flag : (o : Option Schema) → is_some o ≡ flagged (flag o)
unfolding flagged
is_some-flag none = refl
is_some-flag (some a) = refl

module _ {m m' : Attributes} (s : SameShape m m') where
  pub has-same : (k : Text) → has k m ≡ has k m'
  has-same k = is_some-flag (find k m) ∙ ap flagged (s.flags k) ∙ sym (is_some-flag (find k m'))

  sibling_base-same : (o : Option Text) → sibling_base o m ≡ sibling_base o m'
  sibling_base-same none = refl
  sibling_base-same (some b) = rw (has-same b)

  sibling_version_base-same :
      (o : Option Text) → sibling_version_base o m ≡ sibling_version_base o m'
  sibling_version_base-same none = refl
  sibling_version_base-same (some b) = rw (has-same b, has-same (b ++ write_only_suffix))

  pub write_only_base-same : (n : Text) → write_only_base n m ≡ write_only_base n m'
  unfolding write_only_base
  write_only_base-same n = sibling_base-same (cut_suffix n write_only_suffix)

  pub write_only_version_base-same :
      (n : Text) → write_only_version_base n m ≡ write_only_version_base n m'
  unfolding write_only_version_base
  write_only_version_base-same n =
      sibling_version_base-same (cut_suffix n write_only_version_suffix)

abbrev redescribe : (Text → Text) → Schema → Schema
redescribe f (schema d s e) = schema (f d) s e

alter-redescribe_id : (o : Option Schema) → o ≡ alter (redescribe (λ d. d)) o
alter-redescribe_id none = refl
alter-redescribe_id (some (schema d s e)) = refl

flag-redescribe : (f : Text → Text) (o : Option Schema) → flag (alter (redescribe f) o) ≡ flag o
flag-redescribe f none = refl
flag-redescribe f (some (schema d s e)) = refl

flag-with_elem :
    (e : Elem) (b : Bool) (o : Option Schema)
    → flag (if b then alter (with_elem e) o else o) ≡ flag o
flag-with_elem e true none = refl
flag-with_elem e true (some (schema d s e')) = refl
flag-with_elem e false o = refl

written :
    (c : Bool) (t : Text) (o : Option Schema)
    → (if c then alter (with_description t) o else o)
      ≡ alter (redescribe (λ d. if c then t else d)) o
written true t none = refl
written true t (some (schema d s e)) = refl
written false t none = refl
written false t (some (schema d s e)) = refl

written_twice :
    (c c' : Bool) (t n : Text) (o : Option Schema)
    → let o' = if c then alter (with_description t) o else o in
      (if c' then alter (without_naming n) o' else o')
      ≡ alter
          (redescribe
            (λ d. let d' = if c then t else d in if c' then without_sentences_naming d' n else d'))
          o
written_twice true true t n none = refl
written_twice true true t n (some (schema d s e)) = refl
written_twice true false t n none = refl
written_twice true false t n (some (schema d s e)) = refl
written_twice false true t n none = refl
written_twice false true t n (some (schema d s e)) = refl
written_twice false false t n none = refl
written_twice false false t n (some (schema d s e)) = refl

abbrev pub revised_by : (Text → Text) → Bool → Elem → Schema → Schema
revised_by f c e (schema d s e') = schema (f d) s (if c then e else e')

revised_by-of_parts :
    (f : Text → Text) (c : Bool) (e : Elem) (o : Option Schema)
    → alter (redescribe f) (if c then alter (with_elem e) o else o) ≡ alter (revised_by f c e) o
revised_by-of_parts f true e none = refl
revised_by-of_parts f false e none = refl
revised_by-of_parts f true e (some (schema d s e')) = refl
revised_by-of_parts f false e (some (schema d s e')) = refl

module _ (lower_camel : Text → Text) where
  field_at-of_flag :
      (b : Text) (o o' : Option Schema)
      → flag o ≡ flag o'
      → field_at lower_camel b o ≡ field_at lower_camel b o'
  unfolding api_field_name
  field_at-of_flag b none none h = refl
  field_at-of_flag b none (some a) h = cc
  field_at-of_flag b (some a) none h = cc
  field_at-of_flag b (some a) (some a') h = ground arith

  -- The description of the attribute at `k` after a round for the name `n`, by the bases of `n`.
  abbrev pub revise_by : Attributes → Option Text → Option Text → Text → Text → Text → Text
  revise_by m (some b) w n k d =
      if text_eq n k
      then write_only_version_description b (field_at lower_camel b (find b m))
      else d
  revise_by m none none n k d = d
  revise_by m none (some b) n k d =
      let d' =
        if text_eq n k then write_only_description b (field_at lower_camel b (find b m)) else d in
      if text_eq b k then without_sentences_naming d' n else d'

  abbrev pub revise : Attributes → Text → Text → Text → Text
  revise m n k d = revise_by m (write_only_version_base n m) (write_only_base n m) n k d

  find-rewrite_by :
      (m m' : Attributes) (v w : Option Text) (n k : Text)
      → SameShape m' m
      → find k (rewrite_by lower_camel v w n m')
        ≡ alter (redescribe (revise_by m v w n k)) (find k m')
  unfolding rewrite_by
  find-rewrite_by m m' (some b) w n k s =
      rw (find-modify, field_at-of_flag b (find b m') (find b m) (s.flags b))
        (written (text_eq n k) _ (find k m'))
  find-rewrite_by m m' none none n k s = alter-redescribe_id (find k m')
  find-rewrite_by m m' none (some b) n k s =
      rw (find-modify, find-modify, field_at-of_flag b (find b m') (find b m) (s.flags b))
        (written_twice (text_eq n k) (text_eq b k) _ n (find k m'))

  -- What a round for the name `n`, whose Elem becomes `e`, makes of the attribute at `k`.
  abbrev pub revised : Attributes → Text → Elem → Text → Schema → Schema
  revised m n e k = revised_by (revise m n k) (text_eq n k) e

  with_elem-SameShape :
      (n : Text) (e : Elem) {m m' : Attributes}
      → SameShape m' m
      → SameShape (modify n (with_elem e) m') m
  with_elem-SameShape n e {m' = m'} s = record {
    flags = λ k. rw find-modify (flag-with_elem e (text_eq n k) (find k m') ∙ s.flags k);
  }

  -- A round, followed at one key.
  pub find-visit :
      (m m' : Attributes) (n : Text) (e : Elem) (k : Text)
      → SameShape m' m
      → find k (visit lower_camel n e m') ≡ alter (revised m n e k) (find k m')
  unfolding visit rewrite_descriptions
  find-visit m m' n e k s =
      let s' = with_elem-SameShape n e s in
      rw (write_only_version_base-same s' n, write_only_base-same s' n)
        (find-rewrite_by m _ (write_only_version_base n m) (write_only_base n m) n k s'
          ∙ rw find-modify (revised_by-of_parts (revise m n k) (text_eq n k) e (find k m')))

  flag-revised :
      (m : Attributes) (n : Text) (e : Elem) (k : Text) (o : Option Schema)
      → flag (alter (revised m n e k) o) ≡ flag o
  flag-revised m n e k none = refl
  flag-revised m n e k (some (schema d s e')) = refl

  pub visit-SameShape :
      (n : Text) (e : Elem) {m m' : Attributes}
      → SameShape m' m
      → SameShape (visit lower_camel n e m') m
  visit-SameShape n e {m} {m'} s = record {
    flags = λ k. rw (find-visit m m' n e k s) (flag-revised m n e k (find k m') ∙ s.flags k);
  }
