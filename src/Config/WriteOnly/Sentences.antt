-- ===== src/Config/WriteOnly/Sentences.antt =====
-- What withoutSentencesNaming leaves of a description.
use provider_upjet_unifi.Base.{
  ◌≡◌, refl, true, false, Option, none, some, List, [], ◌∷◌, ◌++◌, arith, Bool-cases, inl, inr,
}
use provider_upjet_unifi.Text.{Text, text, contains, cut_before, split_after, join, trim_space}
use provider_upjet_unifi.Text.Contains.{
  lacks, ends_with, contains-lacks, contains-append_boundary, contains-append_lacks,
  contains-trim_space,
}
use provider_upjet_unifi.Text.Split.{AllButLastEnd, split_after-AllButLastEnd}
use provider_upjet_unifi.Config.WriteOnly.{
  quoted, kept_clause, kept_sentences, without_sentences_naming,
}

ends_with-snoc : (s : Text) → ends_with b'`' (s ++ text "`") ≡ true
ends_with-snoc [] = refl
ends_with-snoc (c ∷ []) = refl
ends_with-snoc (c ∷ d ∷ s) = ends_with-snoc (d ∷ s)

lacks-snoc : (s : Text) → lacks b' ' s ≡ true → lacks b' ' (s ++ text "`") ≡ true
lacks-snoc [] h = refl
lacks-snoc (c ∷ s) h = ground (arith, lacks-snoc s)

module _ (q : Text) (spaceless : lacks b' ' q ≡ true) (closed : ends_with b'`' q ≡ true) where
  contains-join_cons :
      (p : Text) (ps : List Text)
      → ends_with b' ' p ≡ true
      → contains p q ≡ false
      → contains (join ps) q ≡ false
      → contains (join (p ∷ ps)) q ≡ false
  unfolding join
  contains-join_cons p ps e h r = contains-append_boundary b' ' p (join ps) q e spaceless h r

  ends_with-full_stop : (s : Text) → ends_with b' ' (s ++ text ". ") ≡ true
  ends_with-full_stop [] = refl
  ends_with-full_stop (c ∷ []) = refl
  ends_with-full_stop (c ∷ d ∷ s) = ends_with-full_stop (d ∷ s)

  contains-kept_clause :
      (o : Option Text) (rest : List Text)
      → contains (join rest) q ≡ false
      → contains (join (kept_clause q o ++ rest)) q ≡ false
  contains-kept_clause none rest r = r
  contains-kept_clause (some clause) rest r = elim (Bool-cases (contains clause q)) [
    | inl named ↦ rw named r
    | inr clean ↦ rw clean (
        contains-join_cons (trim_space clause ++ text ". ") rest
          (ends_with-full_stop (trim_space clause))
          (contains-append_lacks b'`' (trim_space clause) (text ". ") q refl closed
            (contains-trim_space clause q clean))
          r)
  ]

  contains-kept_sentences :
      (ps : List Text) → AllButLastEnd b' ' ps → contains (join (kept_sentences q ps)) q ≡ false
  unfolding kept_sentences
  contains-kept_sentences [] h = unfold join in contains-lacks b'`' [] q refl closed
  contains-kept_sentences (p ∷ []) h = elim (Bool-cases (contains p q)) [
    | inl named ↦
        rw named
          (contains-kept_clause (cut_before p (text " — ")) [] (contains-kept_sentences [] tt))
    | inr clean ↦ rw clean (unfold join in contains-append_lacks b'`' p [] q refl closed clean)
  ]
  contains-kept_sentences (p ∷ p' ∷ ps) h = elim (Bool-cases (contains p q)) [
    | inl named ↦
        rw named (
          contains-kept_clause (cut_before p (text " — ")) _
            (contains-kept_sentences (p' ∷ ps) h.1))
    | inr clean ↦
        rw clean (contains-join_cons p _ h.0 clean (contains-kept_sentences (p' ∷ ps) h.1))
  ]

-- When the attribute's name holds no space, the description that is left never names it in
-- backticks.
pub contains-without_sentences_naming :
    (description attribute_name : Text)
    → lacks b' ' attribute_name ≡ true
    → contains (without_sentences_naming description attribute_name) (quoted attribute_name) ≡ false
unfolding without_sentences_naming
contains-without_sentences_naming d name h = elim (Bool-cases (contains d (quoted name))) [
  | inl named ↦ rw named (
      contains-trim_space _ (quoted name) (
        contains-kept_sentences (quoted name) (lacks-snoc name h) (ends_with-snoc (b'`' ∷ name))
          (split_after b'.' b' ' d) (split_after-AllButLastEnd b'.' b' ' d)))
  | inr clean ↦ rw clean clean
]
