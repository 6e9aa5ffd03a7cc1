-- ===== src/Text/Split.antt =====
-- strings.SplitAfter loses nothing, and each piece but the last ends in the separator.
use provider_upjet_unifi.Base.{
  ℕ, ◌≡◌, refl, true, List, [], ◌∷◌, ◌==◌, ◌&&◌, arith, Bool-cases, inl, inr, ap, ◌∙◌,
}
use provider_upjet_unifi.Text.{Text, split_after, onto_first, join}
use provider_upjet_unifi.Text.Contains.{ends_with}

-- Every piece but the last ends in `c`.
abbrev pub AllButLastEnd : ℕ → List Text → Type 0
AllButLastEnd c [] = Unit
AllButLastEnd c (p ∷ []) = Unit
AllButLastEnd c (p ∷ p' ∷ ps) = (ends_with c p ≡ true) × AllButLastEnd c (p' ∷ ps)

join-onto_first : (c : ℕ) (ps : List Text) → join (onto_first c ps) ≡ c ∷ join ps
unfolding join
join-onto_first c [] = refl
join-onto_first c (p ∷ ps) = refl

pub join-split_after : (a b : ℕ) (s : Text) → join (split_after a b s) ≡ s
unfolding split_after join
join-split_after a b [] = refl
join-split_after a b (c ∷ []) = refl
join-split_after a b (c ∷ d ∷ s) = elim (Bool-cases ((c == a) && (d == b))) [
  | inl found ↦ rw found (ap (λ t. c ∷ d ∷ t) (join-split_after a b s))
  | inr onward ↦ rw onward (join-onto_first c _ ∙ ap (λ t. c ∷ t) (join-split_after a b (d ∷ s)))
]

-- The first piece is not empty, unless it is the only one.
abbrev FirstHolds : List Text → Type 0
FirstHolds [] = Unit
FirstHolds (p ∷ []) = Unit
FirstHolds ([] ∷ p' ∷ ps) = ⊥
FirstHolds ((c ∷ p) ∷ p' ∷ ps) = Unit

FirstHolds-onto_first : (c : ℕ) (ps : List Text) → FirstHolds (onto_first c ps)
FirstHolds-onto_first c [] = tt
FirstHolds-onto_first c (p ∷ []) = tt
FirstHolds-onto_first c (p ∷ p' ∷ ps) = tt

AllButLastEnd-onto_first :
    (b c : ℕ) (ps : List Text)
    → FirstHolds ps
    → AllButLastEnd b ps
    → AllButLastEnd b (onto_first c ps)
AllButLastEnd-onto_first b c [] f h = tt
AllButLastEnd-onto_first b c (p ∷ []) f h = tt
AllButLastEnd-onto_first b c ([] ∷ p' ∷ ps) f h = absurd f
AllButLastEnd-onto_first b c ((d ∷ p) ∷ p' ∷ ps) f h = h

AllButLastEnd-cons :
    (b : ℕ) (p : Text) (ps : List Text)
    → ends_with b p ≡ true
    → AllButLastEnd b ps
    → AllButLastEnd b (p ∷ ps)
AllButLastEnd-cons b p [] e h = tt
AllButLastEnd-cons b p (p' ∷ ps) e h = (e, h)

FirstHolds-cons : (c : ℕ) (p : Text) (ps : List Text) → FirstHolds ((c ∷ p) ∷ ps)
FirstHolds-cons c p [] = tt
FirstHolds-cons c p (p' ∷ ps) = tt

split_after-ends_and_holds :
    (a b : ℕ) (s : Text) → AllButLastEnd b (split_after a b s) × FirstHolds (split_after a b s)
unfolding split_after
split_after-ends_and_holds a b [] = (tt, tt)
split_after-ends_and_holds a b (c ∷ []) = (tt, tt)
split_after-ends_and_holds a b (c ∷ d ∷ s) = elim (Bool-cases ((c == a) && (d == b))) [
  | inl found ↦ rw found (
    AllButLastEnd-cons b (c ∷ d ∷ []) _ (ground arith) (split_after-ends_and_holds a b s).0,
    FirstHolds-cons c (d ∷ []) _,
  )
  | inr onward ↦
      let (e, f) = split_after-ends_and_holds a b (d ∷ s) in
      rw onward (AllButLastEnd-onto_first b c _ f e, FirstHolds-onto_first c _)
]

pub split_after-AllButLastEnd : (a b : ℕ) (s : Text) → AllButLastEnd b (split_after a b s)
split_after-AllButLastEnd a b s = (split_after-ends_and_holds a b s).0
