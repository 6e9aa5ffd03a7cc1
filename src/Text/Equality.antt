-- ===== src/Text/Equality.antt =====
-- Equality of texts, and what strings.CutSuffix finds.
use mathlib.Core.List.{append_cancel_right}
use provider_upjet_unifi.Base.{
  ℕ, ◌≡◌, ◌≢◌, refl, ◌↔◌, true, false, some, none, [], ◌∷◌, ◌++◌, arith, Bool-cases, Option, inl,
  inr, ap, ◌∙◌, sym,
}
use provider_upjet_unifi.Text.{Text, text_eq, cut_suffix, prepend}
use provider_upjet_unifi.Text.Contains.{ends_with}

pub text_eq_refl : (s : Text) → text_eq s s ≡ true
unfolding text_eq
text_eq_refl [] = refl
text_eq_refl (c ∷ s) = ground (arith, text_eq_refl s)

text_eq→≡ : (s t : Text) → text_eq s t ≡ true → s ≡ t
unfolding text_eq
text_eq→≡ [] [] h = refl
text_eq→≡ [] (d ∷ t) h = cc
text_eq→≡ (c ∷ s) [] h = cc
text_eq→≡ (c ∷ s) (d ∷ t) h = ground (arith, text_eq→≡ s t)

pub text_eq_iff : (s t : Text) → (text_eq s t ≡ true) ↔ (s ≡ t)
text_eq_iff s t = (text_eq→≡ s t, λ e. ap (text_eq s) (sym e) ∙ text_eq_refl s)

pub text_eq_ne : (s t : Text) → s ≢ t → text_eq s t ≡ false
text_eq_ne s t h = elim (Bool-cases (text_eq s t)) [
  | inl e ↦ absurd (h (text_eq→≡ s t e))
  | inr e ↦ e
]

pub ne_of_text_eq : (s t : Text) → text_eq s t ≡ false → s ≢ t
ne_of_text_eq s t h e = cc (text_eq_refl s)

-- A text is longer than its proper suffixes.
cons-append-ne : (c : ℕ) (s t : Text) → (c ∷ s) ++ t ≢ t
cons-append-ne c s t e = cc (append_cancel_right (c ∷ s) [] t e)

pub cut_suffix-append : (s suffix : Text) → cut_suffix (s ++ suffix) suffix ≡ some s
unfolding cut_suffix
cut_suffix-append [] [] = unfold text_eq in refl
cut_suffix-append [] (d ∷ t) = rw text_eq_refl
cut_suffix-append (c ∷ s) t =
    rw (text_eq_ne ((c ∷ s) ++ t) t (cons-append-ne c s t), cut_suffix-append s t)

cons-prepend-eq-some :
    (c : ℕ) (o : Option Text) (base : Text)
    → prepend c o ≡ some base
    → (b : Text) × (o ≡ some b) × (base ≡ c ∷ b)
cons-prepend-eq-some c none base h = cc
cons-prepend-eq-some c (some b) base h = (b, refl, cc)

pub cut_suffix-eq-some :
    (s suffix base : Text) → cut_suffix s suffix ≡ some base → s ≡ base ++ suffix
unfolding cut_suffix
cut_suffix-eq-some [] suffix base h = elim (Bool-cases (text_eq [] suffix)) [
  | inl e ↦ cc (text_eq→≡ [] suffix e, rw e at h)
  | inr e ↦ cc (rw e at h)
]
cut_suffix-eq-some (c ∷ s) suffix base h = elim (Bool-cases (text_eq (c ∷ s) suffix)) [
  | inl e ↦ cc (text_eq→≡ (c ∷ s) suffix e, rw e at h)
  | inr e ↦
      let (b, found, longer) = cons-prepend-eq-some c (cut_suffix s suffix) base (rw e at h) in
      cc (cut_suffix-eq-some s suffix b found, longer)
]

ends_with-append : (c : ℕ) (s t : Text) → ends_with c t ≡ true → ends_with c (s ++ t) ≡ true
ends_with-append c [] t h = h
ends_with-append c (d ∷ []) [] h = cc
ends_with-append c (d ∷ []) (e ∷ t) h = h
ends_with-append c (d ∷ d' ∷ s) t h = ends_with-append c (d' ∷ s) t h

ends_with_unique : (c d : ℕ) (s : Text) → ends_with c s ≡ true → ends_with d s ≡ true → c ≡ d
ends_with_unique c d [] h k = cc
ends_with_unique c d (e ∷ []) h k = ground arith
ends_with_unique c d (e ∷ e' ∷ s) h k = ends_with_unique c d (e' ∷ s) h k

-- Texts that end in different characters are different.
pub append-ne_of_ends :
    (c d : ℕ) (s t u v : Text)
    → ends_with c t ≡ true
    → ends_with d v ≡ true
    → c ≢ d
    → s ++ t ≢ u ++ v
append-ne_of_ends c d s t u v h k ne e =
    ne (ends_with_unique c d (s ++ t) (ends_with-append c s t h) (rw e (ends_with-append d u v k)))
