-- ===== src/Text/Contains.antt =====
-- When a text that is put together or cut does not contain another.
use provider_upjet_unifi.Base.{
  ℕ, ◌≡◌, refl, ◌⊎◌, inl, inr, Bool, true, false, [], ◌∷◌, ◌++◌, ◌&&◌, ◌==◌, arith, ==_iff,
  if◌then◌else◌,
}
use provider_upjet_unifi.Text.{
  Text, has_prefix, contains, is_space, trim_left, trim_right, snoc_trim, trim_space,
}

-- No character of the text is `c`.
abbrev pub lacks : ℕ → Text → Bool
lacks c [] = true
lacks c (d ∷ s) = (if c == d then false else true) && lacks c s

-- The text is not empty and its last character is `c`.
abbrev pub ends_with : ℕ → Text → Bool
ends_with c [] = false
ends_with c (d ∷ []) = d == c
ends_with c (d ∷ e ∷ s) = ends_with c (e ∷ s)

has_prefix-append_boundary :
    (c : ℕ) (x y q : Text)
    → ends_with c x ≡ true
    → lacks c q ≡ true
    → has_prefix (x ++ y) q ≡ true
    → has_prefix x q ≡ true
unfolding has_prefix
has_prefix-append_boundary c [] y q e l h = cc
has_prefix-append_boundary c (d ∷ x) y [] e l h = refl
has_prefix-append_boundary c (d ∷ []) y (p ∷ q) e l h = ground (arith, ==_iff d c, ==_iff d p)
has_prefix-append_boundary c (d ∷ d' ∷ x) y (p ∷ q) e l h =
    ground (arith, has_prefix-append_boundary c (d' ∷ x) y q e)

has_prefix-lacks :
    (c : ℕ) (y q : Text) → lacks c y ≡ true → ends_with c q ≡ true → has_prefix y q ≡ false
unfolding has_prefix
has_prefix-lacks c y [] l e = cc
has_prefix-lacks c [] (p ∷ q) l e = refl
has_prefix-lacks c (d ∷ y) (p ∷ []) l e = ground (arith, ==_iff p c)
has_prefix-lacks c (d ∷ y) (p ∷ p' ∷ q) l e = ground (arith, has_prefix-lacks c y (p' ∷ q))

has_prefix-append_lacks :
    (c : ℕ) (x y q : Text)
    → lacks c y ≡ true
    → ends_with c q ≡ true
    → has_prefix (x ++ y) q ≡ true
    → has_prefix x q ≡ true
unfolding has_prefix
has_prefix-append_lacks c [] y q l e h = cc (has_prefix-lacks c y q l e)
has_prefix-append_lacks c (d ∷ x) y [] l e h = refl
has_prefix-append_lacks c (d ∷ x) y (p ∷ []) l e h = ground arith
has_prefix-append_lacks c (d ∷ x) y (p ∷ p' ∷ q) l e h =
    ground (arith, has_prefix-append_lacks c x y (p' ∷ q) l)

-- Where the left part ends in a character that the text sought lacks, no occurrence spans the two.
pub contains-append_boundary :
    (c : ℕ) (x y q : Text)
    → ends_with c x ≡ true
    → lacks c q ≡ true
    → contains x q ≡ false
    → contains y q ≡ false
    → contains (x ++ y) q ≡ false
unfolding contains
contains-append_boundary c [] y q e l hx hy = cc
contains-append_boundary c (d ∷ []) y q e l hx hy =
    ground (arith, has_prefix-append_boundary c (d ∷ []) y q)
contains-append_boundary c (d ∷ d' ∷ x) y q e l hx hy = ground (
  arith,
  contains-append_boundary c (d' ∷ x) y q e l,
  has_prefix-append_boundary c (d ∷ d' ∷ x) y q,
)

pub contains-lacks :
    (c : ℕ) (y q : Text) → lacks c y ≡ true → ends_with c q ≡ true → contains y q ≡ false
unfolding contains
contains-lacks c [] q l e = has_prefix-lacks c [] q refl e
contains-lacks c (d ∷ y) q l e = ground (arith, contains-lacks c y q, has_prefix-lacks c (d ∷ y) q)

-- A tail that lacks the last character of the text sought adds no occurrence.
pub contains-append_lacks :
    (c : ℕ) (x y q : Text)
    → lacks c y ≡ true
    → ends_with c q ≡ true
    → contains x q ≡ false
    → contains (x ++ y) q ≡ false
unfolding contains
contains-append_lacks c [] y q l e h = contains-lacks c y q l e
contains-append_lacks c (d ∷ x) y q l e h =
    ground (arith, contains-append_lacks c x y q l e, has_prefix-append_lacks c (d ∷ x) y q l e)

contains-trim_left : (s q : Text) → contains s q ≡ false → contains (trim_left s) q ≡ false
unfolding contains trim_left
contains-trim_left [] q h = h
contains-trim_left (c ∷ s) q h = ground (arith, contains-trim_left s q)

snoc_trim-cases : (b : Bool) (c : ℕ) (s : Text) → (snoc_trim b c s ≡ []) ⊎ (snoc_trim b c s ≡ c ∷ s)
snoc_trim-cases true c [] = inl refl
snoc_trim-cases true c (d ∷ s) = inr refl
snoc_trim-cases false c s = inr refl

has_prefix-trim_right : (s q : Text) → has_prefix (trim_right s) q ≡ true → has_prefix s q ≡ true
unfolding has_prefix trim_right
has_prefix-trim_right [] q h = h
has_prefix-trim_right (c ∷ s) [] h = refl
has_prefix-trim_right (c ∷ s) (p ∷ q) h =
    ground (arith, snoc_trim-cases (is_space c) c (trim_right s), has_prefix-trim_right s q)

contains-nil : (s : Text) → contains s [] ≡ true
unfolding contains has_prefix
contains-nil [] = refl
contains-nil (c ∷ s) = refl

contains-trim_right : (s q : Text) → contains s q ≡ false → contains (trim_right s) q ≡ false
unfolding contains trim_right
contains-trim_right [] q h = h
contains-trim_right (c ∷ s) [] h = cc (contains-nil (c ∷ s))
contains-trim_right (c ∷ s) (p ∷ q) h = ground (
  arith,
  snoc_trim-cases (is_space c) c (trim_right s),
  contains-trim_right s (p ∷ q),
  has_prefix-trim_right (c ∷ s) (p ∷ q),
)

-- What is trimmed holds no occurrence that was not there before.
pub contains-trim_space : (s q : Text) → contains s q ≡ false → contains (trim_space s) q ≡ false
unfolding trim_space
contains-trim_space s q h = contains-trim_right (trim_left s) q (contains-trim_left s q h)
