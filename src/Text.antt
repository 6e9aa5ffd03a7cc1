-- ===== src/Text.antt =====
-- The functions of Go's package strings that config/write_only.go calls. A text is the list of
-- its code points.
use Prim.Native.Char.{code}
use provider_upjet_unifi.Base.{
  ℕ, String, Bool, true, false, Option, none, some, List, [], ◌∷◌, ◌++◌, ◌&&◌, ◌||◌, ◌==◌, leb,
  if◌then◌else◌,
}
pub mod Contains
pub mod Equality
pub mod Split

abbrev pub Text : Type 0
Text = List ℕ

-- The text of a literal.
abbrev pub text : String → Text
text String.[] = []
text (String.◌∷◌ c s) = code c ∷ text s

unfoldable pub text_eq : Text → Text → Bool
text_eq [] [] = true
text_eq (c ∷ s) (d ∷ t) = (c == d) && text_eq s t
text_eq _ _ = false

unfoldable pub has_prefix : Text → Text → Bool
has_prefix s [] = true
has_prefix [] (d ∷ p) = false
has_prefix (c ∷ s) (d ∷ p) = (c == d) && has_prefix s p

unfoldable pub contains : Text → Text → Bool
contains [] q = has_prefix [] q
contains (c ∷ s) q = has_prefix (c ∷ s) q || contains s q

abbrev pub prepend : ℕ → Option Text → Option Text
prepend c none = none
prepend c (some t) = some (c ∷ t)

-- strings.CutSuffix, `none` for a text without the suffix.
unfoldable pub cut_suffix : Text → Text → Option Text
cut_suffix [] suffix = if text_eq [] suffix then some [] else none
cut_suffix (c ∷ s) suffix =
    if text_eq (c ∷ s) suffix then some [] else prepend c (cut_suffix s suffix)

-- The part of strings.Cut before the separator, `none` where it is not found.
unfoldable pub cut_before : Text → Text → Option Text
cut_before [] sep = if has_prefix [] sep then some [] else none
cut_before (c ∷ s) sep = if has_prefix (c ∷ s) sep then some [] else prepend c (cut_before s sep)

abbrev pub onto_first : ℕ → List Text → List Text
onto_first c [] = (c ∷ []) ∷ []
onto_first c (p ∷ ps) = (c ∷ p) ∷ ps

-- strings.SplitAfter at a separator of two characters.
unfoldable pub split_after : ℕ → ℕ → Text → List Text
split_after a b [] = [] ∷ []
split_after a b (c ∷ []) = (c ∷ []) ∷ []
split_after a b (c ∷ d ∷ s) =
    let found = split_after a b s in
    let onward = split_after a b (d ∷ s) in
    if (c == a) && (d == b) then (c ∷ d ∷ []) ∷ found else onto_first c onward

-- strings.Join with the empty separator.
unfoldable pub join : List Text → Text
join [] = []
join (p ∷ ps) = p ++ join ps

-- unicode.IsSpace
unfoldable pub is_space : ℕ → Bool
is_space c =
    (leb 9 c && leb c 13)
    || (c == 32)
    || (c == 0x85)
    || (c == 0xa0)
    || (c == 0x1680)
    || (leb 0x2000 c && leb c 0x200a)
    || (c == 0x2028)
    || (c == 0x2029)
    || (c == 0x202f)
    || (c == 0x205f)
    || (c == 0x3000)

unfoldable pub trim_left : Text → Text
trim_left [] = []
trim_left (c ∷ s) = let rest = trim_left s in if is_space c then rest else c ∷ s

abbrev pub snoc_trim : Bool → ℕ → Text → Text
snoc_trim true c [] = []
snoc_trim _ c s = c ∷ s

unfoldable pub trim_right : Text → Text
trim_right [] = []
trim_right (c ∷ s) = snoc_trim (is_space c) c (trim_right s)

-- strings.TrimSpace
unfoldable pub trim_space : Text → Text
unfolding is_space trim_left trim_right
trim_space s = trim_right (trim_left s)
