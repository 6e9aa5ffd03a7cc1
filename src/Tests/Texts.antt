-- ===== src/Tests/Texts.antt =====
-- config/write_only.go at a small schema: a password, its write-only form and their counter.
use provider_upjet_unifi.Base.{◌≡◌, ◌↔◌, refl, true, false, some, ◌++◌, arith}
use provider_upjet_unifi.Text.{
  Text, text, text_eq, has_prefix, contains, cut_suffix, cut_before, split_after, join, trim_space,
  trim_left, trim_right, is_space,
}
use provider_upjet_unifi.Text.Equality.{text_eq_iff}
use provider_upjet_unifi.Config.WriteOnly.{
  Schema, schema, other, Attributes, nil, cons, find, modify, has, is_empty, quoted,
  write_only_suffix, describe_write_only, write_only_base, write_only_version_base,
  without_sentences_naming, describe_elem, describe_loop, visit, rewrite_by, rewrite_descriptions,
  kept_sentences,
}
use provider_upjet_unifi.Config.WriteOnly.Bases.{write_only_base_iff}
use provider_upjet_unifi.Config.WriteOnly.Sentences.{contains-without_sentences_naming}
use provider_upjet_unifi.Config.WriteOnly.Loop.{alter}
use provider_upjet_unifi.Config.WriteOnly.Describe.{described}
use provider_upjet_unifi.Config.WriteOnly.Order.{
  find-describe_write_only, describe_write_only-order, SameEntries,
}

abbrev identity : Text → Text
identity s = s

abbrev plain : Text → Schema
plain d = schema d false other

abbrev secret : Text → Schema
secret d = schema d true other

abbrev k₀ : Text
k₀ = text "k"

abbrev about : Text
about = text "Key. Use `k_wo` instead."

abbrev small : Attributes
small =
    cons k₀ (secret about)
      (cons (text "k_wo") (plain (text "W")) (cons (text "k_wo_version") (plain (text "V")) nil))

-- The same entries, in another order.
abbrev turned : Attributes
turned =
    cons (text "k_wo") (plain (text "W"))
      (cons k₀ (secret about) (cons (text "k_wo_version") (plain (text "V")) nil))

base_found : write_only_base (text "k_wo") small ≡ some k₀
unfolding write_only_base cut_suffix text_eq find
base_found = refl

find-describe_write_only_example :
    find k₀ (describe_write_only identity small)
    ≡ alter (described identity small k₀) (find k₀ small)
unfolding write_only_base write_only_version_base cut_suffix text_eq find
find-describe_write_only_example =
    find-describe_write_only identity small (refl, (refl, (refl, tt))) refl k₀

contains-without_sentences_naming_example :
    contains (without_sentences_naming about (text "k_wo")) (quoted (text "k_wo")) ≡ false
contains-without_sentences_naming_example =
    contains-without_sentences_naming about (text "k_wo") refl

-- The order in which the map is visited does not matter here.
described_run : find k₀ (describe_write_only identity small) ≡ some (secret (text "Key."))
unfolding describe_write_only describe_loop describe_elem visit rewrite_descriptions rewrite_by
    write_only_base write_only_version_base cut_suffix text_eq find without_sentences_naming
    kept_sentences contains has_prefix split_after join trim_space trim_left trim_right is_space
    modify cut_before
described_run = refl

find-swap :
    (n n' : Text) (a a' : Schema) (rest : Attributes) (k : Text)
    → text_eq n n' ≡ false
    → find k (cons n a (cons n' a' rest)) ≡ find k (cons n' a' (cons n a rest))
unfolding find
find-swap n n' a a' rest k e = ground (arith, text_eq_iff n k, text_eq_iff n' k, text_eq_iff n n')

turned_same : SameEntries small turned
unfolding text_eq
turned_same k = find-swap k₀ (text "k_wo") _ _ _ k refl

describe_write_only-order_example :
    SameEntries (describe_write_only identity small) (describe_write_only identity turned)
unfolding write_only_base write_only_version_base cut_suffix text_eq find
describe_write_only-order_example =
    describe_write_only-order identity small turned (refl, (refl, (refl, tt)))
      (refl, (refl, (refl, tt))) refl refl turned_same

write_only_base_iff_example :
    (write_only_base (text "k_wo") small ≡ some k₀)
    ↔ ((text "k_wo" ≡ k₀ ++ write_only_suffix) × (is_empty k₀ ≡ false) × (has k₀ small ≡ true))
write_only_base_iff_example = write_only_base_iff (text "k_wo") k₀ small
