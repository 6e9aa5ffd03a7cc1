-- ===== src/Config/WriteOnly.antt =====
-- config/write_only.go: the descriptions of write-only attributes. The loops over Go maps visit
-- the entries in the order of the association lists; `lower_camel` stands for upjet's
-- name.NewFromSnake(s).LowerCamelComputed.
use provider_upjet_unifi.Base.{
  Bool, true, false, Option, none, some, List, [], ◌∷◌, ◌++◌, if◌then◌else◌,
}
use provider_upjet_unifi.Text.{
  Text, text, text_eq, contains, cut_suffix, cut_before, split_after, join, trim_space,
}
pub mod Bases
pub mod Loop
pub mod Describe
pub mod Order
pub mod Sentences

abbrev pub write_only_suffix : Text
write_only_suffix = text "_wo"

abbrev pub write_only_version_suffix : Text
write_only_version_suffix = write_only_suffix ++ text "_version"

abbrev pub secret_ref_suffix : Text
secret_ref_suffix = text "SecretRef"

abbrev pub write_only_minimum_engine : Text
write_only_minimum_engine = text "1.11"

-- The part of schema.Schema that the code reads or writes. `Elem` is a nested resource or
-- anything else.
mutual
  pub data Schema : Type 0 where
    schema : Text → Bool → Elem → Schema

  pub data Elem : Type 0 where
    other : Elem
    resource : Attributes → Elem

  pub data Attributes : Type 0 where
    nil : Attributes
    cons : Text → Schema → Attributes → Attributes

abbrev pub sensitive : Schema → Bool
sensitive (schema d s e) = s

-- attributes[name], and its comma-ok form.
unfoldable pub find : Text → Attributes → Option Schema
find k nil = none
find k (cons n a rest) = if text_eq n k then some a else find k rest

abbrev pub is_some {ℓ} : {A : Type ℓ} → Option A → Bool
is_some none = false
is_some (some a) = true

abbrev pub has : Text → Attributes → Bool
has k m = is_some (find k m)

-- A write through the pointer that the map holds at a key.
unfoldable pub modify : Text → (Schema → Schema) → Attributes → Attributes
modify k f nil = nil
modify k f (cons n a rest) = if text_eq n k then cons n (f a) rest else cons n a (modify k f rest)

abbrev pub is_empty : Text → Bool
is_empty [] = true
is_empty (c ∷ s) = false

abbrev sibling_base : Option Text → Attributes → Option Text
sibling_base none siblings = none
sibling_base (some base) siblings =
    if is_empty base then none else if has base siblings then some base else none

unfoldable pub write_only_base : Text → Attributes → Option Text
write_only_base name siblings = sibling_base (cut_suffix name write_only_suffix) siblings

abbrev sibling_version_base : Option Text → Attributes → Option Text
sibling_version_base none siblings = none
sibling_version_base (some base) siblings =
    if is_empty base
    then none
    else if has (base ++ write_only_suffix) siblings
    then (if has base siblings then some base else none)
    else none

unfoldable pub write_only_version_base : Text → Attributes → Option Text
write_only_version_base name siblings =
    sibling_version_base (cut_suffix name write_only_version_suffix) siblings

unfoldable pub write_only_description : Text → Text → Text
write_only_description base field =
    text "Write-only equivalent of `"
    ++ (base
        ++ (text "`. "
            ++ (text "Write-only attributes need engine version "
                ++ (write_only_minimum_engine
                    ++ (text " or later. "
                        ++ (text
                              "This provider cannot set them: the engine it bundles predates that version "
                            ++ (text
                                  "and rejects any value, so setting this field fails validation. "
                                ++ (text "Set `" ++ (field ++ text "` instead.")))))))))

unfoldable pub write_only_version_description : Text → Text → Text
write_only_version_description base field =
    text "Version counter for `"
    ++ (base
        ++ (write_only_suffix
            ++ (text "`, which this provider cannot set, "
                ++ (text "so changing this field has no effect. "
                    ++ (text "Set `" ++ (field ++ text "` instead."))))))

abbrev pub quoted : Text → Text
quoted attribute_name = text "`" ++ (attribute_name ++ text "`")

-- What the loop appends for a sentence that names the attribute: the clause before an em dash.
abbrev kept_clause : Text → Option Text → List Text
kept_clause q none = []
kept_clause q (some clause) =
    if contains clause q then [] else (trim_space clause ++ text ". ") ∷ []

unfoldable pub kept_sentences : Text → List Text → List Text
kept_sentences q [] = []
kept_sentences q (sentence ∷ sentences) =
    let rest = kept_sentences q sentences in
    if contains sentence q
    then kept_clause q (cut_before sentence (text " — ")) ++ rest
    else sentence ∷ rest

unfoldable pub without_sentences_naming : Text → Text → Text
unfolding kept_sentences
without_sentences_naming description attribute_name =
    let q = quoted attribute_name in
    if contains description q
    then trim_space (join (kept_sentences q (split_after b'.' b' ' description)))
    else description

module _ (lower_camel : Text → Text) where
  unfoldable pub api_field_name : Text → Schema → Text
  api_field_name attribute_name attribute =
      if sensitive attribute
      then lower_camel attribute_name ++ secret_ref_suffix
      else lower_camel attribute_name

  -- apiFieldName(base, attributes[base]); `base` is a key wherever this is called.
  abbrev pub field_at : Text → Option Schema → Text
  field_at base none = lower_camel base
  field_at base (some attribute) = api_field_name base attribute

abbrev pub with_description : Text → Schema → Schema
with_description d' (schema d s e) = schema d' s e

abbrev pub without_naming : Text → Schema → Schema
without_naming name (schema d s e) = schema (without_sentences_naming d name) s e

abbrev pub with_elem : Elem → Schema → Schema
with_elem e' (schema d s e) = schema d s e'

module _ (lower_camel : Text → Text) where
  -- What a round writes, given what writeOnlyVersionBase and writeOnlyBase return for its name.
  unfoldable pub rewrite_by : Option Text → Option Text → Text → Attributes → Attributes
  rewrite_by (some base) write_only name m =
      modify name
        (with_description
          (write_only_version_description base (field_at lower_camel base (find base m))))
        m
  rewrite_by none none name m = m
  rewrite_by none (some base) name m = modify base (without_naming name) (
      modify name
        (with_description (write_only_description base (field_at lower_camel base (find base m))))
        m)

  -- The rest of a round of the loop, after the call on the nested schema.
  unfoldable pub rewrite_descriptions : Text → Attributes → Attributes
  unfolding rewrite_by
  rewrite_descriptions name m =
      rewrite_by (write_only_version_base name m) (write_only_base name m) name m

  -- A round of the loop: `e` is the attribute's Elem after the call on its nested schema.
  unfoldable pub visit : Text → Elem → Attributes → Attributes
  visit name e m = rewrite_descriptions name (modify name (with_elem e) m)

  unfoldable mutual
    pub describe_elem : Elem → Elem
    describe_elem other = other
    describe_elem (resource m) = resource (describe_loop m m)

    -- The entries still to visit, and the map as the rounds before left it.
    pub describe_loop : Attributes → Attributes → Attributes
    describe_loop nil m = m
    describe_loop (cons name (schema d s e) rest) m =
        describe_loop rest (visit name (describe_elem e) m)

  unfoldable pub describe_write_only : Attributes → Attributes
  describe_write_only m = describe_loop m m

  -- WriteOnlyDescriptions, on the schema of r.TerraformResource, `none` for a nil resource.
  unfoldable pub write_only_descriptions : Option Attributes → Option Attributes
  write_only_descriptions none = none
  write_only_descriptions (some m) = some (describe_write_only m)
