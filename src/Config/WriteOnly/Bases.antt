-- ===== src/Config/WriteOnly/Bases.antt =====
-- Which attributes writeOnlyBase and writeOnlyVersionBase recognise.
use provider_upjet_unifi.Base.{
  ◌≡◌, refl, ◌∙◌, ap, sym, ◌↔◌, true, false, Option, none, some, ◌++◌, arith, inl, inr, Bool-cases,
  Option-cases,
}
use provider_upjet_unifi.Text.{Text, cut_suffix}
use provider_upjet_unifi.Text.Equality.{cut_suffix-append, cut_suffix-eq-some, append-ne_of_ends}
use provider_upjet_unifi.Config.WriteOnly.{
  Attributes, has, is_empty, write_only_suffix, write_only_version_suffix, write_only_base,
  write_only_version_base, sibling_base, sibling_version_base,
}

sibling_base-eq-some :
    (o : Option Text) (m : Attributes) (base : Text)
    → sibling_base o m ≡ some base
    → (o ≡ some base) × (is_empty base ≡ false) × (has base m ≡ true)
sibling_base-eq-some none m base h = cc
sibling_base-eq-some (some b) m base h = elim (Bool-cases (is_empty b)) [
  | inl e ↦ cc (rw e at h)
  | inr e ↦ elim (Bool-cases (has b m)) [
    | inl f ↦
        let same : b ≡ base = cc (rw (e, f) at h) in (ap some same, rw (← same) e, rw (← same) f)
    | inr f ↦ cc (rw (e, f) at h)
  ]
]

sibling_version_base-eq-some :
    (o : Option Text) (m : Attributes) (base : Text)
    → sibling_version_base o m ≡ some base
    → (o ≡ some base)
      × (is_empty base ≡ false)
      × (has (base ++ write_only_suffix) m ≡ true)
      × (has base m ≡ true)
sibling_version_base-eq-some none m base h = cc
sibling_version_base-eq-some (some b) m base h = elim (Bool-cases (is_empty b)) [
  | inl e ↦ cc (rw e at h)
  | inr e ↦ elim (Bool-cases (has (b ++ write_only_suffix) m)) [
    | inr f ↦ cc (rw (e, f) at h)
    | inl f ↦ elim (Bool-cases (has b m)) [
      | inr g ↦ cc (rw (e, f, g) at h)
      | inl g ↦
          let same : b ≡ base = cc (rw (e, f, g) at h) in
          (ap some same, rw (← same) e, rw (← same) f, rw (← same) g)
    ]
  ]
]

-- writeOnlyBase returns `base` for exactly one name, `base` with `_wo` behind it, and that
-- exactly when `base` is not empty and is itself an attribute.
pub write_only_base_iff :
    (name base : Text) (m : Attributes)
    → (write_only_base name m ≡ some base)
      ↔ ((name ≡ base ++ write_only_suffix) × (is_empty base ≡ false) × (has base m ≡ true))
unfolding write_only_base
write_only_base_iff name base m = (
  λ h.
      let (o, e, f) = sibling_base-eq-some (cut_suffix name write_only_suffix) m base h in
      (cut_suffix-eq-some name write_only_suffix base o, e, f),
  λ (n, e, f). rw (n, cut_suffix-append, e, f),
)

-- writeOnlyVersionBase returns `base` exactly for `base` with `_wo_version` behind it, when
-- `base` is not empty and both `base` and its write-only form are attributes.
write_only_version_base_iff :
    (name base : Text) (m : Attributes)
    → (write_only_version_base name m ≡ some base) ↔ (
        (name ≡ base ++ write_only_version_suffix)
        × (is_empty base ≡ false)
        × (has (base ++ write_only_suffix) m ≡ true)
        × (has base m ≡ true))
unfolding write_only_version_base
write_only_version_base_iff name base m = (
  λ h.
      let (o, e, f, g) =
        sibling_version_base-eq-some (cut_suffix name write_only_version_suffix) m base h in
      (cut_suffix-eq-some name write_only_version_suffix base o, e, f, g),
  λ (n, e, f, g). rw (n, cut_suffix-append, e, f, g),
)

-- No attribute is at once a write-only attribute and a version counter.
pub not-version_base_of_base :
    (name base : Text) (m : Attributes)
    → write_only_base name m ≡ some base
    → write_only_version_base name m ≡ none
not-version_base_of_base name base m h = elim (Option-cases (write_only_version_base name m)) [
  | inl e ↦ e
  | inr (b, e) ↦
      let n = (write_only_base_iff name base m).0 h in
      let v = (write_only_version_base_iff name b m).0 e in
      absurd (
        append-ne_of_ends b'o' b'n' base write_only_suffix b write_only_version_suffix refl refl
          (omega arith) (sym n.0 ∙ v.0))
]
