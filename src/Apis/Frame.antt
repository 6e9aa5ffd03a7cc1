-- ===== src/Apis/Frame.antt =====
-- What ResolveReferences leaves as it was.
use text.Mathlib.Text.{◌==◌}
use provider_upjet_unifi.Base.{
  ◌≡◌, refl, ◌∙◌, ap, String, none, List, [], ◌∷◌, inl, inr, Bool-cases, Option-cases,
}
use provider_upjet_unifi.Apis.{
  Types, Single, Many, Node, single, many, plain, absent, present, slice, Struct, end, field, Slice,
  nil, item, To, Step, resolves, resolves_multiple, within, each, Answer, failed, answered,
  Response, MultiResponse, Resolver, Ran, resolve_node, resolve_multiple_node, on_field, in_pointer,
  on_items, in_slice, run_step, run_steps, Spec, resolve_references, write_single, write_many,
}

-- The struct with the values and the references of its reference fields blanked.
mutual
  pub blank_node : {T : Types} → Node T → Node T
  blank_node (single x) = single (record { value = none; reference = none; selector = x.selector })
  blank_node (many x) = many (record { values = []; references = []; selector = x.selector })
  blank_node (plain v) = plain v
  blank_node absent = absent
  blank_node (present s) = present (blank s)
  blank_node (slice items) = slice (blank_items items)

  pub blank : {T : Types} → Struct T → Struct T
  blank end = end
  blank (field name node rest) = field name (blank_node node) (blank rest)

  pub blank_items : {T : Types} → Slice T → Slice T
  blank_items nil = nil
  blank_items (item s rest) = item (blank s) (blank_items rest)

module _ {T : Types} where
  open T use {World, Failure}

  -- The operation changes values and references only, whether it fails or not.
  abbrev Keeps : (Struct T → World → Ran T (Struct T)) → Type 0
  Keeps f = (s : Struct T) (w : World) → blank (f s w).after ≡ blank s

  abbrev KeepsNode : (Node T → World → Ran T (Node T)) → Type 0
  KeepsNode f = (x : Node T) (w : World) → blank_node (f x w).after ≡ blank_node x

  on_field-Keeps :
      (name : String) (f : Node T → World → Ran T (Node T)) → KeepsNode f → Keeps (on_field name f)
  unfolding on_field blank
  on_field-Keeps name f h end w = refl
  on_field-Keeps name f h (field n node rest) w = elim (Bool-cases (n == name)) [
    | inl e ↦ rw e (ap (λ x. field n x (blank rest)) (h node w))
    | inr e ↦ rw e (ap (field n (blank_node node)) (on_field-Keeps name f h rest w))
  ]

  in_pointer-Keeps : (f : Struct T → World → Ran T (Struct T)) → Keeps f → KeepsNode (in_pointer f)
  unfolding in_pointer blank_node
  in_pointer-Keeps f h (single x) w = refl
  in_pointer-Keeps f h (many x) w = refl
  in_pointer-Keeps f h (plain v) w = refl
  in_pointer-Keeps f h absent w = refl
  in_pointer-Keeps f h (present s) w = ap present (h s w)
  in_pointer-Keeps f h (slice items) w = refl

  on_items-Keeps :
      (f : Struct T → World → Ran T (Struct T)) (h : Keeps f) (items : Slice T) (w : World)
      → blank_items (on_items f items w).after ≡ blank_items items
  unfolding on_items blank_items
  on_items-Keeps f h nil w = refl
  on_items-Keeps f h (item s rest) w = elim (Option-cases (f s w).failure) [
    | inl e ↦ rw e (cc (h s w, on_items-Keeps f h rest (f s w).world))
    | inr (x, e) ↦ rw e (ap (λ s'. item s' (blank_items rest)) (h s w))
  ]

  in_slice-Keeps : (f : Struct T → World → Ran T (Struct T)) → Keeps f → KeepsNode (in_slice f)
  unfolding in_slice blank_node
  in_slice-Keeps f h (single x) w = refl
  in_slice-Keeps f h (many x) w = refl
  in_slice-Keeps f h (plain v) w = refl
  in_slice-Keeps f h absent w = refl
  in_slice-Keeps f h (present s) w = refl
  in_slice-Keeps f h (slice items) w = ap slice (on_items-Keeps f h items w)

  write_single-Keeps :
      (r : Resolver T) (namespace path : String) (x : Single T)
      (a : Answer Failure (Response T) × World)
      → blank_node (write_single r namespace path x a).after ≡ blank_node (single x)
  unfolding blank_node
  write_single-Keeps r namespace path x (failed e, w) = refl
  write_single-Keeps r namespace path x (answered rsp, w) = refl

  write_many-Keeps :
      (r : Resolver T) (namespace path : String) (x : Many T)
      (a : Answer Failure (MultiResponse T) × World)
      → blank_node (write_many r namespace path x a).after ≡ blank_node (many x)
  unfolding blank_node
  write_many-Keeps r namespace path x (failed e, w) = refl
  write_many-Keeps r namespace path x (answered rsp, w) = refl

  module _ (r : Resolver T) (namespace : String) where
    resolve_node-Keeps : (path : String) (to : To) → KeepsNode (resolve_node r namespace path to)
    unfolding resolve_node
    resolve_node-Keeps path to (single x) w = write_single-Keeps r namespace path x _
    resolve_node-Keeps path to (many x) w = refl
    resolve_node-Keeps path to (plain v) w = refl
    resolve_node-Keeps path to absent w = refl
    resolve_node-Keeps path to (present s) w = refl
    resolve_node-Keeps path to (slice items) w = refl

    resolve_multiple_node-Keeps :
        (path : String) (to : To) → KeepsNode (resolve_multiple_node r namespace path to)
    unfolding resolve_multiple_node
    resolve_multiple_node-Keeps path to (single x) w = refl
    resolve_multiple_node-Keeps path to (many x) w = write_many-Keeps r namespace path x _
    resolve_multiple_node-Keeps path to (plain v) w = refl
    resolve_multiple_node-Keeps path to absent w = refl
    resolve_multiple_node-Keeps path to (present s) w = refl
    resolve_multiple_node-Keeps path to (slice items) w = refl

    run_step-Keeps : (step : Step) (path : String) → Keeps (run_step r namespace step path)
    unfolding run_step
    run_step-Keeps (resolves name to) path = on_field-Keeps name _ (resolve_node-Keeps _ to)
    run_step-Keeps (resolves_multiple name to) path =
        on_field-Keeps name _ (resolve_multiple_node-Keeps _ to)
    run_step-Keeps (within name step) path =
        on_field-Keeps name _ (in_pointer-Keeps _ (run_step-Keeps step _))
    run_step-Keeps (each name index step) path =
        on_field-Keeps name _ (in_slice-Keeps _ (run_step-Keeps step _))

    run_steps-Keeps : (steps : List Step) (path : String) → Keeps (run_steps r namespace steps path)
    unfolding run_steps
    run_steps-Keeps [] path s w = refl
    run_steps-Keeps (step ∷ rest) path s w =
        elim (Option-cases (run_step r namespace step path s w).failure) [
          | inl e ↦ rw e (run_steps-Keeps rest path _ _ ∙ run_step-Keeps step path s w)
          | inr (x, e) ↦ rw e (run_step-Keeps step path s w)
        ]

-- The selectors, and everything else that is not the value or the reference of a reference field.
abbrev pub untouched : {T : Types} → Spec T → Struct T × Struct T
untouched mg = (blank mg.for_provider, blank mg.init_provider)

-- ResolveReferences, whether it fails or not, changes nothing of a resource but the values and the
-- references of its reference fields: selectors, nil pointers and the lengths of slices stay.
pub resolve_references-untouched :
    {T : Types} (r : Resolver T) (namespace : String) (steps : List Step) (mg : Spec T)
    (w : T.World)
    → untouched (resolve_references r namespace steps mg w).after ≡ untouched mg
unfolding resolve_references
resolve_references-untouched r namespace steps mg w =
    let first = run_steps r namespace steps "mg.Spec.ForProvider" mg.for_provider w in
    let kept = run_steps-Keeps r namespace steps "mg.Spec.ForProvider" mg.for_provider w in
    elim (Option-cases first.failure) [
      | inl e ↦ rw e (
          cc (
            kept,
            run_steps-Keeps r namespace steps "mg.Spec.InitProvider" mg.init_provider first.world,
          ))
      | inr (x, e) ↦ rw e (cc kept)
    ]
