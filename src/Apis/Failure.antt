-- ===== src/Apis/Failure.antt =====
-- The errors of ResolveReferences.
use text.Mathlib.Text.{◌==◌}
use provider_upjet_unifi.Base.{
  ◌≡◌, refl, ap, none, ◌⊎◌, ◌∙◌, String, ◌<>◌, some, List, [], ◌∷◌, ◌++◌, inl, inr, Bool-cases,
  Option-cases,
}
use provider_upjet_unifi.Apis.{
  Types, Single, Many, Node, single, many, plain, absent, present, slice, Struct, end, field, nil,
  item, To, Step, resolves, resolves_multiple, within, each, Answer, failed, answered, Response,
  MultiResponse, Resolver, Wrapped, Ran, resolve_node, resolve_multiple_node, on_field, in_pointer,
  on_items, in_slice, run_step, run_steps, Spec, resolve_references, write_single, write_many,
}

-- The field of a block, as its error names it.
abbrev pub path_of : Step → String → String
path_of (resolves name to) path = path <> "." <> name
path_of (resolves_multiple name to) path = path <> "." <> name
path_of (within name step) path = path_of step (path <> "." <> name)
path_of (each name index step) path = path_of step (path <> "." <> name <> "[" <> index <> "]")

module _ {T : Types} where
  open T use {World, Failure}

  -- Every error of the operation is one of these.
  abbrev pub Says : {A : Type 0} → (Wrapped T → Type 0) → (A → World → Ran T A) → Type 0
  Says {A} p f = (a : A) (w : World) (e : Wrapped T) → (f a w).failure ≡ some e → p e

  pub on_field-Says :
      (p : Wrapped T → Type 0) (name : String) (f : Node T → World → Ran T (Node T))
      → Says p f
      → Says p (on_field name f)
  unfolding on_field
  on_field-Says p name f h end w x k = cc
  on_field-Says p name f h (field n node rest) w x k = elim (Bool-cases (n == name)) [
    | inl e ↦ h node w x (rw e at k)
    | inr e ↦ on_field-Says p name f h rest w x (rw e at k)
  ]

  pub in_pointer-Says :
      (p : Wrapped T → Type 0) (f : Struct T → World → Ran T (Struct T))
      → Says p f
      → Says p (in_pointer f)
  unfolding in_pointer
  in_pointer-Says p f h (single x) w e k = cc
  in_pointer-Says p f h (many x) w e k = cc
  in_pointer-Says p f h (plain v) w e k = cc
  in_pointer-Says p f h absent w e k = cc
  in_pointer-Says p f h (present s) w e k = h s w e k
  in_pointer-Says p f h (slice items) w e k = cc

  on_items-Says :
      (p : Wrapped T → Type 0) (f : Struct T → World → Ran T (Struct T))
      → Says p f
      → Says p (on_items f)
  unfolding on_items
  on_items-Says p f h nil w x k = cc
  on_items-Says p f h (item s rest) w x k = elim (Option-cases (f s w).failure) [
    | inl e ↦ on_items-Says p f h rest _ x (rw e at k)
    | inr (y, e) ↦ h s w x (e ∙ (rw e at k))
  ]

  pub in_slice-Says :
      (p : Wrapped T → Type 0) (f : Struct T → World → Ran T (Struct T))
      → Says p f
      → Says p (in_slice f)
  unfolding in_slice
  in_slice-Says p f h (single x) w e k = cc
  in_slice-Says p f h (many x) w e k = cc
  in_slice-Says p f h (plain v) w e k = cc
  in_slice-Says p f h absent w e k = cc
  in_slice-Says p f h (present s) w e k = cc
  in_slice-Says p f h (slice items) w e k = on_items-Says p f h items w e k

  abbrev Named : String → Wrapped T → Type 0
  Named path e = e.message ≡ path

  module _ (r : Resolver T) (namespace : String) where
    write_single-Says :
        (path : String) (x : Single T) (a : Answer Failure (Response T) × World) (e : Wrapped T)
        → (write_single r namespace path x a).failure ≡ some e
        → e.message ≡ path
    write_single-Says path x (failed f, w) e k = cc
    write_single-Says path x (answered rsp, w) e k = cc

    write_many-Says :
        (path : String) (x : Many T) (a : Answer Failure (MultiResponse T) × World) (e : Wrapped T)
        → (write_many r namespace path x a).failure ≡ some e
        → e.message ≡ path
    write_many-Says path x (failed f, w) e k = cc
    write_many-Says path x (answered rsp, w) e k = cc

    resolve_node-Says :
        (path : String) (to : To) → Says (Named path) (resolve_node r namespace path to)
    unfolding resolve_node
    resolve_node-Says path to (single x) w e k = write_single-Says path x _ e k
    resolve_node-Says path to (many x) w e k = cc
    resolve_node-Says path to (plain v) w e k = cc
    resolve_node-Says path to absent w e k = cc
    resolve_node-Says path to (present s) w e k = cc
    resolve_node-Says path to (slice items) w e k = cc

    resolve_multiple_node-Says :
        (path : String) (to : To) → Says (Named path) (resolve_multiple_node r namespace path to)
    unfolding resolve_multiple_node
    resolve_multiple_node-Says path to (single x) w e k = cc
    resolve_multiple_node-Says path to (many x) w e k = write_many-Says path x _ e k
    resolve_multiple_node-Says path to (plain v) w e k = cc
    resolve_multiple_node-Says path to absent w e k = cc
    resolve_multiple_node-Says path to (present s) w e k = cc
    resolve_multiple_node-Says path to (slice items) w e k = cc

    run_step-Says :
        (step : Step) (path : String)
        → Says (Named (path_of step path)) (run_step r namespace step path)
    unfolding run_step
    run_step-Says (resolves name to) path = on_field-Says _ name _ (resolve_node-Says _ to)
    run_step-Says (resolves_multiple name to) path =
        on_field-Says _ name _ (resolve_multiple_node-Says _ to)
    run_step-Says (within name step) path =
        on_field-Says _ name _ (in_pointer-Says _ _ (run_step-Says step _))
    run_step-Says (each name index step) path =
        on_field-Says _ name _ (in_slice-Says _ _ (run_step-Says step _))

    -- The blocks of one half of a spec failed with `x`: those before the failing one have run without an
    -- error, and the error has the path of the field of the failing one.
    pub record IsFailing (steps : List Step) (path : String) (s : Struct T) (w : World)
        (x : Wrapped T) : Type 0 where
      pub before : List Step
      pub failing : Step
      pub behind : List Step
      pub split : steps ≡ before ++ (failing ∷ behind)
      pub succeeded : (run_steps r namespace before path s w).failure ≡ none
      pub failure :
          (let reached = run_steps r namespace before path s w in
            (run_step r namespace failing path reached.after reached.world).failure)
          ≡ some x
      pub message : x.message ≡ path_of failing path

    run_steps-IsFailing :
        (steps : List Step) (path : String) (s : Struct T) (w : World) (x : Wrapped T)
        → (run_steps r namespace steps path s w).failure ≡ some x
        → IsFailing steps path s w x
    unfolding run_steps
    run_steps-IsFailing [] path s w x k = cc
    run_steps-IsFailing (step ∷ rest) path s w x k =
        elim (Option-cases (run_step r namespace step path s w).failure) [
          | inl e ↦
              let later = run_steps-IsFailing rest path _ _ x (rw e at k) in
              record {
                before = step ∷ later.before;
                failing = later.failing;
                behind = later.behind;
                split = ap (step ∷◌) later.split;
                succeeded = rw e later.succeeded;
                failure = rw e later.failure;
                message = later.message;
              }
          | inr (y, e) ↦ record {
            before = [];
            failing = step;
            behind = rest;
            split = refl;
            succeeded = refl;
            failure = e ∙ (rw e at k);
            message = run_step-Says step path s w x (e ∙ (rw e at k));
          }
        ]

    -- An error of ResolveReferences is that of the first block that fails, and its message is the path
    -- of that block's field in the half of the spec in which it failed: in spec.forProvider, or, after
    -- all blocks have run there without an error, in spec.initProvider.
    pub resolve_references-IsFailing :
        (steps : List Step) (mg : Spec T) (w : World) (x : Wrapped T)
        → (resolve_references r namespace steps mg w).failure ≡ some x
        → IsFailing steps "mg.Spec.ForProvider" mg.for_provider w x
          ⊎ (((run_steps r namespace steps "mg.Spec.ForProvider" mg.for_provider w).failure ≡ none)
              × IsFailing steps "mg.Spec.InitProvider" mg.init_provider
                  (run_steps r namespace steps "mg.Spec.ForProvider" mg.for_provider w).world
                  x)
    unfolding resolve_references
    resolve_references-IsFailing steps mg w x k =
        let first = run_steps r namespace steps "mg.Spec.ForProvider" mg.for_provider w in
        elim (Option-cases first.failure) [
          | inl e ↦ inr (
            e,
            run_steps-IsFailing steps "mg.Spec.InitProvider" mg.init_provider first.world x
                (rw e at k),
          )
          | inr (y, e) ↦ inl (
              run_steps-IsFailing steps "mg.Spec.ForProvider" mg.for_provider w x (e ∙ (rw e at k)))
        ]
