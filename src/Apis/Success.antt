-- ===== src/Apis/Success.antt =====
-- ResolveReferences with a resolver that answers: what it leaves, told as relations between a struct and
-- the world before and after.
use text.Mathlib.Text.{◌==◌}
use provider_upjet_unifi.Base.{
  ◌≡◌, refl, String, Bool, true, false, none, List, [], ◌∷◌, inl, inr, Bool-cases,
}
use provider_upjet_unifi.Apis.{
  Types, Single, Many, Node, single, many, plain, absent, present, slice, Struct, end, field, Slice,
  nil, item, To, Step, resolves, resolves_multiple, within, each, Answer, failed, answered, Request,
  MultiRequest, Response, MultiResponse, Resolver, Ran, resolve_node, resolve_multiple_node,
  on_field, in_pointer, on_items, in_slice, run_step, run_steps, Spec, resolve_references,
  write_single, write_many,
}

-- The resolver fails for no request.
pub record IsAnswering {T : Types} (r : Resolver T) : Type 0 where
  pub resolve :
      (q : Request T) (w : T.World) → (rsp : Response T) × ((r.resolve q w).0 ≡ answered rsp)
  pub resolve_multiple :
      (q : MultiRequest T) (w : T.World)
      → (mrsp : MultiResponse T) × ((r.resolve_multiple q w).0 ≡ answered mrsp)

-- Between a value and a world before, and those after.
abbrev pub Relation : Type 0 → Type 0 → Type 1
Relation W A = A → W → A → W → Type 0

abbrev pub Stays : {W A : Type 0} → Relation W A
Stays x w x' w' = (x' ≡ x) × (w' ≡ w)

abbrev FieldHere :
    {T : Types}
    → Bool
    → Relation T.World (Node T)
    → (Struct T → T.World → Type 0)
    → String
    → Node T
    → Struct T
    → T.World
    → Struct T
    → T.World
    → Type 0
FieldHere {T} true p later n x rest w s' w' = (x' : Node T) × (s' ≡ field n x' rest) × p x w x' w'
FieldHere {T} false p later n x rest w s' w' =
    (rest' : Struct T) × (s' ≡ field n x rest') × later rest' w'

-- The first field of the name, if there is one, is related, and the others stay.
abbrev pub FieldOf : {T : Types} → String → Relation T.World (Node T) → Relation T.World (Struct T)
FieldOf {T} name p end w s' w' = Stays end w s' w'
FieldOf {T} name p (field n x rest) w s' w' =
    FieldHere {T = T} (n == name) p (λ rest' v. FieldOf {T = T} name p rest w rest' v) n x rest w s'
      w'

-- The struct that a pointer points to is related; nil stays.
abbrev pub PointerOf : {T : Types} → Relation T.World (Struct T) → Relation T.World (Node T)
PointerOf {T} p (present s) w x' w' = (s' : Struct T) × (x' ≡ present s') × p s w s' w'
PointerOf {T} p x w x' w' = Stays x w x' w'

-- The items of a slice are related one after another.
abbrev pub ItemsOf : {T : Types} → Relation T.World (Struct T) → Relation T.World (Slice T)
ItemsOf {T} p nil w i' w' = Stays nil w i' w'
ItemsOf {T} p (item s rest) w i' w' =
    (s' : Struct T) × (v : T.World) × (rest' : Slice T) × (i' ≡ item s' rest')
    × p s w s' v
    × ItemsOf {T = T} p rest v rest' w'

abbrev pub SliceOf : {T : Types} → Relation T.World (Struct T) → Relation T.World (Node T)
SliceOf {T} p (slice items) w x' w' =
    (items' : Slice T) × (x' ≡ slice items') × ItemsOf {T = T} p items w items' w'
SliceOf {T} p x w x' w' = Stays x w x' w'

module _ {T : Types} (r : Resolver T) (namespace : String) where
  open T use {World, Failure}

  abbrev SingleBy : Single T → Answer Failure (Response T) × World → Node T → World → Type 0
  SingleBy x a x' w' =
      (rsp : Response T) × (a ≡ (answered rsp, w'))
      × (x'
          ≡ single (record {
            value = r.to_ptr_value rsp.resolved_value;
            reference = rsp.resolved_reference;
            selector = x.selector;
          }))

  abbrev ManyBy : Many T → Answer Failure (MultiResponse T) × World → Node T → World → Type 0
  ManyBy x a x' w' =
      (mrsp : MultiResponse T) × (a ≡ (answered mrsp, w'))
      × (x'
          ≡ many (record {
            values = r.to_ptr_values mrsp.resolved_values;
            references = mrsp.resolved_references;
            selector = x.selector;
          }))

  -- The resolver was asked for the field's value, reference and selector, and its answer was written.
  abbrev pub SingleTo : To → Relation World (Node T)
  SingleTo to (single x) w x' w' =
      SingleBy x
        (r.resolve
          (record {
            current_value = r.from_ptr_value x.value;
            namespace = namespace;
            reference = x.reference;
            selector = x.selector;
            to = to;
          })
          w)
        x' w'
  SingleTo to x w x' w' = Stays x w x' w'

  abbrev pub ManyTo : To → Relation World (Node T)
  ManyTo to (many x) w x' w' =
      ManyBy x
        (r.resolve_multiple
          (record {
            current_values = r.from_ptr_values x.values;
            namespace = namespace;
            references = x.references;
            selector = x.selector;
            to = to;
          })
          w)
        x' w'
  ManyTo to x w x' w' = Stays x w x' w'

  abbrev pub StepOf : Step → Relation World (Struct T)
  StepOf (resolves name to) = FieldOf {T = T} name (SingleTo to)
  StepOf (resolves_multiple name to) = FieldOf {T = T} name (ManyTo to)
  StepOf (within name step) = FieldOf {T = T} name (PointerOf {T = T} (StepOf step))
  StepOf (each name index step) = FieldOf {T = T} name (SliceOf {T = T} (StepOf step))

  -- One block after another.
  abbrev pub StepsOf : List Step → Relation World (Struct T)
  StepsOf [] s w s' w' = Stays s w s' w'
  StepsOf (step ∷ rest) s w s' w' =
      (s₁ : Struct T) × (v : World) × StepOf step s w s₁ v × StepsOf rest s₁ v s' w'

-- The operation returns no error and leaves what the relation says.
abbrev Meets : {T : Types} {A : Type 0} → Relation T.World A → (A → T.World → Ran T A) → Type 0
Meets {T} {A} p f =
    (a : A) (w : T.World) → ((f a w).failure ≡ none) × p a w (f a w).after (f a w).world

module _ {T : Types} where
  open T use {World, Failure}

  on_field-Meets :
      (name : String) (p : Relation World (Node T)) (f : Node T → World → Ran T (Node T))
      → Meets {T = T} p f
      → Meets {T = T} (FieldOf {T = T} name p) (on_field name f)
  unfolding on_field
  on_field-Meets name p f h end w = (refl, (refl, refl))
  on_field-Meets name p f h (field n x rest) w = elim (Bool-cases (n == name)) [
    | inl e ↦ rw (e, (h x w).0) (refl, (_, refl, (h x w).1))
    | inr e ↦
        let (none_later, later) = on_field-Meets name p f h rest w in
        rw (e, none_later) (refl, (_, refl, later))
  ]

  in_pointer-Meets :
      (p : Relation World (Struct T)) (f : Struct T → World → Ran T (Struct T))
      → Meets {T = T} p f
      → Meets {T = T} (PointerOf {T = T} p) (in_pointer f)
  unfolding in_pointer
  in_pointer-Meets p f h (single x) w = (refl, (refl, refl))
  in_pointer-Meets p f h (many x) w = (refl, (refl, refl))
  in_pointer-Meets p f h (plain v) w = (refl, (refl, refl))
  in_pointer-Meets p f h absent w = (refl, (refl, refl))
  in_pointer-Meets p f h (present s) w = ((h s w).0, (_, refl, (h s w).1))
  in_pointer-Meets p f h (slice items) w = (refl, (refl, refl))

  on_items-Meets :
      (p : Relation World (Struct T)) (f : Struct T → World → Ran T (Struct T))
      → Meets {T = T} p f
      → Meets {T = T} (ItemsOf {T = T} p) (on_items f)
  unfolding on_items
  on_items-Meets p f h nil w = (refl, (refl, refl))
  on_items-Meets p f h (item s rest) w =
      let (first_none, first) = h s w in
      let (later_none, later) = on_items-Meets p f h rest (f s w).world in
      rw (first_none, later_none) (refl, (_, _, _, refl, first, later))

  in_slice-Meets :
      (p : Relation World (Struct T)) (f : Struct T → World → Ran T (Struct T))
      → Meets {T = T} p f
      → Meets {T = T} (SliceOf {T = T} p) (in_slice f)
  unfolding in_slice
  in_slice-Meets p f h (single x) w = (refl, (refl, refl))
  in_slice-Meets p f h (many x) w = (refl, (refl, refl))
  in_slice-Meets p f h (plain v) w = (refl, (refl, refl))
  in_slice-Meets p f h absent w = (refl, (refl, refl))
  in_slice-Meets p f h (present s) w = (refl, (refl, refl))
  in_slice-Meets p f h (slice items) w =
      let (ok, related) = on_items-Meets p f h items w in (ok, (_, refl, related))

module _ {T : Types} (r : Resolver T) (answering : IsAnswering r) (namespace : String) where
  open T use {World, Failure}

  write_single-Meets :
      (path : String) (x : Single T) (a : Answer Failure (Response T) × World)
      → (rsp : Response T) × (a.0 ≡ answered rsp)
      → ((write_single r namespace path x a).failure ≡ none)
        × SingleBy r namespace x a
            (write_single r namespace path x a).after
            (write_single r namespace path x a).world
  write_single-Meets path x (failed f, w) (rsp, h) = cc
  write_single-Meets path x (answered rsp, w) h = (refl, (rsp, refl, refl))

  write_many-Meets :
      (path : String) (x : Many T) (a : Answer Failure (MultiResponse T) × World)
      → (mrsp : MultiResponse T) × (a.0 ≡ answered mrsp)
      → ((write_many r namespace path x a).failure ≡ none)
        × ManyBy r namespace x a
            (write_many r namespace path x a).after
            (write_many r namespace path x a).world
  write_many-Meets path x (failed f, w) (mrsp, h) = cc
  write_many-Meets path x (answered mrsp, w) h = (refl, (mrsp, refl, refl))

  resolve_node-Meets :
      (path : String) (to : To)
      → Meets {T = T} (SingleTo r namespace to) (resolve_node r namespace path to)
  unfolding resolve_node
  resolve_node-Meets path to (single x) w =
      write_single-Meets path x (r.resolve _ w) (answering.resolve _ w)
  resolve_node-Meets path to (many x) w = (refl, (refl, refl))
  resolve_node-Meets path to (plain v) w = (refl, (refl, refl))
  resolve_node-Meets path to absent w = (refl, (refl, refl))
  resolve_node-Meets path to (present s) w = (refl, (refl, refl))
  resolve_node-Meets path to (slice items) w = (refl, (refl, refl))

  resolve_multiple_node-Meets :
      (path : String) (to : To)
      → Meets {T = T} (ManyTo r namespace to) (resolve_multiple_node r namespace path to)
  unfolding resolve_multiple_node
  resolve_multiple_node-Meets path to (single x) w = (refl, (refl, refl))
  resolve_multiple_node-Meets path to (many x) w =
      write_many-Meets path x (r.resolve_multiple _ w) (answering.resolve_multiple _ w)
  resolve_multiple_node-Meets path to (plain v) w = (refl, (refl, refl))
  resolve_multiple_node-Meets path to absent w = (refl, (refl, refl))
  resolve_multiple_node-Meets path to (present s) w = (refl, (refl, refl))
  resolve_multiple_node-Meets path to (slice items) w = (refl, (refl, refl))

  run_step-Meets :
      (step : Step) (path : String)
      → Meets {T = T} (StepOf r namespace step) (run_step r namespace step path)
  unfolding run_step
  run_step-Meets (resolves name to) path = on_field-Meets name _ _ (resolve_node-Meets _ to)
  run_step-Meets (resolves_multiple name to) path =
      on_field-Meets name _ _ (resolve_multiple_node-Meets _ to)
  run_step-Meets (within name step) path =
      on_field-Meets name _ _ (in_pointer-Meets _ _ (run_step-Meets step _))
  run_step-Meets (each name index step) path =
      on_field-Meets name _ _ (in_slice-Meets _ _ (run_step-Meets step _))

  run_steps-Meets :
      (steps : List Step) (path : String)
      → Meets {T = T} (StepsOf r namespace steps) (run_steps r namespace steps path)
  unfolding run_steps
  run_steps-Meets [] path s w = (refl, (refl, refl))
  run_steps-Meets (step ∷ rest) path s w =
      let (first_none, first) = run_step-Meets step path s w in
      let after = run_step r namespace step path s w in
      let (later_none, later) = run_steps-Meets rest path after.after after.world in
      rw (first_none, later_none) (refl, (_, _, first, later))

  -- Where the resolver fails for no request, ResolveReferences returns no error and has run every block
  -- in order, first on spec.forProvider and then on spec.initProvider: each asked the resolver
  -- for the field that it names, below pointers that are not nil and in every item of its slices, with
  -- the field's value, reference and selector, wrote the answer there, and left the other fields.
  pub resolve_references-StepsOf :
      (steps : List Step) (mg : Spec T) (w : World)
      → (v : World) × ((resolve_references r namespace steps mg w).failure ≡ none)
        × StepsOf r namespace steps mg.for_provider w
            (resolve_references r namespace steps mg w).after.for_provider
            v
        × StepsOf r namespace steps mg.init_provider v
            (resolve_references r namespace steps mg w).after.init_provider
            (resolve_references r namespace steps mg w).world
  unfolding resolve_references
  resolve_references-StepsOf steps mg w =
      let (first_none, first) = run_steps-Meets steps "mg.Spec.ForProvider" mg.for_provider w in
      let middle = run_steps r namespace steps "mg.Spec.ForProvider" mg.for_provider w in
      let (later_none, later) =
        run_steps-Meets steps "mg.Spec.InitProvider" mg.init_provider middle.world in
      (middle.world, rw first_none later_none, rw first_none first, rw first_none later)
