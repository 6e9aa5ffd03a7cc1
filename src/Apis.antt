-- ===== src/Apis.antt =====
-- apis/*/v1alpha1/zz_generated.resolvers.go: the ResolveReferences methods. A method is the list of
-- its blocks, each a `Step`, and `resolve_references` runs it; the parameters of a resource are a tree
-- of its fields, in which `plain` is a field that is neither a reference nor a container. The resolver of crossplane-runtime is the record
-- `Resolver`.
use provider_upjet_unifi.Base.{String, ◌<>◌, Option, none, some, List, [], ◌∷◌, if◌then◌else◌}
use text.Mathlib.Text.{◌==◌}
pub mod Scheme
pub mod Steps
pub mod Frame
pub mod Apart
pub mod Failure
pub mod Success
pub mod Agree
pub mod Methods

-- xpv2.Reference and xpv2.Selector, which the code only hands on, and what it does not look at.
pub record Types : Type 1 where
  pub World : Type 0
  pub Failure : Type 0
  pub Reference : Type 0
  pub Selector : Type 0
  -- the values of the other fields
  pub Plain : Type 0

-- <Field> *string, <Field>Ref and <Field>Selector.
pub record Single (T : Types) : Type 0 where
  pub value : Option String
  pub reference : Option T.Reference
  pub selector : Option T.Selector

-- <Field> []*string, <Field>Refs and <Field>Selector.
pub record Many (T : Types) : Type 0 where
  pub values : List (Option String)
  pub references : List T.Reference
  pub selector : Option T.Selector

-- The values of a struct's fields: a nil pointer to a struct is `absent`.
mutual
  pub data Node (T : Types) : Type 0 where
    single : Single T → Node T
    many : Many T → Node T
    plain : T.Plain → Node T
    absent : Node T
    present : Struct T → Node T
    slice : Slice T → Node T

  pub data Struct (T : Types) : Type 0 where
    end : Struct T
    field : String → Node T → Struct T → Struct T

  pub data Slice (T : Types) : Type 0 where
    nil : Slice T
    item : Struct T → Slice T → Slice T

-- reference.To: the package and the type of the target.
pub record To : Type 0 where
  pub group : String
  pub kind : String

-- A block of a method: a call of Resolve or ResolveMultiple for a field, under `if … != nil` or in a
-- loop over the items of a slice, with the name of the loop's variable.
pub data Step : Type 0 where
  resolves : String → To → Step
  resolves_multiple : String → To → Step
  within : String → Step → Step
  each : String → String → Step → Step

pub data Answer (F A : Type 0) : Type 0 where
  failed : F → Answer F A
  answered : A → Answer F A

pub record Request (T : Types) : Type 0 where
  pub current_value : String
  pub namespace : String
  pub reference : Option T.Reference
  pub selector : Option T.Selector
  pub to : To

pub record Response (T : Types) : Type 0 where
  pub resolved_value : String
  pub resolved_reference : Option T.Reference

pub record MultiRequest (T : Types) : Type 0 where
  pub current_values : List String
  pub namespace : String
  pub references : List T.Reference
  pub selector : Option T.Selector
  pub to : To

pub record MultiResponse (T : Types) : Type 0 where
  pub resolved_values : List String
  pub resolved_references : List T.Reference

pub record Resolver (T : Types) : Type 0 where
  pub resolve : Request T → T.World → Answer T.Failure (Response T) × T.World
  pub resolve_multiple : MultiRequest T → T.World → Answer T.Failure (MultiResponse T) × T.World
  pub from_ptr_value : Option String → String
  pub to_ptr_value : String → Option String
  pub from_ptr_values : List (Option String) → List String
  pub to_ptr_values : List String → List (Option String)

-- errors.Wrap(err, message)
pub record Wrapped (T : Types) : Type 0 where
  pub cause : T.Failure
  pub message : String

-- Where a block leaves the struct that it works on, its error if it returns one, and the world.
pub record Ran (T : Types) (A : Type 0) : Type 0 where
  pub after : A
  pub failure : Option (Wrapped T)
  pub world : T.World

abbrev pub done : {T : Types} {A : Type 0} → A → T.World → Ran T A
done a w = record { after = a; failure = none; world = w }

abbrev pub through : {T : Types} {A B : Type 0} → (A → B) → Ran T A → Ran T B
through f r = record { after = f r.after; failure = r.failure; world = r.world }

module _ {T : Types} where
  open T use {World}

  -- The field of a struct, which the block changes in place.
  unfoldable pub on_field :
      String → (Node T → World → Ran T (Node T)) → Struct T → World → Ran T (Struct T)
  on_field name f end w = done end w
  on_field name f (field n node rest) w =
      let later = on_field name f rest w in
      if n == name
      then through (λ node'. field n node' rest) (f node w)
      else through (field n node) later

  -- if mg.… != nil
  unfoldable pub in_pointer :
      (Struct T → World → Ran T (Struct T)) → Node T → World → Ran T (Node T)
  in_pointer f (present s) w = through present (f s w)
  in_pointer f node w = done node w

  -- What the rest of a loop or of a method does after a block: nothing after an error.
  abbrev pub and_then : {A B : Type 0} → Ran T A → (A → B) → (A → World → Ran T B) → Ran T B
  and_then x stop rest = elim x.failure [
    | none ↦ rest x.after x.world
    | some e ↦ record { after = stop x.after; failure = some e; world = x.world }
  ]

  unfoldable pub on_items :
      (Struct T → World → Ran T (Struct T)) → Slice T → World → Ran T (Slice T)
  on_items f nil w = done nil w
  on_items f (item s rest) w =
      and_then (f s w) (λ s'. item s' rest) (λ s' v. through (item s') (on_items f rest v))

  -- for i := 0; i < len(mg.…); i++
  unfoldable pub in_slice : (Struct T → World → Ran T (Struct T)) → Node T → World → Ran T (Node T)
  in_slice f (slice items) w = through slice (on_items f items w)
  in_slice f node w = done node w

module _ {T : Types} (r : Resolver T) (namespace : String) where
  open T use {World, Failure}
  open r use {
    resolve, resolve_multiple, from_ptr_value, to_ptr_value, from_ptr_values, to_ptr_values,
  }

  -- mg.… = reference.ToPtrValue(rsp.ResolvedValue), mg.…Ref = rsp.ResolvedReference, or the error.
  abbrev pub write_single : String → Single T → Answer Failure (Response T) × World → Ran T (Node T)
  write_single path x (failed e, w) = record {
    after = single x;
    failure = some (record { cause = e; message = path });
    world = w;
  }
  write_single path x (answered rsp, w) =
      done
        (single (record {
          value = to_ptr_value rsp.resolved_value;
          reference = rsp.resolved_reference;
          selector = x.selector;
        }))
        w

  abbrev pub write_many :
      String → Many T → Answer Failure (MultiResponse T) × World → Ran T (Node T)
  write_many path x (failed e, w) = record {
    after = many x;
    failure = some (record { cause = e; message = path });
    world = w;
  }
  write_many path x (answered mrsp, w) =
      done
        (many (record {
          values = to_ptr_values mrsp.resolved_values;
          references = mrsp.resolved_references;
          selector = x.selector;
        }))
        w

  -- The Go types leave a node of another form no chance to stand where these look.
  unfoldable pub resolve_node : String → To → Node T → World → Ran T (Node T)
  resolve_node path to (single x) w = write_single path x (
      resolve
        (record {
          current_value = from_ptr_value x.value;
          namespace = namespace;
          reference = x.reference;
          selector = x.selector;
          to = to;
        })
        w)
  resolve_node path to node w = done node w

  unfoldable pub resolve_multiple_node : String → To → Node T → World → Ran T (Node T)
  resolve_multiple_node path to (many x) w = write_many path x (
      resolve_multiple
        (record {
          current_values = from_ptr_values x.values;
          namespace = namespace;
          references = x.references;
          selector = x.selector;
          to = to;
        })
        w)
  resolve_multiple_node path to node w = done node w

  unfoldable pub run_step : Step → String → Struct T → World → Ran T (Struct T)
  run_step (resolves name to) path s w = on_field name (resolve_node (path <> "." <> name) to) s w
  run_step (resolves_multiple name to) path s w =
      on_field name (resolve_multiple_node (path <> "." <> name) to) s w
  run_step (within name step) path s w =
      on_field name (in_pointer (run_step step (path <> "." <> name))) s w
  run_step (each name index step) path s w =
      on_field name (in_slice (run_step step (path <> "." <> name <> "[" <> index <> "]"))) s w

  unfoldable pub run_steps : List Step → String → Struct T → World → Ran T (Struct T)
  run_steps [] path s w = done s w
  run_steps (step ∷ rest) path s w =
      and_then (run_step step path s w) (λ s'. s') (λ s' v. run_steps rest path s' v)

-- Spec.ForProvider and Spec.InitProvider.
pub record Spec (T : Types) : Type 0 where
  pub for_provider : Struct T
  pub init_provider : Struct T

module _ {T : Types} (r : Resolver T) (namespace : String) where
  -- A ResolveReferences method, which has the same blocks for both halves of the spec.
  unfoldable pub resolve_references : List Step → Spec T → T.World → Ran T (Spec T)
  resolve_references steps mg w =
      and_then (run_steps r namespace steps "mg.Spec.ForProvider" mg.for_provider w)
        (λ s. record { for_provider = s; init_provider = mg.init_provider })
        (λ s v.
          through (λ s'. record { for_provider = s; init_provider = s' })
            (run_steps r namespace steps "mg.Spec.InitProvider" mg.init_provider v))
