-- ===== src/Apis/Apart.antt =====
-- The fields of a resource that no block of its ResolveReferences method names.
use text.Mathlib.Text.{◌==◌}
use text.Mathlib.TextEquality.{eq_iff}
use provider_upjet_unifi.Base.{
  ℕ, zero, suc, ◌≡◌, refl, sym, ◌∙◌, ap, String, Bool, true, false, ◌&&◌, ◌||◌, Option, none, some,
  List, [], ◌∷◌, inl, inr, Bool-cases, Option-cases, arith, if◌then◌else◌,
}
use provider_upjet_unifi.Apis.Frame.{untouched, resolve_references-untouched}
use provider_upjet_unifi.Apis.{
  Types, Single, Many, Node, single, many, plain, absent, present, slice, Struct, end, field, Slice,
  nil, item, To, Step, resolves, resolves_multiple, within, each, Answer, failed, answered,
  Response, MultiResponse, Resolver, Ran, resolve_node, resolve_multiple_node, on_field, in_pointer,
  on_items, in_slice, run_step, run_steps, Spec, resolve_references, write_single, write_many,
}

-- The names on the way to the field that a block resolves.
abbrev pub target : Step → List String
target (resolves name to) = name ∷ []
target (resolves_multiple name to) = name ∷ []
target (within name step) = name ∷ target step
target (each name index step) = name ∷ target step

-- The names on a way through a tree, in which an index picks an item of a slice.
abbrev pub names : List (String × ℕ) → List String
names [] = []
names ((name, index) ∷ p) = name ∷ names p

abbrev same_names : List String → List String → Bool
same_names [] [] = true
same_names [] (n ∷ l') = false
same_names (n ∷ l) [] = false
same_names (n ∷ l) (m ∷ l') = (m == n) && same_names l l'

-- Some block resolves the field at the end of the way.
abbrev pub is_target : List Step → List String → Bool
is_target [] p = false
is_target (step ∷ steps) p = same_names p (target step) || is_target steps p

module _ {T : Types} where
  open T use {World, Failure}

  unfoldable pub find : String → Struct T → Option (Node T)
  find name end = none
  find name (field n x rest) = if n == name then some x else find name rest

  -- The form of a node: of a pointer only whether it is nil, of a slice how many items it has.
  abbrev pub items_outline : Slice T → Slice T
  items_outline nil = nil
  items_outline (item s rest) = item end (items_outline rest)

  abbrev pub outline : Node T → Node T
  outline (present s) = present end
  outline (slice items) = slice (items_outline items)
  outline x = x

  abbrev pub outlined : Option (Node T) → Option (Node T)
  outlined none = none
  outlined (some x) = some (outline x)

  abbrev pick : (Struct T → Option (Node T)) → ℕ → Slice T → Option (Node T)
  pick k i nil = none
  pick k zero (item s rest) = k s
  pick k (suc i) (item s rest) = pick k i rest

  abbrev pub enter : (Struct T → Option (Node T)) → ℕ → Option (Node T) → Option (Node T)
  enter k i (some (present s)) = k s
  enter k i (some (slice items)) = pick k i items
  enter k i x = none

  -- What stands at the end of a way.
  abbrev pub at : List (String × ℕ) → Struct T → Option (Node T)
  at [] s = none
  at ((name, i) ∷ []) s = outlined (find name s)
  at ((name, i) ∷ (hop ∷ p)) s = enter (λ s'. at (hop ∷ p) s') i (find name s)

  abbrev enter_at : List (String × ℕ) → ℕ → Option (Node T) → Option (Node T)
  enter_at [] i x = outlined x
  enter_at (hop ∷ p) i x = enter (λ s'. at (hop ∷ p) s') i x

  at-cons :
      (name : String) (i : ℕ) (p : List (String × ℕ)) (s : Struct T)
      → at ((name, i) ∷ p) s ≡ enter_at p i (find name s)
  at-cons name i [] s = refl
  at-cons name i (hop ∷ p) s = refl

  -- The operation changes nothing at the end of a way with other names.
  abbrev Untouched : List String → (Struct T → World → Ran T (Struct T)) → Type 0
  Untouched q f =
      (p : List (String × ℕ)) (s : Struct T) (w : World)
      → same_names (names p) q ≡ false
      → at p (f s w).after ≡ at p s

  abbrev UntouchedNode : List String → (Node T → World → Ran T (Node T)) → Type 0
  UntouchedNode q f =
      (p : List (String × ℕ)) (i : ℕ) (x : Node T) (w : World)
      → same_names (names p) q ≡ false
      → enter_at p i (some (f x w).after) ≡ enter_at p i (some x)

  find-on_field-ne :
      (name m : String) (f : Node T → World → Ran T (Node T)) (s : Struct T) (w : World)
      → (name == m) ≡ false
      → find m (on_field name f s w).after ≡ find m s
  unfolding find on_field
  find-on_field-ne name m f end w ne = refl
  find-on_field-ne name m f (field n x rest) w ne =
      ground (arith, find-on_field-ne name m f rest w ne, eq_iff n name)

  enter_at-on_field :
      (name : String) (f : Node T → World → Ran T (Node T)) (s : Struct T) (w : World)
      (p : List (String × ℕ)) (i : ℕ)
      → ((x : Node T) → enter_at p i (some (f x w).after) ≡ enter_at p i (some x))
      → enter_at p i (find name (on_field name f s w).after) ≡ enter_at p i (find name s)
  unfolding find on_field
  enter_at-on_field name f end w p i h = refl
  enter_at-on_field name f (field n x rest) w p i h = elim (Bool-cases (n == name)) [
    | inl e ↦ rw (e, e) (h x)
    | inr e ↦ rw (e, e) (enter_at-on_field name f rest w p i h)
  ]

  on_field-Untouched :
      (name : String) (q : List String) (f : Node T → World → Ran T (Node T))
      → UntouchedNode q f
      → Untouched (name ∷ q) (on_field name f)
  on_field-Untouched name q f h [] s w other = refl
  on_field-Untouched name q f h ((m, i) ∷ p) s w other =
      at-cons m i p (on_field name f s w).after
      ∙ (elim (Bool-cases (name == m)) [
        | inl e ↦
            let same : name ≡ m = (eq_iff name m).0 e in
            rw (← same) (enter_at-on_field name f s w p i (λ x. h p i x w (rw e at other)))
        | inr e ↦ ap (enter_at p i) (find-on_field-ne name m f s w e)
      ])
      ∙ (sym (at-cons m i p s))

  in_pointer-Untouched :
      (q : List String) (f : Struct T → World → Ran T (Struct T))
      → Untouched q f
      → UntouchedNode q (in_pointer f)
  unfolding in_pointer
  in_pointer-Untouched q f h p i (single x) w other = refl
  in_pointer-Untouched q f h p i (many x) w other = refl
  in_pointer-Untouched q f h p i (plain v) w other = refl
  in_pointer-Untouched q f h p i absent w other = refl
  in_pointer-Untouched q f h [] i (present s) w other = refl
  in_pointer-Untouched q f h (hop ∷ p) i (present s) w other = h (hop ∷ p) s w other
  in_pointer-Untouched q f h p i (slice items) w other = refl

  items_outline-on_items :
      (f : Struct T → World → Ran T (Struct T)) (items : Slice T) (w : World)
      → items_outline (on_items f items w).after ≡ items_outline items
  unfolding on_items
  items_outline-on_items f nil w = refl
  items_outline-on_items f (item s rest) w = elim (Option-cases (f s w).failure) [
    | inl e ↦ rw e (ap (item end) (items_outline-on_items f rest (f s w).world))
    | inr (x, e) ↦ rw e refl
  ]

  pick-on_items :
      (k : Struct T → Option (Node T)) (f : Struct T → World → Ran T (Struct T)) (i : ℕ)
      (items : Slice T) (w : World)
      → ((s : Struct T) (v : World) → k (f s v).after ≡ k s)
      → pick k i (on_items f items w).after ≡ pick k i items
  unfolding on_items
  pick-on_items k f i nil w h = refl
  pick-on_items k f zero (item s rest) w h = elim (Option-cases (f s w).failure) [
    | inl e ↦ rw e (h s w)
    | inr (x, e) ↦ rw e (h s w)
  ]
  pick-on_items k f (suc i) (item s rest) w h = elim (Option-cases (f s w).failure) [
    | inl e ↦ rw e (pick-on_items k f i rest (f s w).world h)
    | inr (x, e) ↦ rw e refl
  ]

  in_slice-Untouched :
      (q : List String) (f : Struct T → World → Ran T (Struct T))
      → Untouched q f
      → UntouchedNode q (in_slice f)
  unfolding in_slice
  in_slice-Untouched q f h p i (single x) w other = refl
  in_slice-Untouched q f h p i (many x) w other = refl
  in_slice-Untouched q f h p i (plain v) w other = refl
  in_slice-Untouched q f h p i absent w other = refl
  in_slice-Untouched q f h p i (present s) w other = refl
  in_slice-Untouched q f h [] i (slice items) w other =
      ap (λ l. some (slice l)) (items_outline-on_items f items w)
  in_slice-Untouched q f h (hop ∷ p) i (slice items) w other =
      pick-on_items (λ s'. at (hop ∷ p) s') f i items w (λ s v. h (hop ∷ p) s v other)

module _ {T : Types} (r : Resolver T) (namespace : String) where
  open T use {World, Failure}

  write_single-Untouched :
      (path : String) (x : Single T) (a : Answer Failure (Response T) × World) (hop : String × ℕ)
      (p : List (String × ℕ)) (i : ℕ)
      → enter_at (hop ∷ p) i (some (write_single r namespace path x a).after) ≡ none
  write_single-Untouched path x (failed e, w) hop p i = refl
  write_single-Untouched path x (answered rsp, w) hop p i = refl

  write_many-Untouched :
      (path : String) (x : Many T) (a : Answer Failure (MultiResponse T) × World) (hop : String × ℕ)
      (p : List (String × ℕ)) (i : ℕ)
      → enter_at (hop ∷ p) i (some (write_many r namespace path x a).after) ≡ none
  write_many-Untouched path x (failed e, w) hop p i = refl
  write_many-Untouched path x (answered rsp, w) hop p i = refl

  resolve_node-Untouched :
      (path : String) (to : To) → UntouchedNode [] (resolve_node r namespace path to)
  unfolding resolve_node
  resolve_node-Untouched path to [] i x w other = cc
  resolve_node-Untouched path to (hop ∷ p) i (single x) w other =
      write_single-Untouched path x _ hop p i
  resolve_node-Untouched path to (hop ∷ p) i (many x) w other = refl
  resolve_node-Untouched path to (hop ∷ p) i (plain v) w other = refl
  resolve_node-Untouched path to (hop ∷ p) i absent w other = refl
  resolve_node-Untouched path to (hop ∷ p) i (present s) w other = refl
  resolve_node-Untouched path to (hop ∷ p) i (slice items) w other = refl

  resolve_multiple_node-Untouched :
      (path : String) (to : To) → UntouchedNode [] (resolve_multiple_node r namespace path to)
  unfolding resolve_multiple_node
  resolve_multiple_node-Untouched path to [] i x w other = cc
  resolve_multiple_node-Untouched path to (hop ∷ p) i (single x) w other = refl
  resolve_multiple_node-Untouched path to (hop ∷ p) i (many x) w other =
      write_many-Untouched path x _ hop p i
  resolve_multiple_node-Untouched path to (hop ∷ p) i (plain v) w other = refl
  resolve_multiple_node-Untouched path to (hop ∷ p) i absent w other = refl
  resolve_multiple_node-Untouched path to (hop ∷ p) i (present s) w other = refl
  resolve_multiple_node-Untouched path to (hop ∷ p) i (slice items) w other = refl

  run_step-Untouched :
      (step : Step) (path : String) → Untouched (target step) (run_step r namespace step path)
  unfolding run_step
  run_step-Untouched (resolves name to) path =
      on_field-Untouched name [] _ (resolve_node-Untouched _ to)
  run_step-Untouched (resolves_multiple name to) path =
      on_field-Untouched name [] _ (resolve_multiple_node-Untouched _ to)
  run_step-Untouched (within name step) path =
      on_field-Untouched name (target step) _
        (in_pointer-Untouched (target step) _ (run_step-Untouched step _))
  run_step-Untouched (each name index step) path =
      on_field-Untouched name (target step) _
        (in_slice-Untouched (target step) _ (run_step-Untouched step _))

  at-run_steps :
      (steps : List Step) (path : String) (p : List (String × ℕ)) (s : Struct T) (w : World)
      → is_target steps (names p) ≡ false
      → at p (run_steps r namespace steps path s w).after ≡ at p s
  unfolding run_steps
  at-run_steps [] path p s w other = refl
  at-run_steps (step ∷ rest) path p s w other =
      let here = run_step-Untouched step path p s w (ground arith) in
      elim (Option-cases (run_step r namespace step path s w).failure) [
        | inl e ↦ rw e (at-run_steps rest path p _ _ (ground arith) ∙ here)
        | inr (x, e) ↦ rw e here
      ]

  -- ResolveReferences, whether it fails or not, leaves what no block names as it was: every other field,
  -- reference or plain, below pointers and in every item of a slice, which pointers are nil, and how
  -- many items a slice has. The fields that blocks name keep their selectors.
  pub resolve_references-at :
      (steps : List Step) (mg : Spec T) (w : World) (p : List (String × ℕ))
      → is_target steps (names p) ≡ false
      → (at p (resolve_references r namespace steps mg w).after.for_provider ≡ at p mg.for_provider)
        × (at p (resolve_references r namespace steps mg w).after.init_provider
            ≡ at p mg.init_provider)
        × (untouched (resolve_references r namespace steps mg w).after ≡ untouched mg)
  unfolding resolve_references
  resolve_references-at steps mg w p other =
      let first = run_steps r namespace steps "mg.Spec.ForProvider" mg.for_provider w in
      let kept = at-run_steps steps "mg.Spec.ForProvider" p mg.for_provider w other in
      let selectors = resolve_references-untouched r namespace steps mg w in
      elim (Option-cases first.failure) [
        | inl e ↦ (
          rw e kept,
          rw e (at-run_steps steps "mg.Spec.InitProvider" p mg.init_provider first.world other),
          selectors,
        )
        | inr (x, e) ↦ (rw e kept, rw e refl, selectors)
      ]
