-- ===== src/Accessors/Items.antt =====
-- GetItems of zz_generated.managedlist.go: pointers to the items of a list.
use provider_upjet_unifi.Base.{
  ℕ, zero, suc, ◌+◌, ◌≡◌, refl, sym, ap, ◌∙◌, Option, none, some, List, [], ◌∷◌, map, arith,
}

-- What a pointer to a value of the items' type can point to: an item of the list's array, or a variable,
-- such as that of a loop.
pub data Place : Type 0 where
  item variable : ℕ → Place

-- GetItems of one type of list.
abbrev pub Items : Type 1
Items = (Item : Type 0) → List Item → List Place

-- The list's items, and the variables.
pub record Memory (M : Type 0) : Type 0 where
  pub items : List M
  pub variables : List M

module _ {M : Type 0} where
  unfoldable pub read : List M → ℕ → Option M
  read [] n = none
  read (x ∷ l) zero = some x
  read (x ∷ l) (suc n) = read l n

  unfoldable pub write : M → List M → ℕ → List M
  write y [] n = []
  write y (x ∷ l) zero = y ∷ l
  write y (x ∷ l) (suc n) = x ∷ write y l n

  abbrev pub load : Memory M → Place → Option M
  load h (item n) = read h.items n
  load h (variable n) = read h.variables n

  abbrev pub store : M → Memory M → Place → Memory M
  store y h (item n) = record h { items = write y h.items n }
  store y h (variable n) = record h { variables = write y h.variables n }

  -- items[i] = &l.Items[i], for the items from the index on
  unfoldable pub pointers_from : ℕ → List M → List Place
  pointers_from i [] = []
  pointers_from i (x ∷ l) = item i ∷ pointers_from (suc i) l

  unfoldable pub get_items : List M → List Place
  get_items l = pointers_from 0 l

  map-pointers_from :
      (i : ℕ) (l : List M) (f : Place → Option M)
      → ((k : ℕ) → f (item (i + k)) ≡ read l k)
      → map f (pointers_from i l) ≡ map some l
  unfolding read pointers_from
  map-pointers_from i [] f h = refl
  map-pointers_from i (x ∷ l) f h =
      let here : i ≡ i + 0 = omega arith in
      let first : f (item i) ≡ some x = ap (λ n. f (item n)) here ∙ h 0 in
      let rest = map-pointers_from (suc i) l f (λ k.
        (let next : suc i + k ≡ i + suc k = omega arith in
          ap (λ n. f (item n)) next ∙ h (suc k))) in
      cc (first, rest)

  load-get_items : (h : Memory M) → map (load h) (get_items h.items) ≡ map some h.items
  unfolding get_items
  load-get_items h =
      map-pointers_from 0 h.items (load h)
        (λ k. (let start : 0 + k ≡ k = omega arith in ap (read h.items) start))

  pointers_from-write :
      (y : M) (l : List M) (k i : ℕ) → pointers_from i (write y l k) ≡ pointers_from i l
  unfolding pointers_from write
  pointers_from-write y [] k i = refl
  pointers_from-write y (x ∷ l) zero i = refl
  pointers_from-write y (x ∷ l) (suc k) i = ap (item i ∷◌) (pointers_from-write y l k (suc i))

  get_items-store :
      (y : M) (h : Memory M) (p : Place) → get_items (store y h p).items ≡ get_items h.items
  unfolding get_items
  get_items-store y h (item n) = pointers_from-write y h.items n 0
  get_items-store y h (variable n) = refl

  -- Writes to items and to variables, in their order.
  unfoldable pub store_all : List (Place × M) → Memory M → Memory M
  store_all [] h = h
  store_all ((p, y) ∷ writes) h = store_all writes (store y h p)

  get_items-store_all :
      (writes : List (Place × M)) (h : Memory M)
      → get_items (store_all writes h).items ≡ get_items h.items
  unfolding store_all
  get_items-store_all [] h = refl
  get_items-store_all ((p, y) ∷ writes) h =
      get_items-store_all writes (store y h p) ∙ get_items-store y h p

  -- The pointers that GetItems returns are to the list's own items and not to variables: whatever is
  -- written to either since, they read the list as it then is, every item once and in order.
  pub load-store_all-get_items :
      (writes : List (Place × M)) (h : Memory M)
      → map (load (store_all writes h)) (get_items h.items) ≡ map some (store_all writes h).items
  load-store_all-get_items writes h =
      ap (map (load (store_all writes h))) (sym (get_items-store_all writes h))
      ∙ load-get_items (store_all writes h)
