-- ===== src/Tests/Accessors.antt =====
-- GetItems of a list of three items.
use provider_upjet_unifi.Base.{◌≡◌, refl, String, some, List, [], ◌∷◌, map}
use provider_upjet_unifi.Accessors.Items.{
  Place, item, variable, Memory, write, load, pointers_from, get_items, store_all,
  load-store_all-get_items,
}

abbrev memory : Memory String
memory = record { items = "alice" ∷ "bob" ∷ "carol" ∷ []; variables = "bob" ∷ [] }

-- The second item is replaced, and then a variable that held a copy of it.
abbrev writes : List (Place × String)
writes = (item 1, "dave") ∷ (variable 0, "erin") ∷ []

both_stored :
    store_all writes memory
    ≡ record { items = "alice" ∷ "dave" ∷ "carol" ∷ []; variables = "erin" ∷ [] }
unfolding store_all write
both_stored = refl

three_pointers : get_items memory.items ≡ item 0 ∷ item 1 ∷ item 2 ∷ []
unfolding get_items pointers_from
three_pointers = refl

load-store_all-get_items_example :
    map (load (store_all writes memory)) (get_items memory.items)
    ≡ map some (store_all writes memory).items
load-store_all-get_items_example = load-store_all-get_items writes memory
