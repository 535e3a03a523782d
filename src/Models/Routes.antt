-- ===== src/Models/Routes.antt =====
-- models.go modelNamesAttempt: the entries of the available models, and the routes chosen from
-- them. The Go map `entries` is an association list, and so is `routes`; the source goes through
-- the entries in the order of a map, here in that of the list.
use trae_api.Prelude.{
  ℕ, String, string_eq, ◌<>◌, ◌&&◌, Option, none, some, List, [], ◌∷◌, ◌++◌, map, if◌then◌else◌,
  ltb, eqb, is_some, or_else, Assoc, insert, lookup,
}
use trae_api.Json.{Codec}
use trae_api.Route.{ModelRoute}
use trae_api.Models.{ModelConfig, ModelEntry, detail, available}

abbrev pub Groups : Type 0
Groups = Assoc String (List ModelEntry)

module _ ⦃go : Codec⦄ where
  -- The loop over the configurations of one function.
  unfoldable pub add_entries : String → List ModelConfig → Groups → Groups
  unfolding available
  add_entries fn [] groups = groups
  add_entries fn (m ∷ ms) groups =
      let entry : ModelEntry = record { function = fn; config = m } in
      let grown = insert m.name (or_else (lookup m.name groups) [] ++ entry ∷ []) groups in
      add_entries fn ms (if available m then grown else groups)

  unfoldable pub all_entries : List String → Assoc String (List ModelConfig) → Groups → Groups
  unfolding add_entries
  all_entries [] lists groups = groups
  all_entries (fn ∷ fns) lists groups =
      all_entries fns lists (add_entries fn (or_else (lookup fn lists) []) groups)

-- The first entry with a "__dev" detail; failing that, the first entry.
unfoldable pub choose_entry : ModelEntry → List ModelEntry → ModelEntry
choose_entry first [] = first
choose_entry first (e ∷ es) =
    let rest = choose_entry first es in if is_some (detail e.config "__dev") then e else rest

unfoldable pub base_route : String → ModelEntry → ModelRoute
base_route id chosen = elim (detail chosen.config "__dev") [
  | none ↦ record { function = chosen.function; name = ""; base = id; most = 0; window = 0 }
  | some dev ↦ record {
    function = chosen.function;
    name = dev.name;
    base = id;
    most = dev.max_tokens;
    window = 0;
  }
]

-- The first number of a list that is not 0.
unfoldable pub first_of : List ℕ → ℕ
first_of [] = 0
first_of (n ∷ ns) = let rest = first_of ns in if eqb n 0 then rest else n

abbrev max_window : ModelEntry → ℕ
max_window e = e.config.max_window

abbrev dev_window : ModelEntry → ℕ
dev_window e = e.config.dev_window

-- The route of the long window, from the first entry that has one.
unfoldable pub max_route : String → List ModelEntry → List ModelEntry → Option ModelRoute
unfolding first_of
max_route id group [] = none
max_route id group (e ∷ es) =
    let rest = max_route id group es in
    let window = first_of (map max_window (e ∷ group)) in
    let dev = first_of (map dev_window (e ∷ group)) in
    elim (detail e.config "__max") [
      | none ↦ rest
      | some max ↦
          if ltb dev window && ltb 0 window
          then some (record {
            function = e.function;
            name = max.name;
            base = id;
            most = max.max_tokens;
            window = window;
          })
          else rest
    ]

-- One turn of the loop over the entries: the routes that it adds.
unfoldable pub group_routes : Groups → String → List ModelEntry → List (String × ModelRoute)
unfolding choose_entry base_route max_route
group_routes groups id [] = []
group_routes groups id (first ∷ others) =
    let group = first ∷ others in
    (id, base_route id (choose_entry first group))
    ∷ (if is_some (lookup (id <> "-max") groups)
        then []
        else (elim (max_route id group group) [ none ↦ [] | some r ↦ (id <> "-max", r) ∷ [] ]))

unfoldable pub all_routes : Groups → Groups → List (String × ModelRoute)
unfolding group_routes
all_routes groups [] = []
all_routes groups ((id, group) ∷ rest) = group_routes groups id group ++ all_routes groups rest

-- routes[key] = route, one after the other
unfoldable pub routes_of :
    List (String × ModelRoute) → Assoc String ModelRoute → Assoc String ModelRoute
routes_of [] routes = routes
routes_of ((k, r) ∷ rest) routes = routes_of rest (insert k r routes)
