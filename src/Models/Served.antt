-- ===== src/Models/Served.antt =====
-- models.go modelNamesAttempt: what the routes that are chosen lead to.
use mathlib.Core.List.{Mem, mem-cons_self, mem-cons_of_mem}
use trae_api.Prelude.{
  ◌<◌, String, ◌==◌, string_eq, text_eq, ◌<>◌, Bool, true, false, Option, none, some, List, [], ◌∷◌,
  ◌≡◌, refl, subst, ◌⊎◌, inl, inr, if◌then◌else◌, is_some, or_else, Assoc, insert, lookup, arith,
  All, All-map, All-append, Bool-cases, Option-cases, text_eq_iff, lookup-insert,
}
use trae_api.Json.{Codec}
use trae_api.Route.{ModelRoute}
use trae_api.Models.{
  ModelDetail, ModelConfig, ModelEntry, chat_functions, chat_function, detail, available,
}
use trae_api.Models.Routes.{
  Groups, add_entries, all_entries, choose_entry, base_route, max_route, group_routes, all_routes,
  routes_of,
}

members : {A : Type 0} (xs : List A) → All (λ x. Mem x xs) xs
members [] = tt
members (x ∷ xs) = (mem-cons_self, All-map (λ y h. mem-cons_of_mem x h) xs (members xs))

module _ ⦃go : Codec⦄ (lists : Assoc String (List ModelConfig)) where
  -- An entry for an available model of this name, in the list of a chat function.
  pub record Entry (id : String) (e : ModelEntry) : Type 0 where
    pub offered : available e.config ≡ true
    pub named : e.config.name ≡ id
    pub chat : chat_function e.function ≡ true
    pub listed : Mem e.config (or_else (lookup e.function lists) [])

  -- The long window has the name and the limit of a detail "__max" of the entry.
  abbrev Long : ModelRoute → ModelEntry → Type 0
  Long r e =
      (0 < r.window)
      × ((d : ModelDetail) × (detail e.config "__max" ≡ some d)
          × (r.name ≡ d.name)
          × (r.most ≡ d.max_tokens))

  -- A route to an available model, through the function that lists it: under its name, or under the
  -- name of its long window.
  pub record Served (p : String × ModelRoute) : Type 0 where
    pub entry : ModelEntry
    pub good : Entry p.1.base entry
    pub function : p.1.function ≡ entry.function
    pub key : ((p.0 ≡ p.1.base) × (p.1.window ≡ 0)) ⊎ ((p.0 ≡ p.1.base <> "-max") × Long p.1 entry)

  abbrev Good : Groups → Type 0
  Good groups = All (λ (g : String × List ModelEntry). All (Entry g.0) g.1) groups

  choose_entry-All :
      (P : ModelEntry → Type 0) (first : ModelEntry) (es : List ModelEntry)
      → P first
      → All P es
      → P (choose_entry first es)
  unfolding choose_entry
  choose_entry-All P first [] p h = p
  choose_entry-All P first (e ∷ es) p h = elim (Bool-cases (is_some (detail e.config "__dev"))) [
    | inl t ↦ rw t h.0
    | inr t ↦ rw t (choose_entry-All P first es p h.1)
  ]

  base_route-Served : (id : String) (e : ModelEntry) → Entry id e → Served (id, base_route id e)
  unfolding base_route
  base_route-Served id e h = elim (Option-cases (detail e.config "__dev")) [
    | inl t ↦
        rw (t, base_route) (record { entry = e; good = h; function = refl; key = inl (refl, refl) })
    | inr (d, t) ↦
        rw (t, base_route) (record { entry = e; good = h; function = refl; key = inl (refl, refl) })
  ]

  abbrev Max : String → Option ModelRoute → Type 0
  Max id none = Unit {0}
  Max id (some r) = Served (id <> "-max", r)

  Max-if :
      (id : String) (b : Bool) (r : ModelRoute) (rest : Option ModelRoute)
      → (b ≡ true → Served (id <> "-max", r))
      → Max id rest
      → Max id (if b then some r else rest)
  Max-if id true r rest h k = h refl
  Max-if id false r rest h k = k

  max_route-Max :
      (id : String) (group es : List ModelEntry)
      → All (Entry id) es
      → Max id (max_route id group es)
  unfolding max_route
  max_route-Max id group [] h = tt
  max_route-Max id group (e ∷ es) h = elim (Option-cases (detail e.config "__max")) [
    | inl t ↦ rw (t, max_route) (max_route-Max id group es h.1)
    | inr (d, t) ↦
        rw (t, max_route)
          (Max-if id _ _ _
            (λ q. record {
              entry = e;
              good = h.0;
              function = refl;
              key = inr (refl, (ground arith, (d, t, refl, refl)));
            })
            (max_route-Max id group es h.1))
  ]

  Max-Served :
      (id : String) (o : Option ModelRoute)
      → Max id o
      → All Served (elim o [ none ↦ [] | some r ↦ (id <> "-max", r) ∷ [] ])
  Max-Served id none h = tt
  Max-Served id (some r) h = (h, tt)

  group_routes-Served :
      (groups : Groups) (id : String) (es : List ModelEntry)
      → All (Entry id) es
      → All Served (group_routes groups id es)
  unfolding group_routes
  group_routes-Served groups id [] h = tt
  group_routes-Served groups id (e ∷ es) h = (
    base_route-Served id _ (choose_entry-All (Entry id) e (e ∷ es) h.0 h),
    elim (Bool-cases (is_some (lookup (id <> "-max") groups))) [
      | inl t ↦ rw t tt
      | inr t ↦
          rw t
            (Max-Served id (max_route id (e ∷ es) (e ∷ es)) (max_route-Max id (e ∷ es) (e ∷ es) h))
    ],
  )

  pub all_routes-Served : (groups gs : Groups) → Good gs → All Served (all_routes groups gs)
  unfolding all_routes
  all_routes-Served groups [] h = tt
  all_routes-Served groups ((id, es) ∷ gs) h =
      All-append Served (group_routes groups id es) (all_routes groups gs)
        (group_routes-Served groups id es h.0) (all_routes-Served groups gs h.1)

  Good-insert :
      (id : String) (es : List ModelEntry) (groups : Groups)
      → All (Entry id) es
      → Good groups
      → Good (insert id es groups)
  unfolding insert
  Good-insert id es [] h g = (h, tt)
  Good-insert id es ((j, fs) ∷ groups) h g = elim (Bool-cases (j == id)) [
    | inl t ↦ rw t (h, g.1)
    | inr t ↦ rw t (g.0, Good-insert id es groups h g.1)
  ]

  Good-lookup :
      (id : String) (groups : Groups) → Good groups → All (Entry id) (or_else (lookup id groups) [])
  unfolding lookup
  Good-lookup id [] g = tt
  Good-lookup id ((j, fs) ∷ groups) g = elim (Bool-cases (j == id)) [
    | inl t ↦ rw t (subst (λ k. All (Entry k) fs) ((text_eq_iff j id).0 t) g.0)
    | inr t ↦ rw t (Good-lookup id groups g.1)
  ]

  add_entries-Good :
      (fn : String) (ms : List ModelConfig) (groups : Groups)
      → chat_function fn ≡ true
      → All (λ m. Mem m (or_else (lookup fn lists) [])) ms
      → Good groups
      → Good (add_entries fn ms groups)
  unfolding add_entries
  add_entries-Good fn [] groups c l g = g
  add_entries-Good fn (m ∷ ms) groups c l g = elim (Bool-cases (available m)) [
    | inl t ↦
        rw (t, add_entries)
          (add_entries-Good fn ms _ c l.1 (
            Good-insert m.name _ groups
              (All-append (Entry m.name) (or_else (lookup m.name groups) []) _
                (Good-lookup m.name groups g)
                (record { offered = t; named = refl; chat = c; listed = l.0 }, tt))
              g))
    | inr t ↦ rw (t, add_entries) (add_entries-Good fn ms groups c l.1 g)
  ]

  all_entries-Good :
      (fns : List String) (groups : Groups)
      → All (λ fn. chat_function fn ≡ true) fns
      → Good groups
      → Good (all_entries fns lists groups)
  unfolding all_entries
  all_entries-Good [] groups c g = g
  all_entries-Good (fn ∷ fns) groups c g =
      all_entries-Good fns _ c.1
        (add_entries-Good fn (or_else (lookup fn lists) []) groups c.0 (members _) g)

  all_chat : All (λ fn. chat_function fn ≡ true) chat_functions
  unfolding chat_function text_eq
  all_chat = (refl, (refl, (refl, (refl, tt))))

  -- Every route that is chosen leads to a chat function in whose list an available model of the route's
  -- base name stands; it is found under that name without a long window, or under the name with "-max"
  -- with one, and then it has the name and the limit of a "__max" detail of that model.
  pub all_routes-chosen :
      All Served
        (all_routes (all_entries chat_functions lists []) (all_entries chat_functions lists []))
  all_routes-chosen = all_routes-Served _ _ (all_entries-Good chat_functions [] all_chat tt)

-- A key that was listed has a route.
abbrev pub Routed : Assoc String ModelRoute → String → Type 0
Routed routes k = is_some (lookup k routes) ≡ true

Routed-insert :
    (k j : String) (r : ModelRoute) (routes : Assoc String ModelRoute)
    → Routed routes k
    → Routed (insert j r routes) k
Routed-insert k j r routes h = ground (arith, lookup-insert j k r routes)

routes_of-Routed :
    (rs : List (String × ModelRoute)) (routes : Assoc String ModelRoute) (k : String)
    → Routed routes k
    → Routed (routes_of rs routes) k
unfolding routes_of
routes_of-Routed [] routes k h = h
routes_of-Routed ((j, r) ∷ rs) routes k h =
    routes_of-Routed rs (insert j r routes) k (Routed-insert k j r routes h)

pub routes_of-listed :
    (rs : List (String × ModelRoute)) (routes : Assoc String ModelRoute)
    → All (λ (p : String × ModelRoute). Routed (routes_of rs routes) p.0) rs
unfolding routes_of
routes_of-listed [] routes = tt
routes_of-listed ((j, r) ∷ rs) routes = (
  routes_of-Routed rs (insert j r routes) j
      (ground (arith, lookup-insert j j r routes, text_eq_iff j j)),
  routes_of-listed rs (insert j r routes),
)
