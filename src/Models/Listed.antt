-- ===== src/Models/Listed.antt =====
-- models.go modelNamesAttempt: the models that are listed have routes.
use trae_api.Prelude.{
  ℕ, ◌≤◌, String, ◌==◌, string_eq, nat_eq, true, some, List, [], ◌∷◌, map, ◌≡◌, subst, is_some,
  Assoc, insert, lookup, arith, All, All-map, All-lookup, Bool-cases, Option-cases, inl, inr,
  length,
}
use trae_api.Fault.{Result, ok, err}
use trae_api.Json.{Codec}
use trae_api.Chat.Validate.{is_empty}
use trae_api.Route.{ModelRoute}
use trae_api.Models.Routes.{routes_of}
use trae_api.Models.Cache.{ModelCache, Cache, model_cache_capacity, prune_model_cache}
use trae_api.Models.Capacity.{
  store_models-All, store_models-capacity, store_models-fresh, length-prune-le, prune-All,
}
use trae_api.Models.Served.{Served, all_routes-chosen, Routed, routes_of-listed}
use trae_api.Models.Discovery.{
  Answer, Lists, discover, fresh_entry, fill_cache, model_names_attempt, cached_route,
}

-- Every model that an entry lists has a route in it, and every route is served.
pub record Sound ⦃go : Codec⦄ (c : ModelCache) : Type 0 where
  pub routed : All (Routed c.routes) c.models
  pub lists : Lists
  pub served : All (Served lists) c.routes

abbrev pub AllSound : ⦃go : Codec⦄ → Cache → Type 0
AllSound cache = All (λ (p : ℕ × ModelCache). Sound p.1) cache

-- The outcome of a listing: the cache stays sound and within its capacity, and each name that is
-- returned has a served route in the account's entry.
pub record Listing ⦃go : Codec⦄ (g : ℕ) (r : Result (List String) × Cache) : Type 0 where
  pub sound : AllSound r.1
  pub small : length r.1 ≤ model_cache_capacity
  pub names :
      (names : List String)
      → r.0 ≡ ok names
      → All (λ k. is_some (cached_route g k r.1) ≡ true) names

module _ ⦃go : Codec⦄ where
  insert-Served :
      (lists : Lists) (k : String) (r : ModelRoute) (routes : Assoc String ModelRoute)
      → Served lists (k, r)
      → All (Served lists) routes
      → All (Served lists) (insert k r routes)
  unfolding insert
  insert-Served lists k r [] h s = (h, tt)
  insert-Served lists k r ((j, q) ∷ routes) h s = elim (Bool-cases (j == k)) [
    | inl t ↦ rw t (h, s.1)
    | inr t ↦ rw t (s.0, insert-Served lists k r routes h s.1)
  ]

  routes_of-Served :
      (lists : Lists) (rs : List (String × ModelRoute)) (routes : Assoc String ModelRoute)
      → All (Served lists) rs
      → All (Served lists) routes
      → All (Served lists) (routes_of rs routes)
  unfolding routes_of
  routes_of-Served lists [] routes h s = s
  routes_of-Served lists ((k, r) ∷ rs) routes h s =
      routes_of-Served lists rs (insert k r routes) h.1 (insert-Served lists k r routes h.0 s)

  keys-All :
      (P : String → Type 0) (rs : List (String × ModelRoute))
      → All (λ (p : String × ModelRoute). P p.0) rs
      → All P (map (λ (p : String × ModelRoute). p.0) rs)
  keys-All P [] h = tt
  keys-All P (p ∷ rs) h = (h.0, keys-All P rs h.1)

  -- sort.Strings keeps what holds of every element.
  abbrev Sorts : (List String → List String) → Type 1
  Sorts sort = (P : String → Type 0) (xs : List String) → All P xs → All P (sort xs)

  module _ (sort : List String → List String) (sorts : Sorts sort) where
    fresh_entry-Sound : (later : ℕ) (lists : Lists) → Sound (fresh_entry sort later lists)
    unfolding fresh_entry
    fresh_entry-Sound later lists = record {
      routed = sorts _ _ (keys-All _ _ (routes_of-listed _ []));
      lists = lists;
      served = routes_of-Served lists _ [] (all_routes-chosen lists) tt;
    }

    resolves :
        (g : ℕ) (e : ModelCache) (cache : Cache) (k : String)
        → lookup g cache ≡ some e
        → Routed e.routes k
        → is_some (cached_route g k cache) ≡ true
    unfolding cached_route
    resolves g e cache k h r = rw (h, is_some) r

    found :
        (g : ℕ) (e : ModelCache) (cache : Cache)
        → lookup g cache ≡ some e
        → Sound e
        → All (λ k. is_some (cached_route g k cache) ≡ true) e.models
    found g e cache h s = All-map (λ k r. resolves g e cache k h r) e.models s.routed

    fill_cache-Listing :
        (later g : ℕ) (e : ModelCache) (cache : Cache)
        → Sound e
        → AllSound cache
        → length cache ≤ model_cache_capacity
        → Listing g (fill_cache later g e cache)
    unfolding fill_cache
    fill_cache-Listing later g e cache o s l = elim (Bool-cases (is_empty e.models)) [
      | inl t ↦ rw t (record { sound = s; small = l; names = λ ns q. absurd (cc) })
      | inr t ↦ rw t (record {
        sound = store_models-All Sound later g e cache o s;
        small = store_models-capacity later g e cache l;
        names = λ ns q.
            let p : e.models ≡ ns = cc in
            subst (All _) p (found g e _ (store_models-fresh later g e cache).0 o);
      })
    ]

    asked-Listing :
        (o : Result Lists) (later g : ℕ) (cache : Cache)
        → AllSound cache
        → length cache ≤ model_cache_capacity
        → Listing g (elim o as (λ _. Result (List String) × Cache) [
          | ok lists ↦ fill_cache later g (fresh_entry sort later lists) cache
          | err e ↦ (err e, cache)
        ])
    asked-Listing (ok lists) later g cache s l =
        fill_cache-Listing later g (fresh_entry sort later lists) cache
          (fresh_entry-Sound later lists) s l
    asked-Listing (err e) later g cache s l = record {
      sound = s;
      small = l;
      names = λ ns q. absurd (cc);
    }

    kept-Listing :
        (g : ℕ) (e : ModelCache) (cache : Cache)
        → lookup g cache ≡ some e
        → AllSound cache
        → length cache ≤ model_cache_capacity
        → Listing g (ok e.models, cache)
    kept-Listing g e cache h s l = record {
      sound = s;
      small = l;
      names = λ ns q.
          let p : e.models ≡ ns = cc in
          subst (All _) p (found g e cache h (All-lookup Sound g cache s h));
    }

    -- If the cache is sound and within its capacity, listing the models keeps it so, and whenever
    -- names are returned, from the cache or from the network, each of them has a route in the entry
    -- of the account. The sort is taken to keep what holds of every element.
    pub model_names_attempt-Listing :
        (batch : Answer) (answer : String → Answer) (now later g : ℕ) (cache : Cache)
        → AllSound cache
        → length cache ≤ model_cache_capacity
        → Listing g (model_names_attempt sort batch answer now later g cache)
    unfolding model_names_attempt
    model_names_attempt-Listing batch answer now later g cache s l =
        let pruned = prune_model_cache now cache in
        let s2 = prune-All _ now cache s in
        let l2 : length pruned ≤ model_cache_capacity =
          omega (arith, l, length-prune-le now cache) in
        let asked = asked-Listing (discover batch answer) later g pruned s2 l2 in
        elim (Option-cases (lookup g pruned)) [
          | inl t ↦ rw (t, model_names_attempt) asked
          | inr (e, t) ↦ elim (Bool-cases (is_empty e.models)) [
            | inl n ↦ rw (t, model_names_attempt) (rw n asked)
            | inr n ↦ rw (t, model_names_attempt) (rw n (kept-Listing g e pruned t s2 l2))
          ]
        ]
