-- ===== src/Models/Held.antt =====
-- upstream.go resolveRoute: the route that is given, and how old the entry is that holds it.
use trae_api.Prelude.{ℕ, ◌<◌, ◌-◌, ◌⊎◌, String, string_eq, nat_eq, some, List, ◌≡◌, lookup}
use trae_api.Fault.{Fault, Result, ok}
use trae_api.Json.{Codec}
use trae_api.Route.{ModelRoute}
use trae_api.Models.Cache.{ModelCache, Cache, model_cache_ttl}
use trae_api.Models.Discovery.{Answer}

-- An entry has not reached the time to live at the time `now`.
abbrev Young : ℕ → ModelCache → Type 0
Young now e = now - e.at < model_cache_ttl

-- The entry was young when it was looked up, at one of two times, or it was made at a third one.
abbrev pub Recent : ℕ → ℕ → ℕ → ModelCache → Type 0
Recent start now later e = Young start e ⊎ (Young now e ⊎ (e.at ≡ later))

-- The account's entry of the cache, if there is one.
abbrev EntryIs : ℕ → Cache → (ModelCache → Type 0) → Type 0
EntryIs g cache P = (e : ModelCache) → lookup g cache ≡ some e → P e

-- What an outcome says of a route: the cache, as it is left, holds it for the account and the model, in an
-- entry of which P holds.
pub record Held (P : ModelCache → Type 0) (g : ℕ) (model : String) (r : Result ModelRoute × Cache)
    : Type 0 where
  pub held :
      (route : ModelRoute)
      → r.0 ≡ ok route
      → (e : ModelCache) × (lookup g r.1 ≡ some e) × (lookup model e.routes ≡ some route) × P e

module _ ⦃go : Codec⦄ (sort : List String → List String) (batch : Answer) (answer : String → Answer)
    (start now later g : ℕ) (model : String) (cache : Cache) where
  -- What a listing leaves when it gives names.
  abbrev Left : Result (List String) × Cache → Type 0
  Left r = (names : List String) → r.0 ≡ ok names → EntryIs g r.1 (Recent start now later)
