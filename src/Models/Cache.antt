-- ===== src/Models/Cache.antt =====
-- models.go modelCache, pruneModelCache and the end of modelNamesAttempt: the cache of the models
-- by account. A time is its nanoseconds since some start, and none of them is the zero Time; a
-- difference below 0 counts as 0, which is below the time to live too.
use trae_api.Prelude.{
  ℕ, ◌-◌, String, nat_eq, string_eq, not, ◌&&◌, List, [], ◌∷◌, if◌then◌else◌, ltb, leb, is_some,
  Assoc, insert, lookup, delete, length,
}
use trae_api.Route.{ModelRoute}

pub record ModelCache : Type 0 where
  pub models : List String
  pub at : ℕ
  pub routes : Assoc String ModelRoute

abbrev pub Cache : Type 0
Cache = Assoc ℕ ModelCache

abbrev pub model_cache_ttl : ℕ
model_cache_ttl = 300000000000

abbrev pub model_cache_capacity : ℕ
model_cache_capacity = 8

-- pruneModelCache: drops the entries that have reached the time to live.
unfoldable pub prune_model_cache : ℕ → Cache → Cache
prune_model_cache now [] = []
prune_model_cache now ((k, c) ∷ rest) =
    let kept = prune_model_cache now rest in
    if leb model_cache_ttl (now - c.at) then kept else (k, c) ∷ kept

-- The loop that looks for the oldest entry, from the one found so far.
unfoldable pub oldest_from : ℕ × ℕ → Cache → ℕ × ℕ
oldest_from best [] = best
oldest_from best ((k, c) ∷ rest) = oldest_from (if ltb c.at best.1 then (k, c.at) else best) rest

-- The key of the oldest entry; the key 0 when there is none.
unfoldable pub oldest : Cache → ℕ
unfolding oldest_from
oldest [] = 0
oldest ((k, c) ∷ rest) = (oldest_from (k, c.at) rest).0

-- The write of a new entry, which evicts the oldest one when the cache is full.
unfoldable pub make_room : ℕ → Cache → Cache
unfolding oldest
make_room g cache =
    if not (is_some (lookup g cache)) && leb model_cache_capacity (length cache)
    then delete (oldest cache) cache
    else cache

unfoldable pub store_models : ℕ → ℕ → ModelCache → Cache → Cache
unfolding prune_model_cache make_room
store_models now g entry cache = insert g entry (make_room g (prune_model_cache now cache))
