-- ===== src/Models/Capacity.antt =====
-- models.go modelNamesAttempt: the size of the cache of models, and what a write of it keeps.
use trae_api.Prelude.{
  ℕ, ◌+◌, ◌-◌, ◌≤◌, ◌<◌, ◌==◌, nat_eq, true, false, not, ◌&&◌, some, [], ◌∷◌, ◌≡◌, refl, sym, subst,
  ◌⊎◌, inl, inr, ltb, leb, is_some, lookup, delete, length, arith, Bool-cases, eqb_iff, All,
  length-insert-le, length-insert_present, length-delete_present, lookup-insert, All-insert,
  All-map,
}
use trae_api.Models.Cache.{
  ModelCache, Cache, model_cache_ttl, model_cache_capacity, prune_model_cache, oldest_from, oldest,
  make_room, store_models,
}

pub length-prune-le : (now : ℕ) (c : Cache) → length (prune_model_cache now c) ≤ length c
unfolding prune_model_cache
length-prune-le now [] = omega arith
length-prune-le now ((k, e) ∷ c) = ground (arith, length-prune-le now c)

present-here : (k : ℕ) (e : ModelCache) (c : Cache) → is_some (lookup k ((k, e) ∷ c)) ≡ true
unfolding lookup
present-here k e c = ground (arith, eqb_iff k k)

present-later :
    (j k : ℕ) (e : ModelCache) (c : Cache)
    → is_some (lookup j c) ≡ true
    → is_some (lookup j ((k, e) ∷ c)) ≡ true
unfolding lookup
present-later j k e c h = ground arith

-- What the loop for the oldest entry ends with: no entry is older, and it is the start or an entry.
record Oldest (b : ℕ × ℕ) (c : Cache) (r : ℕ × ℕ) : Type 0 where
  before : r.1 ≤ b.1
  least : All (λ (p : ℕ × ModelCache). r.1 ≤ p.1.at) c
  found : (r.0 ≡ b.0) ⊎ (is_some (lookup r.0 c) ≡ true)

oldest_from-Oldest : (b : ℕ × ℕ) (c : Cache) → Oldest b c (oldest_from b c)
unfolding oldest_from
oldest_from-Oldest b [] = record { before = omega arith; least = tt; found = inl refl }
oldest_from-Oldest b ((k, e) ∷ c) = elim (Bool-cases (ltb e.at b.1)) [
  | inl t ↦
      let o = oldest_from-Oldest (k, e.at) c in
      rw t (record {
        before = ground (arith, o.before);
        least = (o.before, o.least);
        found = elim o.found [
          | inl q ↦
              inr (subst (λ j. is_some (lookup j ((k, e) ∷ c)) ≡ true) (sym q) (present-here k e c))
          | inr h ↦ inr (present-later _ k e c h)
        ];
      })
  | inr t ↦
      let o = oldest_from-Oldest b c in
      rw t (record {
        before = o.before;
        least = (ground (arith, o.before), o.least);
        found = elim o.found [ inl q ↦ inl q | inr h ↦ inr (present-later _ k e c h) ];
      })
]

oldest-present : (c : Cache) → 0 < length c → is_some (lookup (oldest c) c) ≡ true
unfolding oldest
oldest-present [] h = absurd (omega arith)
oldest-present ((k, e) ∷ c) h = elim (oldest_from-Oldest (k, e.at) c).found [
  | inl q ↦ subst (λ j. is_some (lookup j ((k, e) ∷ c)) ≡ true) (sym q) (present-here k e c)
  | inr i ↦ present-later _ k e c i
]

-- A new key has room.
make_room-length :
    (g : ℕ) (c : Cache)
    → length c ≤ model_cache_capacity
    → is_some (lookup g c) ≡ false
    → length (make_room g c) + 1 ≤ model_cache_capacity
unfolding make_room
make_room-length g c h n = elim (Bool-cases (leb model_cache_capacity (length c))) [
  | inl t ↦
      rw (n, t)
        (omega (arith, length-delete_present (oldest c) c (oldest-present c (ground arith)), h))
  | inr t ↦ rw (n, t) (ground arith)
]

make_room-present : (g : ℕ) (c : Cache) → is_some (lookup g c) ≡ true → make_room g c ≡ c
unfolding make_room
make_room-present g c t = rw t refl

-- A write never leaves more than model_cache_capacity entries in a cache that had no more.
pub store_models-capacity :
    (now g : ℕ) (entry : ModelCache) (cache : Cache)
    → length cache ≤ model_cache_capacity
    → length (store_models now g entry cache) ≤ model_cache_capacity
unfolding store_models
store_models-capacity now g entry cache h =
    let c = prune_model_cache now cache in
    elim (Bool-cases (is_some (lookup g c))) [
      | inl t ↦
          rw (make_room-present g c t)
            (omega (arith, length-insert_present g entry c t, h, length-prune-le now cache))
      | inr t ↦ omega (
        arith,
        length-insert-le g entry (make_room g c),
        make_room-length g c (omega (arith, h, length-prune-le now cache)) t,
      )
    ]

pub prune-fresh :
    (now : ℕ) (c : Cache)
    → All (λ (p : ℕ × ModelCache). now - p.1.at < model_cache_ttl) (prune_model_cache now c)
unfolding prune_model_cache
prune-fresh now [] = tt
prune-fresh now ((k, e) ∷ c) = elim (Bool-cases (leb model_cache_ttl (now - e.at))) [
  | inl t ↦ rw t (prune-fresh now c)
  | inr t ↦ rw t (ground arith, prune-fresh now c)
]

pub prune-All :
    (P : ℕ × ModelCache → Type 0) (now : ℕ) (c : Cache) → All P c → All P (prune_model_cache now c)
unfolding prune_model_cache
prune-All P now [] h = tt
prune-All P now ((k, e) ∷ c) h = elim (Bool-cases (leb model_cache_ttl (now - e.at))) [
  | inl t ↦ rw t (prune-All P now c h.1)
  | inr t ↦ rw t (h.0, prune-All P now c h.1)
]

All-delete : (P : ℕ × ModelCache → Type 0) (g : ℕ) (c : Cache) → All P c → All P (delete g c)
unfolding delete
All-delete P g [] h = tt
All-delete P g ((k, e) ∷ c) h = elim (Bool-cases (k == g)) [
  | inl t ↦ rw t (All-delete P g c h.1)
  | inr t ↦ rw t (h.0, All-delete P g c h.1)
]

pub make_room-All :
    (P : ℕ × ModelCache → Type 0) (g : ℕ) (c : Cache) → All P c → All P (make_room g c)
unfolding make_room
make_room-All P g c h =
    elim (Bool-cases (not (is_some (lookup g c)) && leb model_cache_capacity (length c))) [
      | inl t ↦ rw t (All-delete P (oldest c) c h)
      | inr t ↦ rw t h
    ]

-- After a write, every entry but the new one is younger than the time to live, and the new one is
-- found under its key.
pub store_models-fresh :
    (now g : ℕ) (entry : ModelCache) (cache : Cache)
    → (lookup g (store_models now g entry cache) ≡ some entry)
      × All
          (λ (p : ℕ × ModelCache). (p.1 ≡ entry) ⊎ (now - p.1.at < model_cache_ttl))
          (store_models now g entry cache)
unfolding store_models
store_models-fresh now g entry cache = (
  ground (arith, lookup-insert g g entry (make_room g (prune_model_cache now cache)), eqb_iff g g),
  All-insert (λ e. (e ≡ entry) ⊎ (now - e.at < model_cache_ttl)) g entry
      (make_room g (prune_model_cache now cache)) (inl refl)
      (make_room-All _ g (prune_model_cache now cache)
        (All-map (λ p h. inr h) _ (prune-fresh now cache))),
)

pub store_models-All :
    (P : ModelCache → Type 0) (now g : ℕ) (entry : ModelCache) (cache : Cache)
    → P entry
    → All (λ (p : ℕ × ModelCache). P p.1) cache
    → All (λ (p : ℕ × ModelCache). P p.1) (store_models now g entry cache)
unfolding store_models
store_models-All P now g entry cache h s =
    All-insert P g entry _ h (make_room-All _ g _ (prune-All _ now cache s))
