-- ===== src/Http/ModelList.antt =====
-- http.go: the handler of the list of models (models), over readAPICredential and modelNames.
use trae_api.Prelude.{ℕ, ◌≤◌, String, true, List, ◌≡◌, is_some, if-cases, inl, inr, All, length}
use trae_api.Fault.{status_for_error, Result, ok, err}
use trae_api.Json.{Codec}
use trae_api.Models.Cache.{Cache, model_cache_capacity}
use trae_api.Models.Discovery.{Answer, cached_route, model_names, for_client, is_rejected}
use trae_api.Models.Listed.{AllSound, model_names_attempt-Listing}
use trae_api.Store.Codec.{ApiCredential}
use trae_api.Http.{error_type}

pub data ModelsResponse : Type 0 where
  errored : ℕ → String → ModelsResponse
  listed : List String → ModelsResponse

abbrev respond : Result (List String) → ModelsResponse
respond (err e) = errored (status_for_error e) (error_type (status_for_error e))
respond (ok names) = listed names

-- The identity of the snapshot is snapshotIdentity.
unfoldable pub models :
    ⦃go : Codec⦄
    → (List String → List String)
    → Answer
    → (String → Answer)
    → ℕ
    → ℕ
    → (ApiCredential → ℕ)
    → Result ApiCredential
    → Cache
    → ModelsResponse × Cache
unfolding model_names
models sort batch answer now later identity credential cache = elim credential [
  | err e ↦ (respond (err e), cache)
  | ok c ↦
      let asked = model_names sort batch answer now later (identity c) cache in
      (respond asked.0, asked.1)
]

respond-listed :
    (m : Result (List String)) (names : List String) → respond m ≡ listed names → m ≡ ok names
respond-listed (err e) names h = absurd (cc)
respond-listed (ok xs) names h = cc

module _ ⦃go : Codec⦄ where
  for_client-ok :
      (m : Result (List String)) (names : List String) → for_client m ≡ ok names → m ≡ ok names
  for_client-ok (ok xs) names h = h
  for_client-ok (err e) names h = elim (if-cases (is_rejected e) h) [
    | inl (t, h) ↦ absurd (cc)
    | inr (t, h) ↦ h
  ]

  -- When the API lists models, every name that it lists has a route in the entry of the account, as the
  -- cache is left: the cache was sound and within its capacity, and sorting keeps what holds of every
  -- element.
  pub models-routed :
      (sort : List String → List String)
      → ((P : String → Type 0) (xs : List String) → All P xs → All P (sort xs))
      → (batch : Answer) (answer : String → Answer) (now later : ℕ) (identity : ApiCredential → ℕ)
        (c : ApiCredential) (cache : Cache) (names : List String)
      → AllSound cache
      → length cache ≤ model_cache_capacity
      → (models sort batch answer now later identity (ok c) cache).0 ≡ listed names
      → All
          (λ k.
            is_some (
              cached_route
                (identity c)
                k
                (models sort batch answer now later identity (ok c) cache).1)
            ≡ true)
          names
  unfolding models model_names
  models-routed sort sorts batch answer now later identity c cache names sound small h =
      (model_names_attempt-Listing sort sorts batch answer now later (identity c) cache sound
          small).names
        names (for_client-ok _ names (respond-listed _ names h))
