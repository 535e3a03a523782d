-- ===== src/Models/Discovery.antt =====
-- models.go modelJSON, modelNamesAttempt and modelNames, and upstream.go resolveRoute: how the models
-- are asked for, cached and resolved. What net/http returns for a request is an argument.
use trae_api.Prelude.{
  ℕ, ◌-◌, String, ◌==◌, string_eq, nat_eq, Bool, true, false, not, ◌&&◌, ◌||◌, Option, none, some,
  List, [], ◌∷◌, ◌++◌, map, any, if◌then◌else◌, ltb, eqb, or_else, Assoc, insert, lookup,
}
use trae_api.Fault.{
  Fault, failure, credential_rejected, login_required, bad_request, Result, ok, err,
}
use trae_api.Json.{Codec, Members, Value, null, at_key, first_string, field, records}
use trae_api.Chat.Validate.{is_empty}
use trae_api.Route.{ModelRoute}
use trae_api.Models.{ModelConfig, chat_functions, chat_function, model_configs, available}
use trae_api.Models.Routes.{all_entries, all_routes, routes_of}
use trae_api.Models.Cache.{ModelCache, Cache, prune_model_cache, store_models, model_cache_ttl}

-- What http.Client.Do and the decoder of the body give for a request.
pub data Answer : Type 0 where
  -- no connection; true when the context is done, with its error
  unsent : Option Fault → Answer
  -- the status, and the body decoded into a map; none is an error of the decoder
  answered : ℕ → Option (Option Members) → Answer

abbrev pub is_rejected : Fault → Bool
is_rejected credential_rejected = true
is_rejected _ = false

module _ ⦃go : Codec⦄ where
  abbrev check_code : Option Members → String → Result (Option Members)
  check_code root code =
      if not (code == "") && not (code == "0")
      then (if code == "1001" || code == "401" || code == "403"
          then err credential_rejected
          else err (failure "Trae model list business error"))
      else ok root

  unfoldable pub model_json : Answer → Result (Option Members)
  model_json (unsent (some e)) = err e
  model_json (unsent none) = err (failure "Trae model list connection failed")
  model_json (answered status body) =
      if eqb status 401 || eqb status 403
      then err credential_rejected
      else if not (eqb status 200)
      then err (failure "Trae model list returned HTTP")
      else (elim body [
        | none ↦ err (failure "invalid Trae model list response")
        | some root ↦ check_code root (first_string root ("code" ∷ []))
      ])

-- t.cache[g].routes[model]
unfoldable pub cached_route : ℕ → String → Cache → Option ModelRoute
cached_route g model cache = elim (lookup g cache) [
  | none ↦ none
  | some cached ↦ lookup model cached.routes
]

unfoldable pub is_valid : ℕ → ℕ → Cache → Bool
is_valid start g cache = elim (lookup g cache) [
  | none ↦ false
  | some cached ↦ ltb (start - cached.at) model_cache_ttl
]

abbrev pub Lists : Type 0
Lists = Assoc String (List ModelConfig)

-- field of a map that may be nil
abbrev field_of : ⦃go : Codec⦄ → Option Members → String → Value
field_of none k = null
field_of (some m) k = field m k

module _ ⦃go : Codec⦄ where
  -- The loop over "function_configs".
  unfoldable pub batch_lists : List Members → Lists → Lists
  unfolding chat_function model_configs
  batch_lists [] lists = lists
  batch_lists (group ∷ groups) lists =
      let fn = first_string (some group) ("function" ∷ []) in
      let grown =
        insert fn
          (or_else (lookup fn lists) [] ++ model_configs (at_key (some group) "config_info_list"))
          lists in
      batch_lists groups (if chat_function fn then grown else lists)

  -- hasBatchModels
  unfoldable pub has_models : Lists → Bool
  has_models lists = any (λ (p : String × List ModelConfig). any available p.1) lists

  -- The loop over the chat functions, one request for each; `answer` gives what each one returns.
  unfoldable pub single_lists :
      (String → Answer) → List String → Option Fault → Lists → Result (Option Fault × Lists)
  unfolding model_json
  single_lists answer [] first lists = ok (first, lists)
  single_lists answer (fn ∷ fns) first lists =
      let failed = λ (e : Fault).
        single_lists answer fns (elim first [ none ↦ some e | some x ↦ some x ]) lists in
      let found = λ (root : Option Members).
        single_lists answer fns first
          (insert fn (model_configs (field_of root "config_info_list")) lists) in
      elim (model_json (answer fn)) [
        | ok root ↦ found root
        | err e ↦ if is_rejected e then err e else failed e
      ]

  abbrev no_lists : Option Fault × Lists → Result Lists
  no_lists (some e, []) = err e
  no_lists (first, lists) = ok lists

  unfoldable pub discover : Answer → (String → Answer) → Result Lists
  unfolding batch_lists has_models single_lists model_json
  discover batch answer =
      let or_single = λ (lists : Lists).
        if has_models lists
        then ok lists
        else (elim (single_lists answer chat_functions none lists) [
          | ok p ↦ no_lists p
          | err e ↦ err e
        ]) in
      elim (model_json batch) [
        | ok root ↦ or_single (batch_lists (records (field_of root "function_configs")) [])
        | err e ↦ if is_rejected e then err e else or_single []
      ]

  -- The entry for the lists that were found. `sort` is sort.Strings.
  unfoldable pub fresh_entry : (List String → List String) → ℕ → Lists → ModelCache
  unfolding all_entries all_routes routes_of
  fresh_entry sort later lists =
      let entries = all_entries chat_functions lists [] in
      let chosen = all_routes entries entries in
      record {
        models = sort (map (λ (p : String × ModelRoute). p.0) chosen);
        at = later;
        routes = routes_of chosen [];
      }

  -- The names or the error, and the cache as it is left.
  unfoldable pub fill_cache : ℕ → ℕ → ModelCache → Cache → Result (List String) × Cache
  unfolding store_models
  fill_cache later g entry cache =
      if is_empty entry.models
      then (err (failure "Trae returned no available models"), cache)
      else (ok entry.models, store_models later g entry cache)

  -- `now` and `later` are the two readings of the clock. No other goroutine changes the cache while the
  -- models are asked for.
  unfoldable pub model_names_attempt :
      (List String → List String)
      → Answer
      → (String → Answer)
      → ℕ
      → ℕ
      → ℕ
      → Cache
      → Result (List String) × Cache
  unfolding prune_model_cache discover fresh_entry fill_cache
  model_names_attempt sort batch answer now later g cache =
      let pruned = prune_model_cache now cache in
      let asked : Result (List String) × Cache = elim (discover batch answer) [
        | ok lists ↦ fill_cache later g (fresh_entry sort later lists) pruned
        | err e ↦ (err e, pruned)
      ] in
      elim (lookup g pruned) [
        | none ↦ asked
        | some cached ↦ if is_empty cached.models then asked else (ok cached.models, pruned)
      ]

  abbrev pub for_client : Result (List String) → Result (List String)
  for_client (ok names) = ok names
  for_client (err e) = if is_rejected e then err login_required else err e

  unfoldable pub model_names :
      (List String → List String)
      → Answer
      → (String → Answer)
      → ℕ
      → ℕ
      → ℕ
      → Cache
      → Result (List String) × Cache
  unfolding model_names_attempt
  model_names sort batch answer now later g cache =
      let r = model_names_attempt sort batch answer now later g cache in (for_client r.0, r.1)

  -- The part of resolveRoute after the models were asked for.
  unfoldable pub listed_route :
      ℕ → String → Result (List String) → Cache → Result ModelRoute × Cache
  unfolding cached_route
  listed_route g model (err e) cache = (err e, cache)
  listed_route g model (ok names) cache = elim (cached_route g model cache) [
    | some route ↦ (ok route, cache)
    | none ↦ (err (bad_request "model is not available for this account"), cache)
  ]

  -- resolveRoute; `start` is its own reading of the clock
  unfoldable pub resolve_route :
      (List String → List String)
      → Answer
      → (String → Answer)
      → ℕ
      → ℕ
      → ℕ
      → ℕ
      → String
      → Cache
      → Result ModelRoute × Cache
  unfolding model_names cached_route is_valid listed_route
  resolve_route sort batch answer start now later g model cache =
      let r = model_names sort batch answer now later g cache in
      let asked = listed_route g model r.0 r.1 in
      elim (cached_route g model cache) [
        | some route ↦ if is_valid start g cache then (ok route, cache) else asked
        | none ↦ asked
      ]
