-- ===== src/Server.antt =====
-- main.go and the attempt of upstream.go: how a request is carried out (acquireGate, execute,
-- promptAttempt, prompt), from its validation to the completion that the stream ends in.
--
-- What the network, the clock, the credential file and the random source give is the record Outside.
-- The cache of the models is what this request leaves of it; a gate is the number of its slots in use.
pub mod Config
pub mod Gateway
pub mod Lifecycle
mod Io
pub mod Sent
pub mod Answered
pub use trae_api.Server.Io.{
  Asking, Reply, malformed, unsent, replied, Wait, slot, done, timeout, Outside, Executed,
}
use trae_api.Prelude.{
  ℕ, ◌+◌, ◌-◌, String, ◌==◌, string_eq, Bool, true, false, not, ◌||◌, Option, none, some, List, [],
  ◌∷◌, ◌++◌, if◌then◌else◌, eqb,
}
use trae_api.Fault.{
  Fault, api, bad_request, failure, panic, login_required, credential_rejected, Result, ok, err,
}
use trae_api.Json.{Codec}
use trae_api.Chat.{ChatRequest, Completion}
use trae_api.Chat.Validate.{validate_request}
use trae_api.Chat.History.{validate_tool_history}
use trae_api.Route.{ModelRoute, Body, build_routed_ide_body}
use trae_api.Models.Cache.{Cache}
use trae_api.Models.Discovery.{Answer, model_names, resolve_route}
use trae_api.Store.Codec.{ApiCredential}
use trae_api.Upstream.{Delta, blank, Host, Accumulator, Step, next, fail}
use trae_api.Upstream.Stream.{read_ide_stream}

unfoldable pub acquire_gate : Option Fault → Wait → ℕ → Result (Unit {0}) × ℕ
acquire_gate (some e) wait used = (err e, used)
acquire_gate none slot used = (ok tt, used + 1)
acquire_gate none (done e) used = (err e, used)
acquire_gate none timeout used = (err (api 503 "request queue timed out"), used)

abbrev start_delta : String → Delta
start_delta model = record blank { start = true; model = model }

-- The emit that the reader of the stream meets, after `before` was delivered.
abbrev after_deltas : Host → List Delta → Host
after_deltas host before = record {
  new_id = host.new_id;
  emit = λ ds d. host.emit (ds ++ before) d;
}

abbrev streamed : List Delta → Step (Completion × Accumulator) → Result Completion × List Delta
streamed before (next (c, a)) = (ok c, a.delivered ++ before)
streamed before (fail e a) = (err e, a.delivered ++ before)

module _ ⦃go : Codec⦄ where
  abbrev ask : Outside → Asking → ℕ → Cache → Result (List String) × Cache
  ask o a g cache = model_names o.sort a.batch a.single a.now a.later g cache

  abbrev route_of : Outside → Asking → ℕ → String → Cache → Result ModelRoute × Cache
  route_of o a g model cache =
      resolve_route o.sort a.batch a.single a.start a.now a.later g model cache

  abbrev read_reply : Host → List Delta → ChatRequest → Reply → Result Completion × List Delta
  read_reply host before r (malformed e) = (err e, before)
  read_reply host before r (unsent (some e)) = (err e, before)
  read_reply host before r (unsent none) = (err (failure "Trae IDE connection failed"), before)
  read_reply host before r (replied status lines broken) =
      if eqb status 401 || eqb status 403
      then (err credential_rejected, before)
      else if not (eqb status 200)
      then (err (failure "Trae IDE returned HTTP"), before)
      else (let read = read_ide_stream ⦃host = after_deltas host before⦄ lines broken r in
          streamed before read)

  -- promptAttempt, after `before` was delivered
  unfoldable pub prompt_attempt :
      Host
      → Outside
      → ApiCredential
      → List Delta
      → ChatRequest
      → Cache
      → (Result Completion × List Delta) × Cache
  unfolding resolve_route
  prompt_attempt host o c before r cache =
      let found = route_of o o.third (o.identity c) r.model cache in
      let result : Result Completion × List Delta = elim found.0 [
        | err e ↦ (err e, before)
        | ok route ↦
            read_reply host before r (o.reply c (build_routed_ide_body r o.request_id route))
      ] in
      (result, found.1)

  abbrev client_fault : Fault → Fault
  client_fault credential_rejected = login_required
  client_fault e = e

  abbrev for_client : Result Completion → Result Completion
  for_client (err e) = err (client_fault e)
  for_client (ok c) = ok c

  unfoldable pub prompt :
      Host
      → Outside
      → ApiCredential
      → List Delta
      → ChatRequest
      → Cache
      → (Result Completion × List Delta) × Cache
  unfolding prompt_attempt
  prompt host o c before r cache =
      let ((m, ds), left) = prompt_attempt host o c before r cache in ((for_client m, ds), left)

  -- The model that "" and "auto" stand for: models[0].
  abbrev first_model : Result (List String) → Result String
  first_model (err e) = err e
  first_model (ok []) = err panic
  first_model (ok (m ∷ ms)) = ok m

  unfoldable pub pick_model :
      Outside → ApiCredential → ChatRequest → Cache → Result ChatRequest × Cache
  pick_model o c r cache =
      if r.model == "" || r.model == "auto"
      then (let asked = ask o o.first (o.identity c) cache in
          let picked : Result ChatRequest = elim (first_model asked.0) [
            | err e ↦ err e
            | ok m ↦ ok (record r { model = m })
          ] in
          (picked, asked.1))
      else (ok r, cache)

  -- The start delta, unless emit is nil: its error, and what was delivered.
  abbrev start_stream : Bool → Host → String → Option Fault × List Delta
  start_stream false host model = (none, [])
  start_stream true host model = elim (host.emit [] (start_delta model)) [
    | none ↦ (none, start_delta model ∷ [])
    | some e ↦ (some e, [])
  ]

  abbrev pub refuse : ChatRequest → Fault → Cache → ℕ → Executed
  refuse r e cache used = record {
    request = r;
    outcome = err e;
    delivered = [];
    cache = cache;
    used = used;
  }

  -- From the start delta on, for a model that has a route.
  unfoldable pub answer_request :
      Bool → Host → Outside → ApiCredential → ChatRequest → Cache → ℕ → Executed
  unfolding prompt
  answer_request emitting host o c r cache used =
      let (failed, before) = start_stream emitting host r.model in
      elim failed [
        | some e ↦ refuse r e cache used
        | none ↦
            let ((m, ds), left) = prompt host o c before r cache in
            record { request = r; outcome = m; delivered = ds; cache = left; used = used }
      ]

  -- The part of execute that holds a slot; `used` is what is left when it is given back.
  unfoldable pub with_slot : Bool → Host → Outside → ChatRequest → Cache → ℕ → Executed
  unfolding answer_request pick_model
  with_slot emitting host o r cache used = elim o.credential [
    | err e ↦ refuse r e cache used
    | ok c ↦
        let picked = pick_model o c r cache in
        elim picked.0 [
          | err e ↦ refuse r e picked.1 used
          | ok q ↦
              let found = route_of o o.second (o.identity c) q.model picked.1 in
              elim found.0 [
                | err e ↦ refuse q e found.1 used
                | ok route ↦ answer_request emitting host o c q found.1 used
              ]
        ]
  ]

  -- badRequest(err.Error())
  abbrev invalid : Fault → Fault
  invalid (failure s) = bad_request s
  invalid (api status s) = bad_request s
  invalid e = e

  unfoldable pub execute : Bool → Host → Outside → ChatRequest → Cache → ℕ → Executed
  unfolding with_slot acquire_gate
  execute emitting host o r cache used = elim o.cancelled [
    | some e ↦ refuse r e cache used
    | none ↦ (elim (validate_request r) [
      | err e ↦ refuse r (invalid e) cache used
      | ok q ↦ (elim (validate_tool_history q.messages) [
        | err e ↦ refuse q (invalid e) cache used
        | ok _ ↦
            let gate = acquire_gate o.cancelled_at_gate o.wait used in
            elim gate.0 [
              | err e ↦ refuse q e cache gate.1
              | ok _ ↦ with_slot emitting host o q cache (gate.1 - 1)
            ]
      ])
    ])
  ]
