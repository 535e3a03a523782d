-- ===== src/Upstream/Calls.antt =====
-- upstream.go: one tool event (addCall) and the places where a frame holds them (extractCalls).
use trae_api.Prelude.{
  ℕ, suc, ◌+◌, ◌-◌, ◌*◌, ◌^◌, String, len, ◌<>◌, ◌==◌, string_eq, nat_eq, Bool, true, false, not,
  ◌||◌, ◌&&◌, Option, none, some, List, [], ◌∷◌, ◌++◌, ltb, leb, if◌then◌else◌, has_prefix,
  trim_prefix, lookup, insert, get_elem?, set, length, is_some,
}
use trae_api.Fault.{failure, panic}
use trae_api.Json.{
  Codec, Members, number, text, at_key, member?, is_negative, exceeds, object_value,
}
use trae_api.Chat.{ToolCall, ChatRequest}
use trae_api.Chat.Validate.{has_tool}
use trae_api.Upstream.{
  blank, Host, AccumulatedCall, Accumulator, Step, next, fail, require, ◌>>=◌, send,
}
use trae_api.Upstream.Snapshot.{merge_snapshot}

-- The function object of an event, and whether its arguments are fragments.
pub record CallFields : Type 0 where
  pub fn : Members
  pub native : Bool

-- What one event says of a call. `args` is none where the event has no arguments, and says of
-- others whether they came as a text.
pub record CallEvent : Type 0 where
  pub name : String
  pub id : String
  pub index : Option ℕ
  pub native : Bool
  pub args : Option (Bool × String)

module _ ⦃go : Codec⦄ where
  unfoldable pub call_fields : Members → CallFields
  call_fields m = elim (object_value (at_key (some m) "function_call")) [
    | some fn ↦ record { fn = fn; native = true }
    | none ↦ elim (object_value (at_key (some m) "functionCall")) [
      | some fn ↦ record { fn = fn; native = true }
      | none ↦ elim (object_value (at_key (some m) "function")) [
        | some fn ↦ record { fn = fn; native = false }
        | none ↦ record { fn = m; native = false }
      ]
    ]
  ]

  unfoldable pub find_args : Members → List String → Option (Bool × String)
  find_args fn [] = none
  find_args fn (k ∷ ks) =
      let rest = find_args fn ks in
      elim (member? fn k) [
        | none ↦ rest
        | some (text s) ↦ some (true, s)
        | some v ↦ some (false, go.marshal v)
      ]

-- The words with which some models end a turn.
unfoldable pub is_closing_word : String → Bool
is_closing_word name = name == "finish" || name == "done" || name == "final"

-- m["index"].(float64); none is an index out of range
unfoldable pub event_index : Members → Option ℕ → Option (Option ℕ)
event_index m fallback = elim (at_key (some m) "index") [
  | number v ↦ if is_negative v || exceeds v 10000 then none else some (some v.whole)
  | _ ↦ some fallback
]

-- An event with a known index: its slot must be the one of its id, and carry that id.
unfoldable pub match_slot : Option ℕ → String → ℕ → Accumulator → Step (Option ℕ)
match_slot (some s) id slot a =
    if s == slot then next (some s) else fail (failure "conflicting Trae tool ID and index") a
match_slot none id slot a = if id == "" then next (some slot) else (do
  state ← require (get_elem? a.calls slot) panic a
  if state.call.id == id
      then next (some slot)
      else fail (failure "Trae changed tool identity during a stream") a)

-- An event with neither id nor index goes on with the call addressed last.
unfoldable pub resume : String → Option ℕ → Accumulator → Option ℕ
resume id index a =
    if id == "" && not (is_some index) && ltb 0 a.last_call then some (a.last_call - 1) else none

unfoldable pub choose_slot : Option ℕ → Option ℕ → String → Option ℕ → Accumulator → Step (Option ℕ)
unfolding match_slot resume
choose_slot known (some slot) id index a = match_slot known id slot a
choose_slot (some s) none id index a = next (some s)
choose_slot none none id index a = next (resume id index a)

abbrev pub slot_of_index : Option ℕ → Accumulator → Option ℕ
slot_of_index none a = none
slot_of_index (some i) a = lookup i a.by_index

-- The slot that the event addresses, if it has one already.
unfoldable pub locate : String → Option ℕ → Accumulator → Step (Option ℕ)
locate id index a = choose_slot (lookup id a.by_id) (slot_of_index index a) id index a

unfoldable pub opened : String → AccumulatedCall
opened id = record {
  call = record { id = id; kind = "function"; function = record { name = ""; arguments = "" } };
  sent = false;
  sent_args = "";
}

module _ ⦃host : Host⦄ where
  -- id, or newID("call_") where it is empty
  unfoldable pub fresh_id : String → Accumulator → String
  fresh_id id a = if id == "" then host.new_id a.drawn else id

  -- A new call at the end of a.calls.
  unfoldable pub open_call : String → Accumulator → Step (ℕ × Accumulator)
  open_call id a =
      let slot = length a.calls in
      if leb 128 slot
      then fail (failure "too many Trae tool calls") a
      else next (
        slot,
        record a {
          calls = a.calls ++ opened (fresh_id id a) ∷ [];
          by_id = insert (fresh_id id a) slot a.by_id;
          drawn = if id == "" then suc a.drawn else a.drawn;
        },
      )

module _ ⦃host : Host⦄ where
  unfoldable pub slot_for : Option ℕ → String → Accumulator → Step (ℕ × Accumulator)
  unfolding open_call
  slot_for (some slot) id a = next (slot, a)
  slot_for none id a = open_call id a

-- The slot becomes the one most recently addressed.
unfoldable pub address : Option ℕ → ℕ → Accumulator → Accumulator
address index slot a = record a {
  by_index = elim index [ none ↦ a.by_index | some i ↦ insert i slot a.by_index ];
  last_call = slot + 1;
}

unfoldable pub merge_args : Bool → Option (Bool × String) → String → String
merge_args native none old = old
merge_args native (some (is_text, args)) old =
    if native then (if is_text then old <> args else args) else (merge_snapshot old args).0

-- The call of `state` with the event's name and arguments.
abbrev pub updated : AccumulatedCall → String → String → AccumulatedCall
updated state name args = record state {
  call = record state.call { function = record { name = name; arguments = args } };
}

unfoldable pub renames : CallEvent → AccumulatedCall → Bool
renames ev state =
    let old = state.call.function.name in
    not (ev.name == "") && not (old == "") && not (old == ev.name)

unfoldable pub merged : CallEvent → AccumulatedCall → AccumulatedCall
merged ev state =
    let old = state.call.function in
    updated state (if ev.name == "" then old.name else ev.name)
      (merge_args ev.native ev.args old.arguments)

-- The choice of the request lets the model call this tool.
unfoldable pub is_allowed : ChatRequest → String → Bool
is_allowed r name =
    has_tool r.tools name
    && not (r.choice == "none")
    && (r.choice == "auto" || r.choice == "required" || r.choice == name)

-- r.Parallel != nil && !*r.Parallel
unfoldable pub is_serial : ChatRequest → Bool
is_serial r = elim r.parallel [ none ↦ false | some p ↦ not p ]

-- callDelta: what is streamed of the call now, its identity only the first time.
unfoldable pub fragment : AccumulatedCall → ToolCall
fragment state =
    let added = trim_prefix state.call.function.arguments state.sent_args in
    if state.sent
    then record { id = ""; kind = ""; function = record { name = ""; arguments = added } }
    else record {
      id = state.call.id;
      kind = "function";
      function = record { name = state.call.function.name; arguments = added };
    }

module _ ⦃host : Host⦄ where
  unfoldable pub stream_call : ℕ → AccumulatedCall → Accumulator → Step Accumulator
  stream_call slot state a = do
    a' ← send (record blank { call = some (fragment state); index = slot }) a
    next (record a' {
      calls =
          set a'.calls slot
            (record state { sent = true; sent_args = state.call.function.arguments });
    })

  -- The rest of addCall once the call's state is stored: the limits, and what is streamed of it.
  unfoldable pub publish : ℕ → AccumulatedCall → Accumulator → Step Accumulator
  publish slot state a =
      let name = state.call.function.name in
      let args = state.call.function.arguments in
      let added = trim_prefix args state.sent_args in
      if ltb (4 * 2 ^ 20) (len args)
      then fail (failure "tool arguments exceed size limit") a
      else if name == ""
      then next a
      else if not (is_allowed a.request name)
      then fail (failure "Trae requested an unavailable tool") a
      else if is_serial a.request && ltb 1 (length a.calls)
      then fail (failure "Trae returned parallel calls when disabled") a
      else if not (has_prefix args state.sent_args)
      then fail (failure "Trae rewrote streamed tool arguments") a
      else if not state.sent || not (added == "")
      then stream_call slot state a
      else next a

  -- Name and arguments are written into the call at `slot`; out of range Go panics.
  unfoldable pub update_call : CallEvent → ℕ → Accumulator → Step Accumulator
  update_call ev slot a = do
    state ← require (get_elem? a.calls slot) panic a
    if renames ev state
        then fail (failure "Trae changed tool name during a stream") a
        else publish slot (merged ev state)
            (record a { calls = set a.calls slot (merged ev state) })

  -- addCall from the look-up of the slot on
  unfoldable pub apply_call : CallEvent → Accumulator → Step Accumulator
  apply_call ev a = do
    found ← locate ev.id ev.index a
    target ← slot_for found ev.id a
    update_call ev target.0 (address ev.index target.0 target.1)
