-- ===== src/Upstream/Stream.antt =====
-- upstream.go: the whole stream, line by line, and the completion that it leaves (readIDEStream).
use Prim.Native.Char.{code}
use Prim.Native.String.{slice}
use trae_api.Prelude.{
  ℕ, String, len, ◌<>◌, ◌==◌, string_eq, Bool, true, false, not, ◌||◌, ◌&&◌, none, some, List, [],
  ◌∷◌, ◌++◌, length, leb, eqb, if◌then◌else◌, has_prefix,
}
use trae_api.Fault.{failure}
use trae_api.Json.{Codec}
use trae_api.Chat.{ToolCall, ChatRequest, Completion}
use trae_api.Chat.Validate.{is_empty, is_valid_json}
use trae_api.Upstream.{blank, Host, AccumulatedCall, Accumulator, Step, next, fail, ◌>>=◌, send}
use trae_api.Upstream.Event.{normalize_event}
use trae_api.Upstream.Frame.{set_result, frame}

-- unicode.IsSpace, as strings.TrimSpace uses it
unfoldable pub is_space : ℕ → Bool
is_space c =
    (leb 9 c && leb c 13)
    || eqb c 32
    || eqb c 0x85
    || eqb c 0xA0
    || eqb c 0x1680
    || (leb 0x2000 c && leb c 0x200A)
    || eqb c 0x2028
    || eqb c 0x2029
    || eqb c 0x202F
    || eqb c 0x205F
    || eqb c 0x3000

unfoldable pub trim_left : String → String
unfolding is_space
trim_left String.[] = ""
trim_left (String.◌∷◌ c s) =
    let rest = trim_left s in if is_space (code c) then rest else String.◌∷◌ c s

unfoldable pub trim_right : String → String
unfolding is_space
trim_right String.[] = ""
trim_right (String.◌∷◌ c s) =
    let rest = trim_right s in if rest == "" && is_space (code c) then "" else String.◌∷◌ c rest

-- strings.TrimSpace
unfoldable pub trim_space : String → String
unfolding trim_left trim_right
trim_space s = trim_right (trim_left s)

-- strings.Join(data, "\n")
unfoldable pub join_lines : List String → String
join_lines [] = ""
join_lines (x ∷ []) = x
join_lines (x ∷ y ∷ rest) = x <> ("\n" <> join_lines (y ∷ rest))

-- The variables of the loop: the pending event and its data lines, with the accumulator.
pub record Reader : Type 0 where
  pub event : String
  pub lines : List String
  pub acc : Accumulator

-- The call as the completion has it.
unfoldable pub closed_call : AccumulatedCall → ToolCall
closed_call state =
    let old = state.call.function.arguments in
    record state.call {
      function = record state.call.function { arguments = if old == "" then "{}" else old };
    }

-- The delta that fills up empty arguments.
abbrev pub filler : ToolCall
filler = record { id = ""; kind = ""; function = record { name = ""; arguments = "{}" } }

abbrev pub push_call : ToolCall → Accumulator → Accumulator
push_call c a = set_result a (record a.result {
  message = record a.result.message { tool_calls = a.result.message.tool_calls ++ c ∷ [] };
})

module _ ⦃go : Codec⦄ ⦃host : Host⦄ where
  unfoldable pub flush : Reader → Step Reader
  flush r =
      if is_empty r.lines
      then if normalize_event r.event == "done"
        then next (record r { event = ""; acc = record r.acc { terminal = true } })
        else next (record r { event = "" })
      else (do
        a ← frame r.event (join_lines r.lines) r.acc
        next (record { event = ""; lines = []; acc = a }))

  -- A line that is not blank.
  unfoldable pub read_line : String → Reader → Step Reader
  read_line line r =
      if has_prefix line "event:"
      then (do
        r' ← (if is_empty r.lines then next r else flush r)
        next (record r' { event = trim_space (slice line 6 (len line)) }))
      else if has_prefix line "data:"
      then next (record r { lines = r.lines ++ trim_space (slice line 5 (len line)) ∷ [] })
      else if has_prefix line ":"
      then (do a ← send (record blank { heartbeat = true }) r.acc; next (record r { acc = a }))
      else next r

  -- The loop over the scanner's lines. It breaks at a blank line after a terminal event.
  unfoldable pub scan : List String → Reader → Step Reader
  scan [] r = next r
  scan (line ∷ rest) r =
      if trim_space line == ""
      then (do
        r' ← flush r
        let others = scan rest r' in if r'.acc.terminal then next r' else others)
      else (do r' ← read_line line r; scan rest r')

  -- One call at the end of the stream: empty arguments become an empty object.
  unfoldable pub fill_call : AccumulatedCall → Accumulator → Step Accumulator
  fill_call state a =
      if state.call.function.arguments == ""
      then send (record blank { call = some filler; index = length a.result.message.tool_calls }) a
      else next a

  unfoldable pub check_closed : ToolCall → Accumulator → Step Accumulator
  check_closed c a =
      if not (is_valid_json c.function.arguments)
      then fail (failure "Trae returned invalid tool arguments") a
      else next (push_call c a)

  -- The loop over a.calls at the end.
  unfoldable pub close_calls : List AccumulatedCall → Accumulator → Step Accumulator
  unfolding closed_call fill_call check_closed
  close_calls [] a = next a
  close_calls (state ∷ rest) a =
      if not state.sent
      then fail (failure "Trae returned an unnamed tool") a
      else (do b ← fill_call state a; c ← check_closed (closed_call state) b; close_calls rest c)

  -- The checks on the completion after its calls are closed.
  unfoldable pub finish_stream : Accumulator → Step Completion
  finish_stream a =
      let r = a.result in
      let choice = a.request.choice in
      if not (is_empty a.calls)
      then next (record r { finish = "tool_calls" })
      else if choice == "required" || (not (choice == "auto") && not (choice == "none"))
      then fail (failure "Trae did not return the required tool call") a
      else if r.message.content == "" && r.reasoning == ""
      then fail (failure "Trae returned an empty response") a
      else next r

abbrev pub initial : ChatRequest → Accumulator
initial r = record {
  result = record {
    message = record {
      role = "assistant";
      content = "";
      tool_calls = [];
      tool_call_id = "";
      name = "";
    };
    reasoning = "";
    usage = none;
    finish = "stop";
  };
  calls = [];
  by_id = [];
  by_index = [];
  request = r;
  terminal = false;
  last_call = 0;
  delivered = [];
  drawn = 0;
}

module _ ⦃go : Codec⦄ ⦃host : Host⦄ where
  -- The accumulator when all lines are read. `broken` is whether scanner.Err() is set then.
  unfoldable pub read_events : List String → Bool → Accumulator → Step Accumulator
  read_events lines broken a = do
    r ← scan lines (record { event = ""; lines = []; acc = a })
    if broken then fail (failure "Trae stream read failed") r.acc else (do
      r' ← (if r.acc.terminal then next r else flush r)
      if not r'.acc.terminal
          then fail (failure "Trae stream ended without a terminal event") r'.acc
          else next r'.acc)

  -- The completion, with the accumulator that has what was streamed.
  unfoldable pub read_ide_stream :
      List String → Bool → ChatRequest → Step (Completion × Accumulator)
  read_ide_stream lines broken r = do
    a ← read_events lines broken (initial r)
    b ← close_calls a.calls a
    c ← finish_stream b
    next (c, b)
