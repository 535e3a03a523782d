-- ===== src/Upstream/Frame.antt =====
-- upstream.go: one frame of the event stream (frame).
use Prim.Native.String.{slice}
use text.Mathlib.Text.{find?}
use trae_api.Prelude.{
  ◌+◌, ◌*◌, ◌^◌, String, len, ◌==◌, string_eq, Bool, true, not, ◌||◌, ◌&&◌, Option, none, some, [],
  ◌∷◌, ltb, if◌then◌else◌, has_prefix, trim_prefix, or_text,
}
use trae_api.Fault.{failure, credential_rejected}
use trae_api.Json.{Codec, Members, null, object, at_key, first_string, object_value, is_nil}
use trae_api.Chat.{Completion}
use trae_api.Upstream.{blank, Host, Accumulator, Step, next, fail, require, ◌>>=◌, send}
use trae_api.Upstream.Snapshot.{merge_snapshot}
use trae_api.Upstream.Event.{normalize_event, parse_usage}
use trae_api.Upstream.Extract.{extract_calls}

abbrev pub set_result : Accumulator → Completion → Accumulator
set_result a c = record a { result = c }

-- finish_reason of an event
unfoldable pub finish_of : String → String → String
finish_of f old =
    if f == "length" || f == "max_tokens"
    then "length"
    else if f == "content_filter"
    then "content_filter"
    else old

-- strings.Index(text, "</think>") >= 0, and the cut there
unfoldable pub split_thinking : String → String → String × String
split_thinking text reason =
    if not (has_prefix text "<think>") then (text, reason) else elim (find? text "</think>") [
      | some at ↦ (slice text (at + 8) (len text), slice text 7 at)
      | none ↦ ("", trim_prefix text "<think>")
    ]

module _ ⦃go : Codec⦄ where
  -- json.Unmarshal into a map: null leaves the nil map
  unfoldable pub decode_object : String → Option (Option Members)
  decode_object raw = elim (go.unmarshal raw) [
    | some (object m) ↦ some (some m)
    | some null ↦ some none
    | _ ↦ none
  ]

  -- The text and the reasoning of a frame.
  unfoldable pub frame_texts : Option Members → String × String
  frame_texts obj =
      let reasons = "reasoning_content" ∷ "reasoningContent" ∷ "thought" ∷ "thinking" ∷ [] in
      let text = first_string obj ("response" ∷ "text" ∷ "content" ∷ []) in
      let reason = first_string obj reasons in
      elim (object_value (at_key obj "message")) [
        | none ↦ split_thinking text reason
        | some m ↦
            split_thinking (or_text text (first_string (some m) ("content" ∷ "text" ∷ [])))
              (or_text reason (first_string (some m) reasons))
      ]

  -- Usage and finish reason, noted before the texts.
  unfoldable pub note_frame : Option Members → Completion → Completion
  note_frame obj c =
      let f =
        first_string obj ("finish_reason" ∷ "finishReason" ∷ "stop_reason" ∷ "stopReason" ∷ []) in
      record c {
        usage = elim (object_value (at_key obj "usage")) [
          | none ↦ c.usage
          | some v ↦ some (parse_usage (some v))
        ];
        finish = finish_of f c.finish;
      }

module _ ⦃host : Host⦄ where
  unfoldable pub add_text : String → Accumulator → Step Accumulator
  add_text text a =
      let m = a.result.message in
      let (content, added) = merge_snapshot m.content text in
      let a' = set_result a (record a.result { message = record m { content = content } }) in
      if added == "" then next a' else send (record blank { text = added }) a'

  unfoldable pub add_reasoning : String → Accumulator → Step Accumulator
  add_reasoning reason a =
      let (reasoning, added) = merge_snapshot a.result.reasoning reason in
      let a' = set_result a (record a.result { reasoning = reasoning }) in
      if added == "" then next a' else send (record blank { reasoning = added }) a'

unfoldable pub check_size : Accumulator → Step Accumulator
check_size a =
    if ltb (16 * 2 ^ 20) (len a.result.message.content + len a.result.reasoning)
    then fail (failure "Trae response exceeds size limit") a
    else next a

module _ ⦃host : Host⦄ where
  unfoldable pub add_texts : String → String → Accumulator → Step Accumulator
  add_texts text reason a = do b ← add_text text a; c ← add_reasoning reason b; check_size c

unfoldable pub close_on : Bool → Accumulator → Accumulator
close_on done a = if done then record a { terminal = true } else a

module _ ⦃go : Codec⦄ ⦃host : Host⦄ where
  -- The part of frame that reads texts and calls.
  unfoldable pub content_frame : String → Option Members → Accumulator → Step Accumulator
  content_frame kind obj a =
      let (text, reason) = frame_texts obj in
      do
        d ← add_texts text reason (set_result a (note_frame obj a.result))
        e ← extract_calls obj d
        f ← extract_calls (object_value (at_key obj "message")) e
        next (close_on (kind == "done") f)

  -- The object that holds the counts of a tokenusage event.
  unfoldable pub usage_source : Option Members → Option Members
  usage_source obj = elim (object_value (at_key obj "usage")) [ none ↦ obj | some m ↦ some m ]

  unfoldable pub is_rejection : String → Bool
  is_rejection code = code == "401" || code == "403" || code == "1001"

  unfoldable pub object_frame : String → Option Members → Accumulator → Step Accumulator
  unfolding is_rejection
  object_frame event obj a =
      let name =
        or_text event (first_string obj ("event" ∷ "event_type" ∷ "eventType" ∷ "type" ∷ [])) in
      let kind = normalize_event name in
      let code = first_string obj ("code" ∷ []) in
      if not (code == "") && not (code == "0")
      then if is_rejection code
        then fail credential_rejected a
        else fail (failure "Trae returned business error") a
      else if kind == "error" || not (is_nil (at_key obj "error"))
      then fail (failure "Trae returned an error event") a
      else if kind == "heartbeat" || kind == "keepalive" || kind == "ping"
      then send (record blank { heartbeat = true }) a
      else if kind == "tokenusage"
      then next (set_result a (record a.result { usage = some (parse_usage (usage_source obj)) }))
      else content_frame kind obj a

  unfoldable pub frame : String → String → Accumulator → Step Accumulator
  frame event raw a = if raw == "[DONE]" then next (record a { terminal = true }) else (do
    obj ← require (decode_object raw) (failure "invalid Trae SSE JSON") a
    object_frame event obj a)
