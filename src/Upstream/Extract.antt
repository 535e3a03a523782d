-- ===== src/Upstream/Extract.antt =====
-- upstream.go addCall and extractCalls: the tool events of a frame.
use trae_api.Prelude.{
  ℕ, ◌+◌, String, ◌==◌, string_eq, nat_eq, Bool, false, not, ◌&&◌, Option, none, some, List, [],
  ◌∷◌, ltb, if◌then◌else◌, length, or_text,
}
use trae_api.Fault.{failure}
use trae_api.Json.{
  Codec, Members, member, end, Value, object, array, at_key, member?, first_string, object_value,
  is_nil, elements,
}
use trae_api.Chat.Validate.{has_tool}
use trae_api.Upstream.{Host, Accumulator, Step, next, require, ◌>>=◌}
use trae_api.Upstream.Calls.{call_fields, find_args, is_closing_word, event_index, apply_call}

module _ ⦃go : Codec⦄ ⦃host : Host⦄ where
  unfoldable pub add_call : Members → Option ℕ → Accumulator → Step Accumulator
  add_call m fallback a =
      let fields = call_fields m in
      let name =
        or_text (first_string (some fields.fn) ("name" ∷ []))
          (first_string (some m) ("name" ∷ "tool_name" ∷ [])) in
      let id =
        or_text (first_string (some m) ("id" ∷ "tool_call_id" ∷ "toolCallId" ∷ []))
          (first_string (some fields.fn) ("id" ∷ "toolCallId" ∷ [])) in
      let args =
        find_args fields.fn ("arguments" ∷ "args" ∷ "input" ∷ "params" ∷ "parameters" ∷ []) in
      if is_closing_word name && not (has_tool a.request.tools name) then next a else (do
        index ← require (event_index m fallback) (failure "invalid Trae tool index") a
        apply_call
            (record { name = name; id = id; index = index; native = fields.native; args = args }) a)

  -- The loop over the records of one key; i counts them.
  unfoldable pub add_records : String → Bool → ℕ → List Value → Accumulator → Step Accumulator
  add_records key several i [] a = next a
  add_records key several i (raw ∷ rest) a = do
    m ← require (object_value raw) (failure "invalid Trae tool event") a
    a' ←
        add_call
          (if key == "function_call" && is_nil (at_key (some m) "function_call")
            then member "function_call" (object m) end
            else m)
          (if several then some i else none) a
    add_records key several (i + 1) rest a'

  unfoldable pub add_value : String → Value → Accumulator → Step Accumulator
  add_value key (array xs) a = add_records key (ltb 1 (length (elements xs))) 0 (elements xs) a
  add_value key v a = add_records key false 0 (v ∷ []) a

  unfoldable pub add_keys : Members → List String → Accumulator → Step Accumulator
  add_keys obj [] a = next a
  add_keys obj (key ∷ keys) a = elim (member? obj key) [
    | none ↦ add_keys obj keys a
    | some v ↦ (do a' ← add_value key v a; add_keys obj keys a')
  ]

abbrev pub call_keys : List String
call_keys = "tool_calls" ∷ "tool_call" ∷ "function_call" ∷ "tool_call_info" ∷ "toolCallInfo" ∷ []

module _ ⦃go : Codec⦄ ⦃host : Host⦄ where
  unfoldable pub extract_calls : Option Members → Accumulator → Step Accumulator
  unfolding add_keys
  extract_calls none a = next a
  extract_calls (some obj) a = add_keys obj call_keys a
