-- ===== src/Chat/Validate.antt =====
-- types.go: the checks on a decoded request (choiceName, validateRequest).
use trae_api.Prelude.{
  String, ◌==◌, string_eq, Bool, true, false, not, ◌&&◌, ◌||◌, Option, none, some, List, [], ◌∷◌,
  any, if◌then◌else◌, is_neg, ◌++◌,
}
use trae_api.Fault.{failure, Result, ok, err, ◌>>=◌, ◌>>◌, reject}
use trae_api.Json.{Codec, object, Number, is_negative, exceeds}
use trae_api.Chat.{Message, ToolCall, Tool, ChatRequest}
use trae_api.Chat.Content.{decode_string}

abbrev pub is_empty {ℓ} : {A : Type ℓ} → List A → Bool
is_empty [] = true
is_empty (x ∷ xs) = false

-- some tool of the list has this name
unfoldable pub has_tool : List Tool → String → Bool
has_tool ts name = any (λ t. t.name == name) ts

-- The choice, once it is a text: one of the fixed words or the name of a tool.
unfoldable pub select_choice : List Tool → String → Result String
unfolding has_tool
select_choice tools s =
    if s == "auto" || s == "none"
    then ok s
    else if s == "required" && not (is_empty tools)
    then ok s
    else if has_tool tools s
    then ok s
    else err (failure "tool_choice must select an available tool")

-- *p < 0 || *p > limit, at a pointer that is not nil
abbrev out_of_range : Option Number → (Number → Bool) → Bool
out_of_range none above = false
out_of_range (some t) above = is_negative t || above t

-- Parameters default to an empty object schema.
unfoldable pub with_parameters : Tool → Tool
with_parameters t =
    if t.parameters == ""
    then record t { parameters = "{\"type\":\"object\",\"properties\":{}}" }
    else t

unfoldable pub known_role : String → Bool
known_role role =
    role == "user"
    || role == "assistant"
    || role == "system"
    || role == "developer"
    || role == "tool"

module _ ⦃go : Codec⦄ where
  unfoldable pub choice_name : String → List Tool → Result String
  unfolding select_choice decode_string
  choice_name raw tools =
      if raw == "" || raw == "null" then ok "auto" else elim (decode_string raw) [
        | some s ↦ select_choice tools s
        | none ↦ elim (go.named_choice raw) [
          | none ↦ err (failure "tool_choice must be auto, none, required or a named function")
          | some (kind, name) ↦
              if not (kind == "function") || name == ""
              then err (failure "tool_choice must be auto, none, required or a named function")
              else select_choice tools name
        ]
      ]

  unfoldable pub is_schema : String → Bool
  is_schema raw = elim (go.unmarshal raw) [ some (object m) ↦ true | _ ↦ false ]

  -- The loop over r.Tools; `earlier` are the tools before this one.
  unfoldable pub check_tools : List Tool → List Tool → Result (List Tool)
  unfolding with_parameters is_schema has_tool
  check_tools earlier [] = ok []
  check_tools earlier (t ∷ ts) = do
    reject (not (t.kind == "function") || t.name == "")
        (failure "only named function tools are supported")
    reject (has_tool earlier t.name) (failure "duplicate tool name")
    reject (not (is_schema (with_parameters t).parameters))
        (failure "tool parameters must be a JSON object")
    rest ← check_tools (earlier ++ with_parameters t ∷ []) ts
    ok (with_parameters t ∷ rest)

  unfoldable pub is_valid_json : String → Bool
  is_valid_json s = go.valid s

  unfoldable pub check_call : Message → ToolCall → Result (Unit {0})
  unfolding is_valid_json
  check_call m c =
      reject
        (not (m.role == "assistant")
          || not (c.kind == "function")
          || c.id == ""
          || c.function.name == ""
          || not (is_valid_json c.function.arguments))
        (failure "invalid assistant tool call")

  unfoldable pub check_calls : Message → List ToolCall → Result (Unit {0})
  unfolding check_call
  check_calls m [] = ok tt
  check_calls m (c ∷ cs) = do check_call m c; check_calls m cs

  unfoldable pub check_messages : List Message → Result (Unit {0})
  unfolding known_role check_calls
  check_messages [] = ok tt
  check_messages (m ∷ ms) = do
    reject (not (known_role m.role)) (failure "unsupported role")
    reject (m.role == "tool" && m.tool_call_id == "") (failure "tool message requires tool_call_id")
    check_calls m m.tool_calls
    check_messages ms

  -- The source writes the defaults and the choice into *r; here the new request is the result.
  unfoldable pub validate_request : ChatRequest → Result ChatRequest
  unfolding check_tools check_messages choice_name
  validate_request r = do
    reject (is_empty r.messages) (failure "messages/input is required")
    reject (is_neg r.max_tokens || is_neg r.max_completion_tokens)
        (failure "token limits must be positive")
    reject (out_of_range r.temperature (λ t. exceeds t 2))
        (failure "temperature must be between 0 and 2")
    reject (out_of_range r.top_p (λ t. exceeds t 1)) (failure "top_p must be between 0 and 1")
    tools ← check_tools [] r.tools
    check_messages r.messages
    choice ← choice_name r.tool_choice tools
    ok (record r { tools = tools; choice = choice })
