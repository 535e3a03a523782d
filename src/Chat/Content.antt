-- ===== src/Chat/Content.antt =====
-- types.go: the content of a client's message (textContent, normalizeMessage).
use trae_api.Prelude.{
  String, ◌<>◌, ◌==◌, string_eq, Bool, not, ◌||◌, Option, none, some, List, [], ◌∷◌, map,
  if◌then◌else◌,
}
use trae_api.Fault.{failure, Result, ok, err, ◌>>=◌, ◌>>◌, reject}
use trae_api.Json.{Codec, null, text}
use trae_api.Chat.{Message, ToolCall}

-- chatMessageInputFields
pub record MessageInput : Type 0 where
  pub role : String
  pub content : String
  pub tool_calls : List ToolCall
  pub name : String
  pub tool_call_id : String

unfoldable pub is_text_part : String → Bool
is_text_part kind = kind == "text" || kind == "input_text" || kind == "output_text"

unfoldable pub join_parts : List (String × String) → Result String
unfolding is_text_part
join_parts [] = ok ""
join_parts ((kind, part) ∷ rest) = do
  reject (not (is_text_part kind)) (failure "content type is unsupported; only text is supported")
  tail ← join_parts rest
  ok (part <> tail)

default_kind : ToolCall → ToolCall
default_kind c = if c.kind == "" then record c { kind = "function" } else c

module _ ⦃go : Codec⦄ where
  -- json.Unmarshal into a string: null leaves it empty
  unfoldable pub decode_string : String → Option String
  decode_string raw = elim (go.unmarshal raw) [
    | some (text s) ↦ some s
    | some null ↦ some ""
    | _ ↦ none
  ]

  unfoldable pub text_content : String → Result String
  unfolding decode_string join_parts
  text_content raw = if raw == "" || raw == "null" then ok "" else elim (decode_string raw) [
    | some s ↦ ok s
    | none ↦ elim (go.parts raw) [
      | none ↦ err (failure "content must be text or text blocks")
      | some ps ↦ join_parts ps
    ]
  ]

  unfoldable pub normalize_message : MessageInput → Result Message
  unfolding text_content default_kind
  normalize_message v = do
    content ← text_content v.content
    ok (record {
      role = v.role;
      content = content;
      tool_calls = map default_kind v.tool_calls;
      tool_call_id = v.tool_call_id;
      name = v.name;
    })
