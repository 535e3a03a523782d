-- ===== src/Chat/Decode.antt =====
-- types.go: the chat request that a body holds (decodeChatRequest).
--
-- What openai-go and encoding/json make of the body are the arguments `sdk` and `fields`, which are `none`
-- when json.Unmarshal fails; an error of theirs has no text here.
pub mod Total
use trae_api.Prelude.{
  ℤ, ℕ, String, ◌==◌, string_eq, Bool, true, false, not, ◌&&◌, ◌||◌, Option, none, some, List, [],
  ◌∷◌, ◌≡◌, ◌≢◌, refl, inl, inr, if◌then◌else◌, eqb, lookup, Assoc, length, arith, is_some, map,
  Bool-cases, Option-cases,
}
use trae_api.Fault.{Fault, failure, panic, Result, ok, err, ◌>>=◌, ◌>>◌, reject}
use trae_api.Json.{Codec, Number}
use trae_api.Chat.{Message, Tool, ChatRequest}
use trae_api.Chat.Content.{MessageInput, normalize_message, text_content, join_parts}

-- The parts of openai.ChatCompletionNewParams that are read; the role of a message is a pointer, and a
-- tool that is no function has none.
pub record SdkFunction : Type 0 where
  pub name : String
  pub description : String
  pub strict : Option Bool

pub record Sdk : Type 0 where
  pub model : String
  pub parallel : Option Bool
  pub max_tokens : ℤ
  pub max_completion_tokens : ℤ
  pub temperature : Option Number
  pub top_p : Option Number
  pub include_usage : Bool
  pub roles : List (Option String)
  pub tools : List (Option SdkFunction)

-- chatToolInputFields, as far as it is read
pub record ToolInput : Type 0 where
  pub kind : String
  pub parameters : String

pub record Fields : Type 0 where
  pub stream : Bool
  pub messages : List MessageInput
  pub tools : List ToolInput
  pub tool_choice : String

abbrev has_role : Option String → String → Bool
has_role none role = false
has_role (some r) role = r == role

module _ ⦃go : Codec⦄ where
  -- fields.Messages[i] for each message: past its end, Go panics.
  unfoldable pub decode_messages : List (Option String) → List MessageInput → Result (List Message)
  decode_messages [] inputs = ok []
  decode_messages (role ∷ roles) [] = err panic
  decode_messages (role ∷ roles) (f ∷ fs) = do
    m ← normalize_message f
    reject (not (has_role role f.role)) (failure "unsupported role")
    ms ← decode_messages roles fs
    ok (m ∷ ms)

  abbrev decode_tool : Option SdkFunction → ToolInput → Result Tool
  decode_tool none f = err (failure "only named function tools are supported")
  decode_tool (some fn) f = do
    reject (not (f.kind == "function")) (failure "only named function tools are supported")
    ok (record {
      kind = "function";
      name = fn.name;
      description = fn.description;
      parameters = f.parameters;
      strict = fn.strict;
    })

  unfoldable pub decode_tools : List (Option SdkFunction) → List ToolInput → Result (List Tool)
  decode_tools [] inputs = ok []
  decode_tools (fn ∷ fns) [] = err panic
  decode_tools (fn ∷ fns) (f ∷ fs) = do t ← decode_tool fn f; ts ← decode_tools fns fs; ok (t ∷ ts)

  abbrev stops : Option String → Bool
  stops none = false
  stops (some text) = not (text == "null")

  abbrev unmarshalled {ℓ} : {A : Type ℓ} → Option A → Result A
  unmarshalled none = err (failure "")
  unmarshalled (some a) = ok a

  unfoldable pub decode_chat_request :
      Assoc String String → Option Sdk → Option Fields → Result ChatRequest
  unfolding decode_messages decode_tools
  decode_chat_request raw sdk fields = do
    reject (stops (lookup "stop" raw)) (failure "stop is unsupported by the IDE upstream")
    s ← unmarshalled sdk
    f ← unmarshalled fields
    reject
        (not (eqb (length f.messages) (length s.roles))
          || not (eqb (length f.tools) (length s.tools)))
        (failure "invalid request arrays")
    messages ← decode_messages s.roles f.messages
    tools ← decode_tools s.tools f.tools
    ok (record {
      model = s.model;
      messages = messages;
      stream = f.stream;
      tools = tools;
      tool_choice = f.tool_choice;
      parallel = s.parallel;
      max_tokens = s.max_tokens;
      max_completion_tokens = s.max_completion_tokens;
      temperature = s.temperature;
      top_p = s.top_p;
      include_usage = s.include_usage;
      choice = "";
    })
