-- ===== src/Chat.antt =====
-- types.go: the chat request that the gateway accepts, and the completion that it returns.
-- Raw JSON (json.RawMessage) is its text; an absent field is the empty text.
pub mod Content
pub mod Validate
pub mod History
pub mod Pairing
pub mod Decode
use trae_api.Prelude.{ℕ, ℤ, String, Bool, Option, List}
use trae_api.Json.{Number}

pub record Function : Type 0 where
  pub name : String
  pub arguments : String

pub record ToolCall : Type 0 where
  pub id : String
  pub kind : String
  pub function : Function

pub record Message : Type 0 where
  pub role : String
  pub content : String
  pub tool_calls : List ToolCall
  pub tool_call_id : String
  pub name : String

-- tool, with the fields of its Function
pub record Tool : Type 0 where
  pub kind : String
  pub name : String
  pub description : String
  pub parameters : String
  pub strict : Option Bool

pub record ChatRequest : Type 0 where
  pub model : String
  pub messages : List Message
  pub stream : Bool
  pub tools : List Tool
  pub tool_choice : String
  pub parallel : Option Bool
  pub max_tokens : ℤ
  pub max_completion_tokens : ℤ
  pub temperature : Option Number
  pub top_p : Option Number
  pub include_usage : Bool
  pub choice : String

-- Token counts are below 2^63; the pointers to the details are options.
pub record Usage : Type 0 where
  pub input : ℕ
  pub output : ℕ
  pub total : ℕ
  pub cached_tokens : Option ℕ
  pub reasoning_tokens : Option ℕ

pub record Completion : Type 0 where
  pub message : Message
  pub reasoning : String
  pub usage : Option Usage
  pub finish : String
