-- ===== src/Http/Chat.antt =====
-- http.go: the handler of a chat that does not stream (chat). A request that streams is handed over to
-- the stream sink.
--
-- What openai-go and encoding/json make of the body, and whether a completion with a reasoning can be
-- encoded, are arguments. The response is the value of the SDK, with the reasoning that is added to it.
pub mod Completed
use trae_api.Prelude.{
  ℕ, String, ◌==◌, string_eq, Bool, true, false, not, ◌&&◌, Option, none, some, List, [], ◌∷◌, map,
  or_else, is_some, if◌then◌else◌, Assoc,
}
use trae_api.Fault.{Fault, status_for_error, Result, ok, err}
use trae_api.Json.{Codec}
use trae_api.Chat.{ToolCall, ChatRequest, Completion}
use trae_api.Chat.Decode.{Sdk, Fields, decode_chat_request}
use trae_api.Models.Cache.{Cache}
use trae_api.Upstream.{Host}
use trae_api.Server.{Outside, Executed, execute}
use trae_api.Http.{error_type}
use trae_api.Http.Body.{First, Raws, decode_body}
use trae_api.Http.Usage.{Unicode, CompletionUsage, chat_usage, estimated_usage}

pub record ChatCompletion : Type 0 where
  pub id : String
  pub created : ℕ
  pub model : String
  pub content : String
  pub tool_calls : List ToolCall
  pub reasoning : String
  pub finish_reason : String
  pub usage : CompletionUsage
  -- the header X-Usage-Estimated
  pub estimated : Bool

pub data Response : Type 0 where
  -- writeError: the status and the type of the error
  errored : ℕ → String → Response
  completed : ChatCompletion → Response
  streams : ChatRequest → Response

abbrev fail_with : ℕ → Response
fail_with status = errored status (error_type status)

abbrev pub typed : ToolCall → ToolCall
typed c = record c { kind = "function" }

module _ ⦃unicode : Unicode⦄ where
  abbrev pub chat_completion : String → ℕ → ChatRequest → Completion → ChatCompletion
  chat_completion id created r c = record {
    id = id;
    created = created;
    model = r.model;
    content = c.message.content;
    tool_calls = map typed c.message.tool_calls;
    reasoning = c.reasoning;
    finish_reason = c.finish;
    usage = chat_usage (some (or_else c.usage (estimated_usage r c)));
    estimated = not (is_some c.usage);
  }

  unfoldable pub chat_response : String → ℕ → Bool → Executed → Response
  chat_response id created encodes x = elim x.outcome [
    | err e ↦ fail_with (status_for_error e)
    | ok c ↦
        if not (c.reasoning == "") && not encodes
        then fail_with 500
        else completed (chat_completion id created x.request c)
  ]

module _ ⦃go : Codec⦄ ⦃raws : Raws⦄ ⦃unicode : Unicode⦄ where
  unfoldable pub chat :
      First
      → Bool
      → (String → Option Sdk)
      → (String → Option Fields)
      → String
      → ℕ
      → Bool
      → Host
      → Outside
      → Cache
      → ℕ
      → Response
  unfolding decode_body decode_chat_request chat_response execute
  chat first at_end sdk fields id created encodes host o cache used =
      elim (decode_body first at_end) [
        | err e ↦ fail_with (status_for_error e)
        | ok b ↦ (elim (decode_chat_request b.1 (sdk b.0) (fields b.0)) [
          | err e ↦ fail_with 400
          | ok r ↦
              if r.stream
              then streams r
              else chat_response id created encodes (execute false host o r cache used)
        ])
      ]
