-- ===== src/Tests/Answering.antt =====
-- A chat that does not stream, from its body to its completion.
use trae_api.Prelude.{
  text_eq, ◌<>◌, has_prefix, has_suffix, trim_prefix, lookup, insert, true, false, none, some, [],
  ◌≡◌, refl,
}
use trae_api.Fault.{ok}
use trae_api.Json.{
  is_positive, is_negative, exceeds, member?, at_key, is_nil, object_value, first_string, field,
  records, positive_int, pick_objects,
}
use trae_api.Chat.{ChatRequest}
use trae_api.Chat.Content.{text_content, normalize_message, decode_string, join_parts}
use trae_api.Chat.Validate
use trae_api.Chat.History
use trae_api.Chat.Decode.{decode_messages, decode_tools, decode_chat_request}
use trae_api.Models
use trae_api.Models.Routes
use trae_api.Models.Cache
use trae_api.Models.Discovery
use trae_api.Upstream
use trae_api.Upstream.Event
use trae_api.Upstream.Snapshot
use trae_api.Upstream.Extract
use trae_api.Upstream.Frame
use trae_api.Upstream.Stream
use trae_api.Server.{
  execute, with_slot, answer_request, prompt, prompt_attempt, pick_model, acquire_gate,
}
use trae_api.Http.Body.{value, Raws, Body, decode_body}
use trae_api.Http.Usage.{chat_usage, estimated_usage, estimate_tokens, count_tokens}
use trae_api.Http.Chat.{ChatCompletion, completed, chat, chat_response}
use trae_api.Http.Chat.Completed.{Completes, chat-Completes}
use trae_api.Tests.Serving.{codec, unicode, client, outside, sdk, fields}

instance abbrev raws : Raws
raws = record { members = λ text. some (some []); type_of = λ text. none }

abbrev answer : ChatCompletion
answer = record {
  id = "chatcmpl-1";
  created = 3;
  model = "fast";
  content = "Hi";
  tool_calls = [];
  reasoning = "";
  finish_reason = "stop";
  usage = record {
    prompt_tokens = 0;
    completion_tokens = 0;
    total_tokens = 0;
    cached_tokens = 0;
    reasoning_tokens = 0;
  };
  estimated = true;
}

answers :
    chat
      (value "{}")
      true
      (λ body. some sdk)
      (λ body. some fields)
      "chatcmpl-1"
      3
      true
      client
      outside
      []
      0
    ≡ completed answer
unfolding chat chat_response decode_body decode_chat_request decode_messages decode_tools
    normalize_message text_content decode_string join_parts execute with_slot answer_request prompt
    prompt_attempt pick_model acquire_gate chat_usage estimated_usage estimate_tokens count_tokens
    Validate.validate_request Validate.check_tools Validate.check_messages Validate.choice_name
    Validate.known_role Validate.check_calls Validate.select_choice Validate.has_tool
    Validate.is_valid_json History.validate_tool_history History.check_history text_eq ◌<>◌
    has_prefix has_suffix trim_prefix lookup insert is_positive is_negative exceeds member? at_key
    is_nil object_value first_string field records positive_int pick_objects Discovery.model_names
    Discovery.model_names_attempt Discovery.discover Discovery.model_json Discovery.batch_lists
    Discovery.has_models Discovery.fresh_entry Discovery.fill_cache Discovery.resolve_route
    Discovery.cached_route Discovery.is_valid Discovery.listed_route Cache.prune_model_cache
    Cache.store_models Cache.make_room Models.chat_function Models.is_true Models.is_false
    Models.model_detail Models.model_config Models.model_configs Models.available Routes.add_entries
    Routes.all_entries Routes.choose_entry Routes.base_route Routes.first_of Routes.max_route
    Routes.group_routes Routes.all_routes Routes.routes_of Upstream.send Event.letters
    Event.normalize_event Snapshot.merge_snapshot Extract.extract_calls Frame.finish_of
    Frame.split_thinking Frame.decode_object Frame.frame_texts Frame.note_frame Frame.add_text
    Frame.add_reasoning Frame.check_size Frame.add_texts Frame.close_on Frame.content_frame
    Frame.usage_source Frame.is_rejection Frame.object_frame Frame.frame Extract.add_call
    Extract.add_records Extract.add_value Extract.add_keys Stream.is_space Stream.trim_left
    Stream.trim_right Stream.trim_space Stream.join_lines Stream.closed_call Stream.flush
    Stream.read_line Stream.scan Stream.fill_call Stream.check_closed Stream.close_calls
    Stream.finish_stream Stream.read_events Stream.read_ide_stream
answers = refl

chat-Completes_example :
    (b : Body) × (decode_body (value "{}") true ≡ ok b)
    × (r : ChatRequest) × (decode_chat_request b.1 (some sdk) (some fields) ≡ ok r)
    × Completes r (execute false client outside r [] 0) answer
chat-Completes_example =
    chat-Completes (value "{}") true (λ body. some sdk) (λ body. some fields) "chatcmpl-1" 3 true
      client outside [] 0 answers
