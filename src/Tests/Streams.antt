-- ===== src/Tests/Streams.antt =====
-- A stream with a text and a call, read to its end.
use trae_api.Prelude.{
  ℕ, String, true, false, none, some, List, [], ◌∷◌, ◌≡◌, ◌≢◌, refl, pos, All, text_eq, ◌<>◌,
  has_prefix, trim_prefix, lookup, insert,
}
use trae_api.Fault.{panic}
use trae_api.Chat.{Message, ToolCall, Tool, ChatRequest, Completion}
use trae_api.Json.{
  Codec, is_positive, is_negative, exceeds, member?, at_key, is_nil, object_value, first_string,
  field, records, positive_int,
}
use trae_api.Chat.Validate.{has_tool, is_valid_json}
use trae_api.Upstream.{blank, Host, Accumulator, next, fail, send}
use trae_api.Upstream.Event.{letters, normalize_event, first_count, detail, parse_usage}
use trae_api.Upstream.Snapshot.{merge_snapshot}
use trae_api.Upstream.Calls.{
  call_fields, find_args, is_closing_word, event_index, match_slot, resume, choose_slot, locate,
  opened, fresh_id, open_call, slot_for, address, merge_args, renames, merged, is_allowed,
  is_serial, fragment, stream_call, publish, update_call, apply_call,
}
use trae_api.Upstream.Extract.{add_call, add_records, add_value, add_keys, extract_calls}
use trae_api.Upstream.Frame.{
  finish_of, split_thinking, decode_object, frame_texts, note_frame, add_text, add_reasoning,
  check_size, add_texts, close_on, content_frame, usage_source, is_rejection, object_frame, frame,
}
use trae_api.Upstream.Stream.{
  read_ide_stream, is_space, trim_left, trim_right, trim_space, join_lines, closed_call, flush,
  read_line, scan, fill_call, check_closed, close_calls, finish_stream, read_events,
}
use trae_api.Upstream.View.{all_text, all_reasoning, received, call_at}
use trae_api.Upstream.Closing.{Closed}
use trae_api.Upstream.Results.{
  Answers, read_ide_stream-streamed, read_ide_stream-Closed, read_ide_stream-Answers,
  read_ide_stream-ne-panic,
}
use trae_api.Tests.Codec.{test_codec}

instance abbrev quiet : Host
quiet = record { new_id = λ n. "call_1"; emit = λ ds d. none }

instance abbrev codec : Codec
codec = test_codec

abbrev look : Tool
look = record {
  kind = "function";
  name = "look";
  description = "";
  parameters = "{}";
  strict = none;
}

abbrev request : ChatRequest
request = record {
  model = "auto";
  messages = [];
  stream = true;
  tools = look ∷ [];
  tool_choice = "";
  parallel = none;
  max_tokens = pos 0;
  max_completion_tokens = pos 0;
  temperature = none;
  top_p = none;
  include_usage = false;
  choice = "auto";
}

abbrev lines : List String
lines = "event: message" ∷ "data: hi" ∷ "" ∷ ": ping" ∷ "data: call" ∷ "" ∷ "data: [DONE]" ∷ "" ∷ []

abbrev look_call : ToolCall
look_call = record {
  id = "call_1";
  kind = "function";
  function = record { name = "look"; arguments = "{}" };
}

abbrev message : Message
message = record {
  role = "assistant";
  content = "Hi";
  tool_calls = look_call ∷ [];
  tool_call_id = "";
  name = "";
}

abbrev completion : Completion
completion = record { message = message; reasoning = ""; usage = none; finish = "tool_calls" }

abbrev last : Accumulator
last = record {
  result = record { message = message; reasoning = ""; usage = none; finish = "stop" };
  calls = record { call = look_call; sent = true; sent_args = "{}" } ∷ [];
  by_id = ("call_1", 0) ∷ [];
  by_index = [];
  request = request;
  terminal = true;
  last_call = 1;
  delivered =
      record blank { call = some look_call }
      ∷ record blank { heartbeat = true }
      ∷ record blank { text = "Hi" }
      ∷ [];
  drawn = 1;
}

done : read_ide_stream lines false request ≡ next (completion, last)
unfolding read_ide_stream text_eq ◌<>◌ has_prefix trim_prefix lookup insert is_positive is_negative
    exceeds member? at_key is_nil object_value first_string field records positive_int has_tool
    is_valid_json send letters normalize_event first_count detail parse_usage merge_snapshot
    call_fields find_args is_closing_word event_index match_slot resume choose_slot locate opened
    fresh_id open_call slot_for address merge_args renames merged is_allowed is_serial fragment
    stream_call publish update_call apply_call add_call add_records add_value add_keys extract_calls
    finish_of split_thinking decode_object frame_texts note_frame add_text add_reasoning check_size
    add_texts close_on content_frame usage_source is_rejection object_frame frame is_space trim_left
    trim_right trim_space join_lines closed_call flush read_line scan fill_call check_closed
    close_calls finish_stream read_events
done = refl

read_ide_stream-streamed_example :
    (completion.message.content ≡ all_text last.delivered)
    × (completion.reasoning ≡ all_reasoning last.delivered)
    × ((i : ℕ) → received i last.delivered ≡ call_at completion.message.tool_calls i)
read_ide_stream-streamed_example = read_ide_stream-streamed lines false request done

read_ide_stream-Closed_example : All (Closed request) completion.message.tool_calls
read_ide_stream-Closed_example = read_ide_stream-Closed lines false request done

read_ide_stream-Answers_example : Answers request completion
read_ide_stream-Answers_example = read_ide_stream-Answers lines false request done

read_ide_stream-ne-panic_example : read_ide_stream lines false request ≢ fail panic last
read_ide_stream-ne-panic_example = read_ide_stream-ne-panic lines false request last λ ds d q. cc
