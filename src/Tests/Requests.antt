-- ===== src/Tests/Requests.antt =====
-- A history with one tool call, and a request for a route with both limits.
use trae_api.Prelude.{
  ◌≤◌, String, true, false, none, List, [], ◌∷◌, ◌++◌, ◌≡◌, ◌≢◌, refl, pos, text_eq,
}
use trae_api.Fault.{ok}
use trae_api.Chat.{Message, ChatRequest}
use trae_api.Chat.History.{validate_tool_history, check_history, add_calls, has, without, with_key}
use trae_api.Chat.Pairing.{
  results, calls, validate_tool_history-paired, validate_tool_history-answered,
}
use trae_api.Route.{ModelRoute, build_routed_ide_body}
use trae_api.Route.Limits.{Bounded, build_routed_ide_body-Bounded}

abbrev says : String → String → Message
says role content = record {
  role = role;
  content = content;
  tool_calls = [];
  tool_call_id = "";
  name = "";
}

abbrev calling : Message
calling = record {
  role = "assistant";
  content = "";
  tool_calls =
      record {
        id = "call_1";
        kind = "function";
        function = record { name = "look"; arguments = "{}" };
      }
      ∷ [];
  tool_call_id = "";
  name = "";
}

abbrev answer : Message
answer = record {
  role = "tool";
  content = "done";
  tool_calls = [];
  tool_call_id = "call_1";
  name = "";
}

abbrev opening : List Message
opening = says "user" "look" ∷ calling ∷ answer ∷ []

abbrev history : List Message
history = opening ++ says "user" "thanks" ∷ []

accepted : validate_tool_history history ≡ ok tt
unfolding validate_tool_history check_history add_calls has without with_key text_eq
accepted = refl

validate_tool_history-paired_example :
    (results "call_1" history ≡ calls "call_1" history) × (calls "call_1" history ≤ 1)
validate_tool_history-paired_example = validate_tool_history-paired history "call_1" accepted

validate_tool_history-answered_example :
    (results "call_1" opening ≤ calls "call_1" opening)
    × ((says "user" "thanks").role ≢ "tool" → results "call_1" opening ≡ calls "call_1" opening)
validate_tool_history-answered_example =
    validate_tool_history-answered opening (says "user" "thanks") [] "call_1" accepted

abbrev long : ModelRoute
long = record {
  function = "chat_v3";
  name = "fast__max";
  base = "fast";
  most = 4096;
  window = 100000;
}

abbrev asking : ChatRequest
asking = record {
  model = "fast-max";
  messages = history;
  stream = true;
  tools = [];
  tool_choice = "";
  parallel = none;
  max_tokens = pos 0;
  max_completion_tokens = pos 9000;
  temperature = none;
  top_p = none;
  include_usage = false;
  choice = "auto";
}

build_routed_ide_body-Bounded_example :
    Bounded long
      (build_routed_ide_body asking "id" long).max_tokens
      (build_routed_ide_body asking "id" long).prompt_max_tokens
build_routed_ide_body-Bounded_example = build_routed_ide_body-Bounded asking "id" long (refl, refl)
