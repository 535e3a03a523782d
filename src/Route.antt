-- ===== src/Route.antt =====
-- models.go modelRoute, and upstream.go buildRoutedIDEBody: the request that is sent for a route.
-- The map[string]any that the source fills is a record: an optional key is an Option, and where
-- the source leaves a key out for an empty value, the field holds that empty value.
pub mod Limits
use trae_api.Prelude.{
  ℕ, ℤ, pos, String, ◌==◌, string_eq, Bool, true, false, not, ◌&&◌, Option, none, some, List, [],
  ◌∷◌, ◌++◌, map, if◌then◌else◌, ltb, is_zero, exceeds_ℤ, sub_ℤ, Assoc, insert, lookup, or_else,
  or_text,
}
use trae_api.Json.{Number}
use trae_api.Chat.{Message, ToolCall, Tool, ChatRequest}
use trae_api.Chat.Validate.{is_empty}

pub record ModelRoute : Type 0 where
  pub function : String
  pub name : String
  pub base : String
  pub most : ℕ
  pub window : ℕ

-- One entry of "messages". `content` is none for null; the list of calls is the key "tool_calls",
-- absent when it is empty, and so are the two texts.
pub record Item : Type 0 where
  pub role : String
  pub content : Option String
  pub tool_calls : List ToolCall
  pub tool_call_id : String
  pub name : String

pub record Body : Type 0 where
  pub messages : List Item
  pub config_name : String
  pub model : String
  pub function : String
  pub stream : Bool
  pub request_id : String
  pub session_id : String
  pub model_name : Option String
  pub max_tokens : Option ℤ
  pub prompt_max_tokens : Option ℤ
  pub temperature : Option Number
  pub top_p : Option Number
  pub tools : List Tool
  pub tool_choice : Option String
  pub parallel : Option Bool

-- The system message that goes before those of a request with tools.
abbrev pub notice : Item
notice = record {
  role = "system";
  content =
      some
        "Tools belong to the API caller. Request tools using native function calls, then wait for the caller's tool result with the matching call ID. Do not execute tools yourself or claim a file or command succeeded without a successful caller result.";
  tool_calls = [];
  tool_call_id = "";
  name = "";
}

-- The loops that note the function of each call under its id.
unfoldable pub note_calls : List ToolCall → Assoc String String → Assoc String String
note_calls [] names = names
note_calls (c ∷ cs) names = note_calls cs (insert c.id c.function.name names)

unfoldable pub call_names : List Message → Assoc String String → Assoc String String
unfolding note_calls
call_names [] names = names
call_names (m ∷ ms) names = call_names ms (note_calls m.tool_calls names)

-- A tool result without a name takes that of the call which it answers.
unfoldable pub item : Assoc String String → Message → Item
item names m = record {
  role = if m.role == "developer" then "system" else m.role;
  content = if not (is_empty m.tool_calls) && m.content == "" then none else some m.content;
  tool_calls = m.tool_calls;
  tool_call_id = m.tool_call_id;
  name =
      if m.tool_call_id == ""
      then ""
      else or_text m.name (or_else (lookup m.tool_call_id names) "");
}

-- The limit before it is cut: what the client asks for, or the route's most for a long window.
unfoldable pub asked_limit : ChatRequest → ModelRoute → ℤ
asked_limit r route =
    let limit = if is_zero r.max_completion_tokens then r.max_tokens else r.max_completion_tokens in
    if ltb 0 route.window && is_zero limit && ltb 0 route.most then pos route.most else limit

unfoldable pub cut_limit : ModelRoute → ℤ → ℤ
cut_limit route limit =
    let cut = if ltb 0 route.most && exceeds_ℤ limit route.most then pos route.most else limit in
    if ltb 0 route.window && exceeds_ℤ cut route.window then pos route.window else cut

unfoldable pub final_limit : ChatRequest → ModelRoute → ℤ
unfolding asked_limit cut_limit
final_limit r route =
    let limit = asked_limit r route in if exceeds_ℤ limit 0 then cut_limit route limit else limit

unfoldable pub build_routed_ide_body : ChatRequest → String → ModelRoute → Body
unfolding call_names item final_limit
build_routed_ide_body r session_id route =
    let limit = final_limit r route in
    let with_tools = not (is_empty r.tools) && not (r.choice == "none") in
    record {
      messages =
          (if is_empty r.tools then [] else notice ∷ [])
          ++ map (item (call_names r.messages [])) r.messages;
      config_name = or_text route.base r.model;
      model = or_text route.base r.model;
      function = or_text route.function "solo_work_lite";
      stream = true;
      request_id = session_id;
      session_id = session_id;
      model_name = if route.name == "" then none else some route.name;
      max_tokens = if exceeds_ℤ (asked_limit r route) 0 then some limit else none;
      prompt_max_tokens = if ltb 0 route.window then some (sub_ℤ route.window limit) else none;
      temperature = r.temperature;
      top_p = r.top_p;
      tools = if with_tools then r.tools else [];
      tool_choice = if with_tools then some r.choice else none;
      parallel = if with_tools then r.parallel else none;
    }
