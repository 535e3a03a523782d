-- ===== src/Tests/Codec.antt =====
-- A codec that knows the few texts which the tests decode.
use trae_api.Prelude.{String, ◌==◌, string_eq, is_some, Option, none, some, if◌then◌else◌}
use trae_api.Json.{Value, text, object, member, end, Codec}

abbrev pub tool_event : Value
tool_event = object (
    member "tool_call"
      (object (
        member "function_call"
          (object (member "name" (text "look") (member "arguments" (text "{}") end))) end))
      end)

abbrev pub decoded : String → Option Value
decoded s =
    if s == "{}"
    then some (object end)
    else if s == "hi"
    then some (object (member "text" (text "Hi") end))
    else if s == "call"
    then some tool_event
    else none

abbrev pub test_codec : Codec
test_codec = record {
  unmarshal = decoded;
  valid = λ s. is_some (decoded s);
  marshal = λ v. "{}";
  format_float = λ n. "1";
  to_lower = λ s. s;
  named_choice = λ s. none;
  parts = λ s. none;
}
