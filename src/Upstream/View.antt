-- ===== src/Upstream/View.antt =====
-- What the receiver of a stream can put together from the deltas, newest first: the text, the
-- reasoning, and the call at each index, field by field.
use trae_api.Prelude.{
  ℕ, String, ◌<>◌, ◌==◌, nat_eq, none, some, List, [], ◌∷◌, if◌then◌else◌, get_elem?, or_else,
}
use trae_api.Chat.{ToolCall}
use trae_api.Upstream.{Delta, AccumulatedCall}

abbrev pub all_text : List Delta → String
all_text [] = ""
all_text (d ∷ ds) = all_text ds <> d.text

abbrev pub all_reasoning : List Delta → String
all_reasoning [] = ""
all_reasoning (d ∷ ds) = all_reasoning ds <> d.reasoning

abbrev pub no_call : ToolCall
no_call = record { id = ""; kind = ""; function = record { name = ""; arguments = "" } }

-- Fields of later fragments are appended to those of earlier ones.
abbrev pub join_call : ToolCall → ToolCall → ToolCall
join_call a b = record {
  id = a.id <> b.id;
  kind = a.kind <> b.kind;
  function = record {
    name = a.function.name <> b.function.name;
    arguments = a.function.arguments <> b.function.arguments;
  };
}

abbrev pub add_fragment : ℕ → Delta → ToolCall → ToolCall
add_fragment i d c = elim d.call [ none ↦ c | some f ↦ if d.index == i then join_call c f else c ]

abbrev pub received : ℕ → List Delta → ToolCall
received i [] = no_call
received i (d ∷ ds) = add_fragment i d (received i ds)

-- What has been streamed of a call.
abbrev pub shown : AccumulatedCall → ToolCall
shown s =
    if s.sent
    then record s.call { function = record s.call.function { arguments = s.sent_args } }
    else no_call

abbrev pub call_at : List ToolCall → ℕ → ToolCall
call_at cs i = or_else (get_elem? cs i) no_call
