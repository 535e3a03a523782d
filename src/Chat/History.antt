-- ===== src/Chat/History.antt =====
-- types.go: the pairing of tool calls and tool results in a client's history
-- (validateToolHistory). The two Go sets are lists: membership is all that the code reads of
-- `seen`, and of `pending` also whether it is empty.
use trae_api.Prelude.{String, ◌==◌, string_eq, Bool, true, false, not, List, [], ◌∷◌, if◌then◌else◌}
use trae_api.Fault.{failure, Result, ok, ◌>>=◌, ◌>>◌, reject}
use trae_api.Chat.{Message, ToolCall}
use trae_api.Chat.Validate.{is_empty}

unfoldable pub has : String → List String → Bool
has k [] = false
has k (x ∷ xs) = if x == k then true else has k xs

-- delete(set, k)
unfoldable pub without : String → List String → List String
without k [] = []
without k (x ∷ xs) = let rest = without k xs in if x == k then rest else x ∷ rest

-- set[k] = true
unfoldable pub with_key : String → List String → List String
unfolding has
with_key k xs = if has k xs then xs else k ∷ xs

-- The loop over the calls of one message: the new `pending` and `seen`.
unfoldable pub add_calls :
    List ToolCall → List String → List String → Result (List String × List String)
unfolding has with_key
add_calls [] pending seen = ok (pending, seen)
add_calls (c ∷ cs) pending seen = do
  reject (has c.id seen) (failure "duplicate tool call id")
  add_calls cs (with_key c.id pending) (with_key c.id seen)

unfoldable pub check_history : List Message → List String → List String → Result (Unit {0})
unfolding add_calls has without
check_history [] pending seen =
    reject (not (is_empty pending)) (failure "all pending tool calls require results")
check_history (m ∷ ms) pending seen =
    let next = check_history ms (without m.tool_call_id pending) seen in
    let later = λ (s : List String × List String). check_history ms s.0 s.1 in
    if m.role == "tool"
    then (do
      reject (not (has m.tool_call_id pending)) (failure "tool result has no pending call")
      next)
    else (do
      reject (not (is_empty pending))
          (failure "pending tool calls require their results before another message")
      s ← add_calls m.tool_calls pending seen
      later s)

unfoldable pub validate_tool_history : List Message → Result (Unit {0})
unfolding check_history
validate_tool_history ms = check_history ms [] []
