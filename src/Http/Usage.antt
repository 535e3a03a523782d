-- ===== src/Http/Usage.antt =====
-- http.go: the estimate of the tokens of a text (estimateTokens, estimatedUsage), and the usage that is
-- sent (chatUsage). A text is the list of its runes.
use trae_api.Prelude.{
  ℕ, ◌+◌, ◌≤◌, String, ◌<>◌, Bool, true, false, ◌||◌, Option, none, some, List, [], ◌∷◌, ◌++◌, ◌≡◌,
  if◌then◌else◌, or_else, arith, length,
}
use trae_api.Chat.{Message, ToolCall, Tool, ChatRequest, Completion, Usage}

-- The classes of package unicode, and how a text is read.
pub record Unicode : Type 0 where
  pub is_space : ℕ → Bool
  pub is_han : ℕ → Bool
  pub is_punct : ℕ → Bool
  -- range over a string
  pub runes : String → List ℕ
  -- jsonText
  pub messages : List Message → String
  pub tools : List Tool → String
  pub calls : List ToolCall → String

-- openai.CompletionUsage
pub record CompletionUsage : Type 0 where
  pub prompt_tokens : ℕ
  pub completion_tokens : ℕ
  pub total_tokens : ℕ
  pub cached_tokens : ℕ
  pub reasoning_tokens : ℕ

unfoldable pub chat_usage : Option Usage → CompletionUsage
chat_usage none = record {
  prompt_tokens = 0;
  completion_tokens = 0;
  total_tokens = 0;
  cached_tokens = 0;
  reasoning_tokens = 0;
}
chat_usage (some u) = record {
  prompt_tokens = u.input;
  completion_tokens = u.output;
  total_tokens = u.total;
  cached_tokens = or_else u.cached_tokens 0;
  reasoning_tokens = or_else u.reasoning_tokens 0;
}

module _ ⦃unicode : Unicode⦄ where
  -- The loop, from whether a word was begun.
  unfoldable pub count_tokens : List ℕ → Bool → ℕ
  count_tokens [] word = 0
  count_tokens (r ∷ rs) word =
      let apart = count_tokens rs false in
      let within = count_tokens rs true in
      if unicode.is_space r
      then apart
      else if unicode.is_han r || unicode.is_punct r
      then 1 + apart
      else if word
      then within
      else 1 + within

  unfoldable pub estimate_tokens : String → ℕ
  unfolding count_tokens
  estimate_tokens text = count_tokens (unicode.runes text) false

  unfoldable pub estimated_usage : ChatRequest → Completion → Usage
  unfolding estimate_tokens
  estimated_usage r c =
      let input = estimate_tokens (unicode.messages r.messages <> unicode.tools r.tools) in
      let output =
        estimate_tokens (c.message.content <> c.reasoning <> unicode.calls c.message.tool_calls) in
      record {
        input = input;
        output = output;
        total = input + output;
        cached_tokens = none;
        reasoning_tokens = none;
      }

  -- Words that a space parts are counted apart: the estimate of two texts with a space between them is
  -- the sum of their estimates.
  pub count_tokens-++ :
      (xs : List ℕ) (x : ℕ) (ys : List ℕ) (word : Bool)
      → unicode.is_space x ≡ true
      → count_tokens (xs ++ x ∷ ys) word ≡ count_tokens xs word + count_tokens ys false
  unfolding count_tokens
  count_tokens-++ [] x ys word h = ground arith
  count_tokens-++ (r ∷ rs) x ys word h =
      let apart = count_tokens-++ rs x ys false h in
      let within = count_tokens-++ rs x ys true h in ground arith

  -- A text has at most as many tokens as runes.
  pub count_tokens-le : (xs : List ℕ) (word : Bool) → count_tokens xs word ≤ length xs
  unfolding count_tokens
  count_tokens-le [] word = omega arith
  count_tokens-le (r ∷ rs) word =
      let apart = count_tokens-le rs false in let within = count_tokens-le rs true in ground arith
