-- ===== src/Upstream/Event.antt =====
-- upstream.go: the name of an event (normalizeEvent) and its token counts (parseUsage).
use Prim.Native.Char.{code}
use trae_api.Prelude.{
  ℕ, ◌+◌, String, ◌==◌, string_eq, nat_eq, ◌||◌, ◌&&◌, Option, none, some, List, [], ◌∷◌, leb, ltb,
  if◌then◌else◌,
}
use trae_api.Json.{Codec, Members, number, at_key, is_negative}
use trae_api.Chat.{Usage}

-- c >= 'a' && c <= 'z'
unfoldable pub letters : String → String
letters String.[] = ""
letters (String.◌∷◌ c s) =
    let rest = letters s in
    if leb b'a' (code c) && leb (code c) b'z' then String.◌∷◌ c rest else rest

module _ ⦃go : Codec⦄ where
  unfoldable pub normalize_event : String → String
  unfolding letters
  normalize_event s =
      let v = letters (go.to_lower s) in
      if v == "responsedone" || v == "streamdone" then "done" else v

-- int(v) at the first of the keys that holds a number which is not negative
unfoldable pub first_count : Option Members → List String → ℕ
first_count m [] = 0
first_count m (k ∷ ks) =
    let rest = first_count m ks in
    elim (at_key m k) [ number v ↦ if is_negative v then rest else v.whole | _ ↦ rest ]

unfoldable pub detail : ℕ → Option ℕ
detail n = if ltb 0 n then some n else none

unfoldable pub parse_usage : Option Members → Usage
unfolding first_count detail
parse_usage m =
    let input =
      first_count m ("prompt_tokens" ∷ "input_tokens" ∷ "input_token" ∷ "inputTokens" ∷ []) in
    let output =
      first_count m
        ("completion_tokens" ∷ "output_tokens" ∷ "output_token" ∷ "outputTokens" ∷ []) in
    let total = first_count m ("total_tokens" ∷ "total_token" ∷ "totalTokens" ∷ []) in
    record {
      input = input;
      output = output;
      total = if total == 0 then input + output else total;
      cached_tokens =
          detail (first_count m ("cache_read_tokens" ∷ "cached_tokens" ∷ "cacheReadTokens" ∷ []));
      reasoning_tokens = detail (first_count m ("reasoning_tokens" ∷ "reasoningTokens" ∷ []));
    }
