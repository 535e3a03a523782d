-- ===== src/Chat/Decode/Total.antt =====
-- types.go decodeChatRequest: no index is out of range.
use trae_api.Prelude.{
  String, ◌==◌, string_eq, Bool, true, false, not, ◌||◌, Option, none, some, List, [], ◌∷◌, ◌≡◌,
  ◌≢◌, refl, if◌then◌else◌, eqb, Assoc, lookup, length, arith,
}
use trae_api.Fault.{failure, panic, Result, ok, err, ◌>>=◌, reject}
use trae_api.Json.{Codec}
use trae_api.Chat.Content.{
  MessageInput, is_text_part, normalize_message, text_content, decode_string, join_parts,
}
use trae_api.Chat.Decode.{
  SdkFunction, Sdk, ToolInput, Fields, decode_messages, decode_tool, decode_tools, has_role, stops,
  unmarshalled, decode_chat_request,
}

-- A result is no panic.
record Calm {A : Type 0} (m : Result A) : Type 0 where
  calm : m ≢ err panic

ok-Calm : {A : Type 0} (a : A) → Calm (ok a)
ok-Calm a = record { calm = λ e. cc }

failure-Calm : {A : Type 0} (s : String) → Calm {A = A} (err (failure s))
failure-Calm s = record { calm = λ e. cc }

>>=-Calm :
    {A B : Type 0} (m : Result A) (f : A → Result B)
    → Calm m
    → ((a : A) → m ≡ ok a → Calm (f a))
    → Calm (m >>= f)
>>=-Calm (ok a) f h k = k a refl
>>=-Calm (err e) f h k = record { calm = λ q. h.calm (cc) }

option-Calm :
    {A B : Type 0} (m : Option A) (x : Result B) (f : A → Result B)
    → Calm x
    → ((a : A) → Calm (f a))
    → Calm (elim m as (λ _. Result B) [ none ↦ x | some a ↦ f a ])
option-Calm none x f p q = p
option-Calm (some a) x f p q = q a

-- `if test { return error }`, and the rest.
check-Calm :
    {A : Type 0} (test : Bool) (s : String) (rest : Unit {0} → Result A)
    → (test ≡ false → Calm (rest tt))
    → Calm (reject test (failure s) >>= rest)
check-Calm true s rest h = failure-Calm s
check-Calm false s rest h = h refl

join_parts-Calm : (ps : List (String × String)) → Calm (join_parts ps)
unfolding join_parts
join_parts-Calm [] = ok-Calm ""
join_parts-Calm ((kind, part) ∷ rest) =
    check-Calm (not (is_text_part kind)) _ _
      (λ e. >>=-Calm (join_parts rest) _ (join_parts-Calm rest) (λ t e. ok-Calm _))

if-Calm :
    {A : Type 0} (test : Bool) (x y : Result A) → Calm x → Calm y → Calm (if test then x else y)
if-Calm true x y p q = p
if-Calm false x y p q = q

module _ ⦃go : Codec⦄ where
  text_content-Calm : (raw : String) → Calm (text_content raw)
  unfolding text_content
  text_content-Calm raw = if-Calm (raw == "" || raw == "null") _ _ (ok-Calm "") (
      option-Calm (decode_string raw) _ _
        (option-Calm (go.parts raw) _ _ (failure-Calm _) join_parts-Calm) (λ s. ok-Calm s))

  normalize_message-Calm : (v : MessageInput) → Calm (normalize_message v)
  unfolding normalize_message
  normalize_message-Calm v =
      >>=-Calm (text_content v.content) _ (text_content-Calm _) (λ c e. ok-Calm _)

  decode_messages-Calm :
      (roles : List (Option String)) (inputs : List MessageInput)
      → length inputs ≡ length roles
      → Calm (decode_messages roles inputs)
  unfolding decode_messages
  decode_messages-Calm [] inputs e = ok-Calm []
  decode_messages-Calm (role ∷ roles) [] e = absurd (omega arith)
  decode_messages-Calm (role ∷ roles) (f ∷ fs) e = >>=-Calm _ _ (normalize_message-Calm f) (λ m p.
      check-Calm (not (has_role role f.role)) _ _
        (λ u. >>=-Calm _ _ (decode_messages-Calm roles fs (omega arith)) (λ ms p. ok-Calm _)))

  decode_tools-Calm :
      (fns : List (Option SdkFunction)) (inputs : List ToolInput)
      → length inputs ≡ length fns
      → Calm (decode_tools fns inputs)
  unfolding decode_tools
  decode_tools-Calm [] inputs e = ok-Calm []
  decode_tools-Calm (fn ∷ fns) [] e = absurd (omega arith)
  decode_tools-Calm (none ∷ fns) (f ∷ fs) e = failure-Calm _
  decode_tools-Calm (some fn ∷ fns) (f ∷ fs) e =
      >>=-Calm (decode_tool (some fn) f) _
        (check-Calm (not (f.kind == "function")) _ _ (λ u. ok-Calm _))
        (λ t p. >>=-Calm _ _ (decode_tools-Calm fns fs (omega arith)) (λ ts p. ok-Calm _))

  unmarshalled-Calm : {A : Type 0} (m : Option A) → Calm (unmarshalled m)
  unmarshalled-Calm none = failure-Calm ""
  unmarshalled-Calm (some a) = ok-Calm a

  -- Whatever openai-go and encoding/json make of a body, decoding the request never indexes an array out
  -- of range.
  pub decode_chat_request-ne-panic :
      (raw : Assoc String String) (sdk : Option Sdk) (fields : Option Fields)
      → decode_chat_request raw sdk fields ≢ err panic
  unfolding decode_chat_request
  decode_chat_request-ne-panic raw sdk fields =
      (check-Calm (stops (lookup "stop" raw)) _ _ (λ e. >>=-Calm _ _ (unmarshalled-Calm sdk) (λ s e.
        >>=-Calm _ _ (unmarshalled-Calm fields) (λ f e.
          check-Calm
            (not (eqb (length f.messages) (length s.roles))
              || not (eqb (length f.tools) (length s.tools)))
            _ _
            (λ e.
              let (a, b) = same_lengths f s e in
              >>=-Calm _ _ (decode_messages-Calm s.roles f.messages a) (λ ms p.
                >>=-Calm _ _ (decode_tools-Calm s.tools f.tools b) (λ ts p. ok-Calm _))))))).calm
    where
      same_lengths :
          (f : Fields) (s : Sdk)
          → (not (eqb (length f.messages) (length s.roles))
              || not (eqb (length f.tools) (length s.tools)))
            ≡ false
          → (length f.messages ≡ length s.roles) × (length f.tools ≡ length s.tools)
      same_lengths f s h = ground arith
