-- ===== src/Http/Chat/Completed.antt =====
-- http.go chat: what a completion that is sent holds.
use trae_api.Prelude.{
  ℕ, String, ◌==◌, string_eq, Bool, false, not, ◌&&◌, Option, map, ◌≡◌, inl, inr, refl, sym, ◌∙◌,
  subst, if-cases,
}
use trae_api.Fault.{Fault, Result, ok, err}
use trae_api.Json.{Codec}
use trae_api.Chat.{ChatRequest, Completion}
use trae_api.Chat.Validate.{validate_request}
use trae_api.Chat.History.{validate_tool_history}
use trae_api.Chat.Decode.{Sdk, Fields, decode_chat_request}
use trae_api.Models.Cache.{Cache}
use trae_api.Upstream.{Host}
use trae_api.Server.{Outside, Executed, execute}
use trae_api.Server.Sent.{Fulfils}
use trae_api.Server.Answered.{Carried, Ends, execute-Ends}
use trae_api.Http.Body.{First, Raws, Body, decode_body}
use trae_api.Http.Usage.{Unicode}
use trae_api.Http.Chat.{
  ChatCompletion, Response, completed, typed, chat_completion, chat_response, chat,
}

-- The response to the request `r`, which was carried out as `x`: it holds the completion of x, whose
-- request is the validated one, under a model that may be another one, with a paired history; the
-- completion answers that request, and the deltas that x has delivered show its texts and calls.
pub record Completes ⦃go : Codec⦄ (r : ChatRequest) (x : Executed) (k : ChatCompletion)
    : Type 0 where
  pub validated : ChatRequest
  pub completion : Completion
  pub valid : validate_request r ≡ ok validated
  pub paired : validate_tool_history validated.messages ≡ ok tt
  pub outcome : x.outcome ≡ ok completion
  pub model : k.model ≡ x.request.model
  pub fulfils : Fulfils (record validated { model = x.request.model }) completion x.delivered
  pub content : k.content ≡ completion.message.content
  pub reasoning : k.reasoning ≡ completion.reasoning
  pub finish_reason : k.finish_reason ≡ completion.finish
  pub tool_calls : k.tool_calls ≡ map typed completion.message.tool_calls

completed-injective : {k l : ChatCompletion} → completed k ≡ completed l → k ≡ l
completed-injective e = cc

result-completed :
    {A : Type 0} (m : Result A) (f : Fault → Response) (g : A → Response) {k : ChatCompletion}
    → ((e : Fault) → f e ≡ completed k → ⊥)
    → (elim m as (λ _. Response) [ err e ↦ f e | ok a ↦ g a ]) ≡ completed k
    → (a : A) × (m ≡ ok a) × (g a ≡ completed k)
result-completed (err e) f g n h = absurd (n e h)
result-completed (ok a) f g n h = (a, refl, h)

module _ ⦃go : Codec⦄ ⦃unicode : Unicode⦄ where
  sent-Completes :
      (id : String) (created : ℕ) (r v : ChatRequest) (x : Executed) (c : Completion)
      → validate_request r ≡ ok v
      → validate_tool_history v.messages ≡ ok tt
      → Carried false v x
      → x.outcome ≡ ok c
      → Completes r x (chat_completion id created x.request c)
  sent-Completes id created r v x c valid paired carried outcome = record {
    validated = v;
    completion = c;
    outcome = outcome;
    model = refl;
    valid = valid;
    paired = paired;
    fulfils = subst (λ q. Fulfils q c x.delivered) carried.same (carried.fulfilled c outcome);
    content = refl;
    reasoning = refl;
    finish_reason = refl;
    tool_calls = refl;
  }

  ended-Completes :
      (id : String) (created : ℕ) (r : ChatRequest) (x : Executed) (c : Completion)
      → Ends false r x
      → x.outcome ≡ ok c
      → Completes r x (chat_completion id created x.request c)
  ended-Completes id created r x c (inl (e, failed, silent)) outcome =
      let q : err e ≡ ok c = sym failed ∙ outcome in absurd (cc)
  ended-Completes id created r x c (inr (v, valid, paired, carried)) outcome =
      sent-Completes id created r v x c valid paired carried outcome

  chat_response-Completes :
      (id : String) (created : ℕ) (encodes : Bool) (r : ChatRequest) (x : Executed)
      {k : ChatCompletion}
      → Ends false r x
      → chat_response id created encodes x ≡ completed k
      → Completes r x k
  unfolding chat_response
  chat_response-Completes id created encodes r x ends h =
      let (c, outcome, h) = result-completed x.outcome _ _ (λ e q. cc) h in
      elim (if-cases (not (c.reasoning == "") && not encodes) h) [
        | inl (t, h) ↦ absurd (cc)
        | inr (t, h) ↦
            subst (Completes r x) (completed-injective h)
              (ended-Completes id created r x c ends outcome)
      ]

module _ ⦃go : Codec⦄ ⦃raws : Raws⦄ ⦃unicode : Unicode⦄ where
  -- A completion is sent, for a request that does not stream, only for a body that is decoded into a
  -- request that validation accepts, and when that request is carried out to a completion; it holds the
  -- content, the reasoning, the calls and the finish reason of that completion and the model under which
  -- it was carried out. That completion answers the request, and its texts and calls are those that the
  -- upstream's deltas show.
  pub chat-Completes :
      (first : First) (at_end : Bool) (sdk : String → Option Sdk) (fields : String → Option Fields)
      (id : String) (created : ℕ) (encodes : Bool) (host : Host) (o : Outside) (cache : Cache)
      (used : ℕ) {k : ChatCompletion}
      → chat first at_end sdk fields id created encodes host o cache used ≡ completed k
      → (b : Body) × (decode_body first at_end ≡ ok b)
        × (r : ChatRequest) × (decode_chat_request b.1 (sdk b.0) (fields b.0) ≡ ok r)
        × Completes r (execute false host o r cache used) k
  unfolding chat
  chat-Completes first at_end sdk fields id created encodes host o cache used h =
      let (b, decoded, h) = result-completed (decode_body first at_end) _ _ (λ e q. cc) h in
      let (r, read, h) =
        result-completed (decode_chat_request b.1 (sdk b.0) (fields b.0)) _ _ (λ e q. cc) h in
      elim (if-cases r.stream h) [
        | inl (t, h) ↦ absurd (cc)
        | inr (t, h) ↦ (
          b,
          decoded,
          r,
          read,
          chat_response-Completes id created encodes r _ (execute-Ends false r host o cache used) h,
        )
      ]
