-- ===== src/Server/Sent.antt =====
-- upstream.go prompt: what is delivered of an attempt, and the completion it ends in.
use trae_api.Prelude.{
  ℕ, String, ◌<>◌, string_eq, Bool, true, false, not, ◌||◌, none, some, List, [], ◌∷◌, ◌++◌, ◌≡◌,
  refl, sym, ap, ◌∙◌, subst, if◌then◌else◌, eqb, All,
}
use trae_api.Fault.{Fault, Result, ok, err}
use trae_api.Json.{Codec}
use trae_api.Chat.{ChatRequest, Completion}
use trae_api.Route.{build_routed_ide_body}
use trae_api.Models.Cache.{Cache}
use trae_api.Store.Codec.{ApiCredential}
use trae_api.Upstream.{Delta, Host, Accumulator, Step, next, fail}
use trae_api.Upstream.Stream.{read_ide_stream}
use trae_api.Upstream.View.{all_text, all_reasoning, no_call, received, call_at}
use trae_api.Upstream.Closing.{Closed}
use trae_api.Upstream.Results.{
  Answers, read_ide_stream-Answers, read_ide_stream-Closed, read_ide_stream-streamed,
}
use trae_api.Server.{
  Outside, Reply, malformed, unsent, replied, after_deltas, streamed, read_reply, prompt_attempt,
  prompt, route_of, for_client,
}

-- The completion answers the request, with calls of its tools; the texts of the deltas join up to its
-- texts, and the fragments of each index to the call at that index (to the empty call past the end).
pub record Fulfils ⦃go : Codec⦄ (r : ChatRequest) (c : Completion) (ds : List Delta) : Type 0 where
  pub answers : Answers r c
  pub closed : All (Closed r) c.message.tool_calls
  pub content : c.message.content ≡ all_text ds
  pub reasoning : c.reasoning ≡ all_reasoning ds
  pub calls : (i : ℕ) → received i ds ≡ call_at c.message.tool_calls i

-- Deltas without a text and without a call come before the others.
pub record Wordless (ds : List Delta) : Type 0 where
  pub text : all_text ds ≡ ""
  pub reasoning : all_reasoning ds ≡ ""
  pub calls : (i : ℕ) → received i ds ≡ no_call

text-++ : (ds before : List Delta) → all_text before ≡ "" → all_text (ds ++ before) ≡ all_text ds
text-++ [] before h = h
text-++ (d ∷ ds) before h = ap (λ t. t <> d.text) (text-++ ds before h)

reasoning-++ :
    (ds before : List Delta)
    → all_reasoning before ≡ ""
    → all_reasoning (ds ++ before) ≡ all_reasoning ds
reasoning-++ [] before h = h
reasoning-++ (d ∷ ds) before h = ap (λ t. t <> d.reasoning) (reasoning-++ ds before h)

received-++ :
    (i : ℕ) (ds before : List Delta)
    → received i before ≡ no_call
    → received i (ds ++ before) ≡ received i ds
received-++ i [] before h = h
received-++ i (d ∷ ds) before h = rw (received-++ i ds before h) refl

module _ ⦃go : Codec⦄ where
  -- What was delivered grows, and a completion fulfils the request.
  pub record Sent (r : ChatRequest) (before : List Delta) (p : Result Completion × List Delta)
      : Type 0 where
    pub grown : (ds : List Delta) × (p.1 ≡ ds ++ before)
    pub fulfilled : (c : Completion) → p.0 ≡ ok c → Fulfils r c p.1

  failed-Sent : (r : ChatRequest) (before : List Delta) (e : Fault) → Sent r before (err e, before)
  failed-Sent r before e = record { grown = ([], refl); fulfilled = λ c h. absurd (cc) }

  streamed-Sent :
      (r : ChatRequest) (before : List Delta) (m : Step (Completion × Accumulator))
      → Wordless before
      → ((c : Completion) (a : Accumulator) → m ≡ next (c, a) → Fulfils r c a.delivered)
      → Sent r before (streamed before m)
  streamed-Sent r before (fail e a) silent h = record {
    grown = (a.delivered, refl);
    fulfilled = λ c h. absurd (cc);
  }
  streamed-Sent r before (next (c, a)) silent h = record {
    grown = (a.delivered, refl);
    fulfilled = λ d e.
        let f = h c a refl in
        subst (λ d. Fulfils r d (a.delivered ++ before)) (ok-eq e)
          (record {
            answers = f.answers;
            closed = f.closed;
            content = f.content ∙ sym (text-++ a.delivered before silent.text);
            reasoning = f.reasoning ∙ sym (reasoning-++ a.delivered before silent.reasoning);
            calls = λ i. received-++ i a.delivered before (silent.calls i) ∙ f.calls i;
          });
  }
    where
      ok-eq : {c d : Completion} → ok c ≡ ok d → c ≡ d
      ok-eq e = cc

  read-Fulfils :
      (host : Host) (lines : List String) (broken : Bool) (r : ChatRequest) (c : Completion)
      (a : Accumulator)
      → read_ide_stream ⦃host = host⦄ lines broken r ≡ next (c, a)
      → Fulfils r c a.delivered
  read-Fulfils host lines broken r c a e =
      let s = read_ide_stream-streamed ⦃host = host⦄ lines broken r e in
      record {
        answers = read_ide_stream-Answers ⦃host = host⦄ lines broken r e;
        closed = read_ide_stream-Closed ⦃host = host⦄ lines broken r e;
        content = s.0;
        reasoning = s.1;
        calls = s.2;
      }

  if-Sent :
      (r : ChatRequest) (before : List Delta) (test : Bool) (e : Fault)
      (p : Result Completion × List Delta)
      → Sent r before p
      → Sent r before (if test then (err e, before) else p)
  if-Sent r before true e p h = failed-Sent r before e
  if-Sent r before false e p h = h

  read_reply-Sent :
      (host : Host) (before : List Delta) (r : ChatRequest) (reply : Reply)
      → Wordless before
      → Sent r before (read_reply host before r reply)
  read_reply-Sent host before r (malformed e) silent = failed-Sent r before e
  read_reply-Sent host before r (unsent (some e)) silent = failed-Sent r before e
  read_reply-Sent host before r (unsent none) silent = failed-Sent r before _
  read_reply-Sent host before r (replied status lines broken) silent =
      if-Sent r before (eqb status 401 || eqb status 403) _ _ (
        if-Sent r before (not (eqb status 200)) _ _ (
          streamed-Sent r before _ silent
            (λ c a e. read-Fulfils (after_deltas host before) lines broken r c a e)))

  for_client-Sent :
      (r : ChatRequest) (before : List Delta) (p : Result Completion × List Delta)
      → Sent r before p
      → Sent r before (for_client p.0, p.1)
  for_client-Sent r before (ok c, ds) h = h
  for_client-Sent r before (err e, ds) h = record {
    grown = h.grown;
    fulfilled = λ c q. absurd (cc);
  }

  -- An error before the request is sent, or the rest.
  found-Sent :
      {A : Type 0} (r : ChatRequest) (before : List Delta) (m : Result A)
      (f : A → Result Completion × List Delta)
      → ((a : A) → Sent r before (f a))
      → Sent r before
          (elim m as (λ _. Result Completion × List Delta) [ err e ↦ (err e, before) | ok a ↦ f a ])
  found-Sent r before (err e) f h = failed-Sent r before e
  found-Sent r before (ok a) f h = h a

  pub prompt-Sent :
      (host : Host) (o : Outside) (c : ApiCredential) (before : List Delta) (r : ChatRequest)
      (cache : Cache)
      → Wordless before
      → Sent r before (prompt host o c before r cache).0
  unfolding prompt prompt_attempt
  prompt-Sent host o c before r cache silent =
      for_client-Sent r before (prompt_attempt host o c before r cache).0 (
        found-Sent r before (route_of o o.third (o.identity c) r.model cache).0 _ (λ route.
          read_reply-Sent host before r (o.reply c (build_routed_ide_body r o.request_id route))
            silent))
