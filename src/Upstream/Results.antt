-- ===== src/Upstream/Results.antt =====
-- The completion that a stream leaves: what was streamed of it, its calls, and when it is refused.
use mathlib.Core.List.{append-nil}
use trae_api.Prelude.{
  ℕ, ◌<◌, String, ◌==◌, string_eq, nat_eq, Bool, true, false, not, ◌&&◌, ◌||◌, some, List, [], ◌∷◌,
  ◌++◌, ◌≡◌, ◌≢◌, refl, sym, subst, ap, ◌∙◌, ◌⊎◌, inl, inr, arith, All, length, text_eq_iff,
}
use trae_api.Fault.{Fault, panic}
use trae_api.Json.{Codec}
use trae_api.Chat.{ChatRequest, Completion}
use trae_api.Chat.Validate.{is_empty}
use trae_api.Upstream.{
  Delta, Host, Accumulator, next, fail, Ensures, Ensures-bind, Ensures-next, ensures_rules, Faults,
  Ensures-eq_next, Ensures-eq_fail,
}
use trae_api.Upstream.Texts.{Streamed}
use trae_api.Upstream.View.{all_text, all_reasoning, received, call_at}
use trae_api.Upstream.CallState.{Seen, shown_calls}
use trae_api.Upstream.Invariant.{Inv}
use trae_api.Upstream.Kept.{Inv-rules}
use trae_api.Upstream.Stream.{finish_stream, read_ide_stream}
use trae_api.Upstream.Rules.{read_events-keeps}
use trae_api.Upstream.Closing.{initial-Inv, Closed, Closing, close_calls-Closing}

module _ {A : Type 0} where
  length-pos : (xs : List A) → not (is_empty xs) ≡ true → 0 < length xs
  length-pos [] e = absurd (cc)
  length-pos (x ∷ xs) e = omega arith

  length-zero : (xs : List A) → not (is_empty xs) ≡ false → length xs ≡ 0
  length-zero [] e = refl
  length-zero (x ∷ xs) e = absurd (cc)

  nil_of_length : (xs : List A) → length xs ≡ 0 → xs ≡ []
  nil_of_length [] e = refl
  nil_of_length (x ∷ xs) e = absurd (omega arith)

-- The two ways in which a completion answers the request.
abbrev pub Answers : ChatRequest → Completion → Type 0
Answers r c =
    ((c.message.tool_calls ≢ []) × (c.finish ≡ "tool_calls"))
    ⊎ ((c.message.tool_calls ≡ [])
        × ((r.choice ≡ "auto") ⊎ (r.choice ≡ "none"))
        × ((c.message.content ≢ "") ⊎ (c.reasoning ≢ "")))

pub record Final ⦃go : Codec⦄ (r : ChatRequest) (c : Completion) (ds : List Delta) : Type 0 where
  pub streamed : Streamed c ds
  pub seen : Seen c.message.tool_calls ds
  pub closed : All (Closed r) c.message.tool_calls
  pub answers : Answers r c

module _ ⦃go : Codec⦄ ⦃host : Host⦄ {E : Fault → Type 0} (faults : Faults E) (r : ChatRequest) where
  with_calls :
      (a : Accumulator)
      → Closing r [] a
      → not (is_empty a.calls) ≡ true
      → Final r (record a.result { finish = "tool_calls" }) a.delivered
  with_calls a v e = record {
    streamed = record { text = v.streamed.text; reasoning = v.streamed.reasoning };
    seen = subst (λ cs. Seen cs a.delivered) (append-nil a.result.message.tool_calls) v.seen;
    closed = v.closed;
    answers = inl (λ q. absurd (omega (arith, v.count, ap length q, length-pos a.calls e)), refl);
  }

  without_calls :
      (a : Accumulator)
      → Closing r [] a
      → not (is_empty a.calls) ≡ false
      → (a.request.choice == "required"
          || (not (a.request.choice == "auto") && not (a.request.choice == "none")))
        ≡ false
      → (a.result.message.content == "" && a.result.reasoning == "") ≡ false
      → Final r a.result a.delivered
  without_calls a v e k t = record {
    streamed = v.streamed;
    seen = subst (λ cs. Seen cs a.delivered) (append-nil a.result.message.tool_calls) v.seen;
    closed = v.closed;
    answers = inr (
      nil_of_length _ (omega (arith, v.count, length-zero a.calls e)),
      subst (λ q. (q.choice ≡ "auto") ⊎ (q.choice ≡ "none")) v.request
          (ground
            (arith, text_eq_iff a.request.choice "auto", text_eq_iff a.request.choice "none")),
      ground (arith, text_eq_iff a.result.message.content "", text_eq_iff a.result.reasoning ""),
    );
  }

  finish_stream-Final :
      (a : Accumulator) → Closing r [] a → Ensures (λ c. Final r c a.delivered) E (finish_stream a)
  unfolding finish_stream
  finish_stream-Final a v = search (ensures_rules, faults.failed, with_calls, without_calls)

  pub read_ide_stream-Final :
      (lines : List String) (broken : Bool)
      → Ensures (λ p. Final r p.0 p.1.delivered) E (read_ide_stream lines broken r)
  unfolding read_ide_stream
  read_ide_stream-Final lines broken =
      Ensures-bind _ _ (read_events-keeps (Inv-rules faults r) lines broken _ (initial-Inv r))
        λ a h.
          Ensures-bind _ _ (close_calls-Closing faults r a.calls a (closing a h.0))
            λ b k. Ensures-bind _ _ (finish_stream-Final b k) λ c f. Ensures-next f
    where
      closing : (a : Accumulator) → Inv r a → Closing r a.calls a
      closing a v = record {
        request = v.request;
        streamed = v.streamed;
        seen = subst (λ cs. Seen (cs ++ shown_calls a.calls) a.delivered) (sym v.pristine) v.seen;
        settled = v.settled;
        closed = subst (All (Closed r)) (sym v.pristine) tt;
        count = rw v.pristine (omega arith);
      }

any_fault : ⦃host : Host⦄ → Faults (λ _. Unit {0})
any_fault = record { failed = λ _. tt; rejected = tt; emitted = λ _ _ _ _. tt }

module _ ⦃go : Codec⦄ ⦃host : Host⦄ (lines : List String) (broken : Bool) (r : ChatRequest)
    {c : Completion} {a : Accumulator} (done : read_ide_stream lines broken r ≡ next (c, a)) where
  final : Final r c a.delivered
  final = Ensures-eq_next _ (read_ide_stream-Final any_fault r lines broken) done

  -- If a stream is read to its end, the texts of the deltas that were delivered join up to the
  -- content and to the reasoning of the completion, and the call fragments delivered for each
  -- index join up to the call at that index of the completion (to the empty call past the end).
  pub read_ide_stream-streamed :
      (c.message.content ≡ all_text a.delivered)
      × (c.reasoning ≡ all_reasoning a.delivered)
      × ((i : ℕ) → received i a.delivered ≡ call_at c.message.tool_calls i)
  read_ide_stream-streamed = (final.streamed.text, final.streamed.reasoning, final.seen)

  -- If a stream is read to its end, every call of the completion names a tool of the request that
  -- the tool choice allows, is of the kind "function" and has valid JSON arguments; with the choice
  -- "none" there is no call.
  pub read_ide_stream-Closed : All (Closed r) c.message.tool_calls
  read_ide_stream-Closed = final.closed

  -- If a stream is read to its end, the completion has calls and finishes by "tool_calls", or it
  -- has none, the choice was "auto" or "none", and the content or the reasoning is not empty.
  pub read_ide_stream-Answers : Answers r c
  read_ide_stream-Answers = final.answers

abbrev pub NotPanic : Fault → Type 0
NotPanic e = e ≢ panic

-- No stream, whatever its lines, makes the reader index its calls out of range, if emit does not.
pub read_ide_stream-ne-panic :
    ⦃go : Codec⦄ ⦃host : Host⦄ (lines : List String) (broken : Bool) (r : ChatRequest)
    (a : Accumulator)
    → ((ds : List Delta) (d : Delta) → host.emit ds d ≢ some panic)
    → read_ide_stream lines broken r ≢ fail panic a
read_ide_stream-ne-panic ⦃host⦄ lines broken r a safe e =
    Ensures-eq_fail _ (read_ide_stream-Final faults r lines broken) e refl
  where
    faults : Faults NotPanic
    faults = record {
      failed = λ s q. cc;
      rejected = λ q. cc;
      emitted = λ ds d x q p. safe ds d (q ∙ ap some p);
    }
