-- ===== src/Upstream/Closing.antt =====
-- The loop that closes the calls of a stream: what the completion and the deltas are after it.
use mathlib.Core.List.{append_assoc}
use trae_api.Prelude.{
  ℕ, zero, suc, ◌+◌, String, ◌==◌, string_eq, nat_eq, true, false, not, some, List, [], ◌∷◌, ◌++◌,
  ◌≡◌, ◌≢◌, refl, sym, subst, ap, ◌∙◌, ◌⊎◌, inl, inr, arith, All, All-append, length, length-append,
  if◌then◌else◌, <>-empty, empty-<>, text_eq_iff, Bool-cases, eqb_iff,
}
use trae_api.Fault.{Fault}
use trae_api.Json.{Codec}
use trae_api.Chat.{ToolCall, ChatRequest}
use trae_api.Chat.Validate.{is_valid_json, has_tool}
use trae_api.Upstream.{
  Delta, blank, Host, AccumulatedCall, Accumulator, ◌>>=◌, Ensures, Ensures-bind, Ensures-next,
  ensures_rules, Faults, Ensures-send,
}
use trae_api.Upstream.Texts.{Streamed, Streamed-silent}
use trae_api.Upstream.View.{received, call_at, join_call, shown}
use trae_api.Upstream.Calls.{is_allowed}
use trae_api.Upstream.CallState.{Settled, Seen, shown_calls, name_of, args_of}
use trae_api.Upstream.Invariant.{Inv}
use trae_api.Upstream.Stream.{
  fill_call, check_closed, close_calls, initial, filler, closed_call, push_call,
}

pub initial-Inv : (r : ChatRequest) → Inv r (initial r)
initial-Inv r = record {
  request = refl;
  streamed = record { text = refl; reasoning = refl };
  pristine = refl;
  seen = λ i. refl;
  settled = tt;
  room = omega arith;
  ids = tt;
  indexes = tt;
  last = omega arith;
}

-- A call of the completion: a tool of the request that its choice allows, with valid arguments.
pub record Closed ⦃go : Codec⦄ (r : ChatRequest) (c : ToolCall) : Type 0 where
  pub kind : c.kind ≡ "function"
  pub offered : has_tool r.tools c.function.name ≡ true
  pub chosen : (r.choice ≡ "auto") ⊎ ((r.choice ≡ "required") ⊎ (r.choice ≡ c.function.name))
  pub not_none : r.choice ≢ "none"
  pub valid : is_valid_json c.function.arguments ≡ true

allowed_offered :
    (r : ChatRequest) (name : String) → is_allowed r name ≡ true → has_tool r.tools name ≡ true
unfolding is_allowed
allowed_offered r name h = ground arith

allowed_chosen :
    (r : ChatRequest) (name : String)
    → is_allowed r name ≡ true
    → (r.choice ≡ "auto") ⊎ ((r.choice ≡ "required") ⊎ (r.choice ≡ name))
unfolding is_allowed
allowed_chosen r name h =
    ground (
      arith,
      text_eq_iff r.choice "auto",
      text_eq_iff r.choice "required",
      text_eq_iff r.choice name,
    )

allowed_ne_none : (r : ChatRequest) (name : String) → is_allowed r name ≡ true → r.choice ≢ "none"
unfolding is_allowed
allowed_ne_none r name h e = absurd (ground (arith, text_eq_iff r.choice "none"))

-- `rest` are the calls that are still to be closed.
pub record Closing ⦃go : Codec⦄ (r : ChatRequest) (rest : List AccumulatedCall) (a : Accumulator)
    : Type 0 where
  pub request : a.request ≡ r
  pub streamed : Streamed a.result a.delivered
  pub seen : Seen (a.result.message.tool_calls ++ shown_calls rest) a.delivered
  pub settled : All (Settled r) rest
  pub closed : All (Closed r) a.result.message.tool_calls
  pub count : length a.result.message.tool_calls + length rest ≡ length a.calls

-- The call at one place of a list replaced.
call_at-middle :
    (xs ys : List ToolCall) (c d : ToolCall) (j : ℕ)
    → call_at (xs ++ c ∷ ys) j ≡ (if length xs == j then c else call_at (xs ++ d ∷ ys) j)
call_at-middle [] ys c d zero = refl
call_at-middle [] ys c d (suc j) = ground arith
call_at-middle (x ∷ xs) ys c d zero = ground arith
call_at-middle (x ∷ xs) ys c d (suc j) = ground (arith, call_at-middle xs ys c d j)

call_at-here : (xs ys : List ToolCall) (c : ToolCall) → call_at (xs ++ c ∷ ys) (length xs) ≡ c
call_at-here [] ys c = refl
call_at-here (x ∷ xs) ys c = call_at-here xs ys c

-- An empty call is filled up with an empty object.
join-filler :
    (s : AccumulatedCall) → (args_of s == "") ≡ true → join_call s.call filler ≡ closed_call s
unfolding closed_call
join-filler s h = ground (
  arith,
  text_eq_iff (args_of s) "",
  <>-empty s.call.id,
  <>-empty s.call.kind,
  <>-empty (name_of s),
  empty-<> "{}",
)

closed_call_same : (s : AccumulatedCall) → (args_of s == "") ≡ false → s.call ≡ closed_call s
unfolding closed_call
closed_call_same s h = ground arith

-- What is shown of a settled call that was streamed is the call.
shown-sent :
    (r : ChatRequest) (s : AccumulatedCall) → Settled r s → not s.sent ≡ false → shown s ≡ s.call
shown-sent r s h e = ground (arith, h.status)

module _ ⦃go : Codec⦄ ⦃host : Host⦄ {E : Fault → Type 0} (faults : Faults E) (r : ChatRequest) where
  closed_call-Closed :
      (s : AccumulatedCall)
      → Settled r s
      → not s.sent ≡ false
      → not (is_valid_json (closed_call s).function.arguments) ≡ false
      → Closed r (closed_call s)
  unfolding closed_call
  closed_call-Closed s h e j = record {
    kind = h.kind;
    offered = ground (arith, allowed_offered r (name_of s), allowed);
    chosen = allowed_chosen r (name_of s) allowed;
    not_none = allowed_ne_none r (name_of s) allowed;
    valid = ground arith;
  }
    where
      allowed : is_allowed r (name_of s) ≡ true
      allowed = ground (arith, h.status)

  abbrev StepTo : AccumulatedCall → List AccumulatedCall → Accumulator → List Delta → Type 0
  StepTo s rest a ds =
      Streamed a.result ds
      × Seen (a.result.message.tool_calls ++ closed_call s ∷ shown_calls rest) ds

  module _ (s : AccumulatedCall) (rest : List AccumulatedCall) (a : Accumulator)
      (v : Closing r (s ∷ rest) a) (sent : not s.sent ≡ false) where
    abbrev fill : Delta
    fill = record blank { call = some filler; index = length a.result.message.tool_calls }

    here-Settled : Settled r s
    here-Settled = v.settled.0

    here : shown s ≡ s.call
    here = shown-sent r s here-Settled sent

    abbrev done : List ToolCall
    done = a.result.message.tool_calls

    received_here : (i : ℕ) → length done ≡ i → received i a.delivered ≡ s.call
    received_here i q =
        v.seen i
        ∙ subst (λ j. call_at (done ++ shown s ∷ shown_calls rest) j ≡ shown s) q
            (call_at-here done (shown_calls rest) (shown s))
        ∙ here

    after_filler : (args_of s == "") ≡ true → StepTo s rest a (fill ∷ a.delivered)
    after_filler e = (
      Streamed-silent fill refl refl v.streamed,
      λ i.
          rw (call_at-middle done (shown_calls rest) (closed_call s) (shown s) i)
            (elim (Bool-cases (length done == i)) [
              | inl t ↦ rw t (
                  ap (λ c. join_call c filler) (received_here i ((eqb_iff (length done) i).0 t))
                  ∙ join-filler s e)
              | inr t ↦ rw t (v.seen i)
            ]),
    )

    after_nothing : (args_of s == "") ≡ false → StepTo s rest a a.delivered
    after_nothing e = (
      v.streamed,
      subst (λ c. Seen (done ++ c ∷ shown_calls rest) a.delivered) (here ∙ closed_call_same s e)
          v.seen,
    )

    pushed :
        (ds : List Delta)
        → StepTo s rest a ds
        → not (is_valid_json (closed_call s).function.arguments) ≡ false
        → Closing r rest (push_call (closed_call s) (record a { delivered = ds }))
    pushed ds h j = record {
      request = v.request;
      streamed = record { text = h.0.text; reasoning = h.0.reasoning };
      seen =
          subst (λ cs. Seen cs ds) (sym (append_assoc done (closed_call s ∷ []) (shown_calls rest)))
            h.1;
      settled = v.settled.1;
      closed = All-append (Closed r) done _ v.closed (closed_call-Closed s here-Settled sent j, tt);
      count = omega (arith, length-append done (closed_call s ∷ []), v.count);
    }

    Filled : Accumulator → Type 0
    Filled b = (b ≡ record a { delivered = b.delivered }) × StepTo s rest a b.delivered

    fill_call-Filled : Ensures Filled E (fill_call s a)
    unfolding fill_call Filled
    fill_call-Filled = search (ensures_rules, Ensures-send faults, filler_sent, nothing_sent)
      where
        filler_sent :
            (args_of s == "") ≡ true → Filled (record a { delivered = fill ∷ a.delivered })
        filler_sent e = (refl, after_filler e)

        nothing_sent : (args_of s == "") ≡ false → Filled a
        nothing_sent e = (refl, after_nothing e)

    check_closed-Closing :
        (b : Accumulator) → Filled b → Ensures (Closing r rest) E (check_closed (closed_call s) b)
    unfolding check_closed Filled
    check_closed-Closing b h = search (ensures_rules, faults.failed, accepted)
      where
        accepted :
            not (is_valid_json (closed_call s).function.arguments) ≡ false
            → Closing r rest (push_call (closed_call s) b)
        accepted j =
            subst (λ (x : Accumulator). Closing r rest (push_call (closed_call s) x)) (sym h.0)
              (pushed b.delivered h.1 j)

  pub close_calls-Closing :
      (rest : List AccumulatedCall) (a : Accumulator)
      → Closing r rest a
      → Ensures (Closing r []) E (close_calls rest a)
  unfolding close_calls
  close_calls-Closing [] a v = Ensures-next v
  close_calls-Closing (s ∷ rest) a v =
      search (ensures_rules, faults.failed, go_on (close_calls-Closing rest))
    where
      go_on :
          ((c : Accumulator) → Closing r rest c → Ensures (Closing r []) E (close_calls rest c))
          → not s.sent ≡ false
          → Ensures
              (Closing r [])
              E
              (fill_call s a >>= λ b. check_closed (closed_call s) b >>= close_calls rest)
      go_on others e =
          Ensures-bind _ _ (fill_call-Filled s rest a v e)
            λ b f. Ensures-bind _ _ (check_closed-Closing s rest a v e b f) λ c k. others c k
