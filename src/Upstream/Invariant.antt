-- ===== src/Upstream/Invariant.antt =====
-- The invariant of the accumulator while a stream is read, kept by every step of the reader.
use trae_api.Prelude.{
  ℕ, ◌≤◌, ◌<◌, len, ◌==◌, string_eq, nat_eq, true, false, not, ◌||◌, some, [], ◌∷◌, ◌≡◌, refl, sym,
  subst, arith, Assoc, All, get_elem?, set, length, length-set, set-get_self, has_prefix,
  trim_prefix, ltb,
}
use trae_api.Fault.{Fault}
use trae_api.Chat.{ChatRequest}
use trae_api.Upstream.{
  blank, Host, AccumulatedCall, Accumulator, next, Ensures, Ensures-bind, Ensures-next,
  ensures_rules, Faults, Ensures-send,
}
use trae_api.Upstream.Texts.{Streamed, Streamed-silent}
use trae_api.Upstream.Calls.{fragment, is_allowed, stream_call, publish}
use trae_api.Upstream.CallState
use trae_api.Upstream.CallState.{
  Settled, Draft, Seen, shown_calls, name_of, args_of, max_args, streamed-Settled, nameless-Settled,
  unchanged-Settled, Seen-fragment, call_at-append_no_call,
}

-- Every value of a map is a slot of a.calls.
abbrev pub Slots : {K : Type 0} → ℕ → Assoc K ℕ → Type 0
Slots n m = All (λ p. p.1 < n) m

pub record Inv (r : ChatRequest) (a : Accumulator) : Type 0 where
  pub request : a.request ≡ r
  pub streamed : Streamed a.result a.delivered
  pub pristine : a.result.message.tool_calls ≡ []
  pub seen : Seen (shown_calls a.calls) a.delivered
  pub settled : All (Settled r) a.calls
  pub room : length a.calls ≤ 128
  pub ids : Slots (length a.calls) a.by_id
  pub indexes : Slots (length a.calls) a.by_index
  pub last : a.last_call ≤ length a.calls

-- The accumulator once an event is written into the call `s` at `slot`, and not yet streamed.
pub record Pending (r : ChatRequest) (slot : ℕ) (s : AccumulatedCall) (a : Accumulator)
    : Type 0 where
  pub request : a.request ≡ r
  pub streamed : Streamed a.result a.delivered
  pub pristine : a.result.message.tool_calls ≡ []
  pub seen : Seen (shown_calls a.calls) a.delivered
  pub room : length a.calls ≤ 128
  pub ids : Slots (length a.calls) a.by_id
  pub indexes : Slots (length a.calls) a.by_index
  pub last : a.last_call ≤ length a.calls
  pub here : get_elem? a.calls slot ≡ some s
  pub draft : Draft s
  pub others : (t : AccumulatedCall) → Settled r t → All (Settled r) (set a.calls slot t)

module _ ⦃host : Host⦄ {E : Fault → Type 0} (faults : Faults E) {r : ChatRequest} {slot : ℕ}
    {s : AccumulatedCall} {a : Accumulator} (p : Pending r slot s a) where
  settle : Settled r s → Inv r a
  settle h = record {
    request = p.request;
    streamed = p.streamed;
    pristine = p.pristine;
    seen = p.seen;
    settled = subst (All (Settled r)) (set-get_self a.calls slot p.here) (p.others s h);
    room = p.room;
    ids = p.ids;
    indexes = p.indexes;
    last = p.last;
  }

  abbrev n : ℕ
  n = length (set a.calls slot (CallState.streamed s))

  same : length a.calls ≡ n
  same = sym (length-set a.calls slot (CallState.streamed s))

  stop_nameless :
      ltb max_args (len (args_of s)) ≡ false → (name_of s == "") ≡ true → Ensures (Inv r) E (next a)
  stop_nameless l e = Ensures-next (settle (nameless-Settled r s p.draft (ground arith) e))

  allowed : not (is_allowed a.request (name_of s)) ≡ false → is_allowed r (name_of s) ≡ true
  allowed e = subst (λ q. is_allowed q (name_of s) ≡ true) p.request (ground arith)

  stop_unchanged :
      ltb max_args (len (args_of s)) ≡ false
      → (name_of s == "") ≡ false
      → not (is_allowed a.request (name_of s)) ≡ false
      → not (has_prefix (args_of s) s.sent_args) ≡ false
      → (not s.sent || not (trim_prefix (args_of s) s.sent_args == "")) ≡ false
      → Ensures (Inv r) E (next a)
  stop_unchanged l e k h u = Ensures-next (
      settle (
        unchanged-Settled r s p.draft (ground arith) (allowed k) e (ground arith) (ground arith)
          (ground arith)))

  stream :
      ltb max_args (len (args_of s)) ≡ false
      → (name_of s == "") ≡ false
      → not (is_allowed a.request (name_of s)) ≡ false
      → not (has_prefix (args_of s) s.sent_args) ≡ false
      → Ensures (Inv r) E (stream_call slot s a)
  unfolding stream_call
  stream l e k h =
      Ensures-bind _ _
        (Ensures-send
          {P = λ b. b ≡ record a {
            delivered = record blank { call = some (fragment s); index = slot } ∷ a.delivered;
          }}
          faults _ a refl)
        λ b q. Ensures-next (
          subst (λ b. Inv r (record b { calls = set b.calls slot (CallState.streamed s) })) (sym q)
            (record {
              request = p.request;
              streamed = Streamed-silent _ refl refl p.streamed;
              pristine = p.pristine;
              seen = Seen-fragment a.calls a.delivered slot s p.seen p.here p.draft (ground arith);
              settled = p.others _ (streamed-Settled r s p.draft (ground arith) (allowed k) e);
              room = subst (λ m. m ≤ 128) same p.room;
              ids = subst (λ m. Slots m a.by_id) same p.ids;
              indexes = subst (λ m. Slots m a.by_index) same p.indexes;
              last = subst (λ m. a.last_call ≤ m) same p.last;
            }))

  pub publish-Inv : Ensures (Inv r) E (publish slot s a)
  unfolding publish
  publish-Inv =
      search (ensures_rules, faults.failed, stop_nameless, stop_unchanged, stream) depth 12
