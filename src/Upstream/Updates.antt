-- ===== src/Upstream/Updates.antt =====
-- Updating and publishing a call keeps the invariant of the accumulator.
use trae_api.Prelude.{
  ℕ, ◌≤◌, ◌<◌, string_eq, nat_eq, false, some, ◌≡◌, sym, subst, ◌∙◌, ap, arith, All-set,
  All-get_elem?, get_elem?, set, length, length-set, get_elem?-lt, get_elem?-set_self, set-set,
  lt_of_get_elem?, set-get_self, get_elem?-map, map-set, text_eq_iff,
}
use trae_api.Fault.{Fault}
use trae_api.Chat.{ChatRequest}
use trae_api.Upstream.{
  Host, AccumulatedCall, Accumulator, Ensures, Ensures-bind, Ensures-found, ensures_rules, Faults,
}
use trae_api.Upstream.View.{shown, call_at}
use trae_api.Upstream.Calls.{CallEvent, address, merged, renames, publish, update_call, apply_call}
use trae_api.Upstream.CallState.{Settled, Draft, shown_calls, name_of}
use trae_api.Upstream.Invariant.{Inv, Pending, Slots, publish-Inv}
use trae_api.Upstream.Slots.{locate-Fits, slot_for-Inv, address-Inv}

module _ ⦃host : Host⦄ {E : Fault → Type 0} (faults : Faults E) (r : ChatRequest) where
  merged-Draft :
      (ev : CallEvent) (s : AccumulatedCall)
      → Settled r s
      → renames ev s ≡ false
      → Draft (merged ev s)
  unfolding merged renames
  merged-Draft ev s h e = record { kind = h.kind; status = ground arith }

  shown-merged :
      (ev : CallEvent) (s : AccumulatedCall)
      → Settled r s
      → renames ev s ≡ false
      → shown (merged ev s) ≡ shown s
  unfolding merged renames
  shown-merged ev s h e = ground (arith, text_eq_iff (name_of s) ev.name)

  merged-Pending :
      (ev : CallEvent) (slot : ℕ) (a : Accumulator) (s : AccumulatedCall)
      → Inv r a
      → get_elem? a.calls slot ≡ some s
      → renames ev s ≡ false
      → Pending r slot (merged ev s) (record a { calls = set a.calls slot (merged ev s) })
  merged-Pending ev slot a s v e k = record {
    request = v.request;
    streamed = v.streamed;
    pristine = v.pristine;
    seen = λ i. v.seen i ∙ ap (λ cs. call_at cs i) (sym unseen);
    room = subst (λ m. m ≤ 128) same v.room;
    ids = subst (λ m. Slots m a.by_id) same v.ids;
    indexes = subst (λ m. Slots m a.by_index) same v.indexes;
    last = subst (λ m. a.last_call ≤ m) same v.last;
    here = get_elem?-set_self a.calls slot _ (lt_of_get_elem? a.calls slot e);
    draft = merged-Draft ev s (All-get_elem? (Settled r) a.calls slot v.settled e) k;
    others = λ t h. rw set-set (All-set (Settled r) a.calls slot t v.settled h);
  }
    where
      same : length a.calls ≡ length (set a.calls slot (merged ev s))
      same = sym (length-set a.calls slot (merged ev s))

      unseen : shown_calls (set a.calls slot (merged ev s)) ≡ shown_calls a.calls
      unseen =
          map-set shown a.calls slot (merged ev s)
          ∙ ap (set (shown_calls a.calls) slot)
              (shown-merged ev s (All-get_elem? (Settled r) a.calls slot v.settled e) k)
          ∙ set-get_self (shown_calls a.calls) slot (get_elem?-map shown a.calls slot e)

  update_call-Inv :
      (ev : CallEvent) (slot : ℕ) (a : Accumulator)
      → Inv r a
      → slot < length a.calls
      → Ensures (Inv r) E (update_call ev slot a)
  unfolding update_call
  update_call-Inv ev slot a v h =
      let (s, e) = get_elem?-lt a.calls slot h in
      Ensures-found _ _ a _ e (search (ensures_rules, faults.failed, write s e))
    where
      write :
          (s : AccumulatedCall)
          → get_elem? a.calls slot ≡ some s
          → renames ev s ≡ false
          → Ensures
              (Inv r)
              E
              (publish slot (merged ev s) (record a { calls = set a.calls slot (merged ev s) }))
      write s e k = publish-Inv faults (merged-Pending ev slot a s v e k)

  pub apply_call-Inv :
      (ev : CallEvent) (a : Accumulator) → Inv r a → Ensures (Inv r) E (apply_call ev a)
  unfolding apply_call address
  apply_call-Inv ev a v = Ensures-bind _ _ (locate-Fits faults r ev.id ev.index a v) λ found f.
      Ensures-bind _ _ (slot_for-Inv faults r found ev.id a v f) λ target t.
        update_call-Inv ev target.0 _ (address-Inv faults r ev.index target.0 target.1 t.0 t.1) t.1
