-- ===== src/Upstream/Slots.antt =====
-- Finding and opening the slot of a call keeps the invariant of the accumulator.
use trae_api.Prelude.{
  Eq, ℕ, ◌+◌, ◌≤◌, ◌<◌, String, string_eq, nat_eq, false, Option, none, some, [], ◌∷◌, ◌++◌, ◌≡◌,
  refl, sym, ◌∙◌, inl, inr, Option-cases, arith, Assoc, lookup, insert, All-insert, All-lookup,
  All-append, get_elem?, length, length-append, get_elem?-lt, leb,
}
use mathlib.Core.List.{map-append}
use trae_api.Fault.{Fault, panic}
use trae_api.Chat.{ChatRequest}
use trae_api.Upstream.{
  Host, AccumulatedCall, Accumulator, Step, ◌>>=◌, require, Ensures, Ensures-next, Ensures-found,
  ensures_rules, Faults,
}
use trae_api.Upstream.View.{call_at}
use trae_api.Upstream.Calls.{
  match_slot, resume, choose_slot, slot_of_index, locate, opened, open_call, slot_for, address,
}
use trae_api.Upstream.CallState.{Settled, shown_calls, call_at-append_no_call}
use trae_api.Upstream.Invariant.{Inv, Slots}

-- A slot that was found is one of the calls.
abbrev pub Fits : ℕ → Option ℕ → Type 0
Fits n none = Unit
Fits n (some s) = s < n

lookup-Fits :
    {K : Type 0} ⦃e : Eq K⦄ (k : K) (n : ℕ) (m : Assoc K ℕ) → Slots n m → Fits n (lookup k m)
lookup-Fits k n m h = elim (Option-cases (lookup k m)) [
  | inl e ↦ rw e tt
  | inr (s, e) ↦ rw e (All-lookup (λ v. v < n) k m h e)
]

Slots-mono : {K : Type 0} (k n : ℕ) (m : Assoc K ℕ) → k ≤ n → Slots k m → Slots n m
Slots-mono k n [] h s = tt
Slots-mono k n (p ∷ m) h s = (omega arith, Slots-mono k n m h s.1)

resume-Fits :
    (id : String) (index : Option ℕ) (a : Accumulator) (n : ℕ)
    → a.last_call ≤ n
    → Fits n (resume id index a)
unfolding resume
resume-Fits id index a n h = ground arith

module _ ⦃host : Host⦄ {E : Fault → Type 0} (faults : Faults E) (r : ChatRequest) where
  found_slot :
      (f : AccumulatedCall → Step (Option ℕ)) (slot : ℕ) (a : Accumulator)
      → slot < length a.calls
      → ((s : AccumulatedCall) → Ensures (Fits (length a.calls)) E (f s))
      → Ensures (Fits (length a.calls)) E (require (get_elem? a.calls slot) panic a >>= f)
  found_slot f slot a g h =
      let (s, e) = get_elem?-lt a.calls slot g in Ensures-found _ _ a f e (h s)

  match_slot-Fits :
      (known : Option ℕ) (id : String) (slot : ℕ) (a : Accumulator)
      → Fits (length a.calls) known
      → slot < length a.calls
      → Ensures (Fits (length a.calls)) E (match_slot known id slot a)
  unfolding match_slot
  match_slot-Fits (some k) id slot a f g = search (ensures_rules, faults.failed)
  match_slot-Fits none id slot a f g = search (ensures_rules, faults.failed, found_slot)

  choose_slot-Fits :
      (known indexed : Option ℕ) (id : String) (index : Option ℕ) (a : Accumulator)
      → Inv r a
      → Fits (length a.calls) known
      → Fits (length a.calls) indexed
      → Ensures (Fits (length a.calls)) E (choose_slot known indexed id index a)
  unfolding choose_slot
  choose_slot-Fits known (some s) id index a v f g = match_slot-Fits known id s a f g
  choose_slot-Fits (some k) none id index a v f g = Ensures-next f
  choose_slot-Fits none none id index a v f g = Ensures-next (resume-Fits id index a _ v.last)

  slot_of_index-Fits :
      (index : Option ℕ) (a : Accumulator) → Inv r a → Fits (length a.calls) (slot_of_index index a)
  slot_of_index-Fits none a v = tt
  slot_of_index-Fits (some i) a v = lookup-Fits i _ a.by_index v.indexes

  pub locate-Fits :
      (id : String) (index : Option ℕ) (a : Accumulator)
      → Inv r a
      → Ensures (Fits (length a.calls)) E (locate id index a)
  unfolding locate
  locate-Fits id index a v =
      choose_slot-Fits (lookup id a.by_id) (slot_of_index index a) id index a v
        (lookup-Fits id _ a.by_id v.ids) (slot_of_index-Fits index a v)

  opened-Settled : (id : String) → Settled r (opened id)
  unfolding opened
  opened-Settled id = record { kind = refl; size = omega arith; status = inl (refl, refl, refl) }

  abbrev pub Ready : ℕ × Accumulator → Type 0
  Ready (slot, a) = Inv r a × (slot < length a.calls)

  opened-Ready :
      (id : String) (drawn : ℕ) (a : Accumulator)
      → Inv r a
      → leb 128 (length a.calls) ≡ false
      → Ready (
        length a.calls,
        record a {
          calls = a.calls ++ opened id ∷ [];
          by_id = insert id (length a.calls) a.by_id;
          drawn = drawn;
        },
      )
  opened-Ready id drawn a v e = (
    record {
      request = v.request;
      streamed = v.streamed;
      pristine = v.pristine;
      seen = λ i. v.seen i ∙ sym (shown-opened i);
      settled = All-append (Settled r) a.calls _ v.settled (opened-Settled id, tt);
      room = omega (arith, grows, room);
      ids =
          All-insert (λ k. k < more) id (length a.calls) a.by_id (omega (arith, grows))
            (Slots-mono (length a.calls) more a.by_id (omega (arith, grows)) v.ids);
      indexes = Slots-mono (length a.calls) more a.by_index (omega (arith, grows)) v.indexes;
      last = omega (arith, grows, v.last);
    },
    omega (arith, grows),
  )
    where
      more : ℕ
      more = length (a.calls ++ opened id ∷ [])

      grows : more ≡ length a.calls + 1
      grows = length-append a.calls (opened id ∷ [])

      room : length a.calls < 128
      room = ground arith

      shown-opened :
          (i : ℕ)
          → call_at (shown_calls (a.calls ++ opened id ∷ [])) i ≡ call_at (shown_calls a.calls) i
      shown-opened i =
          rw map-append (unfold opened in call_at-append_no_call (shown_calls a.calls) i)

  open_call-Inv : (id : String) (a : Accumulator) → Inv r a → Ensures Ready E (open_call id a)
  unfolding open_call
  open_call-Inv id a v = search (ensures_rules, faults.failed, opened-Ready)

  pub slot_for-Inv :
      (found : Option ℕ) (id : String) (a : Accumulator)
      → Inv r a
      → Fits (length a.calls) found
      → Ensures Ready E (slot_for found id a)
  unfolding slot_for
  slot_for-Inv (some slot) id a v h = Ensures-next (v, h)
  slot_for-Inv none id a v h = open_call-Inv id a v

  addressed-Slots :
      (index : Option ℕ) (slot : ℕ) (a : Accumulator)
      → Inv r a
      → slot < length a.calls
      → Slots (length a.calls) (address index slot a).by_index
  unfolding address
  addressed-Slots none slot a v h = v.indexes
  addressed-Slots (some i) slot a v h =
      All-insert (λ k. k < length a.calls) i slot a.by_index h v.indexes

  pub address-Inv :
      (index : Option ℕ) (slot : ℕ) (a : Accumulator)
      → Inv r a
      → slot < length a.calls
      → Inv r (address index slot a)
  unfolding address
  address-Inv index slot a v h = record {
    request = v.request;
    streamed = v.streamed;
    pristine = v.pristine;
    seen = v.seen;
    settled = v.settled;
    room = v.room;
    ids = v.ids;
    indexes = addressed-Slots index slot a v h;
    last = omega arith;
  }
