-- ===== src/Upstream/Kept.antt =====
-- Every step of the reader keeps the invariant of the accumulator.
use trae_api.Prelude.{String, ◌==◌, string_eq, nat_eq, true, List, [], ◌∷◌, ◌≡◌, refl}
use trae_api.Fault.{Fault}
use trae_api.Chat.{ChatRequest, Completion}
use trae_api.Upstream.{
  Delta, blank, Host, Accumulator, Ensures, Ensures-bind, ensures_rules, Faults, Ensures-send,
}
use trae_api.Upstream.Snapshot.{merge_snapshot}
use trae_api.Upstream.Texts.{
  with_content, with_reasoning, Streamed, Streamed-silent, Streamed-text, Streamed-no_text,
  Streamed-reasoning, Streamed-no_reasoning,
}
use trae_api.Upstream.Frame.{add_text, add_reasoning, check_size, add_texts}
use trae_api.Upstream.Rules.{Rules}
use trae_api.Upstream.CallState.{Seen, shown_calls}
use trae_api.Upstream.Invariant.{Inv}
use trae_api.Upstream.Updates.{apply_call-Inv}

module _ ⦃host : Host⦄ {E : Fault → Type 0} (faults : Faults E) (r : ChatRequest) where
  abbrev with_completion : Accumulator → Completion → List Delta → Accumulator
  with_completion a c ds = record a { result = c; delivered = ds }

  -- Only what the invariant says of the completion and of the deltas is shown anew.
  Inv-completion :
      {a : Accumulator} (c : Completion) (ds : List Delta)
      → Inv r a
      → Streamed c ds
      → c.message.tool_calls ≡ []
      → Seen (shown_calls a.calls) ds
      → Inv r (with_completion a c ds)
  Inv-completion c ds v s p q = record {
    request = v.request;
    streamed = s;
    pristine = p;
    seen = q;
    settled = v.settled;
    room = v.room;
    ids = v.ids;
    indexes = v.indexes;
    last = v.last;
  }

  add_text-Inv : (s : String) (a : Accumulator) → Inv r a → Ensures (Inv r) E (add_text s a)
  unfolding add_text
  add_text-Inv s a v = search (ensures_rules, Ensures-send faults, grown, kept)
    where
      open a use {result, delivered}

      part : String × String
      part = merge_snapshot result.message.content s

      grown : Inv r (
          with_completion a
            (with_content result part.0)
            (record blank { text = part.1 } ∷ delivered))
      grown = Inv-completion _ _ v (Streamed-text s v.streamed) v.pristine v.seen

      kept :
          (part.1 == "") ≡ true → Inv r (with_completion a (with_content result part.0) delivered)
      kept e = Inv-completion _ _ v (Streamed-no_text s v.streamed e) v.pristine v.seen

  add_reasoning-Inv :
      (s : String) (a : Accumulator) → Inv r a → Ensures (Inv r) E (add_reasoning s a)
  unfolding add_reasoning
  add_reasoning-Inv s a v = search (ensures_rules, Ensures-send faults, grown, kept)
    where
      open a use {result, delivered}

      part : String × String
      part = merge_snapshot result.reasoning s

      grown : Inv r (
          with_completion a
            (with_reasoning result part.0)
            (record blank { reasoning = part.1 } ∷ delivered))
      grown = Inv-completion _ _ v (Streamed-reasoning s v.streamed) v.pristine v.seen

      kept :
          (part.1 == "") ≡ true → Inv r (with_completion a (with_reasoning result part.0) delivered)
      kept e = Inv-completion _ _ v (Streamed-no_reasoning s v.streamed e) v.pristine v.seen

  check_size-Inv : (a : Accumulator) → Inv r a → Ensures (Inv r) E (check_size a)
  unfolding check_size
  check_size-Inv a v = search (ensures_rules, faults.failed)

  add_texts-Inv : (s t : String) (a : Accumulator) → Inv r a → Ensures (Inv r) E (add_texts s t a)
  unfolding add_texts
  add_texts-Inv s t a v =
      Ensures-bind _ _ (add_text-Inv s a v)
        λ b vb. Ensures-bind _ _ (add_reasoning-Inv t b vb) λ c vc. check_size-Inv c vc

  terminal-Inv : (a : Accumulator) → Inv r a → Inv r (record a { terminal = true })
  terminal-Inv a v = record {
    request = v.request;
    streamed = v.streamed;
    pristine = v.pristine;
    seen = v.seen;
    settled = v.settled;
    room = v.room;
    ids = v.ids;
    indexes = v.indexes;
    last = v.last;
  }

  pub Inv-rules : Rules (Inv r) E
  Inv-rules = record {
    terminal = terminal-Inv;
    note = λ a u f v.
        Inv-completion _ _ v (record { text = v.streamed.text; reasoning = v.streamed.reasoning })
          v.pristine v.seen;
    heartbeat = λ a v.
        Ensures-send faults _ a
          (Inv-completion _ _ v (Streamed-silent _ refl refl v.streamed) v.pristine v.seen);
    texts = add_texts-Inv;
    call = apply_call-Inv faults r;
    failed = faults.failed;
    rejected = faults.rejected;
  }
