-- ===== src/Upstream/Rules.antt =====
-- Induction over a stream: what every elementary step of the reader keeps, the reader keeps.
use trae_api.Prelude.{
  arith, ℕ, ◌+◌, String, Bool, true, false, Option, none, some, List, [], ◌∷◌, ◌≡◌, Option-cases,
  inl, inr, string_eq, not,
}
use trae_api.Fault.{Fault, failure, credential_rejected}
use trae_api.Json.{Codec, Members, Value, array, object_value, member?}
use trae_api.Chat.{Usage}
use trae_api.Upstream.{
  blank, Host, Accumulator, Step, next, ◌>>=◌, send, Ensures, Ensures-bind, Ensures-require,
  Ensures-next, ensures_rules,
}
use trae_api.Upstream.Calls.{CallEvent, apply_call}
use trae_api.Upstream.Extract.{add_call, add_records, add_value, add_keys, call_keys, extract_calls}
use trae_api.Upstream.Frame.{
  set_result, add_texts, close_on, content_frame, object_frame, frame, note_frame,
}
use trae_api.Upstream.Stream.{Reader, flush, read_line, scan, read_events}

module _ ⦃host : Host⦄ where
  pub record Rules (P : Accumulator → Type 0) (E : Fault → Type 0) : Type 0 where
    pub terminal : (a : Accumulator) → P a → P (record a { terminal = true })
    pub note :
        (a : Accumulator) (u : Option Usage) (f : String)
        → P a
        → P (set_result a (record a.result { usage = u; finish = f }))
    pub heartbeat :
        (a : Accumulator) → P a → Ensures P E (send (record blank { heartbeat = true }) a)
    pub texts : (s t : String) (a : Accumulator) → P a → Ensures P E (add_texts s t a)
    pub call : (ev : CallEvent) (a : Accumulator) → P a → Ensures P E (apply_call ev a)
    pub failed : (s : String) → E (failure s)
    pub rejected : E credential_rejected

module _ ⦃go : Codec⦄ ⦃host : Host⦄ {P : Accumulator → Type 0} {E : Fault → Type 0}
    (rules : Rules P E) where
  Kept-bind :
      {S : Type 0} {Q : S → Type 0} (m : Step Accumulator) (f : Accumulator → Step S)
      → Ensures P E m
      → ((a : Accumulator) → P a → Ensures Q E (f a))
      → Ensures Q E (m >>= f)
  Kept-bind m f h k = Ensures-bind m f h k

  add_call-keeps :
      (m : Members) (fallback : Option ℕ) (a : Accumulator)
      → P a
      → Ensures P E (add_call m fallback a)
  unfolding add_call
  add_call-keeps m fallback a h = search (ensures_rules, rules.failed, rules.call)

  add_records-keeps :
      (key : String) (several : Bool) (i : ℕ) (vs : List Value) (a : Accumulator)
      → P a
      → Ensures P E (add_records key several i vs a)
  unfolding add_records
  add_records-keeps key several i [] a h = Ensures-next h
  add_records-keeps key several i (raw ∷ rest) a h =
      Ensures-require (object_value raw) _ _ _ (rules.failed _) λ m _.
        Ensures-bind _ _ (add_call-keeps _ _ a h)
          λ b k. add_records-keeps key several (i + 1) rest b k

  add_value-keeps :
      (key : String) (v : Value) (a : Accumulator) → P a → Ensures P E (add_value key v a)
  unfolding add_value
  add_value-keeps key (array xs) a h = add_records-keeps key _ 0 _ a h
  add_value-keeps key v a h = add_records-keeps key _ 0 _ a h

  add_keys-keeps :
      (obj : Members) (keys : List String) (a : Accumulator)
      → P a
      → Ensures P E (add_keys obj keys a)
  unfolding add_keys
  add_keys-keeps obj [] a h = Ensures-next h
  add_keys-keeps obj (key ∷ keys) a h = elim (Option-cases (member? obj key)) [
    | inl e ↦ rw (e, add_keys) (add_keys-keeps obj keys a h)
    | inr (v, e) ↦
        rw (e, add_keys)
          (Ensures-bind _ _ (add_value-keeps key v a h) λ b k. add_keys-keeps obj keys b k)
  ]

  extract_calls-keeps :
      (obj : Option Members) (a : Accumulator) → P a → Ensures P E (extract_calls obj a)
  unfolding extract_calls
  extract_calls-keeps none a h = Ensures-next h
  extract_calls-keeps (some obj) a h = add_keys-keeps obj call_keys a h

  close_on-keeps : (b : Bool) (a : Accumulator) → P a → P (close_on b a)
  unfolding close_on
  close_on-keeps true a h = rules.terminal a h
  close_on-keeps false a h = h

  note_frame-keeps :
      (obj : Option Members) (a : Accumulator) → P a → P (set_result a (note_frame obj a.result))
  unfolding note_frame
  note_frame-keeps obj a h = rules.note a _ _ h

  content_frame-keeps :
      (kind : String) (obj : Option Members) (a : Accumulator)
      → P a
      → Ensures P E (content_frame kind obj a)
  unfolding content_frame
  content_frame-keeps kind obj a h =
      search
        (
          Kept-bind, ensures_rules, rules.failed, rules.texts, note_frame-keeps,
          extract_calls-keeps, close_on-keeps,
        )
        depth 9

  object_frame-keeps :
      (event : String) (obj : Option Members) (a : Accumulator)
      → P a
      → Ensures P E (object_frame event obj a)
  unfolding object_frame
  object_frame-keeps event obj a h =
      search
        (
          ensures_rules, rules.failed, rules.rejected, rules.heartbeat, rules.note,
          content_frame-keeps,
        )
        depth 9

  frame-keeps : (event raw : String) (a : Accumulator) → P a → Ensures P E (frame event raw a)
  unfolding frame
  frame-keeps event raw a h =
      search (ensures_rules, rules.failed, rules.terminal, object_frame-keeps)

  abbrev Holds : Reader → Type 0
  Holds r = P r.acc

  Holds-next : {r : Reader} → P r.acc → Ensures Holds E (next r)
  Holds-next h = Ensures-next h

  Holds-bind :
      {S : Type 0} {Q : S → Type 0} (m : Step Reader) (f : Reader → Step S)
      → Ensures Holds E m
      → ((r : Reader) → P r.acc → Ensures Q E (f r))
      → Ensures Q E (m >>= f)
  Holds-bind m f h k = Ensures-bind m f h k

  flush-keeps : (r : Reader) → P r.acc → Ensures Holds E (flush r)
  unfolding flush
  flush-keeps r h =
      search (Kept-bind, Holds-next, ensures_rules, rules.failed, rules.terminal, frame-keeps) depth
        9

  read_line-keeps : (line : String) (r : Reader) → P r.acc → Ensures Holds E (read_line line r)
  unfolding read_line
  read_line-keeps line r h =
      search
        (
          Kept-bind, Holds-bind, Holds-next, ensures_rules, rules.failed, rules.heartbeat,
          flush-keeps,
        )
        depth 9

  scan-keeps : (lines : List String) (r : Reader) → P r.acc → Ensures Holds E (scan lines r)
  unfolding scan
  scan-keeps [] r h = Ensures-next h
  scan-keeps (line ∷ rest) r h =
      search
        (
          Holds-bind,
          Holds-next,
          ensures_rules,
          rules.failed,
          flush-keeps,
          read_line-keeps,
          scan-keeps rest,
        )
        depth 9

  Closed-next :
      {a : Accumulator}
      → P a
      → not a.terminal ≡ false
      → Ensures (λ b. P b × (b.terminal ≡ true)) E (next a)
  Closed-next h e = Ensures-next (h, ground arith)

  -- What every step keeps holds of the accumulator that a stream leaves, which is terminal.
  pub read_events-keeps :
      (lines : List String) (broken : Bool) (a : Accumulator)
      → P a
      → Ensures (λ b. P b × (b.terminal ≡ true)) E (read_events lines broken a)
  unfolding read_events
  read_events-keeps lines broken a h =
      search
        (Holds-bind, Holds-next, Closed-next, ensures_rules, rules.failed, flush-keeps, scan-keeps)
        depth 9
