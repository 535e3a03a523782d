-- ===== src/Http/Sink/Silent.antt =====
-- http.go streamSink: what comes after the end of a stream.
use trae_api.Prelude.{
  String, string_eq, true, false, Option, List, [], ◌∷◌, ◌≡◌, ◌⊎◌, inl, inr, refl, sym, ap, ◌∙◌,
  subst, is_some, Bool-cases, Option-cases,
}
use trae_api.Http.Sink.{
  StreamSink, Conn, send, heartbeat, done, finish, Event, sends, beats, ends, finishes, step, run,
}

-- What a stream that takes no more writes is: it has ended, or a write has failed.
abbrev Shut : StreamSink → Type 0
Shut s = (s.finished ≡ true) ⊎ (is_some s.err ≡ true)

-- `done` apart, which the handler calls last.
abbrev pub NoEnd : List Event → Type 0
NoEnd [] = Unit
NoEnd (ends conn ∷ es) = ⊥
NoEnd (e ∷ es) = NoEnd es

send-over :
    (conn : Conn) (event : String) (payload : Option String) (s : StreamSink)
    → Shut s
    → (send conn event payload s).1 ≡ s
unfolding send
send-over conn event payload s (inl h) = elim (Option-cases s.err) [
  | inl e ↦ rw (e, h) refl
  | inr (x, e) ↦ rw (e) refl
]
send-over conn event payload s (inr h) = elim (Option-cases s.err) [
  | inl e ↦ absurd (let q : is_some s.err ≡ false = ap is_some e in cc)
  | inr (x, e) ↦ rw (e) refl
]

heartbeat-over : (conn : Conn) (s : StreamSink) → Shut s → (heartbeat conn s).1 ≡ s
unfolding heartbeat
heartbeat-over conn s over = elim (Bool-cases s.started) [
  | inr b ↦ rw (b) refl
  | inl b ↦ (elim over [
    | inl h ↦ rw (b, h) refl
    | inr h ↦ (elim (Bool-cases s.finished) [ inl f ↦ rw (b, f) refl | inr f ↦ silent s b f h ])
  ])
]
  where
    silent :
        (s : StreamSink)
        → s.started ≡ true
        → s.finished ≡ false
        → is_some s.err ≡ true
        → (heartbeat conn s).1 ≡ s
    silent s b f h = elim (Option-cases s.err) [
      | inl e ↦ absurd (let q : is_some s.err ≡ false = ap is_some e in cc)
      | inr (x, e) ↦ rw (b, f, e) refl
    ]

done-Shut : (conn : Conn) (s : StreamSink) → Shut (done conn s).1
unfolding done
done-Shut conn s = elim (Option-cases s.err) [
  | inr (x, e) ↦ rw (e) (inr refl)
  | inl e ↦ (elim (Option-cases conn.data_err) [
    | inl h ↦ rw (e, h) (inl refl)
    | inr (x, h) ↦ rw (e, h) (inl refl)
  ])
]

-- A step that leaves the stream as it is.
same_out :
    (es : List Event) (s t : StreamSink)
    → t ≡ s
    → Shut s
    → (Shut t → (run es t).out ≡ t.out)
    → (run es t).out ≡ s.out
same_out es s t e over h = h (subst Shut (sym e) over) ∙ ap (λ x. x.out) e

run-over : (es : List Event) (s : StreamSink) → NoEnd es → Shut s → (run es s).out ≡ s.out
unfolding run step
run-over [] s calm over = refl
run-over (sends conn event payload ∷ es) s calm over =
    same_out es s _ (send-over conn event payload s over) over (run-over es _ calm)
run-over (beats conn ∷ es) s calm over =
    same_out es s _ (heartbeat-over conn s over) over (run-over es _ calm)
run-over (ends conn ∷ es) s calm over = absurd calm
run-over (finishes ∷ es) s calm over =
    run-over es (finish s) calm (elim over [ inl h ↦ inl refl | inr h ↦ inr h ])

-- Once `done` has run, on whatever stream, nothing that is sent or that beats reaches the client,
-- as long as `done` is not called again.
pub run-silent :
    (conn : Conn) (es : List Event) (s : StreamSink)
    → NoEnd es
    → (run es (done conn s).1).out ≡ (done conn s).1.out
run-silent conn es s calm = run-over es (done conn s).1 calm (done-Shut conn s)
