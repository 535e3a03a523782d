-- ===== src/Http/Sink/Wire.antt =====
-- http.go streamSink: what reaches the client, in which order.
use trae_api.Prelude.{
  String, ◌==◌, string_eq, Bool, true, false, not, ◌||◌, Option, none, some, List, [], ◌∷◌, ◌++◌,
  ◌≡◌, refl, ap, if◌then◌else◌, is_some, All,
}
use trae_api.Fault.{Fault}
use trae_api.Http.Sink.{
  Output, headers, wrote, flushed, StreamSink, new_stream_sink, Conn, put, write_flush, write_event,
  send, heartbeat, done, finish, Event, sends, beats, ends, finishes, step, run,
}

-- Something other than the headers.
abbrev pub IsBody : Output → Type 0
IsBody headers = ⊥
IsBody (wrote s) = Unit
IsBody flushed = Unit

-- A stream that has started set the headers once, before anything else; nothing else came out of one
-- that has not.
abbrev pub Framed : Bool → List Output → Type 0
Framed false out = out ≡ []
Framed true out = (body : List Output) × All IsBody body × (out ≡ body ++ headers ∷ [])

-- `done` is called only once the stream has started.
abbrev pub Allowed : List Event → StreamSink → Type 0
Allowed [] s = Unit
Allowed (ends conn ∷ es) s = (s.started ≡ true) × Allowed es (step (ends conn) s)
Allowed (e ∷ es) s = Allowed es (step e s)

record Framing (s : StreamSink) : Type 0 where
  framed : Framed s.started s.out

record Live (s : StreamSink) : Type 0 where
  started : s.started ≡ true
  framed : Framed s.started s.out

abbrev Reply : Type 0
Reply = Option Fault × StreamSink

put-Framed :
    (b : Bool) (o : Output) (out : List Output)
    → b ≡ true
    → IsBody o
    → Framed b out
    → Framed b (o ∷ out)
put-Framed true o out e h (body, all, q) = (o ∷ body, (h, all), ap (λ x. o ∷ x) q)
put-Framed false o out e h f = absurd (cc)

live : {s : StreamSink} → Live s → Framing s
live h = record { framed = h.framed }

put-Live :
    (o : Output) (s : StreamSink) (e : Option Fault)
    → IsBody o
    → Live s
    → Live (put o (record s { err = e }))
put-Live o s e b h = record {
  started = h.started;
  framed = put-Framed s.started o s.out h.started b h.framed;
}

write_flush-Live :
    (m : Option Fault) (text : String) (s : StreamSink) → Live s → Live (write_flush m text s).1
write_flush-Live none text s h = put-Live flushed _ none tt (put-Live (wrote text) s none tt h)
write_flush-Live (some e) text s h = put-Live (wrote text) s (some e) tt h

begin_stream-Live :
    (b : Bool) (s : StreamSink)
    → Framed b s.out
    → Live (if b then record s { started = b } else put headers (record s { started = true }))
begin_stream-Live true s h = record { started = refl; framed = h }
begin_stream-Live false s h = record { started = refl; framed = ([], tt, ap (λ x. headers ∷ x) h) }

-- Split on what an operation looks at first.
option-Framing :
    {A : Type 0} (m : Option A) (x : Reply) (f : A → Reply)
    → Framing x.1
    → ((a : A) → Framing (f a).1)
    → Framing (elim m as (λ _. Reply) [ none ↦ x | some a ↦ f a ]).1
option-Framing none x f p q = p
option-Framing (some a) x f p q = q a

if-Framing :
    (test : Bool) (x y : Reply)
    → Framing x.1
    → (test ≡ false → Framing y.1)
    → Framing (if test then x else y).1
if-Framing true x y p q = p
if-Framing false x y p q = q refl

write_event-Framing :
    (conn : Conn) (event payload : String) (s : StreamSink)
    → Live s
    → Framing (write_event conn event payload s).1
write_event-Framing conn event payload s h =
    if-Framing (event == "") _ _ (live (write_flush-Live conn.data_err _ s h)) (λ _.
      option-Framing conn.event_err _ _
        (live (write_flush-Live conn.data_err _ _ (put-Live _ s s.err tt h)))
        (λ e. live (put-Live _ s (some e) tt h)))

send-Framing :
    (conn : Conn) (event : String) (payload : Option String) (s : StreamSink)
    → Framing s
    → Framing (send conn event payload s).1
unfolding send
send-Framing conn event payload s h =
    option-Framing s.err _ _
      (if-Framing s.finished _ _ h (λ _.
        option-Framing conn.done _ _
          (if-Framing (not conn.flusher) _ _ h (λ _. option-Framing payload _ _ h (λ text.
            write_event-Framing conn event text _ (begin_stream-Live s.started s h.framed))))
          (λ e. h)))
      (λ e. h)

not-or : (a b c : Bool) → (not a || b || c) ≡ false → a ≡ true
not-or true b c h = refl
not-or false b c h = absurd (cc)

heartbeat-Framing : (conn : Conn) (s : StreamSink) → Framing s → Framing (heartbeat conn s).1
unfolding heartbeat
heartbeat-Framing conn s h = if-Framing (not s.started || s.finished || is_some s.err) _ _ h (λ e.
    live
      (write_flush-Live conn.data_err _ s (record { started = not-or _ _ _ e; framed = h.framed })))

done-Framing :
    (conn : Conn) (s : StreamSink) → s.started ≡ true → Framing s → Framing (done conn s).1
unfolding done
done-Framing conn s e h =
    option-Framing s.err _ _
      (live (
        write_flush-Live conn.data_err _ (record s { finished = true })
          (record { started = e; framed = h.framed })))
      (λ e. h)

run-Framing : (es : List Event) (s : StreamSink) → Allowed es s → Framing s → Framing (run es s)
unfolding run step
run-Framing [] s ok h = h
run-Framing (sends conn event payload ∷ es) s ok h =
    run-Framing es _ ok (send-Framing conn event payload s h)
run-Framing (beats conn ∷ es) s ok h = run-Framing es _ ok (heartbeat-Framing conn s h)
run-Framing (ends conn ∷ es) s ok h = run-Framing es _ ok.1 (done-Framing conn s ok.0 h)
run-Framing (finishes ∷ es) s ok h = run-Framing es (finish s) ok (record { framed = h.framed })

-- Whatever a new stream is asked to do, as long as `done` is called only when the stream has started, its
-- headers are set at most once and before anything is written, and nothing is written while it has not
-- started.
pub run-Framed :
    (es : List Event)
    → Allowed es new_stream_sink
    → let s : StreamSink = run es new_stream_sink in Framed s.started s.out
run-Framed es ok = (run-Framing es new_stream_sink ok (record { framed = refl })).framed
