-- ===== src/Http/Sink.antt =====
-- http.go: the stream of events that answers a request (streamSink, writeLocked, send, heartbeat,
-- done, finish, writeExecutionError, and the emit and the end of the stream in chat). Each operation runs
-- under the mutex.
--
-- `out` is what was asked of the ResponseWriter, the latest first; deadlines of writes are left out. The
-- encoded events, the error of the context and the errors of the writes are arguments.
pub mod Wire
pub mod Silent
use trae_api.Prelude.{
  ℕ, String, ◌==◌, ◌<>◌, string_eq, Bool, true, false, not, ◌||◌, Option, none, some, List, [], ◌∷◌,
  if◌then◌else◌, eqb, is_some,
}
use trae_api.Fault.{Fault, failure, status_for_error}
use trae_api.Upstream.{Delta}
use trae_api.Http.{error_type}

pub data Output : Type 0 where
  -- the Content-Type, Cache-Control and X-Accel-Buffering headers are set
  headers : Output
  wrote : String → Output
  flushed : Output

pub record StreamSink : Type 0 where
  pub started : Bool
  pub finished : Bool
  pub err : Option Fault
  pub out : List Output

abbrev pub new_stream_sink : StreamSink
new_stream_sink = record { started = false; finished = false; err = none; out = [] }

-- What an operation meets: the error of the context, whether the writer is a Flusher, and the errors of
-- its writes.
pub record Conn : Type 0 where
  pub done : Option Fault
  pub flusher : Bool
  pub event_err : Option Fault
  pub data_err : Option Fault

abbrev put : Output → StreamSink → StreamSink
put o s = record s { out = o ∷ s.out }

-- One write, and the flush after it.
abbrev write_flush : Option Fault → String → StreamSink → Option Fault × StreamSink
write_flush none text s = (none, put flushed (put (wrote text) (record s { err = none })))
write_flush (some e) text s = (some e, put (wrote text) (record s { err = some e }))

abbrev begin_stream : StreamSink → StreamSink
begin_stream s = if s.started then s else put headers (record s { started = true })

abbrev write_event : Conn → String → String → StreamSink → Option Fault × StreamSink
write_event conn event payload s =
    let line = "data: " <> payload <> "\n\n" in
    if event == "" then write_flush conn.data_err line s else (elim conn.event_err [
      | some e ↦ (some e, put (wrote ("event: " <> event <> "\n")) (record s { err = some e }))
      | none ↦ write_flush conn.data_err line (put (wrote ("event: " <> event <> "\n")) s)
    ])

-- `payload` is json.Marshal of the event; `none` is its error.
unfoldable pub send : Conn → String → Option String → StreamSink → Option Fault × StreamSink
send conn event payload s = elim s.err [
  | some e ↦ (some e, s)
  | none ↦ if s.finished then (some (failure "stream already finished"), s) else (elim conn.done [
    | some e ↦ (some e, s)
    | none ↦
        if not conn.flusher then (some (failure "streaming unsupported"), s) else (elim payload [
          | none ↦ (some (failure "encode stream event"), s)
          | some text ↦ write_event conn event text (begin_stream s)
        ])
  ])
]

unfoldable pub heartbeat : Conn → StreamSink → Option Fault × StreamSink
heartbeat conn s =
    if not s.started || s.finished || is_some s.err
    then (s.err, s)
    else write_flush conn.data_err ": keepalive\n\n" s

unfoldable pub done : Conn → StreamSink → Option Fault × StreamSink
done conn s = elim s.err [
  | some e ↦ (some e, s)
  | none ↦ write_flush conn.data_err "data: [DONE]\n\n" (record s { finished = true })
]

unfoldable pub finish : StreamSink → StreamSink
finish s = record s { finished = true }

-- How the handler of a chat leaves an error: as an event of the stream, when that has started, or as a
-- response with a status.
pub data Reported : Type 0 where
  streamed : StreamSink → Reported
  responded : ℕ → String → Reported

-- `text` is the encoded error, which holds its type.
unfoldable pub write_execution_error :
    (String → Option String) → Conn → Conn → Fault → StreamSink → Reported
unfolding send done finish
write_execution_error text first last e s =
    let status = status_for_error e in
    let kind = if eqb status 401 then "authentication_error" else "server_error" in
    let sent = (send first "" (text kind) s).1 in
    if s.started
    then streamed (if kind == "authentication_error" then finish sent else (done last sent).1)
    else responded status (error_type status)

-- The emit of a streaming chat; the chunk of a delta is an argument.
unfoldable pub emit :
    (Delta → Option String) → Conn → Delta → StreamSink → Option Fault × StreamSink
unfolding send heartbeat
emit chunk conn d s =
    if d.start
    then send conn "" (chunk d) s
    else if d.heartbeat
    then heartbeat conn s
    else send conn "" (chunk d) s

-- The end of a streaming chat: the last chunk, the chunk of the usage, when it was asked for, and the end
-- mark. A send that fails ends the handler.
unfoldable pub end_stream :
    Conn → Conn → Conn → Option String → Option (Option String) → StreamSink → StreamSink
unfolding send done
end_stream first second last chunk usage s =
    let sent = send first "" chunk s in
    let closed : StreamSink = elim usage [
      | none ↦ (done last sent.1).1
      | some text ↦
          let again = send second "" text sent.1 in
          (elim again.0 [ some e ↦ again.1 | none ↦ (done last again.1).1 ])
    ] in
    elim sent.0 [ some e ↦ sent.1 | none ↦ closed ]

-- The operations of the handler and of the goroutine that beats.
pub data Event : Type 0 where
  sends : Conn → String → Option String → Event
  beats : Conn → Event
  ends : Conn → Event
  finishes : Event

unfoldable pub step : Event → StreamSink → StreamSink
unfolding send heartbeat done finish
step (sends conn event payload) s = (send conn event payload s).1
step (beats conn) s = (heartbeat conn s).1
step (ends conn) s = (done conn s).1
step finishes s = finish s

unfoldable pub run : List Event → StreamSink → StreamSink
unfolding step
run [] s = s
run (e ∷ es) s = run es (step e s)
