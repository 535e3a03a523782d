-- ===== src/Tests/Serving.antt =====
-- A request that is carried out, the stream that answers it, and the command that logs in.
use trae_api.Prelude.{
  pos, text_eq, ◌<>◌, true, false, none, some, List, [], ◌∷◌, ◌≡◌, ◌≢◌, ◌↔◌, refl, eqb,
}
use trae_api.Fault.{panic, ok, err}
use trae_api.Json.{Codec}
use trae_api.Chat.{Message, ChatRequest}
use trae_api.Chat.Decode.{Sdk, Fields, decode_chat_request}
use trae_api.Chat.Decode.Total.{decode_chat_request-ne-panic}
use trae_api.Store.Codec.{ApiCredential}
use trae_api.Models.Discovery.{unsent}
use trae_api.Upstream.{Host}
use trae_api.Server.{Asking, Outside, slot, replied, execute}
use trae_api.Server.Config.{Net, default_config, validate_api_config, is_loopback_addr}
use trae_api.Server.Answered.{Ends, execute-Ends}
use trae_api.Http.{Urls, Request, served, auth_middleware, local_management_host, same_origin}
use trae_api.Http.Guarded.{Entitled, auth_middleware-Entitled}
use trae_api.Http.Sink.{
  StreamSink, new_stream_sink, Conn, Event, sends, beats, ends, run, done, step, send, heartbeat,
}
use trae_api.Http.Sink.Wire.{Framed, run-Framed}
use trae_api.Http.Sink.Silent.{run-silent}
use trae_api.Http.Usage.{Unicode}
use trae_api.LoginCommand.{Turn, ticked, answered, poll_loop}
use trae_api.LoginCommand.Polling.{Succeeded, poll_loop_iff}
use trae_api.Tests.Codec.{test_codec}
use trae_api.Tests.Models.{batch}

instance abbrev pub codec : Codec
codec = test_codec

abbrev pub client : Host
client = record { new_id = λ n. "call_1"; emit = λ ds d. none }

abbrev pub asking : Asking
asking = record { batch = batch; single = λ f. unsent none; start = 7; now = 7; later = 8 }

abbrev pub account : ApiCredential
account = record {
  version = pos 1;
  token = "token";
  expires_at = 5;
  user_id = "user";
  client_id = "client";
  device_id = "device";
  machine_id = "machine";
}

abbrev pub outside : Outside
outside = record {
  cancelled = none;
  cancelled_at_gate = none;
  wait = slot;
  credential = ok account;
  identity = λ c. 1;
  sort = λ names. names;
  first = asking;
  second = asking;
  third = asking;
  request_id = "request_1";
  reply =
      λ c body. replied 200 ("event: message" ∷ "data: hi" ∷ "" ∷ "data: [DONE]" ∷ "" ∷ []) false;
}

abbrev hello : Message
hello = record { role = "user"; content = "hello"; tool_calls = []; tool_call_id = ""; name = "" }

abbrev request : ChatRequest
request = record {
  model = "auto";
  messages = hello ∷ [];
  stream = true;
  tools = [];
  tool_choice = "";
  parallel = none;
  max_tokens = pos 0;
  max_completion_tokens = pos 0;
  temperature = none;
  top_p = none;
  include_usage = false;
  choice = "";
}

execute-Ends_example : Ends true request (execute true client outside request [] 0)
execute-Ends_example = execute-Ends true request client outside [] 0

instance abbrev pub net : Net
net = record {
  split_host_port = λ addr. some ("127.0.0.1", "8723");
  atoi = λ s. some (pos 8723);
  parse_ip = λ s. some true;
}

instance abbrev pub urls : Urls
urls = record {
  parse = λ s. some (record {
    host = "127.0.0.1:8723";
    has_user = false;
    path = "";
    raw_query = "";
    fragment = "";
    hostname = "127.0.0.1";
  });
  equal_fold = text_eq;
}

abbrev pub local : Request
local = record { host = "127.0.0.1:8723"; origin = ""; sec_fetch_site = ""; authorization = "" }

valid : validate_api_config default_config ≡ ok tt
unfolding validate_api_config default_config is_loopback_addr text_eq
valid = refl

admitted : auth_middleware default_config.api_token local ≡ served
unfolding auth_middleware default_config local_management_host same_origin text_eq ◌<>◌
admitted = refl

auth_middleware-Entitled_example : Entitled default_config local
auth_middleware-Entitled_example = auth_middleware-Entitled default_config local valid admitted

abbrev conn : Conn
conn = record { done = none; flusher = true; event_err = none; data_err = none }

abbrev stream : List Event
stream = sends conn "" (some "{}") ∷ beats conn ∷ ends conn ∷ []

run-Framed_example : let s : StreamSink = run stream new_stream_sink in Framed s.started s.out
unfolding run step send heartbeat text_eq
run-Framed_example = run-Framed stream (refl, tt)

abbrev late : List Event
late = beats conn ∷ sends conn "" (some "{}") ∷ []

run-silent_example :
    (run late (done conn new_stream_sink).1).out ≡ (done conn new_stream_sink).1.out
run-silent_example = run-silent conn late new_stream_sink tt

instance abbrev pub unicode : Unicode
unicode = record {
  is_space = λ r. eqb r 32;
  is_han = λ r. false;
  is_punct = λ r. eqb r 33;
  runes = λ s. [];
  messages = λ ms. "";
  tools = λ ts. "";
  calls = λ cs. "";
}

abbrev pub sdk : Sdk
sdk = record {
  model = "auto";
  parallel = none;
  max_tokens = pos 0;
  max_completion_tokens = pos 0;
  temperature = none;
  top_p = none;
  include_usage = false;
  roles = some "user" ∷ [];
  tools = [];
}

abbrev pub fields : Fields
fields = record {
  stream = false;
  messages =
      record { role = "user"; content = ""; tool_calls = []; name = ""; tool_call_id = "" } ∷ [];
  tools = [];
  tool_choice = "";
}

decode_chat_request-ne-panic_example : decode_chat_request [] (some sdk) (some fields) ≢ err panic
decode_chat_request-ne-panic_example = decode_chat_request-ne-panic [] (some sdk) (some fields)

abbrev polls : List Turn
polls =
    ticked (answered 200 (some (("status", "pending") ∷ [])))
    ∷ ticked (answered 200 (some (("status", "completed") ∷ [])))
    ∷ []

poll_loop_iff_example : (poll_loop polls ≡ some (ok tt)) ↔ Succeeded polls
poll_loop_iff_example = poll_loop_iff polls
