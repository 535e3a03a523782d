-- ===== src/Tests/Callbacks.antt =====
-- A login from its link to the page that says it is done.
use trae_api.Prelude.{
  String, some, List, delete, ◌==◌, string_eq, false, ◌||◌, none, some, [], ◌∷◌, ◌≡◌, refl, text_eq,
  if◌then◌else◌, insert, lookup, arith, inr, ◌≢◌, ap,
}
use trae_api.Json.{
  Codec, Value, member, end, text, object, at_key, member?, first_string, object_value,
}
use trae_api.Login.{
  Credential, AuthManager, begin_login, supersede, make_room, oldest_login, claim, login_status,
  Event, claimed, committed, finished, published, asked, step, run,
}
use trae_api.Login.Link.{ClientConfig, link_query, get}
use trae_api.Login.Callback.{Arrival, trace_id, prepare, callback}
use trae_api.Login.Callback.Published.{Published, callback-Published}
use trae_api.Login.Callback.Completes.{attempt_of, IsTimely, IsDone, login_completes}
use trae_api.Login.Callback.Spent.{IsTurnedAway, callback_once}
use trae_api.Refresh.Exchange.{Texts, parse_expiry}
use trae_api.Refresh.Exchange.Request.{Crypto, Turn}
use trae_api.Models.Discovery.{answered}
use trae_api.Tests.Codec.{test_codec}
use trae_api.Tests.Logins.{idle, drawn}

abbrev user_jwt : Value
user_jwt = object (
    member "Token" (text "token") (
      member "RefreshToken" (text "refresh") (
        member "TokenExpireAt" (text "five")
          (member "RefreshExpireAt" (text "nine") (member "UserID" (text "user") end)))))

instance abbrev pub codec : Codec
codec = record test_codec { unmarshal = λ s. if s == "{}" then some user_jwt else none }

instance abbrev pub texts : Texts
texts = record {
  sprint = λ v. elim v as (λ _. String) [ text s ↦ s | _ ↦ "" ];
  parse_float = λ s. none;
  parse_time = λ f s. if s == "five" then some 5 else if s == "nine" then some 9 else none;
  split_dots = λ s. [];
  unbase64_url = λ s. none;
  equal_fold = λ s t. text_eq s t;
}

instance abbrev pub crypto : Crypto
crypto = record { public_key = λ k. some k; sign = λ k t. some t; format_int = λ n. "0" }

abbrev pub config : ClientConfig
config = record { client_id = "client"; ide_version = "3.3.99" }

abbrev pub turn : Turn
turn = record { nonce = none; at = 0; malformed = none; answer = λ r. answered 403 none }

abbrev pub arrival : Arrival
arrival = record {
  done_before = false;
  query_bytes = 100;
  get = λ k.
      if k == "loginTraceID"
      then "login"
      else if k == "userJwt" || k == "userInfo"
      then "{}"
      else "";
  claimed_at = 20;
  first = turn;
  second = turn;
  exchanged_at = 25;
  meanwhile = asked 26 "login" ∷ [];
  done_after = false;
  committed_at = 30;
  saved = λ c. published;
  afterwards = [];
}

abbrev pub granted : Credential
granted = record {
  token = "token";
  refresh_token = "refresh";
  user_id = "user";
  client_id = "client";
  expires_at = 5;
  refresh_expires_at = 9;
  refresh_pending = false;
  device_id = "device";
  machine_id = "machine";
  device_key = "key";
}

pub prepares : prepare config arrival (attempt_of 0 drawn 0) ≡ inr granted
unfolding prepare parse_expiry object_value first_string at_key member? text_eq
prepares = refl

traced : trace_id arrival.get ≡ "login"
unfolding text_eq
traced = refl

pub not_listening : idle.callback_url ≢ ""
not_listening = λ e. cc

pub unnamed : ◌≢◌ {A = String} "login" ""
unnamed = λ e. cc

abbrev begun : AuthManager
begun = run (asked 10 "login" ∷ []) (begin_login 0 "login" (some drawn) idle).1

pub timely : IsTimely "login" 600000000000 arrival
timely = record {
  open_before = refl;
  short = omega arith;
  claimed = omega arith;
  harmless = (omega arith, tt);
  open_after = refl;
  committed = omega arith;
  last = refl;
}

pub brings_back :
    arrival.get "loginTraceID"
    ≡ get "login_trace_id" (link_query config idle.callback_url "login" drawn [])
unfolding link_query lookup insert text_eq
brings_back = refl

completes : IsDone "login" 50 granted (
    callback config arrival
      (run (asked 10 "login" ∷ []) (begin_login 0 "login" (some drawn) idle).1))
completes =
    login_completes config 0 "login" drawn [] idle (asked 10 "login" ∷ []) arrival granted 50
      not_listening unnamed (omega arith, tt) timely brings_back prepares refl

done : (callback config arrival begun).0.status ≡ 200
done = ap (λ z. z.status) completes.0

callback-Published_example :
    Published (trace_id arrival.get) begun (callback config arrival begun).1
callback-Published_example = callback-Published config arrival begun refl done

claims : (claim 20 "login" begun).0 ≡ some (attempt_of 0 drawn 0)
unfolding claim begin_login run step login_status supersede make_room oldest_login lookup insert
    delete text_eq
claims = refl

-- While the first callback goes on, another one looks, and its login is committed.
abbrev going_on : List Event
going_on =
    claimed 21 "login"
    ∷ committed false 30 "login" (attempt_of 0 drawn 0) granted published
    ∷ finished "login"
    ∷ asked 40 "login"
    ∷ []

callback_once_example :
    IsTurnedAway
      (run going_on (claim 20 "login" begun).1)
      (callback config arrival (run going_on (claim 20 "login" begun).1))
callback_once_example =
    callback_once config 20 "login" (attempt_of 0 drawn 0) begun going_on arrival claims
      (tt, (tt, (tt, (tt, tt)))) traced
