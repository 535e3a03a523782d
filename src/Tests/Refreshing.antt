-- ===== src/Tests/Refreshing.antt =====
-- A manager whose token is about to expire, and the exchange that renews it.
use trae_api.Prelude.{ℕ, true, none, some, Option, List, [], ◌∷◌, ◌≡◌, refl, text_eq, inl}
use trae_api.Fault.{cancelled, failure, ok, err}
use trae_api.Json.{Codec, Members, member, end, text, at_key, member?, first_string, object_value}
use trae_api.Chat.History.{has}
use trae_api.Login.{Credential, AuthManager, Flight, no_credential}
use trae_api.Models.Discovery.{answered}
use trae_api.AuthService.{new_auth_manager}
use trae_api.Refresh.{exchanges, enter, Stored, finish, marked, unmarked, reconcile_published}
use trae_api.Refresh.System.{Event, enters, returns, logs_out, step, run, Distinct}
use trae_api.Refresh.Entry.{AllFresh}
use trae_api.Refresh.OneUse.{run-Distinct}
use trae_api.Refresh.Renewed.{Serves, refresh-Serves}
use trae_api.Refresh.Exchange.{Texts, decode_exchange, jwt_claims, parse_expiry}
use trae_api.Refresh.Exchange.Accepted.{Renews, decode_exchange-Renews}
use trae_api.Refresh.Exchange.Request.{Crypto, Turn, exchange}
use trae_api.Refresh.Exchange.Request.Once.{SentOnce, exchange-SentOnce}
use trae_api.Tests.Codec.{test_codec}

abbrev old : Credential
old = record no_credential {
  token = "token";
  refresh_token = "first";
  user_id = "user";
  expires_at = 60000000020;
}

abbrev near : AuthManager
near = record new_auth_manager { cred = old; has_store = true }

abbrev now : ℕ
now = 60000000010

abbrev flight : Flight
flight = record { old = marked old; generation = 0 }

starts : (enter now (ok tt) near).0 ≡ exchanges flight
unfolding enter new_auth_manager text_eq
starts = refl

abbrev stored : Stored
stored = record { saved = ok tt; disk = err (failure ""); invalidated = none; quarantined = none }

abbrev events : List Event
events =
    enters now (ok tt)
    ∷ returns now none (ok (record old { refresh_token = "second" })) stored
    ∷ enters now (ok tt)
    ∷ logs_out
    ∷ []

stored_near : near.has_store ≡ true
unfolding new_auth_manager
stored_near = refl

idle_near : near.refreshing ≡ none
unfolding new_auth_manager
idle_near = refl

fresh : AllFresh events (record { manager = near; sent = [] })
unfolding step enter finish new_auth_manager text_eq has reconcile_published
fresh = (tt, (refl, (tt, (tt, tt))))

run-Distinct_example : Distinct (run events (record { manager = near; sent = [] })).sent
run-Distinct_example = run-Distinct events near stored_near idle_near fresh

abbrev given_up : AuthManager
given_up = (finish now (some cancelled) (err cancelled) stored flight (enter now (ok tt) near).1).1

instance abbrev codec : Codec
codec = test_codec

instance abbrev texts : Texts
texts = record {
  sprint = λ v. "";
  parse_float = λ s. none;
  parse_time = λ f s. none;
  split_dots = λ s. [];
  unbase64_url = λ s. none;
  equal_fold = λ s t. text_eq s t;
}

instance abbrev crypto : Crypto
crypto = record { public_key = λ k. some k; sign = λ k t. some t; format_int = λ n. "0" }

abbrev body : Option (Option Members)
body = some (some (member "Token" (text "new") (member "UserID" (text "user") end)))

renewed : Credential
renewed = record old { token = "new"; expires_at = 0 }

accepts : decode_exchange 200 body old ≡ ok renewed
unfolding decode_exchange renewed parse_expiry jwt_claims text_eq at_key member? first_string
    object_value
accepts = refl

decode_exchange-Renews_example : Renews old renewed
decode_exchange-Renews_example = decode_exchange-Renews 200 body old accepts

abbrev turned_away : Turn
turned_away = record {
  nonce = some "00";
  at = 0;
  malformed = none;
  answer = λ r. answered 403 none;
}

abbrev bound : Credential
bound = record old { device_key = "key"; device_id = "device"; machine_id = "machine" }

exchange-SentOnce_example : SentOnce turned_away (exchange 5 turned_away turned_away bound).1
exchange-SentOnce_example = exchange-SentOnce 5 turned_away turned_away bound

abbrev accepted_turn : Turn
accepted_turn = record { nonce = none; at = 0; malformed = none; answer = λ r. answered 200 body }

abbrev fresh_credential : Credential
fresh_credential = record (marked old) { token = "new"; expires_at = 0 }

exchanged : (exchange 5 accepted_turn accepted_turn flight.old).0 ≡ ok fresh_credential
unfolding exchange decode_exchange parse_expiry jwt_claims text_eq at_key member? first_string
    object_value
exchanged = refl

refresh-Serves_example :
    Serves 99
      (ok tt)
      (unmarked fresh_credential)
      0
      (finish 7 none (ok fresh_credential) stored flight (enter now (ok tt) near).1)
refresh-Serves_example =
    refresh-Serves now (ok tt) near flight 5 accepted_turn accepted_turn fresh_credential 7 stored
      99 (ok tt) starts exchanged refl (inl refl)
