-- ===== src/Login.antt =====
-- auth.go and auth_service.go: the login attempts of the auth manager. Each operation is what its
-- Go function does while it holds the mutex; a callback of the browser is the steps `claim`,
-- `commit` and `finish_login`, between which other operations may run.
--
-- A time is a count of nanoseconds since the zero Time. The ids and device data that a login draws at random, the
-- credential that a callback ends up with and what the store did are arguments.
pub mod Callback
pub mod Capacity
pub mod DeviceId
pub mod Link
pub mod Settled
mod State
pub mod Winner
pub use trae_api.Login.State.{
  Credential, LoginAttempt, Status, pending, superseded, expired, cancelled, failed, completed,
  durability_uncertain, LoginResult, Flight, AuthManager, is_open, is_pending, awaits,
  no_credential,
}
use trae_api.Prelude.{
  ℕ, ◌+◌, String, ◌==◌, string_eq, Bool, true, false, not, ◌&&◌, ◌||◌, Option, none, some, List, [],
  ◌∷◌, if◌then◌else◌, ltb, leb, eqb, is_some, Assoc, insert, lookup, delete, length,
}
use trae_api.Fault.{Fault, failure, Result, ok, err}

-- The loop of beginLogin over the results.
unfoldable pub supersede : ℕ → Assoc String LoginResult → Assoc String LoginResult
supersede now [] = []
supersede now ((id, r) ∷ rest) =
    let kept = supersede now rest in
    if ltb r.expires now
    then kept
    else (id, if is_pending r then record r { status = superseded } else r) ∷ kept

unfoldable pub oldest_login : String × ℕ → Assoc String LoginResult → String × ℕ
oldest_login best [] = best
oldest_login best ((id, r) ∷ rest) =
    oldest_login (if best.0 == "" || ltb r.expires best.1 then (id, r.expires) else best) rest

unfoldable pub make_room : Assoc String LoginResult → Assoc String LoginResult
unfolding oldest_login
make_room results =
    if leb 128 (length results) then delete (oldest_login ("", 0) results).0 results else results

abbrev pub ten_minutes : ℕ
ten_minutes = 600000000000

-- What a login draws: the device key, the device id and the machine id.
pub record Device : Type 0 where
  pub key : String
  pub device : String
  pub machine : String

-- beginLogin. `state` is the new id; no device is an error of one of the random draws, whose
-- three texts are not told apart. The result
-- is the id that the authorization link carries.
unfoldable pub begin_login : ℕ → String → Option Device → AuthManager → Result String × AuthManager
unfolding supersede make_room
begin_login now state drawn a =
    let cleared = record a {
      attempts = [];
      login_results = make_room (supersede now a.login_results);
    } in
    let started = λ (d : Device). record cleared {
      attempts =
          insert state
            (record {
              expires = now + ten_minutes;
              device = d.device;
              machine = d.machine;
              key = d.key;
              generation = a.generation;
            })
            [];
      latest_login = state;
      login_results =
          insert state (record { status = pending; expires = now + ten_minutes })
            cleared.login_results;
    } in
    if a.callback_url == ""
    then (err (failure "authorization callback listener is unavailable"), a)
    else (elim drawn [
      | none ↦ (err (failure "device key generation failed"), cleared)
      | some d ↦ (ok state, started d)
    ])

abbrev pub in_time : ℕ → Option LoginResult → Bool
in_time now none = false
in_time now (some r) = ltb now r.expires

-- The first part of callback: the attempt is taken out, so that it is used once. No attempt is the
-- answer 400.
unfoldable pub claim : ℕ → String → AuthManager → Option LoginAttempt × AuthManager
claim now state a =
    let r = lookup state a.login_results in
    let taken = record a { attempts = delete state a.attempts } in
    elim (lookup state a.attempts) [
      | none ↦ (none, a)
      | some p ↦
          if awaits r && in_time now r
          then ((if ltb p.expires now then none else some p), taken)
          else (none, a)
    ]

abbrev pub set_status : String → Status → AuthManager → AuthManager
set_status id s a = elim (lookup id a.login_results) [
  | none ↦ a
  | some r ↦ record a { login_results = insert id (record r { status = s }) a.login_results }
]

-- What reconcilePublished says of a save: not published, published, or published with an error.
pub data Saved : Type 0 where
  refused : Saved
  published : Saved
  unconfirmed : Saved

abbrev pub publish : Credential → String → Bool → AuthManager → AuthManager
publish c state unsure a =
    set_status state (if unsure then durability_uncertain else completed)
      (record a { cred = c; generation = a.generation + 1; refresh_err = none; uncertain = unsure })

-- The login state has changed since the attempt was claimed. `done` says that the context of the
-- request is done.
abbrev pub is_stale : Bool → ℕ → String → LoginAttempt → AuthManager → Bool
is_stale done now state p a =
    let r = lookup state a.login_results in
    done
    || not (eqb p.generation a.generation)
    || not (a.latest_login == state)
    || not (awaits r)
    || not (in_time now r)

-- The last part of callback, for the attempt that was claimed: true when the credential is taken.
unfoldable pub commit :
    Bool → ℕ → String → LoginAttempt → Credential → Saved → AuthManager → Bool × AuthManager
commit done now state p c saved a =
    if is_stale done now state p a then (false, a) else (elim saved [
      | refused ↦ (false, a)
      | published ↦ (true, publish c state false a)
      | unconfirmed ↦ (true, publish c state true a)
    ])

-- finishLogin
unfoldable pub finish_login : String → AuthManager → AuthManager
finish_login id a = if awaits (lookup id a.login_results) then set_status id failed a else a

-- An attempt that ends: its result, its attempt and the mark of the latest are cleared.
abbrev pub end_attempt : String → Status → AuthManager → AuthManager
end_attempt id s a =
    let b = set_status id s a in
    record b {
      attempts = delete id b.attempts;
      latest_login = if b.latest_login == id then "" else b.latest_login;
    }

-- loginStatus: the status that is answered; none is 404.
unfoldable pub login_status : ℕ → String → AuthManager → Option Status × AuthManager
login_status now id a =
    let r = lookup id a.login_results in
    let b = if awaits r && not (in_time now r) then end_attempt id expired a else a in
    (elim (lookup id b.login_results) [ none ↦ none | some q ↦ some q.status ], b)

-- cancelLogin
unfoldable pub cancel_login : String → AuthManager → Option Status × AuthManager
cancel_login id a =
    let b = if awaits (lookup id a.login_results) then end_attempt id cancelled a else a in
    (elim (lookup id b.login_results) [ none ↦ none | some q ↦ some q.status ], b)

unfoldable pub logout : AuthManager → AuthManager
logout a = record a {
  cred = no_credential;
  generation = a.generation + 1;
  refresh_err = none;
  attempts = [];
  latest_login = "";
}

-- The operations that goroutines of the server run, each under the mutex.
pub data Event : Type 0 where
  begin : ℕ → String → Option Device → Event
  claimed : ℕ → String → Event
  committed : Bool → ℕ → String → LoginAttempt → Credential → Saved → Event
  finished : String → Event
  asked : ℕ → String → Event
  cancel : String → Event
  log_out : Event

unfoldable pub step : Event → AuthManager → AuthManager
unfolding begin_login claim commit finish_login login_status cancel_login logout
step (begin now state drawn) a = (begin_login now state drawn a).1
step (claimed now state) a = (claim now state a).1
step (committed done now state p c saved) a = (commit done now state p c saved a).1
step (finished id) a = finish_login id a
step (asked now id) a = (login_status now id a).1
step (cancel id) a = (cancel_login id a).1
step log_out a = logout a

unfoldable pub run : List Event → AuthManager → AuthManager
unfolding step
run [] a = a
run (e ∷ es) a = run es (step e a)
