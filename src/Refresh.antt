-- ===== src/Refresh.antt =====
-- auth.go: how authManager hands out its credential and refreshes it (get, reconcilePublished).
-- The loop of `get` is cut where it lets go of the mutex: `enter` is what it does up to the exchange,
-- a wait or a return, and `finish` what the goroutine that refreshes does afterwards.
--
-- Times are nanoseconds since the zero Time. The answers of the store and of the exchange are
-- arguments.
pub mod Exchange
pub mod System
pub mod Entry
pub mod OneUse
pub mod Resend
pub mod Renewed
use trae_api.Prelude.{
  ℕ, ◌+◌, ◌-◌, ◌*◌, String, ◌==◌, string_eq, Bool, true, false, not, ◌&&◌, ◌||◌, Option, none, some,
  List, [], ◌∷◌, if◌then◌else◌, ltb, leb, eqb, is_some,
}
use trae_api.Fault.{Fault, failure, login_required, ambiguous_exchange, Result, ok, err}
use trae_api.Login.{Credential, AuthManager, Flight, no_credential}

abbrev pub minute : ℕ
minute = 60000000000

-- The token has an expiry that has not come.
abbrev pub still_valid : ℕ → Credential → Bool
still_valid now c = not (eqb c.expires_at 0) && ltb now c.expires_at

-- sameCredential: a key that is nil is never the same
unfoldable pub same_credential : Credential → Credential → Bool
same_credential a b =
    a.token == b.token
    && a.refresh_token == b.refresh_token
    && a.user_id == b.user_id
    && a.client_id == b.client_id
    && eqb a.expires_at b.expires_at
    && eqb a.refresh_expires_at b.refresh_expires_at
    && (if a.refresh_pending then b.refresh_pending else not b.refresh_pending)
    && a.device_id == b.device_id
    && a.machine_id == b.machine_id
    && not (a.device_key == "")
    && not (b.device_key == "")
    && a.device_key == b.device_key

-- reconcilePublished: `saved` is what Save returned, `disk` what a Load after it returns.
unfoldable pub reconcile_published :
    Credential → Result (Unit {0}) → Result Credential → Bool × Option Fault
unfolding same_credential
reconcile_published c (ok _) disk = (true, none)
reconcile_published c (err e) (err _) = (false, some e)
reconcile_published c (err e) (ok d) = (same_credential d c, some e)

-- Where the locked part of `get` leaves off.
pub data Entered : Type 0 where
  given : Credential → ℕ → Entered
  refused : Fault → Entered
  waits : Entered
  exchanges : Flight → Entered

abbrev is_ambiguous : Option Fault → Bool
is_ambiguous (some ambiguous_exchange) = true
is_ambiguous _ = false

-- The token is good for two more minutes, or was dealt with less than a minute ago.
abbrev is_fresh : ℕ → AuthManager → Bool
is_fresh now a =
    eqb a.cred.expires_at 0
    || ltb (now + 2 * minute) a.cred.expires_at
    || (ltb now a.cred.expires_at && ltb (now - a.refreshed_at) minute)

abbrev pub marked : Credential → Credential
marked c = record c { refresh_pending = true }

-- The start of a refresh: with a store, the mark of a pending refresh is saved before anything is
-- sent, and a save that fails ends the call.
abbrev begin_refresh : ℕ → Result (Unit {0}) → AuthManager → Entered × AuthManager
begin_refresh now fence a =
    let plain : Flight = record { old = a.cred; generation = a.generation } in
    let fenced : Flight = record { old = marked a.cred; generation = a.generation } in
    let refuse : Fault → Entered × AuthManager = λ e. (
      if still_valid now a.cred then given a.cred a.generation else refused e,
      record a { refreshed_at = now },
    ) in
    if a.has_store
    then (elim fence [
      | err e ↦ refuse e
      | ok _ ↦ (exchanges fenced, record a { cred = marked a.cred; refreshing = some fenced })
    ])
    else (exchanges plain, record a { refreshing = some plain })

unfoldable pub enter : ℕ → Result (Unit {0}) → AuthManager → Entered × AuthManager
enter now fence a =
    if a.cred.token == ""
    then (refused login_required, a)
    else if is_some a.refresh_err
    then (
      if is_ambiguous a.refresh_err && still_valid now a.cred
          then given a.cred a.generation
          else refused login_required,
      a,
    )
    else if is_fresh now a
    then (given a.cred a.generation, a)
    else if is_some a.refreshing
    then (waits, a)
    else begin_refresh now fence a

-- What the store answers to the goroutine that has refreshed.
pub record Stored : Type 0 where
  pub saved : Result (Unit {0})
  pub disk : Result Credential
  pub invalidated : Option Fault
  pub quarantined : Option Fault

-- Where the goroutine that refreshed goes on: round the loop, or out of it.
pub data Finished : Type 0 where
  again : Finished
  returns : Credential → ℕ → Option Fault → Finished

-- What is left of a refresh: the manager, the error, and which credential may be returned with it.
record Settlement : Type 0 where
  manager : AuthManager
  fault : Option Fault
  usable : Bool
  published : Bool

abbrev set_err : Fault → AuthManager → AuthManager
set_err e a = record a { refresh_err = some e }

abbrev published_as : ℕ → Credential → Bool × Option Fault → Flight → AuthManager → Settlement
published_as now fresh (true, e) f a = record {
  manager = record a {
    cred = fresh;
    refreshed_at = now;
    refresh_err = none;
    uncertain = is_some e;
  };
  fault = e;
  usable = false;
  published = true;
}
published_as now fresh (false, e) f a = record {
  manager = set_err ambiguous_exchange a;
  fault = e;
  usable = still_valid now f.old;
  published = false;
}

abbrev pub unmarked : Credential → Credential
unmarked c = record c { refresh_pending = false }

abbrev reconciled : AuthManager → Credential → Stored → Bool × Option Fault
reconciled a fresh s =
    if a.has_store then reconcile_published fresh s.saved s.disk else (true, none)

-- A definitive rejection. When neither the expired replacement nor the quarantine of the rejected
-- file succeeds, the error says so.
abbrev rejected_fault : AuthManager → Stored → Fault
rejected_fault a s =
    if a.has_store && is_some s.invalidated && is_some s.quarantined
    then failure "invalidate rejected credential: quarantine rejected credential"
    else login_required

abbrev after_failure : ℕ → Fault → Stored → Flight → AuthManager → Settlement
after_failure now login_required s f a = record {
  manager = set_err login_required a;
  fault = some (rejected_fault a s);
  usable = false;
  published = false;
}
after_failure now ambiguous_exchange s f a = record {
  manager = set_err ambiguous_exchange a;
  fault = some ambiguous_exchange;
  usable = still_valid now f.old;
  published = false;
}
after_failure now e s f a = record {
  manager =
      if a.has_store
      then set_err ambiguous_exchange a
      else if still_valid now f.old
      then record a { refreshed_at = now }
      else a;
  fault = some e;
  usable = still_valid now f.old;
  published = false;
}

-- The part under `!changed`. `done` is the error of the caller's context.
abbrev settle : ℕ → Option Fault → Result Credential → Stored → Flight → AuthManager → Settlement
settle now (some e) outcome s f a = record {
  manager = a;
  fault = some e;
  usable = false;
  published = false;
}
settle now none (ok fresh) s f a =
    published_as now (unmarked fresh) (reconciled a (unmarked fresh) s) f a
settle now none (err e) s f a = after_failure now e s f a

abbrev leave : Option Fault → Result Credential → Flight → Settlement → Finished
leave (some e) outcome f s = if is_some s.fault then returns no_credential 0 (some e) else again
leave none outcome f s = elim s.fault [
  | none ↦ again
  | some e ↦
      if s.published
      then returns s.manager.cred f.generation (some e)
      else if s.usable
      then returns f.old f.generation none
      else returns no_credential 0 (some e)
]

unfoldable pub finish :
    ℕ → Option Fault → Result Credential → Stored → Flight → AuthManager → Finished × AuthManager
unfolding reconcile_published
finish now done outcome s f a =
    let settled = settle now done outcome s f a in
    if eqb a.generation f.generation
    then (leave done outcome f settled, record settled.manager { refreshing = none })
    else (again, record a { refreshing = none })
