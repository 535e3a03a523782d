-- ===== src/LoginCommand.antt =====
-- login_cli.go: the command that logs in through a running Auth service (localLoginTarget, loginCall,
-- runLogin, loginError).
--
-- The answers of the service, what net/url makes of the link, the outcome of the browser, and what the
-- select of the loop finds, turn after turn, are arguments. A map that lacks a key gives "".
pub mod Polling
use trae_api.Prelude.{
  ℕ, String, ◌==◌, string_eq, Bool, true, false, not, ◌&&◌, ◌||◌, Option, none, some, List, [], ◌∷◌,
  if◌then◌else◌, eqb, len, Assoc, lookup, or_else,
}
use trae_api.Fault.{Fault, failure, cancelled, deadline_exceeded, Result, ok, err}
use trae_api.Server.Config.{Net, is_loopback}

abbrev pub Fields : Type 0
Fields = Assoc String String

abbrev pub get : String → Fields → String
get k fields = or_else (lookup k fields) ""

module _ ⦃net : Net⦄ where
  unfoldable pub local_login_target : String → Bool
  local_login_target addr = elim (net.split_host_port addr) [
    | none ↦ false
    | some (host, port) ↦ host == "localhost" || is_loopback (net.parse_ip host)
  ]

-- What a call of the service meets: the request cannot be built, there is no connection, with the error
-- of the context when it is done, or a status, with the body when it is a map of strings.
pub data CallReply : Type 0 where
  unbuilt : String → CallReply
  unsent : Option Fault → CallReply
  answered : ℕ → Option Fields → CallReply

unfoldable pub login_call : CallReply → Result Fields
login_call (unbuilt detail) = err (failure detail)
login_call (unsent (some e)) = err e
login_call (unsent none) =
    err (failure "Auth service is not running or unavailable; start trae-api auth first")
login_call (answered status body) =
    if eqb status 401 || eqb status 403
    then err (failure "Auth service rejected the login request; check the local Auth address")
    else if not (eqb status 200)
    then err (failure "login request failed")
    else (elim body [ none ↦ err (failure "invalid login response") | some fields ↦ ok fields ])

unfoldable pub login_error : Fault → Fault
login_error cancelled = failure "login cancelled"
login_error deadline_exceeded = failure "login timed out; run trae-api login again"
login_error e = e

-- What a turn of the loop finds.
pub data Turn : Type 0 where
  -- the context is done
  over : Fault → Turn
  ticked : CallReply → Turn

-- What a status makes of the loop: its result, or another turn.
unfoldable pub judge : String → Option (Result (Unit {0}))
judge status =
    if status == "completed"
    then some (ok tt)
    else if status == "durability_uncertain"
    then some (
        err (
          failure
            "credential is usable now, but disk durability is unconfirmed; repeat login before restarting Auth"))
    else if status == "pending"
    then none
    else if status == "cancelled"
    then some (err (failure "login cancelled"))
    else if status == "expired"
    then some (err (failure "login timed out; run trae-api login again"))
    else if status == "superseded"
    then some (err (failure "login replaced by another attempt"))
    else if status == "failed"
    then some (err (failure "browser authorization failed; run trae-api login again"))
    else some (err (failure "invalid login status"))

-- The loop over the turns; `none` when it still waits after them.
unfoldable pub poll_loop : List Turn → Option (Result (Unit {0}))
unfolding login_call login_error judge
poll_loop [] = none
poll_loop (over e ∷ turns) = some (err (login_error e))
poll_loop (ticked reply ∷ turns) =
    let rest = poll_loop turns in
    elim (login_call reply) [
      | err e ↦ some (err (login_error e))
      | ok state ↦ (elim (judge (get "status" state)) [ some r ↦ some r | none ↦ rest ])
    ]

-- The parts of the link, and of the official one.
pub record Link : Type 0 where
  pub scheme : String
  pub host : String
  pub path : String
  pub has_user : Bool
  pub fragment : String
  pub trace_id : String

pub record LoginRun : Type 0 where
  pub target : String
  -- the answer to the first call
  pub begun : CallReply
  -- url.Parse of a link, and of the official one
  pub parse : String → Option Link
  pub official : Link
  -- the error of the browser, and of the context after it
  pub browser : Option Fault
  pub stopped : Option Fault
  pub turns : List Turn

abbrev is_official : Link → String → Link → Bool
is_official official id u =
    u.scheme == official.scheme
    && u.host == official.host
    && u.path == official.path
    && not u.has_user
    && u.fragment == ""
    && u.trace_id == id

-- How the command ends, unless it still waits, and the attempt that it cancels on its way out.
pub record Ended : Type 0 where
  pub result : Option (Result (Unit {0}))
  pub cancels : Option String

abbrev ends : Result (Unit {0}) → Ended
ends r = record { result = some r; cancels = none }

-- From the attempt on: whatever happens, the attempt is cancelled at the end.
unfoldable pub await_login : LoginRun → String → String → Option (Result (Unit {0}))
unfolding poll_loop
await_login run id link =
    let invalid : Option (Result (Unit {0})) =
      some (err (failure "invalid official authorization link")) in
    elim (run.parse link) [
      | none ↦ invalid
      | some u ↦ if not (is_official run.official id u) then invalid else (elim run.browser [
        | none ↦ poll_loop run.turns
        | some e ↦ (elim run.stopped [
          | some x ↦ some (err (login_error x))
          | none ↦ poll_loop run.turns
        ])
      ])
    ]

module _ ⦃net : Net⦄ where
  unfoldable pub run_login : LoginRun → Ended
  unfolding local_login_target login_call login_error await_login
  run_login run =
      if not (local_login_target run.target)
      then ends (err (failure "login can only connect to a service on this computer"))
      else (elim (login_call run.begun) [
        | err e ↦ ends (err (login_error e))
        | ok fields ↦
            let id = get "attempt_id" fields in
            if get "status" fields == "already_logged_in"
            then ends (ok tt)
            else if not (get "status" fields == "pending") || not (eqb (len id) 32)
            then ends (err (failure "invalid login attempt"))
            else record { result = await_login run id (get "url" fields); cancels = some id }
      ])
