-- ===== src/AuthService/Running.antt =====
-- auth_service.go: the life of the Auth service (listen, Run, shutdown).
--
-- What the network answers and how serving ends are arguments. Errors that errors.Join puts together are a list.
pub mod Closed
use trae_api.Prelude.{
  ℕ, String, ◌<>◌, Bool, true, false, Option, none, some, List, [], ◌∷◌, ◌++◌, if◌then◌else◌,
}
use trae_api.Fault.{Fault, failure, Result, ok, err}
use trae_api.Login.{AuthManager}
use trae_api.Server.Lifecycle.{ServeError, server_closed, broken, unless_closed}
use trae_api.Store.{Calls, Disk}
use trae_api.Store.Owner.{close_store}

-- `has_listener` and `has_http` are whether the listener and the HTTP server are set, `held` whether the
-- store has its lock, and `down` whether shutdown has run.
pub record AuthService : Type 0 where
  pub manager : AuthManager
  pub has_listener : Bool
  pub has_http : Bool
  pub cancelled : Bool
  pub held : Bool
  pub store_path : String
  pub disk : Disk
  pub down : Bool
  pub shutdown_err : List Fault

-- What net.Listen gives: an error, a listener that is not a loopback TCP one, or the host and port of
-- one that is, as net.JoinHostPort writes them.
pub data Bound : Type 0 where
  unbound : Fault → Bound
  outside : Bound
  loopback : String → Bound

unfoldable pub listen : Bound → AuthService → Option Fault × AuthService
listen bound s =
    if s.has_listener
    then (some (failure "Auth listener already active"), s)
    else (elim bound as (λ _. Option Fault × AuthService) [
      | unbound e ↦ (some e, s)
      | outside ↦ (some (failure "Auth listener must bind loopback TCP"), s)
      | loopback host_port ↦ (
        none,
        record s {
          manager = record s.manager { callback_url = "http://" <> host_port <> "/authorize" };
          has_listener = true;
        },
      )
    ])

-- The errors of closing the HTTP server, or else the listener.
pub record Closing : Type 0 where
  pub http : Option Fault
  pub listener : Option Fault
  pub store : Calls

abbrev fault_list : Option Fault → List Fault
fault_list none = []
fault_list (some e) = e ∷ []

abbrev close_fault : Result (Unit {0}) → List Fault
close_fault (ok _) = []
close_fault (err e) = e ∷ []

abbrev connection_faults : Closing → AuthService → List Fault
connection_faults io s =
    if s.has_http then fault_list io.http else if s.has_listener then fault_list io.listener else []

-- shutdown, which does its work once.
unfoldable pub shutdown : Closing → AuthService → List Fault × AuthService
unfolding close_store
shutdown io s =
    let closed = close_store io.store s.held s.store_path s.disk in
    let faults = connection_faults io s ++ close_fault closed.0 in
    if s.down then (s.shutdown_err, s) else (
      faults,
      record s {
        manager = record s.manager { callback_url = "" };
        cancelled = true;
        held = false;
        disk = closed.1;
        down = true;
        shutdown_err = faults;
      },
    )

-- How serving ends: Serve returns, while the context is done or not; or the context is done, the server
-- is shut down, closed where that fails, and Serve returns.
pub data Ending : Type 0 where
  stopped : Option ServeError → Bool → Ending
  asked : Option Fault → Option Fault → Option ServeError → Ending

abbrev pub serving_faults : Ending → List Fault
serving_faults (stopped (some server_closed) true) = []
serving_faults (stopped (some server_closed) false) = failure "http: Server closed" ∷ []
serving_faults (stopped (some (broken e)) done) = e ∷ []
serving_faults (stopped none done) = failure "Auth listener stopped unexpectedly" ∷ []
serving_faults (asked none close_err serve_err) = unless_closed serve_err
serving_faults (asked (some e) close_err serve_err) =
    (e ∷ fault_list close_err) ++ unless_closed serve_err

-- Run. `serving` is what the handlers and the refresh loop make of the manager meanwhile.
unfoldable pub run_service :
    Bound → (AuthManager → AuthManager) → Ending → Closing → AuthService → List Fault × AuthService
unfolding listen shutdown
run_service bound serving ending io s =
    let l = listen bound s in
    elim l.0 as (λ _. List Fault × AuthService) [
      | some e ↦ (let d = shutdown io l.1 in (e ∷ d.0, d.1))
      | none ↦
          let d = shutdown io (record l.1 { has_http = true; manager = serving l.1.manager }) in
          (serving_faults ending ++ d.0, d.1)
    ]
