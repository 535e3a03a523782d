-- ===== src/Server/Lifecycle.antt =====
-- main.go waitForHTTP and coordinator.go runCombined: how a service, and the two services together, end.
-- `none` is an error that is nil. The errors that errors.Join puts together are a list.
use trae_api.Prelude.{
  String, string_eq, true, Option, none, some, List, [], ◌∷◌, ◌++◌, ◌≡◌, ◌↔◌, refl, if◌then◌else◌,
  is_some,
}
use trae_api.Fault.{Fault}

-- An error of http.Server.Serve.
pub data ServeError : Type 0 where
  -- http.ErrServerClosed
  server_closed : ServeError
  broken : Fault → ServeError

-- What waitForHTTP waits for: the end of Serve, or the context, after which the server is shut down and
-- Serve ends too.
pub data Stop : Type 0 where
  ended : Option ServeError → Stop
  signalled : Option Fault → Option ServeError → Stop

abbrev pub unless_closed : Option ServeError → List Fault
unless_closed none = []
unless_closed (some server_closed) = []
unless_closed (some (broken e)) = e ∷ []

unfoldable pub wait_for_http : Stop → List Fault
wait_for_http (ended e) = unless_closed e
wait_for_http (signalled (some shutdown_err) serve_err) = shutdown_err ∷ unless_closed serve_err
wait_for_http (signalled none serve_err) = unless_closed serve_err

-- The component that a goroutine of runCombined runs, and the error that it returned.
abbrev pub Ended : Type 0
Ended = String × Option Fault

abbrev failed : Ended → List Ended
failed (component, none) = []
failed (component, some e) = (component, some e) ∷ []

-- The failures in the order in which the components stopped, or that one of them stopped although
-- nothing had asked for it. `cancelled` is the error of the context.
pub data Combined : Type 0 where
  stopped : Combined
  unexpected : Combined
  failures : List Ended → Combined

unfoldable pub run_combined : Ended → Ended → Option Fault → Combined
run_combined first second cancelled = elim (failed first ++ failed second) [
  | f ∷ fs ↦ failures (f ∷ fs)
  | [] ↦ if is_some cancelled then stopped else unexpected
]

-- The two services end without an error exactly when neither of them fails and the context was done.
pub run_combined_iff :
    (first second : Ended) (cancelled : Option Fault)
    → (run_combined first second cancelled ≡ stopped)
      ↔ ((first.1 ≡ none) × (second.1 ≡ none) × (is_some cancelled ≡ true))
unfolding run_combined
run_combined_iff (a, none) (b, none) (some e) = (λ h. (refl, refl, refl), λ h. refl)
run_combined_iff (a, none) (b, none) none = (λ h. absurd (cc), λ h. absurd (cc))
run_combined_iff (a, none) (b, some e) c = (λ h. absurd (cc), λ h. absurd (cc))
run_combined_iff (a, some e) (b, m) c = (λ h. absurd (cc), λ h. absurd (cc))
