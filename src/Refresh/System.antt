-- ===== src/Refresh/System.antt =====
-- auth.go: the goroutines that call `get`, and the operations that may run between their steps. The
-- log `sent` holds the refresh token of each exchange that `get` began, the latest one
-- first; one exchange may put it into two requests (Refresh/Exchange/Request).
use trae_api.Prelude.{ℕ, ◌+◌, String, Bool, Option, none, some, List, [], ◌∷◌, ◌≡◌, false}
use trae_api.Fault.{Fault, Result}
use trae_api.Chat.History.{has}
use trae_api.Login.{Credential, AuthManager, logout}
use trae_api.Refresh.{Entered, exchanges, enter, Stored, finish}

pub record System : Type 0 where
  pub manager : AuthManager
  pub sent : List String

pub data Event : Type 0 where
  -- a goroutine runs `get` up to the point where it lets go of the mutex
  enters : ℕ → Result (Unit {0}) → Event
  -- the goroutine that refreshes comes back, with the error of its context
  returns : ℕ → Option Fault → Result Credential → Stored → Event
  -- a login publishes a credential; true when its durability is unconfirmed
  logs_in : Credential → Bool → Event
  logs_out : Event

abbrev pub note : Entered → List String → List String
note (exchanges f) sent = f.old.refresh_token ∷ sent
note _ sent = sent

-- What callback does to the manager when it publishes a credential.
abbrev pub taken : Credential → Bool → AuthManager → AuthManager
taken c unsure a = record a {
  cred = c;
  generation = a.generation + 1;
  refresh_err = none;
  uncertain = unsure;
}

unfoldable pub step : Event → System → System
unfolding enter finish logout
step (enters now fence) s =
    let r = enter now fence s.manager in record { manager = r.1; sent = note r.0 s.sent }
step (returns now done outcome stored) s = elim s.manager.refreshing [
  | none ↦ s
  | some f ↦ record s { manager = (finish now done outcome stored f s.manager).1 }
]
step (logs_in c unsure) s = record s { manager = taken c unsure s.manager }
step logs_out s = record s { manager = logout s.manager }

unfoldable pub run : List Event → System → System
unfolding step
run [] s = s
run (e ∷ es) s = run es (step e s)

-- No two exchanges began with the same refresh token.
abbrev pub Distinct : List String → Type 0
Distinct [] = Unit
Distinct (x ∷ xs) = (has x xs ≡ false) × Distinct xs
