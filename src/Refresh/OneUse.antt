-- ===== src/Refresh/OneUse.antt =====
-- auth.go get: a refresh token is used in one exchange.
use trae_api.Prelude.{
  ℕ, String, Bool, true, false, Option, none, some, List, [], ◌∷◌, ◌≡◌, refl, sym, subst, inl, inr,
  arith, if◌then◌else◌, is_some, eqb, Bool-cases, ◌∙◌, ap, eqb_iff,
}
use trae_api.Fault.{
  Fault, api, login_required, credential_rejected, ambiguous_exchange, cancelled, deadline_exceeded,
  not_exist, failure, panic, Result, ok, err,
}
use trae_api.Chat.History.{has}
use trae_api.Login.{Credential, AuthManager, Flight, logout}
use trae_api.Refresh.{enter, Stored, finish, settle, published_as, unmarked, after_failure, set_err}
use trae_api.Refresh.System.{
  System, Event, enters, returns, logs_in, logs_out, taken, step, run, Distinct,
}
use trae_api.Refresh.Entry.{Fresh, AllFresh, Safe, Flying, Inv, enter-EnteredAs, enters-Inv}

-- The state of a refresh that has ended.
record Ended (a b : AuthManager) (sent : List String) : Type 0 where
  safe : Safe b sent
  has_store : b.has_store ≡ a.has_store

kept :
    (a b : AuthManager) (sent : List String) (e : Fault)
    → b.refresh_err ≡ some e
    → b.has_store ≡ a.has_store
    → Ended a b sent
kept a b sent e h q = record { safe = inr (inl (ap is_some h)); has_store = q }

published_as-Ended :
    (now : ℕ) (fresh : Credential) (r : Bool × Option Fault) (f : Flight) (a : AuthManager)
    (sent : List String)
    → has fresh.refresh_token sent ≡ false
    → Ended a (published_as now fresh r f a).manager sent
published_as-Ended now fresh (true, e) f a sent h = record { safe = inr (inr h); has_store = refl }
published_as-Ended now fresh (false, e) f a sent h =
    kept a (set_err ambiguous_exchange a) sent ambiguous_exchange refl refl

with_store :
    (a x : AuthManager) (sent : List String) (b : Bool)
    → b ≡ true
    → Ended a (if b then set_err ambiguous_exchange a else x) sent
with_store a x sent false h = absurd (cc)
with_store a x sent true h = kept a (set_err ambiguous_exchange a) sent ambiguous_exchange refl refl

after_failure-Ended :
    (now : ℕ) (e : Fault) (s : Stored) (f : Flight) (a : AuthManager) (sent : List String)
    → a.has_store ≡ true
    → Ended a (after_failure now e s f a).manager sent
after_failure-Ended now login_required s f a sent h =
    kept a (set_err login_required a) sent login_required refl refl
after_failure-Ended now ambiguous_exchange s f a sent h =
    kept a (set_err ambiguous_exchange a) sent ambiguous_exchange refl refl
after_failure-Ended now (api n m) s f a sent h = with_store a _ sent a.has_store h
after_failure-Ended now credential_rejected s f a sent h = with_store a _ sent a.has_store h
after_failure-Ended now cancelled s f a sent h = with_store a _ sent a.has_store h
after_failure-Ended now deadline_exceeded s f a sent h = with_store a _ sent a.has_store h
after_failure-Ended now not_exist s f a sent h = with_store a _ sent a.has_store h
after_failure-Ended now (failure m) s f a sent h = with_store a _ sent a.has_store h
after_failure-Ended now panic s f a sent h = with_store a _ sent a.has_store h

settle-Ended :
    (now : ℕ) (done : Option Fault) (outcome : Result Credential) (s : Stored) (f : Flight)
    (a : AuthManager) (sent : List String)
    → a.has_store ≡ true
    → Fresh (returns now done outcome s) sent
    → Ended a (settle now done outcome s f a).manager sent
settle-Ended now (some e) outcome s f a sent h fresh = absurd fresh
settle-Ended now none (ok c) s f a sent h fresh =
    published_as-Ended now (unmarked c) _ f a sent fresh
settle-Ended now none (err e) s f a sent h fresh = after_failure-Ended now e s f a sent h

finish-Inv :
    (now : ℕ) (done : Option Fault) (outcome : Result Credential) (s : Stored) (f : Flight)
    (a : AuthManager) (sent : List String)
    → Distinct sent
    → a.has_store ≡ true
    → Flying a sent (some f)
    → Fresh (returns now done outcome s) sent
    → Inv (record { manager = (finish now done outcome s f a).1; sent = sent })
unfolding finish
finish-Inv now done outcome s f a sent distinct h flying fresh =
    elim (Bool-cases (eqb a.generation f.generation)) [
      | inl same ↦
          let ended : Ended a (settle now done outcome s f a).manager sent =
            settle-Ended now done outcome s f a sent h fresh in
          rw (same)
            record { distinct = distinct; stored = ended.has_store ∙ h; flying = ended.safe }
      | inr other ↦ rw (other) record {
        distinct = distinct;
        stored = h;
        flying = elim flying [
          | inl e ↦
              absurd (let q : eqb a.generation f.generation ≡ true = (eqb_iff _ _).1 (sym e) in cc)
          | inr (lt, safe) ↦ safe
        ];
      }
    ]

logs_in-Inv :
    (c : Credential) (unsure : Bool) (a : AuthManager) (sent : List String) (o : Option Flight)
    → has c.refresh_token sent ≡ false
    → Flying a sent o
    → Flying (taken c unsure a) sent o
logs_in-Inv c unsure a sent none fresh h = inr (inr fresh)
logs_in-Inv c unsure a sent (some f) fresh (inl e) = inr (grind arith, inr (inr fresh))
logs_in-Inv c unsure a sent (some f) fresh (inr (lt, safe)) = inr (grind arith, inr (inr fresh))

logs_out-Inv :
    (a : AuthManager) (sent : List String) (o : Option Flight)
    → Flying a sent o
    → Flying (logout a) sent o × ((logout a).has_store ≡ a.has_store)
unfolding logout
logs_out-Inv a sent none h = (inl refl, refl)
logs_out-Inv a sent (some f) (inl e) = (inr (grind arith, inl refl), refl)
logs_out-Inv a sent (some f) (inr (lt, safe)) = (inr (grind arith, inl refl), refl)

-- `returns` for whatever is in flight.
landed-Inv :
    (now : ℕ) (over : Option Fault) (outcome : Result Credential) (t : Stored) (s : System)
    (o : Option Flight)
    → Fresh (returns now over outcome t) s.sent
    → Flying s.manager s.sent o
    → Inv s
    → Inv (elim o as (λ _. System) [
      | none ↦ s
      | some f ↦ record s { manager = (finish now over outcome t f s.manager).1 }
    ])
landed-Inv now over outcome t s none fresh flying inv = inv
landed-Inv now over outcome t s (some f) fresh flying inv =
    finish-Inv now over outcome t f s.manager s.sent inv.distinct inv.stored flying fresh

step-Inv : (e : Event) (s : System) → Fresh e s.sent → Inv s → Inv (step e s)
unfolding step
step-Inv (enters now fence) s fresh inv =
    enters-Inv s.manager (enter now fence s.manager).1 (enter now fence s.manager).0 s.sent
      (enter-EnteredAs now fence s.manager) inv
step-Inv (returns now done outcome t) s fresh inv =
    landed-Inv now done outcome t s s.manager.refreshing fresh inv.flying inv
step-Inv (logs_in c unsure) s fresh inv = record {
  distinct = inv.distinct;
  stored = inv.stored;
  flying = logs_in-Inv c unsure s.manager s.sent s.manager.refreshing fresh inv.flying;
}
step-Inv logs_out s fresh inv = record {
  distinct = inv.distinct;
  stored = (logs_out-Inv s.manager s.sent _ inv.flying).1 ∙ inv.stored;
  flying = (logs_out-Inv s.manager s.sent _ inv.flying).0;
}

run-Inv : (es : List Event) (s : System) → AllFresh es s → Inv s → Inv (run es s)
unfolding run
run-Inv [] s fresh inv = inv
run-Inv (e ∷ es) s fresh inv = run-Inv es (step e s) fresh.1 (step-Inv e s fresh.0 inv)

-- A manager with a store that starts with no exchange under way never begins two exchanges with the same
-- refresh token, in any order of calls of `get`, returns of the goroutine that refreshes, logins and
-- logouts, as long as no context of a refreshing caller ends during its exchange and every credential
-- that an exchange or a login brings has a refresh token with which no exchange began before.
pub run-Distinct :
    (es : List Event) (a : AuthManager)
    → a.has_store ≡ true
    → a.refreshing ≡ none
    → AllFresh es (record { manager = a; sent = [] })
    → Distinct (run es (record { manager = a; sent = [] })).sent
unfolding has
run-Distinct es a store idle fresh =
    (run-Inv es _ fresh (record {
      distinct = tt;
      stored = store;
      flying = subst (Flying a []) (sym idle) (inr (inr refl));
    })).distinct
