-- ===== src/Login/Callback/Spent.antt =====
-- auth.go callback: an authorization link serves one callback.
use trae_api.Prelude.{
  ℕ, String, string_eq, Assoc, none, some, List, [], ◌∷◌, delete, lookup-delete, Option,
  text_eq_refl, text_eq_iff, lookup-insert, Bool, true, false, if◌then◌else◌, ◌&&◌, ◌==◌, ◌≢◌, ◌≡◌,
  refl, inl, inr, lookup, arith, All, Bool-cases, Option-cases, subst, sym,
}
use trae_api.Json.{Codec}
use trae_api.Login.{
  LoginAttempt, AuthManager, awaits, in_time, set_status, claim, commit, finish_login, login_status,
  cancel_login, logout, end_attempt, Event, begin, claimed, committed, finished, asked, cancel,
  log_out, step, run, Status, Device, begin_login, Credential, Saved, refused, published,
  unconfirmed, failed, expired, cancelled, publish,
}
use trae_api.Login.Settled.{NotBegun}
use trae_api.Login.Link.{ClientConfig}
use trae_api.Login.Callback.{Page, Arrival, trace_id, callback}
use trae_api.Refresh.Exchange.{Texts}
use trae_api.Refresh.Exchange.Request.{Crypto}

-- The attempt has been taken out.
abbrev Spent : String → AuthManager → Type 0
Spent id a = lookup id a.attempts ≡ none

Spent-claim : (now : ℕ) (id : String) (a : AuthManager) → Spent id a → claim now id a ≡ (none, a)
unfolding claim
Spent-claim now id a h = rw (h, claim) refl

deleted-Spent :
    (id j : String) (ps : Assoc String LoginAttempt)
    → lookup id ps ≡ none
    → lookup id (delete j ps) ≡ none
deleted-Spent id j ps h = ground (arith, lookup-delete j id ps, h)

claim-Spent :
    (now : ℕ) (id : String) (a : AuthManager) {p : LoginAttempt}
    → (claim now id a).0 ≡ some p
    → Spent id (claim now id a).1
unfolding claim
claim-Spent now id a {p} h = elim (Option-cases (lookup id a.attempts)) [
  | inl e ↦ rw (e, claim) e
  | inr (q, e) ↦
      elim (Bool-cases
        (awaits (lookup id a.login_results) && in_time now (lookup id a.login_results))) [
          | inl t ↦
              rw (e, claim)
                (rw (t) (ground (arith, lookup-delete id id a.attempts, text_eq_refl id)))
          | inr t ↦ absurd (ground (arith, e, t, h))
        ]
]

set_status-Spent :
    (id j : String) (s : Status) (a : AuthManager) → Spent id a → Spent id (set_status j s a)
set_status-Spent id j s a h = elim (Option-cases (lookup j a.login_results)) [
  | inl t ↦ rw (t, set_status) h
  | inr (r, t) ↦ rw (t, set_status) h
]

if-Spent :
    (id : String) (b : Bool) (x y : AuthManager)
    → Spent id x
    → Spent id y
    → Spent id (if b then x else y)
if-Spent id true x y h k = h
if-Spent id false x y h k = k

chosen-Spent :
    {A : Type 0} (id : String) (b : Bool) (x y : A × AuthManager)
    → Spent id x.1
    → Spent id y.1
    → Spent id (if b then x else y).1
chosen-Spent id true x y h k = h
chosen-Spent id false x y h k = k

begin_login-Spent :
    (id : String) (now : ℕ) (state : String) (drawn : Option Device) (a : AuthManager)
    → state ≢ id
    → Spent id a
    → Spent id (begin_login now state drawn a).1
unfolding begin_login lookup
begin_login-Spent id now state none a n h = elim (Bool-cases (a.callback_url == "")) [
  | inl t ↦ rw (t, begin_login) h
  | inr t ↦ rw (t, begin_login) refl
]
begin_login-Spent id now state (some d) a n h = elim (Bool-cases (a.callback_url == "")) [
  | inl t ↦ rw (t, begin_login) h
  | inr t ↦
      rw (t, begin_login)
        (rw (lookup-insert state id _ []) (ground (arith, text_eq_iff state id, n)))
]

published-Spent :
    (id state : String) (c : Credential) (unsure : Bool) (a : AuthManager)
    → Spent id a
    → Spent id (publish c state unsure a)
published-Spent id state c unsure a h = set_status-Spent id state _ _ h

commit-Spent :
    (id : String) (done : Bool) (now : ℕ) (state : String) (p : LoginAttempt) (c : Credential)
    (saved : Saved) (a : AuthManager)
    → Spent id a
    → Spent id (commit done now state p c saved a).1
unfolding commit
commit-Spent id done now state p c refused a h = chosen-Spent id _ (false, a) (false, a) h h
commit-Spent id done now state p c published a h =
    chosen-Spent id _ (false, a) _ h (published-Spent id state c false a h)
commit-Spent id done now state p c unconfirmed a h =
    chosen-Spent id _ (false, a) _ h (published-Spent id state c true a h)

end_attempt-Spent :
    (id j : String) (s : Status) (a : AuthManager) → Spent id a → Spent id (end_attempt j s a)
end_attempt-Spent id j s a h = deleted-Spent id j _ (set_status-Spent id j s a h)

claimed-Spent :
    (id : String) (now : ℕ) (state : String) (a : AuthManager)
    → Spent id a
    → Spent id (claim now state a).1
unfolding claim
claimed-Spent id now state a h = elim (Option-cases (lookup state a.attempts)) [
  | inl e ↦ rw (e, claim) h
  | inr (q, e) ↦
      rw (e, claim)
        (chosen-Spent id _ (_, record a { attempts = delete state a.attempts }) (none, a)
          (deleted-Spent id state a.attempts h) h)
]

step-Spent :
    (id : String) (e : Event) (a : AuthManager) → NotBegun id e → Spent id a → Spent id (step e a)
unfolding step finish_login login_status cancel_login logout lookup
step-Spent id (begin now state drawn) a n h = begin_login-Spent id now state drawn a n h
step-Spent id (claimed now state) a n h = claimed-Spent id now state a h
step-Spent id (committed done now state p c saved) a n h =
    commit-Spent id done now state p c saved a h
step-Spent id (finished j) a n h =
    if-Spent id _ (set_status j failed a) a (set_status-Spent id j failed a h) h
step-Spent id (asked now j) a n h =
    if-Spent id _ (end_attempt j expired a) a (end_attempt-Spent id j expired a h) h
step-Spent id (cancel j) a n h =
    if-Spent id _ (end_attempt j cancelled a) a (end_attempt-Spent id j cancelled a h) h
step-Spent id log_out a n h = refl

run-Spent :
    (id : String) (es : List Event) (a : AuthManager)
    → All (NotBegun id) es
    → Spent id a
    → Spent id (run es a)
unfolding run
run-Spent id [] a n h = h
run-Spent id (e ∷ es) a n h = run-Spent id es (step e a) n.1 (step-Spent id e a n.0 h)

module _ ⦃go : Codec⦄ ⦃texts : Texts⦄ ⦃crypto : Crypto⦄ where
  abbrev pub IsTurnedAway : AuthManager → Page × AuthManager → Type 0
  IsTurnedAway b o = (o.0.status ≡ 400) × (o.1 ≡ b)

  Spent-callback :
      (cfg : ClientConfig) (r : Arrival) (b : AuthManager)
      → Spent (trace_id r.get) b
      → IsTurnedAway b (callback cfg r b)
  unfolding callback
  Spent-callback cfg r b h =
      let e = Spent-claim r.claimed_at (trace_id r.get) b h in
      rw (e, callback)
        (elim (Bool-cases r.done_before) [ inl d ↦ ground arith | inr d ↦ ground arith ])

  -- As soon as a callback has claimed an attempt, whatever steps of it or of other goroutines come
  -- next, every later callback with the same trace id is answered with 400 and changes nothing, as long
  -- as no login begins that attempt again.
  pub callback_once :
      (cfg : ClientConfig) (now : ℕ) (id : String) (p : LoginAttempt) (a : AuthManager)
      (es : List Event) (s : Arrival)
      → (claim now id a).0 ≡ some p
      → All (NotBegun id) es
      → trace_id s.get ≡ id
      → IsTurnedAway (run es (claim now id a).1) (callback cfg s (run es (claim now id a).1))
  callback_once cfg now id p a es s taken h e =
      let b : AuthManager = run es (claim now id a).1 in
      let spent : Spent id b = run-Spent id es _ h (claim-Spent now id a taken) in
      Spent-callback cfg s b (subst (λ k. Spent k b) (sym e) spent)
