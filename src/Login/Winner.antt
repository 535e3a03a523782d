-- ===== src/Login/Winner.antt =====
-- auth.go and auth_service.go: which login attempt may publish its credential.
use trae_api.Prelude.{
  ℕ, String, ◌==◌, string_eq, Bool, true, false, Option, none, some, List, ◌≡◌, ◌≢◌, refl, inl, inr,
  if◌then◌else◌, lookup, arith, All, Bool-cases,
}
use trae_api.Fault.{ok}
use trae_api.Login.{
  Credential, LoginAttempt, end_attempt, cancelled, completed, durability_uncertain, AuthManager,
  awaits, Device, begin_login, Saved, refused, published, unconfirmed, commit, cancel_login, Event,
  run,
}
use trae_api.Login.Settled.{
  NotBegun, Settled, supersede-Settled, make_room-Settled, insert-Settled, set_status-ends,
  if-Settled, run-Settled, Settled-commit,
}

begin_login-Settles :
    (k : String) (now : ℕ) (state : String) (drawn : Option Device) (a : AuthManager)
    → state ≢ k
    → (begin_login now state drawn a).0 ≡ ok state
    → Settled k (begin_login now state drawn a).1.login_results
unfolding begin_login
begin_login-Settles k now state none a n h = absurd (ground arith)
begin_login-Settles k now state (some d) a n h = elim (Bool-cases (a.callback_url == "")) [
  | inl t ↦ absurd (ground arith)
  | inr t ↦
      rw (t, begin_login)
        (insert-Settled k state _ _ (inl n)
          (make_room-Settled k _ (supersede-Settled k now a.login_results)))
]

when_taken :
    (k : String) (b : Bool) (x y : AuthManager)
    → (if◌then◌else◌ {A = Bool × AuthManager} b (false, x) (true, y)).0 ≡ true
    → Settled k y.login_results
    → Settled k (if◌then◌else◌ {A = Bool × AuthManager} b (false, x) (true, y)).1.login_results
when_taken k true x y h i = absurd (cc)
when_taken k false x y h i = i

commit-Settles :
    (k : String) (done : Bool) (now : ℕ) (p : LoginAttempt) (c : Credential) (saved : Saved)
    (a : AuthManager)
    → (commit done now k p c saved a).0 ≡ true
    → Settled k (commit done now k p c saved a).1.login_results
unfolding commit
commit-Settles k done now p c refused a h = absurd (ground arith)
commit-Settles k done now p c published a h =
    when_taken k _ a _ h (set_status-ends k completed _ refl)
commit-Settles k done now p c unconfirmed a h =
    when_taken k _ a _ h (set_status-ends k durability_uncertain _ refl)

cancel_login-Settles : (k : String) (a : AuthManager) → Settled k (cancel_login k a).1.login_results
unfolding cancel_login
cancel_login-Settles k a =
    if-Settled k (awaits (lookup k a.login_results)) (end_attempt k cancelled a) a
      (λ _. set_status-ends k cancelled a refl) (λ h. h)

-- After a login has begun, no attempt with another id can publish a credential, whatever steps
-- come in between, as long as none of them begins that attempt again.
pub begin_login-wins :
    (now : ℕ) (state : String) (drawn : Option Device) (a : AuthManager) (es : List Event)
    (k : String) (done : Bool) (later : ℕ) (p : LoginAttempt) (c : Credential) (saved : Saved)
    → (begin_login now state drawn a).0 ≡ ok state
    → state ≢ k
    → All (NotBegun k) es
    → commit done later k p c saved (run es (begin_login now state drawn a).1)
      ≡ (false, run es (begin_login now state drawn a).1)
begin_login-wins now state drawn a es k done later p c saved h n b =
    Settled-commit k done later p c saved _
      (run-Settled k es _ b (begin_login-Settles k now state drawn a n h))

-- An attempt that has published a credential never publishes another one, whatever steps come in
-- between, as long as none of them begins it again.
pub commit-once :
    (k : String) (done : Bool) (now : ℕ) (p : LoginAttempt) (c : Credential) (saved : Saved)
    (a : AuthManager) (es : List Event) (undone : Bool) (later : ℕ) (q : LoginAttempt)
    (d : Credential) (resaved : Saved)
    → (commit done now k p c saved a).0 ≡ true
    → All (NotBegun k) es
    → commit undone later k q d resaved (run es (commit done now k p c saved a).1)
      ≡ (false, run es (commit done now k p c saved a).1)
commit-once k done now p c saved a es undone later q d resaved h b =
    Settled-commit k undone later q d resaved _
      (run-Settled k es _ b (commit-Settles k done now p c saved a h))

-- An attempt that the client has cancelled never publishes a credential afterwards, whatever steps
-- come in between, as long as none of them begins it again.
pub cancel_login-final :
    (k : String) (a : AuthManager) (es : List Event) (done : Bool) (later : ℕ) (p : LoginAttempt)
    (c : Credential) (saved : Saved)
    → All (NotBegun k) es
    → commit done later k p c saved (run es (cancel_login k a).1)
      ≡ (false, run es (cancel_login k a).1)
cancel_login-final k a es done later p c saved b =
    Settled-commit k done later p c saved _ (run-Settled k es _ b (cancel_login-Settles k a))
