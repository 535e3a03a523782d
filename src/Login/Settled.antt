-- ===== src/Login/Settled.antt =====
-- auth.go and auth_service.go: an attempt that is no longer pending stays so.
use trae_api.Prelude.{
  ℕ, String, ◌==◌, string_eq, Bool, true, false, not, ◌&&◌, Option, none, some, List, [], ◌∷◌, ◌≡◌,
  ◌≢◌, refl, ◌⊎◌, inl, inr, if◌then◌else◌, ltb, Assoc, insert, lookup, arith, All, Bool-cases,
  Option-cases, text_eq_iff, lookup-insert, lookup-delete,
}
use trae_api.Login.{
  Credential, LoginAttempt, Status, is_open, publish, end_attempt, failed, expired, cancelled,
  superseded, LoginResult, AuthManager, is_pending, awaits, supersede, make_room, oldest_login,
  Device, begin_login, in_time, claim, set_status, Saved, refused, published, unconfirmed, commit,
  finish_login, login_status, cancel_login, logout, Event, begin, claimed, committed, finished,
  asked, cancel, log_out, step, run,
}

-- No step of a run begins an attempt with this id again (ids are drawn at random).
abbrev pub NotBegun : String → Event → Type 0
NotBegun k (begin now state drawn) = state ≢ k
NotBegun k _ = Unit {0}

abbrev pub Settled : String → Assoc String LoginResult → Type 0
Settled k rs = awaits (lookup k rs) ≡ false

superseded-closed :
    (r : LoginResult)
    → is_pending (if is_pending r then record r { status = superseded } else r) ≡ false
superseded-closed r = elim (Bool-cases (is_pending r)) [ inl t ↦ rw t refl | inr t ↦ rw t t ]

pub supersede-Settled :
    (k : String) (now : ℕ) (rs : Assoc String LoginResult) → Settled k (supersede now rs)
unfolding supersede lookup
supersede-Settled k now [] = refl
supersede-Settled k now ((id, r) ∷ rs) = elim (Bool-cases (ltb r.expires now)) [
  | inl t ↦ rw t (supersede-Settled k now rs)
  | inr t ↦ rw t (elim (Bool-cases (id == k)) [
    | inl q ↦ rw q (superseded-closed r)
    | inr q ↦ rw q (supersede-Settled k now rs)
  ])
]

pub make_room-Settled :
    (k : String) (rs : Assoc String LoginResult) → Settled k rs → Settled k (make_room rs)
unfolding make_room
make_room-Settled k rs h = ground (arith, lookup-delete (oldest_login ("", 0) rs).0 k rs)

pub insert-Settled :
    (k j : String) (r : LoginResult) (rs : Assoc String LoginResult)
    → (j ≢ k) ⊎ (is_pending r ≡ false)
    → Settled k rs
    → Settled k (insert j r rs)
insert-Settled k j r rs h s = rw (lookup-insert j k r rs) (elim (Bool-cases (j == k)) [
  | inl t ↦ rw t (elim h [ inl n ↦ absurd (n ((text_eq_iff j k).0 t)) | inr p ↦ p ])
  | inr t ↦ rw t s
])

pub set_status-Settled :
    (k id : String) (s : Status) (a : AuthManager)
    → is_open s ≡ false
    → Settled k a.login_results
    → Settled k (set_status id s a).login_results
set_status-Settled k id s a n h = elim (Option-cases (lookup id a.login_results)) [
  | inl t ↦ rw (t, set_status) h
  | inr (r, t) ↦ rw (t, set_status) (insert-Settled k id _ a.login_results (inr n) h)
]

pub set_status-ends :
    (k : String) (s : Status) (a : AuthManager)
    → is_open s ≡ false
    → Settled k (set_status k s a).login_results
set_status-ends k s a n = elim (Option-cases (lookup k a.login_results)) [
  | inl t ↦ rw (t, set_status) (rw t refl)
  | inr (r, t) ↦
      rw (t, set_status)
        (rw (lookup-insert k k (record r { status = s }) a.login_results, (text_eq_iff k k).1 refl)
          n)
]

-- The state that an if leaves.
pub if-Settled :
    (k : String) (b : Bool) (x y : AuthManager)
    → (b ≡ true → Settled k x.login_results)
    → (b ≡ false → Settled k y.login_results)
    → Settled k (if b then x else y).login_results
if-Settled k true x y h i = h refl
if-Settled k false x y h i = i refl

after-if :
    {A : Type 0} (k : String) (b : Bool) (x y : A × AuthManager)
    → Settled k x.1.login_results
    → Settled k y.1.login_results
    → Settled k (if b then x else y).1.login_results
after-if k true x y h i = h
after-if k false x y h i = i

begin_login-Settled :
    (k : String) (now : ℕ) (state : String) (drawn : Option Device) (a : AuthManager)
    → state ≢ k
    → Settled k a.login_results
    → Settled k (begin_login now state drawn a).1.login_results
unfolding begin_login
begin_login-Settled k now state none a n h =
    after-if k (a.callback_url == "") _ _ h
      (make_room-Settled k _ (supersede-Settled k now a.login_results))
begin_login-Settled k now state (some d) a n h = after-if k (a.callback_url == "") _ _ h (
    insert-Settled k state _ _ (inl n)
      (make_room-Settled k _ (supersede-Settled k now a.login_results)))

publish-Settled :
    (k state : String) (c : Credential) (unsure : Bool) (a : AuthManager)
    → Settled k a.login_results
    → Settled k (publish c state unsure a).login_results
publish-Settled k state c true a h = set_status-Settled k state _ _ refl h
publish-Settled k state c false a h = set_status-Settled k state _ _ refl h

commit-Settled :
    (k : String) (done : Bool) (now : ℕ) (state : String) (p : LoginAttempt) (c : Credential)
    (saved : Saved) (a : AuthManager)
    → Settled k a.login_results
    → Settled k (commit done now state p c saved a).1.login_results
unfolding commit
commit-Settled k done now state p c refused a h = after-if k _ (false, a) _ h h
commit-Settled k done now state p c published a h =
    after-if k _ (false, a) _ h (publish-Settled k state c false a h)
commit-Settled k done now state p c unconfirmed a h =
    after-if k _ (false, a) _ h (publish-Settled k state c true a h)

pub claim-same :
    (now : ℕ) (state : String) (a : AuthManager)
    → (claim now state a).1.login_results ≡ a.login_results
unfolding claim
claim-same now state a = elim (Option-cases (lookup state a.attempts)) [
  | inl t ↦ rw (t, claim) refl
  | inr (p, t) ↦ rw (t, claim) (ground arith)
]

step-Settled :
    (k : String) (e : Event) (a : AuthManager)
    → NotBegun k e
    → Settled k a.login_results
    → Settled k (step e a).login_results
unfolding step finish_login login_status cancel_login logout
step-Settled k (begin now state drawn) a n h = begin_login-Settled k now state drawn a n h
step-Settled k (claimed now state) a n h = rw (claim-same now state a) h
step-Settled k (committed done now state p c saved) a n h =
    commit-Settled k done now state p c saved a h
step-Settled k (finished id) a n h =
    if-Settled k (awaits (lookup id a.login_results)) (set_status id failed a) a
      (λ _. set_status-Settled k id failed a refl h) (λ _. h)
step-Settled k (asked now id) a n h =
    if-Settled k
      (awaits (lookup id a.login_results) && not (in_time now (lookup id a.login_results)))
      (end_attempt id expired a) a (λ _. set_status-Settled k id expired a refl h) (λ _. h)
step-Settled k (cancel id) a n h =
    if-Settled k (awaits (lookup id a.login_results)) (end_attempt id cancelled a) a
      (λ _. set_status-Settled k id cancelled a refl h) (λ _. h)
step-Settled k log_out a n h = h

pub run-Settled :
    (k : String) (es : List Event) (a : AuthManager)
    → All (NotBegun k) es
    → Settled k a.login_results
    → Settled k (run es a).login_results
unfolding run
run-Settled k [] a n h = h
run-Settled k (e ∷ es) a n h = run-Settled k es (step e a) n.1 (step-Settled k e a n.0 h)

pub Settled-commit :
    (k : String) (done : Bool) (now : ℕ) (p : LoginAttempt) (c : Credential) (saved : Saved)
    (a : AuthManager)
    → Settled k a.login_results
    → commit done now k p c saved a ≡ (false, a)
unfolding commit
Settled-commit k done now p c saved a h = ground (arith, h)
