-- ===== src/Login/Callback/Awaited.antt =====
-- auth.go and auth_service.go: the steps that leave a pending login attempt alone.
use trae_api.Prelude.{
  ℕ, ◌<◌, String, ◌==◌, string_eq, Bool, true, false, not, ◌&&◌, Option, some, List, [], ◌∷◌, ◌≡◌,
  ◌≢◌, refl, inl, inr, if◌then◌else◌, lookup, delete, arith, All, Bool-cases, Option-cases,
  text_eq_iff, lookup-insert, lookup-delete, sym,
}
use trae_api.Login.{
  LoginAttempt, Status, pending, expired, cancelled, failed, AuthManager, in_time, claim,
  set_status, end_attempt, is_stale, commit, finish_login, login_status, cancel_login, Event, begin,
  claimed, committed, finished, asked, cancel, log_out, step, run, awaits,
}

-- A step that leaves the attempt `id`, which expires at `t`, alone: it is about another attempt, or it
-- asks for the status in time. No login begins, and nobody logs out.
abbrev pub IsHarmless : String → ℕ → Event → Type 0
IsHarmless id t (begin now state drawn) = ⊥
IsHarmless id t (claimed now state) = state ≢ id
IsHarmless id t (committed done now state p c saved) = state ≢ id
IsHarmless id t (finished state) = state ≢ id
IsHarmless id t (asked now state) = now < t
IsHarmless id t (cancel state) = state ≢ id
IsHarmless id t log_out = ⊥

-- What the manager knows of the attempt `id`: it is the latest, pending one, began in this generation,
-- and `held` is its entry among the attempts.
pub record Awaited (id : String) (t g : ℕ) (held : Option LoginAttempt) (a : AuthManager)
    : Type 0 where
  pub result : lookup id a.login_results ≡ some (record { status = pending; expires = t })
  pub latest : a.latest_login ≡ id
  pub generation : a.generation ≡ g
  pub attempt : lookup id a.attempts ≡ held

pub different : (i j : String) → i ≢ j → (i == j) ≡ false
different i j n = elim (Bool-cases (i == j)) [
  | inl e ↦ absurd (n ((text_eq_iff i j).0 e))
  | inr e ↦ e
]

pub same : (i : String) → (i == i) ≡ true
same i = (text_eq_iff i i).1 refl

if-state :
    (P : AuthManager → Type 0) (b : Bool) (x y : AuthManager)
    → (b ≡ true → P x)
    → P y
    → P (if b then x else y)
if-state P true x y p q = p refl
if-state P false x y p q = q

module _ (id : String) (t g : ℕ) (held : Option LoginAttempt) where
  set_status-Awaited :
      (k : String) (s : Status) (a : AuthManager)
      → k ≢ id
      → Awaited id t g held a
      → Awaited id t g held (set_status k s a)
  set_status-Awaited k s a n w = elim (Option-cases (lookup k a.login_results)) [
    | inl e ↦ rw (e, set_status) w
    | inr (r, e) ↦
        rw (e, set_status)
          (record {
            result =
                rw (lookup-insert k id (record r { status = s }) a.login_results, different k id n)
                  w.result;
            latest = w.latest;
            generation = w.generation;
            attempt = w.attempt;
          })
  ]

  other_attempt-Awaited :
      (k : String) (a : AuthManager)
      → k ≢ id
      → Awaited id t g held a
      → Awaited id t g held (record a { attempts = delete k a.attempts })
  other_attempt-Awaited k a n w = record {
    result = w.result;
    latest = w.latest;
    generation = w.generation;
    attempt = rw (lookup-delete k id a.attempts, different k id n) w.attempt;
  }

  end_attempt-Awaited :
      (k : String) (s : Status) (a : AuthManager)
      → k ≢ id
      → Awaited id t g held a
      → Awaited id t g held (end_attempt k s a)
  end_attempt-Awaited k s a n w =
      let v = other_attempt-Awaited k _ n (set_status-Awaited k s a n w) in
      record {
        result = v.result;
        latest = rw (v.latest) (rw (different id k (λ e. n (sym e))) refl);
        generation = v.generation;
        attempt = v.attempt;
      }

  claim-Awaited :
      (now : ℕ) (k : String) (a : AuthManager)
      → k ≢ id
      → Awaited id t g held a
      → Awaited id t g held (claim now k a).1
  unfolding claim
  claim-Awaited now k a n w = elim (Option-cases (lookup k a.attempts)) [
    | inl e ↦ rw (e, claim) w
    | inr (p, e) ↦
        let r = lookup k a.login_results in
        rw (e, claim)
          (elim (Bool-cases (awaits r && in_time now r)) [
            | inl e ↦ rw e (other_attempt-Awaited k a n w)
            | inr e ↦ rw e w
          ])
  ]

  stale_other :
      (done : Bool) (now : ℕ) (k : String) (p : LoginAttempt) (a : AuthManager)
      → k ≢ id
      → Awaited id t g held a
      → is_stale done now k p a ≡ true
  stale_other done now k p a n w =
      let other : (a.latest_login == k) ≡ false = rw w.latest (different id k (λ e. n (sym e))) in
      ground arith

  in_time-Awaited :
      (now : ℕ) (k : String) (a : AuthManager)
      → now < t
      → Awaited id t g held a
      → (k == id) ≡ true
      → not (in_time now (lookup k a.login_results)) ≡ false
  in_time-Awaited now k a h w e =
      let q : k ≡ id = (text_eq_iff k id).0 e in rw (q) (rw (w.result) (ground arith))

  login_status-Awaited :
      (now : ℕ) (k : String) (a : AuthManager)
      → now < t
      → Awaited id t g held a
      → Awaited id t g held (login_status now k a).1
  unfolding login_status
  login_status-Awaited now k a h w =
      if-state (Awaited id t g held)
        (awaits (lookup k a.login_results) && not (in_time now (lookup k a.login_results))) _ a
        (λ late. elim (Bool-cases (k == id)) [
          | inl e ↦ absurd (let f = in_time-Awaited now k a h w e in ground arith)
          | inr e ↦
              end_attempt-Awaited k expired a
                (λ q. let s : (k == id) ≡ true = (text_eq_iff k id).1 q in cc) w
        ])
        w

  step-Awaited :
      (e : Event) (a : AuthManager)
      → IsHarmless id t e
      → Awaited id t g held a
      → Awaited id t g held (step e a)
  unfolding step commit finish_login cancel_login
  step-Awaited (begin now state drawn) a h w = absurd h
  step-Awaited (claimed now state) a h w = claim-Awaited now state a h w
  step-Awaited (committed done now state p c saved) a h w =
      rw (stale_other done now state p a h w, step) w
  step-Awaited (finished state) a h w =
      if-state (Awaited id t g held) (awaits (lookup state a.login_results)) _ a
        (λ _. set_status-Awaited state failed a h w) w
  step-Awaited (asked now state) a h w = login_status-Awaited now state a h w
  step-Awaited (cancel state) a h w =
      if-state (Awaited id t g held) (awaits (lookup state a.login_results)) _ a
        (λ _. end_attempt-Awaited state cancelled a h w) w
  step-Awaited log_out a h w = absurd h

  pub run-Awaited :
      (es : List Event) (a : AuthManager)
      → All (IsHarmless id t) es
      → Awaited id t g held a
      → Awaited id t g held (run es a)
  unfolding run
  run-Awaited [] a h w = w
  run-Awaited (e ∷ es) a h w = run-Awaited es (step e a) h.1 (step-Awaited e a h.0 w)
