-- ===== src/Login/Callback/Completes.antt =====
-- auth.go and auth_service.go: a login that has begun is completed by its callback, whatever harmless
-- steps other goroutines make in between.
use trae_api.Prelude.{
  ℕ, ◌+◌, ◌<◌, ◌≤◌, String, ◌==◌, string_eq, true, false, none, some, List, [], ◌≡◌, ◌≢◌, refl, inl,
  inr, ltb, eqb, lookup, Assoc, arith, All, Bool-cases, text_eq_iff, eqb_iff, lookup-insert,
  lookup-delete, subst, sym, ◌∙◌,
}
use trae_api.Json.{Codec}
use trae_api.Login.{
  Credential, LoginAttempt, LoginResult, pending, completed, AuthManager, Device, begin_login,
  ten_minutes, claim, set_status, published, is_stale, commit, publish, finish_login, login_status,
  Event, run, supersede, make_room,
}
use trae_api.Login.Link.{ClientConfig, link_query, get}
use trae_api.Login.Link.Query.{link_query-trace}
use trae_api.Login.Callback.{
  Page, Arrival, trace_id, prepare, done_page, conclude, after_claim, callback,
}
use trae_api.Refresh.Exchange.{Texts}
use trae_api.Refresh.Exchange.Request.{Crypto}
use trae_api.Login.Callback.Awaited.{IsHarmless, Awaited, different, same, run-Awaited}

-- The entry that a login makes for its attempt.
abbrev pub attempt_of : ℕ → Device → ℕ → LoginAttempt
attempt_of now d generation = record {
  expires = now + ten_minutes;
  device = d.device;
  machine = d.machine;
  key = d.key;
  generation = generation;
}

-- The callback comes and commits before the attempt `id` expires at `t`, its query is not too long, its
-- request stays open, and other goroutines leave the attempt alone in between.
pub record IsTimely (id : String) (t : ℕ) (r : Arrival) : Type 0 where
  pub open_before : r.done_before ≡ false
  pub short : r.query_bytes ≤ 65536
  pub claimed : r.claimed_at < t
  pub harmless : All (IsHarmless id t) r.meanwhile
  pub open_after : r.done_after ≡ false
  pub committed : r.committed_at < t
  pub last : r.afterwards ≡ []

begin_login-Awaited :
    (now : ℕ) (id : String) (d : Device) (a : AuthManager)
    → a.callback_url ≢ ""
    → Awaited id
        (now + ten_minutes)
        a.generation
        (some (attempt_of now d a.generation))
        (begin_login now id (some d) a).1
unfolding begin_login
begin_login-Awaited now id d a h = elim (Bool-cases (a.callback_url == "")) [
  | inl e ↦ absurd (h ((text_eq_iff a.callback_url "").0 e))
  | inr e ↦
      rw (e, begin_login)
        (record {
          result =
              rw (lookup-insert id id _ (make_room (supersede now a.login_results)), same id) refl;
          latest = refl;
          generation = refl;
          attempt = rw (lookup-insert id id (attempt_of now d a.generation) [], same id) refl;
        })
]

-- The attempt is claimed, and its result still awaits the commit.
claim_own :
    (id : String) (t g now : ℕ) (p : LoginAttempt) (a : AuthManager)
    → p.expires ≡ t
    → now < t
    → Awaited id t g (some p) a
    → ((claim now id a).0 ≡ some p) × Awaited id t g none (claim now id a).1
unfolding claim
claim_own id t g now p a e h w =
    rw (w.attempt, claim)
      (rw (w.result) (
        rw (let i : ltb now t ≡ true = ground arith in i) (
          (
            (let i : ltb p.expires now ≡ false = ground arith in rw (i) refl),
            record {
              result = w.result;
              latest = w.latest;
              generation = w.generation;
              attempt = rw (lookup-delete id id a.attempts, same id) refl;
            },
          ))))

timely_fresh :
    (id : String) (t g : ℕ) (r : Arrival) (p : LoginAttempt) (a : AuthManager)
    → IsTimely id t r
    → p.generation ≡ g
    → Awaited id t g none a
    → is_stale r.done_after r.committed_at id p a ≡ false
timely_fresh id t g r p a timely e w =
    let i : ltb r.committed_at t ≡ true = (let c = timely.committed in ground arith) in
    let j : eqb p.generation a.generation ≡ true = (eqb_iff _ _).1 (e ∙ sym w.generation) in
    rw (timely.open_after) (rw (j) (rw (w.latest) (rw (same id) (rw (w.result) (rw (i) refl)))))

completed_status :
    (id : String) (r : LoginResult) (later : ℕ) (a : AuthManager)
    → lookup id a.login_results ≡ some r
    → r.status ≡ completed
    → (login_status later id a).0 ≡ some completed
unfolding login_status
completed_status id r later a f e = ground (arith, f, e)

-- A login that was published is over: finishLogin leaves it, and its status is answered.
publish_settled :
    (id : String) (t : ℕ) (c : Credential) (later : ℕ) (a : AuthManager)
    → lookup id a.login_results ≡ some (record { status = pending; expires = t })
    → (finish_login id (publish c id false a) ≡ publish c id false a)
      × ((publish c id false a).cred ≡ c)
      × ((login_status later id (publish c id false a)).0 ≡ some completed)
unfolding finish_login
publish_settled id t c later a e =
    let f : lookup id (publish c id false a).login_results
        ≡ some (record { status = completed; expires = t }) =
      rw (e, set_status)
        (rw
          (
            lookup-insert id id (record { status = completed; expires = t }) a.login_results,
            same id,
          )
          refl) in
    (rw (f) refl, rw (e, set_status) refl, completed_status id _ later _ f refl)

run_nothing : (a : AuthManager) → run [] a ≡ a
unfolding run
run_nothing a = refl

module _ ⦃go : Codec⦄ ⦃texts : Texts⦄ ⦃crypto : Crypto⦄ where
  conclude_own :
      (id : String) (t g : ℕ) (r : Arrival) (p : LoginAttempt) (c : Credential) (a : AuthManager)
      → IsTimely id t r
      → p.generation ≡ g
      → r.saved c ≡ published
      → Awaited id t g none a
      → conclude r id p c a ≡ (done_page, publish c id false a)
  unfolding conclude commit
  conclude_own id t g r p c a timely e saved w =
      let fresh = timely_fresh id t g r p a timely e w in
      rw (fresh, conclude)
        (elim (Bool-cases a.has_store) [ inl s ↦ ground arith | inr s ↦ ground arith ])

  after_claim_lem :
      (cfg : ClientConfig) (id : String) (r : Arrival) (p : LoginAttempt) (a : AuthManager)
      {c : Credential}
      → prepare cfg r p ≡ inr c
      → after_claim cfg r id p a ≡ (
        (conclude r id p c (run r.meanwhile a)).0,
        finish_login id (run r.afterwards (conclude r id p c (run r.meanwhile a)).1),
      )
  unfolding after_claim
  after_claim_lem cfg id r p a prepared = rw (prepared, after_claim) refl

  callback_lem :
      (cfg : ClientConfig) (id : String) (r : Arrival) (p : LoginAttempt) (b : AuthManager)
      → r.done_before ≡ false
      → ltb 65536 r.query_bytes ≡ false
      → trace_id r.get ≡ id
      → (claim r.claimed_at id b).0 ≡ some p
      → callback cfg r b ≡ after_claim cfg r id p (claim r.claimed_at id b).1
  unfolding callback
  callback_lem cfg id r p b o s i x =
      let P : String → Type 0 = λ k.
        (claim r.claimed_at k b).0 ≡ some p
        → callback cfg r b ≡ after_claim cfg r k p (claim r.claimed_at k b).1 in
      subst P i (λ y. ground (arith, o, s, y)) x

  -- What a callback that completes the login leaves.
  abbrev pub IsDone : String → ℕ → Credential → Page × AuthManager → Type 0
  IsDone id later c o =
      (o.0 ≡ done_page) × (o.1.cred ≡ c) × ((login_status later id o.1).0 ≡ some completed)

  after_claim-IsDone :
      (cfg : ClientConfig) (id : String) (t g later : ℕ) (r : Arrival) (p : LoginAttempt)
      (a : AuthManager) {c : Credential}
      → IsTimely id t r
      → p.generation ≡ g
      → prepare cfg r p ≡ inr c
      → r.saved c ≡ published
      → Awaited id t g none a
      → IsDone id later c (after_claim cfg r id p a)
  after_claim-IsDone cfg id t g later r p a {c} timely e prepared saved w =
      let v = run-Awaited id t g none r.meanwhile a timely.harmless w in
      let concluded = conclude_own id t g r p c (run r.meanwhile a) timely e saved v in
      let (x, y, z) = publish_settled id t c later (run r.meanwhile a) v.result in
      rw (after_claim_lem cfg id r p a prepared) (
        rw (concluded)
          (rw (timely.last) (rw (run_nothing (publish c id false _)) (rw (x) (refl, y, z)))))

  -- A login that begins where Auth listens is completed by its callback: when the query brings back the
  -- trace id of the authorization link and gives a credential, the callback is timely, only harmless steps of
  -- other goroutines come in between and the save is published, then the page says that the login is
  -- done, the credential is the manager's and the status of the attempt is completed.
  pub login_completes :
      (cfg : ClientConfig) (now : ℕ) (id : String) (d : Device) (q : Assoc String String)
      (a : AuthManager) (es : List Event) (r : Arrival) (c : Credential) (later : ℕ)
      → a.callback_url ≢ ""
      → id ≢ ""
      → All (IsHarmless id (now + ten_minutes)) es
      → IsTimely id (now + ten_minutes) r
      → r.get "loginTraceID" ≡ get "login_trace_id" (link_query cfg a.callback_url id d q)
      → prepare cfg r (attempt_of now d a.generation) ≡ inr c
      → r.saved c ≡ published
      → IsDone id later c (callback cfg r (run es (begin_login now id (some d) a).1))
  login_completes cfg now id d q a es r c later listens named before timely traced prepared saved =
      let p : LoginAttempt = attempt_of now d a.generation in
      let t : ℕ = now + ten_minutes in
      let b : AuthManager = run es (begin_login now id (some d) a).1 in
      let w : Awaited id t a.generation (some p) b =
        run-Awaited id t a.generation (some p) es _ before
          (begin_login-Awaited now id d a listens) in
      let i : trace_id r.get ≡ id =
        rw (traced)
          (rw (link_query-trace cfg a.callback_url id d q) (rw (different id "" named) refl)) in
      let (x, v) = claim_own id t a.generation r.claimed_at p b refl timely.claimed w in
      let short : ltb 65536 r.query_bytes ≡ false = (let s = timely.short in ground arith) in
      rw (callback_lem cfg id r p b timely.open_before short i x)
        (after_claim-IsDone cfg id t a.generation later r p _ timely refl prepared saved v)
