-- ===== src/Login/Callback/Published.antt =====
-- auth.go callback: the state that it leaves when it is answered with 200.
use trae_api.Prelude.{
  ℕ, String, ◌==◌, Option-cases, lookup, ltb, Bool, none, some, Option, string_eq, true, false,
  ◌||◌, [], ◌≡◌, ◌≢◌, refl, inl, inr, ◌⊎◌, if◌then◌else◌, arith, Bool-cases, subst, ap, sym, ◌∙◌,
}
use trae_api.Fault.{Result-cases}
use trae_api.Json.{Codec}
use trae_api.Login.{
  Credential, publish, set_status, LoginAttempt, AuthManager, is_stale, claim, commit, finish_login,
  run,
}
use trae_api.Login.Link.{ClientConfig}
use trae_api.Login.Callback.{
  Page, Arrival, trace_id, is_foreign, from_query, with_claims, with_token, complete, prepare,
  conclude, after_claim, callback,
}
use trae_api.Login.Callback.Account.{HasAccount, prepare-HasAccount}
use trae_api.Refresh.Exchange.{Texts}
use trae_api.Refresh.Exchange.Request.{Crypto}

-- The state after a callback that was answered with 200, for the attempt with this id in `a`.
pub record Published (id : String) (a b : AuthManager) : Type 0 where
  pub attempt : LoginAttempt
  pub found : lookup id a.attempts ≡ some attempt
  pub account : HasAccount attempt b.cred

claim-found :
    (now : ℕ) (id : String) (a : AuthManager) {p : LoginAttempt}
    → (claim now id a).0 ≡ some p
    → lookup id a.attempts ≡ some p
unfolding claim
claim-found now id a h = elim (Option-cases (lookup id a.attempts)) [
  | inl e ↦ absurd (let g = rw (e, claim) at h in cc)
  | inr (q, e) ↦ e ∙ (let g = rw (e, claim) at h in ground arith)
]

finish_login-cred : (id : String) (a : AuthManager) → (finish_login id a).cred ≡ a.cred
unfolding finish_login
finish_login-cred id a = elim (Option-cases (lookup id a.login_results)) [
  | inl e ↦ rw (e, finish_login) refl
  | inr (r, e) ↦ rw (e, finish_login) (ground arith)
]

publish-cred : (c : Credential) (id : String) (a : AuthManager) → (publish c id false a).cred ≡ c
publish-cred c id a = elim (Option-cases (lookup id a.login_results)) [
  | inl e ↦ rw (e, set_status) refl
  | inr (r, e) ↦ rw (e, set_status) refl
]

-- A page that ends a callback early is not the one of a login that is done.
abbrev Refuses : Page ⊎ Credential → Type 0
Refuses (inl page) = page.status ≢ 200
Refuses (inr c) = Unit

-- What holds of each page and state that a test or a claim leads to.
if-page :
    (P : Page × AuthManager → Type 0) (b : Bool) (x y : Page × AuthManager)
    → P x
    → P y
    → P (if b then x else y)
if-page P true x y p q = p
if-page P false x y p q = q

module _ ⦃go : Codec⦄ ⦃texts : Texts⦄ ⦃crypto : Crypto⦄ where
  conclude-done :
      (r : Arrival) (id : String) (p : LoginAttempt) (c : Credential) (a : AuthManager)
      → (conclude r id p c a).0.status ≡ 200
      → (conclude r id p c a).1 ≡ publish c id false a
  unfolding conclude commit
  conclude-done r id p c a h = elim (Bool-cases (is_stale r.done_after r.committed_at id p a)) [
    | inl e ↦ absurd (let g = rw e at h in omega arith)
    | inr e ↦ ground arith
  ]

  after_claim-Published :
      (cfg : ClientConfig) (r : Arrival) (id : String) (p : LoginAttempt) (a b : AuthManager)
      (o : Page ⊎ Credential)
      → prepare cfg r p ≡ o
      → r.afterwards ≡ []
      → lookup id a.attempts ≡ some p
      → (after_claim cfg r id p b).0.status ≡ 200
      → Refuses o
      → Published id a (after_claim cfg r id p b).1
  unfolding after_claim run
  after_claim-Published cfg r id p a b (inl page) e n f h q =
      absurd (q (let g = rw (e, after_claim) at h in g))
  after_claim-Published cfg r id p a b (inr c) e n f h q =
      let g : (conclude r id p c (run r.meanwhile b)).0.status ≡ 200 = rw (e, after_claim) at h in
      let published = conclude-done r id p c (run r.meanwhile b) g in
      rw (e, n, after_claim)
        (record {
          attempt = p;
          found = f;
          account =
              subst (HasAccount p)
                (sym (
                  finish_login-cred id _
                  ∙ ap (λ z. z.cred) published
                  ∙ publish-cred c id (run r.meanwhile b)))
                (prepare-HasAccount cfg r p e);
        })

  complete-Refuses : (c : Credential) → Refuses (complete c)
  complete-Refuses c = elim (Bool-cases (c.token == "" || c.user_id == "")) [
    | inl e ↦ rw e (λ q. omega arith)
    | inr e ↦ rw e tt
  ]

  prepare-Refuses :
      (cfg : ClientConfig) (r : Arrival) (p : LoginAttempt) → Refuses (prepare cfg r p)
  unfolding prepare
  prepare-Refuses cfg r p = elim (Bool-cases (is_foreign r.get)) [
    | inl e ↦ rw e (λ q. omega arith)
    | inr e ↦ rw e (elim (Result-cases (with_token r (from_query cfg r.get p))) [
      | inr (c, e) ↦ rw (e, prepare) (complete-Refuses (with_claims c))
      | inl (f, e) ↦ rw (e, prepare) (λ q. omega arith)
    ])
  ]

  claimed-Published :
      (cfg : ClientConfig) (r : Arrival) (id : String) (a b : AuthManager) (o : Option LoginAttempt)
      (page : Page)
      → r.afterwards ≡ []
      → ((p : LoginAttempt) → o ≡ some p → lookup id a.attempts ≡ some p)
      → page.status ≢ 200
      → (elim o as (λ _. Page × AuthManager) [
        | none ↦ (page, b)
        | some p ↦ after_claim cfg r id p b
      ]).0.status
        ≡ 200
      → Published id a
          (elim o as (λ _. Page × AuthManager) [
            | none ↦ (page, b)
            | some p ↦ after_claim cfg r id p b
          ]).1
  claimed-Published cfg r id a b none page n f q h = absurd (q h)
  claimed-Published cfg r id a b (some p) page n f q h =
      after_claim-Published cfg r id p a b (prepare cfg r p) refl n (f p refl) h
        (prepare-Refuses cfg r p)

  -- A callback that is answered with 200, where no other step comes between its commit and its end,
  -- had found a pending attempt under its trace id, and leaves a credential that has a token and a user id and the
  -- device and key that were drawn for that attempt.
  pub callback-Published :
      (cfg : ClientConfig) (r : Arrival) (a : AuthManager)
      → r.afterwards ≡ []
      → (callback cfg r a).0.status ≡ 200
      → Published (trace_id r.get) a (callback cfg r a).1
  unfolding callback
  callback-Published cfg r a n =
      let P : Page × AuthManager → Type 0 =
        λ o. o.0.status ≡ 200 → Published (trace_id r.get) a o.1 in
      if-page P r.done_before _ _ (λ h. absurd (omega arith))
        (if-page P (ltb 65536 r.query_bytes) _ _ (λ h. absurd (omega arith))
          (claimed-Published cfg r (trace_id r.get) a _ _ _ n
            (λ p. claim-found r.claimed_at (trace_id r.get) a) (λ h. omega arith)))
