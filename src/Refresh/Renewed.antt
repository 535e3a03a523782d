-- ===== src/Refresh/Renewed.antt =====
-- auth.go get: a refresh that succeeds serves the callers that come after it.
use trae_api.Prelude.{
  ℕ, ◌+◌, ◌*◌, ◌<◌, String, ◌==◌, string_eq, true, false, none, ◌≡◌, ◌≢◌, ◌⊎◌, inl, inr, eqb,
  eqb_iff, arith, Bool-cases, text_eq_iff, sym, ap, ◌∙◌, subst,
}
use trae_api.Fault.{Result, ok, err}
use trae_api.Json.{Codec}
use trae_api.Login.{Credential, AuthManager, Flight}
use trae_api.Refresh.{
  minute, given, exchanges, is_fresh, begin_refresh, unmarked, enter, Stored, Finished, again,
  finish,
}
use trae_api.Refresh.Resend.{enter-Tests}
use trae_api.Refresh.Exchange.{Texts}
use trae_api.Refresh.Exchange.Accepted.{Renews}
use trae_api.Refresh.Exchange.Request.{Crypto, Turn, exchange}
use trae_api.Refresh.Exchange.Request.Outcomes.{Fresh, exchange-Fresh}

-- The state after the exchange of a flight came back with a credential that was saved.
pub record HasRenewed (now : ℕ) (fresh : Credential) (f : Flight) (a : AuthManager) : Type 0 where
  pub cred : a.cred ≡ unmarked fresh
  pub error : a.refresh_err ≡ none
  pub generation : a.generation ≡ f.generation

absent : {s : String} → s ≢ "" → (s == "") ≡ false
absent {s} n = elim (Bool-cases (s == "")) [
  | inl e ↦ absurd (n ((text_eq_iff s "").0 e))
  | inr e ↦ e
]

begin_refresh-generation :
    (now : ℕ) (fence : Result (Unit {0})) (a : AuthManager) {f : Flight}
    → (begin_refresh now fence a).0 ≡ exchanges f
    → (begin_refresh now fence a).1.generation ≡ f.generation
begin_refresh-generation now (ok _) a h = ground arith
begin_refresh-generation now (err e) a h = ground arith

enter-generation :
    (now : ℕ) (fence : Result (Unit {0})) (a : AuthManager) {f : Flight}
    → (enter now fence a).0 ≡ exchanges f
    → (enter now fence a).1.generation ≡ f.generation
enter-generation now fence a {f} h =
    let (t, e) = enter-Tests now fence a h in
    subst (λ z. z.1.generation ≡ f.generation) (sym e)
      (begin_refresh-generation now fence a (ap (λ z. z.0) (sym e) ∙ h))

finish-HasRenewed :
    (now : ℕ) (fresh : Credential) (s : Stored) (f : Flight) (a : AuthManager)
    → a.generation ≡ f.generation
    → s.saved ≡ ok tt
    → ((finish now none (ok fresh) s f a).0 ≡ again)
      × HasRenewed now fresh f (finish now none (ok fresh) s f a).1
unfolding finish
finish-HasRenewed now fresh s f a g h =
    let e : eqb a.generation f.generation ≡ true = (eqb_iff _ _).1 g in
    rw (e, finish)
      (elim (Bool-cases a.has_store) [
        | inl k ↦ (
          ground arith,
          record { cred = ground arith; error = ground arith; generation = ground arith },
        )
        | inr k ↦ (
          ground arith,
          record { cred = ground arith; error = ground arith; generation = ground arith },
        )
      ])

enter-given :
    (later : ℕ) (fence : Result (Unit {0})) (a : AuthManager)
    → a.cred.token ≢ ""
    → a.refresh_err ≡ none
    → ((a.cred.expires_at ≡ 0) ⊎ (later + 2 * minute < a.cred.expires_at))
    → enter later fence a ≡ (given a.cred a.generation, a)
unfolding enter
enter-given later fence a t e v =
    let x : (a.cred.token == "") ≡ false = absent t in
    let y : is_fresh later a ≡ true = (elim v [ inl z ↦ ground arith | inr z ↦ ground arith ]) in
    ground (arith, x, y, e)

-- The goroutine goes round the loop, and every entry after it is given the new credential.
abbrev pub Serves : ℕ → Result (Unit {0}) → Credential → ℕ → Finished × AuthManager → Type 0
Serves later fence c g b = (b.0 ≡ again) × (enter later fence b.1 ≡ (given c g, b.1))

HasRenewed-Serves :
    (now later : ℕ) (fence : Result (Unit {0})) (fresh : Credential) (f : Flight) (a : AuthManager)
    → HasRenewed now fresh f a
    → fresh.token ≢ ""
    → ((fresh.expires_at ≡ 0) ⊎ (later + 2 * minute < fresh.expires_at))
    → enter later fence a ≡ (given (unmarked fresh) f.generation, a)
HasRenewed-Serves now later fence fresh f a r t v =
    let token : a.cred.token ≡ fresh.token = ap (λ c. c.token) r.cred in
    let expiry : a.cred.expires_at ≡ fresh.expires_at = ap (λ c. c.expires_at) r.cred in
    let e : enter later fence a ≡ (given a.cred a.generation, a) =
      enter-given later fence a (λ e. t (sym token ∙ e)) r.error
        (elim v [ inl z ↦ inl (expiry ∙ z) | inr z ↦ inr (omega arith) ]) in
    e ∙ cc (r.cred, r.generation)

module _ ⦃go : Codec⦄ ⦃texts : Texts⦄ ⦃crypto : Crypto⦄ where
  -- When a caller of `get` begins an exchange, the exchange succeeds, nothing else changes the manager
  -- meanwhile and the new credential is saved, then every later caller is given the new credential,
  -- and none waits or exchanges again, as long as the credential has no expiry or more than two
  -- minutes left.
  pub refresh-Serves :
      (now : ℕ) (fence : Result (Unit {0})) (a : AuthManager) (f : Flight) (at : ℕ)
      (first second : Turn) (fresh : Credential) (back : ℕ) (s : Stored) (later : ℕ)
      (refence : Result (Unit {0}))
      → (enter now fence a).0 ≡ exchanges f
      → (exchange at first second f.old).0 ≡ ok fresh
      → s.saved ≡ ok tt
      → ((fresh.expires_at ≡ 0) ⊎ (later + 2 * minute < fresh.expires_at))
      → Serves later refence
          (unmarked fresh)
          f.generation
          (finish back none (ok fresh) s f (enter now fence a).1)
  refresh-Serves now fence a f at first second fresh back s later refence entered exchanged saved
        v =
      let r : Renews f.old fresh =
        subst (Fresh f.old) exchanged (exchange-Fresh at first second f.old) in
      let (x, y) =
        finish-HasRenewed back fresh s f (enter now fence a).1
          (enter-generation now fence a entered) saved in
      (x, HasRenewed-Serves back later refence fresh f _ y r.token v)
