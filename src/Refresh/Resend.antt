-- ===== src/Refresh/Resend.antt =====
-- auth.go get: what a context that ends during the exchange leaves behind (docs/KNOWN_ISSUES.md).
use trae_api.Prelude.{ℕ, ◌==◌, string_eq, Bool, true, false, ◌≡◌, refl, if◌then◌else◌, is_some, ◌∙◌}
use trae_api.Fault.{Fault, Result}
use trae_api.Login.{Credential, AuthManager, Flight}
use trae_api.Refresh.{Entered, given, refused, exchanges, enter, begin_refresh, is_fresh}

-- An entry that comes to an exchange passed a test whose other side does not.
passed :
    (test : Bool) (x y : Entered × AuthManager) {f : Flight}
    → (x.0 ≡ exchanges f → ⊥)
    → (if test then x else y).0 ≡ exchanges f
    → (test ≡ false) × ((if test then x else y) ≡ y) × (y.0 ≡ exchanges f)
passed true x y n h = absurd (n h)
passed false x y n h = (refl, refl, h)

no_exchange :
    (test : Bool) (c : Credential) (g : ℕ) (e : Fault) {f : Flight}
    → (if test then given c g else refused e) ≡ exchanges f
    → ⊥
no_exchange true c g e h = cc
no_exchange false c g e h = cc

-- The tests of an entry that begins an exchange.
pub record Tests (now : ℕ) (a : AuthManager) : Type 0 where
  pub token : (a.cred.token == "") ≡ false
  pub clean : is_some a.refresh_err ≡ false
  pub stale : is_fresh now a ≡ false

pub enter-Tests :
    (now : ℕ) (fence : Result (Unit {0})) (a : AuthManager) {f : Flight}
    → (enter now fence a).0 ≡ exchanges f
    → Tests now a × (enter now fence a ≡ begin_refresh now fence a)
unfolding enter
enter-Tests now fence a h =
    let (t, e, h) = passed (a.cred.token == "") _ _ (λ e. cc) h in
    let (r, e1, h) = passed (is_some a.refresh_err) _ _ (no_exchange _ _ _ _) h in
    let (fr, e2, h) = passed (is_fresh now a) _ _ (λ e. cc) h in
    let (idle, e3, h) = passed (is_some a.refreshing) _ _ (λ e. cc) h in
    (record { token = t; clean = r; stale = fr }, e ∙ e1 ∙ e2 ∙ e3)

-- The entry sends the refresh token that the manager holds.
abbrev pub Sends : AuthManager → Entered → Type 0
Sends a r = (g : Flight) × (r ≡ exchanges g) × (g.old.refresh_token ≡ a.cred.refresh_token)

-- What the manager is while the exchange runs.
record Underway (now : ℕ) (f : Flight) (b : AuthManager) : Type 0 where
  tests : Tests now b
  generation : b.generation ≡ f.generation
  token : b.cred.refresh_token ≡ f.old.refresh_token
