-- ===== src/Login/Callback/Account.antt =====
-- auth.go callback: what the credential that it publishes holds.
use trae_api.Prelude.{
  String, ◌==◌, string_eq, false, ◌||◌, ◌≡◌, ◌≢◌, refl, inl, inr, ◌⊎◌, arith, if-cases, subst, ◌∙◌,
}
use trae_api.Fault.{Result, ok, err}
use trae_api.Json.{Codec}
use trae_api.Login.{Credential, LoginAttempt}
use trae_api.Login.Link.{ClientConfig}
use trae_api.Login.Callback.{
  Page, Arrival, is_foreign, from_query, with_claims, with_token, complete, prepare,
}
use trae_api.Refresh.Exchange.{Texts}
use trae_api.Refresh.Exchange.Accepted.{not_empty}
use trae_api.Refresh.Exchange.Request.{Crypto}
use trae_api.Refresh.Exchange.Request.Outcomes.{Fresh, exchange-Fresh}

abbrev SameDevice : LoginAttempt → Credential → Type 0
SameDevice p c = (c.device_id ≡ p.device) × (c.machine_id ≡ p.machine) × (c.device_key ≡ p.key)

-- A credential with a token, an account and the device that was drawn for the attempt.
pub record HasAccount (p : LoginAttempt) (c : Credential) : Type 0 where
  pub token : c.token ≢ ""
  pub user_id : c.user_id ≢ ""
  pub device : SameDevice p c

module _ ⦃go : Codec⦄ ⦃texts : Texts⦄ ⦃crypto : Crypto⦄ where
  complete-HasAccount :
      (p : LoginAttempt) (c : Credential) {d : Credential}
      → SameDevice p c
      → complete c ≡ inr d
      → HasAccount p d
  complete-HasAccount p c {d} same h = elim (if-cases (c.token == "" || c.user_id == "") h) [
    | inl (e, h) ↦ absurd (cc)
    | inr (e, h) ↦
        let q : c ≡ d = cc in
        let t : (c.token == "") ≡ false = ground arith in
        let u : (c.user_id == "") ≡ false = ground arith in
        subst (HasAccount p) q
          (record { token = not_empty _ t; user_id = not_empty _ u; device = same })
  ]

  Fresh-SameDevice :
      (p : LoginAttempt) (c d : Credential) (o : Result Credential)
      → SameDevice p c
      → Fresh c o
      → o ≡ ok d
      → SameDevice p d
  Fresh-SameDevice p c d (ok f) same r h =
      let q : f ≡ d = cc in
      let (x, y, z) = r.device in subst (SameDevice p) q (x ∙ same.0, y ∙ same.1, z ∙ same.2)
  Fresh-SameDevice p c d (err e) same r h = absurd (cc)

  with_token-SameDevice :
      (p : LoginAttempt) (r : Arrival) (c : Credential) {d : Credential}
      → SameDevice p c
      → with_token r c ≡ ok d
      → SameDevice p d
  with_token-SameDevice p r c {d} same h = elim (if-cases (c.token == "") h) [
    | inl (e, h) ↦
        Fresh-SameDevice p c d _ same (exchange-Fresh r.exchanged_at r.first r.second c) h
    | inr (e, h) ↦ let q : c ≡ d = cc in subst (SameDevice p) q same
  ]

  from_query-SameDevice :
      (cfg : ClientConfig) (get : String → String) (p : LoginAttempt)
      → SameDevice p (from_query cfg get p)
  unfolding from_query
  from_query-SameDevice cfg get p = (refl, refl, refl)

  with_claims-SameDevice :
      (p : LoginAttempt) (c : Credential) → SameDevice p c → SameDevice p (with_claims c)
  unfolding with_claims
  with_claims-SameDevice p c same = same

  prepared :
      (p : LoginAttempt) (o : Result Credential) (page : Page) {c : Credential}
      → ((d : Credential) → o ≡ ok d → SameDevice p d)
      → (elim o as (λ _. Page ⊎ Credential) [ err e ↦ inl page | ok d ↦ complete (with_claims d) ])
        ≡ inr c
      → HasAccount p c
  prepared p (err e) page same h = absurd (cc)
  prepared p (ok d) page same h =
      complete-HasAccount p (with_claims d) (with_claims-SameDevice p d (same d refl)) h

  pub prepare-HasAccount :
      (cfg : ClientConfig) (r : Arrival) (p : LoginAttempt) {c : Credential}
      → prepare cfg r p ≡ inr c
      → HasAccount p c
  unfolding prepare
  prepare-HasAccount cfg r p h = elim (if-cases (is_foreign r.get) h) [
    | inl (e, h) ↦ absurd (cc)
    | inr (e, h) ↦
        prepared p (with_token r (from_query cfg r.get p)) _
          (λ d. with_token-SameDevice p r _ (from_query-SameDevice cfg r.get p)) h
  ]
