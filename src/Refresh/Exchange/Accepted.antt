-- ===== src/Refresh/Exchange/Accepted.antt =====
-- auth.go decodeExchange: what a credential that was accepted keeps of the old one.
use trae_api.Prelude.{
  ℕ, String, ◌==◌, string_eq, true, false, not, ◌&&◌, ◌||◌, Option, none, some, List, [], ◌∷◌, ◌≡◌,
  ◌≢◌, refl, inl, inr, eqb, or_text, Bool-cases, if-cases, text_eq_iff, ◌∙◌, sym, subst, ap,
}
use trae_api.Fault.{failure, Result, ok, err, >>=-eq-ok, >>-eq-ok, reject-eq-ok}
use trae_api.Json.{Codec, Members, first_string}
use trae_api.Login.{Credential}
use trae_api.Refresh.Exchange.{
  Texts, result_object, user_info, renewed, with_user, users, accept, decode_exchange,
}

-- The credential `d` may take the place of `c`.
pub record Renews (c d : Credential) : Type 0 where
  pub token : d.token ≢ ""
  pub refresh_token : c.refresh_token ≢ "" → d.refresh_token ≢ ""
  pub user_id : c.user_id ≢ "" → d.user_id ≡ c.user_id
  pub device :
      (d.device_id ≡ c.device_id) × (d.machine_id ≡ c.machine_id) × (d.device_key ≡ c.device_key)
  pub pending : d.refresh_pending ≡ c.refresh_pending

pub not_empty : (s : String) → (s == "") ≡ false → s ≢ ""
not_empty s e h = absurd (let q : (s == "") ≡ true = (text_eq_iff s "").1 h in cc)

or_text-≢ : (a b : String) → b ≢ "" → or_text a b ≢ ""
or_text-≢ a b h = elim (Bool-cases (a == "")) [ inl e ↦ rw (e) h | inr e ↦ rw (e) (not_empty a e) ]

ok-injective : {c d : Credential} → ok c ≡ ok d → c ≡ d
ok-injective h = cc

-- The user id may be filled in, and is never changed.
record SameButUser (c d : Credential) : Type 0 where
  rest : d ≡ record c { user_id = d.user_id }
  user_id : c.user_id ≢ "" → d.user_id ≡ c.user_id

unchanged : (c : Credential) → SameButUser c c
unchanged c = record { rest = refl; user_id = λ _. refl }

filled_in :
    (c : Credential) (user : String)
    → (c.user_id ≢ "" → user ≡ c.user_id)
    → SameButUser c (record c { user_id = user })
filled_in c user h = record { rest = refl; user_id = h }

same_user :
    (old user : String) → (not (old == "") && not (old == user)) ≡ false → old ≢ "" → user ≡ old
same_user old user h n = elim (Bool-cases (old == "")) [
  | inl e ↦ absurd (n ((text_eq_iff old "").0 e))
  | inr e ↦ (elim (Bool-cases (old == user)) [
    | inl q ↦ sym ((text_eq_iff old user).0 q)
    | inr q ↦ absurd (cc)
  ])
]

replaced :
    (c d : Credential) (u : String)
    → d ≡ record c { user_id = d.user_id }
    → record c { user_id = u } ≡ record d { user_id = u }
replaced c d u e = sym (ap {A = Credential} (λ z. record z { user_id = u }) e)

SameButUser-trans : {c d e : Credential} → SameButUser c d → SameButUser d e → SameButUser c e
SameButUser-trans {c} {d} {e} p q = record {
  rest = q.rest ∙ sym (replaced c d e.user_id p.rest);
  user_id = λ n. q.user_id (λ z. n (sym (p.user_id n) ∙ z)) ∙ p.user_id n;
}

module _ ⦃go : Codec⦄ ⦃texts : Texts⦄ where
  with_user-SameButUser :
      (user : String) (c : Credential) {d : Credential} → with_user user c ≡ ok d → SameButUser c d
  with_user-SameButUser user c {d} h = elim (if-cases (user == "") h) [
    | inl (e, h) ↦ subst (SameButUser c) (ok-injective h) (unchanged c)
    | inr (e, h) ↦ (elim (if-cases (not (c.user_id == "") && not (c.user_id == user)) h) [
      | inl (q, h) ↦ absurd (cc)
      | inr (q, h) ↦
          subst (SameButUser c) (ok-injective h) (filled_in c user (same_user c.user_id user q))
    ])
  ]

  users-SameButUser :
      (sources : List (Option Members)) (c : Credential) {d : Credential}
      → users sources c ≡ ok d
      → SameButUser c d
  users-SameButUser [] c h = subst (SameButUser c) (ok-injective h) (unchanged c)
  users-SameButUser (source ∷ sources) c h =
      let (x, e, h) =
        >>=-eq-ok (with_user (first_string source ("UserID" ∷ "userId" ∷ [])) c) _ h in
      let p : SameButUser c x = with_user-SameButUser _ c e in
      SameButUser-trans p (users-SameButUser sources x h)

  renewed-Renews :
      (token : String) (payload : Option Members) (c : Credential) {d : Credential}
      → (token == "") ≡ false
      → SameButUser (renewed token payload c) d
      → Renews c d
  renewed-Renews token payload c t same = record {
    token = λ e. not_empty token t (sym (ap (λ z. z.token) same.rest) ∙ e);
    refresh_token =
        λ n e. or_text-≢ _ c.refresh_token n (sym (ap (λ z. z.refresh_token) same.rest) ∙ e);
    user_id = same.user_id;
    device = (
      ap (λ z. z.device_id) same.rest,
      ap (λ z. z.machine_id) same.rest,
      ap (λ z. z.device_key) same.rest,
    );
    pending = ap (λ z. z.refresh_pending) same.rest;
  }

  accept-Renews :
      (root : Option Members) (c : Credential) {d : Credential} → accept root c ≡ ok d → Renews c d
  accept-Renews root c {d} h =
      let (checks, h) = >>-eq-ok _ _ h in
      let (given, domestic) = >>-eq-ok _ _ checks in
      let payload : Option Members = result_object root in
      renewed-Renews _ payload c (reject-eq-ok _ _ given)
        (users-SameButUser (user_info payload ∷ payload ∷ []) _ h)

  body-Renews :
      (body : Option (Option Members)) (c : Credential) {d : Credential}
      → (elim body as (λ _. Result Credential) [
        | none ↦ err (failure "invalid token exchange response")
        | some root ↦ accept root c
      ])
        ≡ ok d
      → Renews c d
  body-Renews none c h = absurd (cc)
  body-Renews (some root) c h = accept-Renews root c h

  -- An exchange that is accepted gives a token; a refresh token is kept or replaced, a user id that was
  -- there is the same, and the device and the mark of a pending refresh stay.
  pub decode_exchange-Renews :
      (status : ℕ) (body : Option (Option Members)) (c : Credential) {d : Credential}
      → decode_exchange status body c ≡ ok d
      → Renews c d
  unfolding decode_exchange
  decode_exchange-Renews status body c {d} h =
      elim (if-cases (eqb status 401 || eqb status 403) h) [
        | inl (e, h) ↦ absurd (cc)
        | inr (e, h) ↦ (elim (if-cases (not (eqb status 200)) h) [
          | inl (e, h) ↦ absurd (cc)
          | inr (e, h) ↦ body-Renews body c h
        ])
      ]
