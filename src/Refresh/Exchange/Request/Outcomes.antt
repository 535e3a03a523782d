-- ===== src/Refresh/Exchange/Request/Outcomes.antt =====
-- auth.go exchange, boundExchange, legacyExchange: the results and logs that an exchange can end with.
use trae_api.Prelude.{
  ℕ, String, ◌==◌, string_eq, Bool, true, false, not, ◌&&◌, ◌||◌, Option, none, some, [], ◌∷◌, ◌≡◌,
  refl, if◌then◌else◌, eqb, ltb,
}
use trae_api.Fault.{Fault, Result, ok, err}
use trae_api.Json.{Codec, Members}
use trae_api.Login.{Credential}
use trae_api.Models.Discovery.{Answer, unsent, answered}
use trae_api.Refresh.Exchange.{Texts, decode_exchange}
use trae_api.Refresh.Exchange.Accepted.{Renews, decode_exchange-Renews}
use trae_api.Refresh.Exchange.Request.{
  ExchangeRequest, Crypto, Turn, Client, Outcome, after_answer, turned_away, bound_turn,
  bound_exchange, legacy_exchange, exchange, signed_text, solo, ide,
}

-- The server turned the request away, with status 401 or 403.
abbrev pub TurnedAway : Answer → Type 0
TurnedAway (unsent e) = ⊥
TurnedAway (answered status body) = turned_away status ≡ true

-- A credential that an exchange gives may take the place of `c`.
abbrev pub Fresh : Credential → Result Credential → Type 0
Fresh c (ok d) = Renews c d
Fresh c (err e) = Unit

option-outcome :
    {A : Type 0} (P : Outcome → Type 0) (o : Option A) (x : Outcome) (f : A → Outcome)
    → P x
    → ((a : A) → P (f a))
    → P (elim o as (λ _. Outcome) [ none ↦ x | some a ↦ f a ])
option-outcome P none x f p q = p
option-outcome P (some a) x f p q = q a

result-outcome :
    (P : Outcome → Type 0) (m : Result Credential) (f : Credential → Outcome) (g : Fault → Outcome)
    → ((c : Credential) → m ≡ ok c → P (f c))
    → ((e : Fault) → P (g e))
    → P (elim m as (λ _. Outcome) [ ok c ↦ f c | err e ↦ g e ])
result-outcome P (ok c) f g p q = p c refl
result-outcome P (err e) f g p q = q e

if-outcome :
    (P : Outcome → Type 0) (test : Bool) (x y : Outcome)
    → (test ≡ true → P x)
    → P y
    → P (if test then x else y)
if-outcome P true x y p q = p refl
if-outcome P false x y p q = q

-- What holds of an error before any request, of one request, and of a second one after the first was
-- turned away.
pub record Covers (P : Outcome → Type 0) (first : Turn) (c : Credential) : Type 0 where
  pub none_sent : (e : Fault) → P (err e, [])
  pub one_sent : (o : Result Credential) (r : ExchangeRequest) → Fresh c o → P (o, r ∷ [])
  pub two_sent :
      (o : Result Credential) (r s : ExchangeRequest)
      → TurnedAway (first.answer r)
      → Fresh c o
      → P (o, r ∷ s ∷ [])

module _ ⦃go : Codec⦄ ⦃texts : Texts⦄ ⦃crypto : Crypto⦄ where
  decoded-Fresh :
      (status : ℕ) (body : Option (Option Members)) (c : Credential) (o : Result Credential)
      → decode_exchange status body c ≡ o
      → Fresh c o
  decoded-Fresh status body c (ok d) h = decode_exchange-Renews status body c h
  decoded-Fresh status body c (err e) h = tt

  after_answer-outcome :
      (P : Outcome → Type 0) (next : Result Credential → Outcome) (c : Credential)
      (r : ExchangeRequest) (a : Answer)
      → ((o : Result Credential) → Fresh c o → P (o, r ∷ []))
      → ((e : Fault) → TurnedAway a → P ((next (err e)).0, r ∷ (next (err e)).1))
      → P (after_answer next c r a)
  after_answer-outcome P next c r (unsent none) once twice = once _ tt
  after_answer-outcome P next c r (unsent (some e)) once twice = once (err e) tt
  after_answer-outcome P next c r (answered status body) once twice =
      result-outcome P (decode_exchange status body c) _ _
        (λ d h. once (ok d) (decoded-Fresh status body c (ok d) h))
        (λ e. if-outcome P (turned_away status) _ _ (twice e) (once (err e) tt))

  bound_turn-outcome :
      (P : Outcome → Type 0) (client : Client) (turn : Turn) (key : String) (c : Credential)
      (next : Result Credential → Outcome)
      → ((e : Fault) → P (err e, []))
      → ((o : Result Credential) (r : ExchangeRequest) → Fresh c o → P (o, r ∷ []))
      → ((r : ExchangeRequest) (e : Fault)
          → TurnedAway (turn.answer r)
          → P ((next (err e)).0, r ∷ (next (err e)).1))
      → P (bound_turn client turn key c next)
  unfolding bound_turn
  bound_turn-outcome P client turn key c next zero once twice =
      option-outcome P turn.nonce _ _ (zero _) (λ nonce.
        option-outcome P (crypto.sign c.device_key (signed_text client c turn.at nonce)) _ _
          (zero _)
          (λ signature.
            option-outcome P turn.malformed _ _
              (after_answer-outcome P next c _ _ (λ o. once o _) (λ e t. twice _ e t))
              (λ e. zero e)))

  bound_exchange-outcome :
      (P : Outcome → Type 0) (first second : Turn) (c : Credential)
      → Covers P first c
      → P (bound_exchange first second c)
  unfolding bound_exchange
  bound_exchange-outcome P first second c covers =
      option-outcome P (crypto.public_key c.device_key) _ _ (covers.none_sent _) (λ key.
        let ends : Result Credential → Outcome = λ last. (last, []) in
        let next : Result Credential → Outcome = λ last. bound_turn ide second key c ends in
        bound_turn-outcome P solo first key c next covers.none_sent covers.one_sent (λ r e t.
          bound_turn-outcome (λ o. P (o.0, r ∷ o.1)) ide second key c ends
            (λ e. covers.one_sent (err e) r tt) (λ o s h. covers.two_sent o r s t h)
            (λ s e u. covers.two_sent (err e) r s t tt)))

  answer-outcome :
      (P : Outcome → Type 0) (a : Answer) (x : Outcome) (f : Fault → Outcome)
      (g : ℕ → Option (Option Members) → Outcome)
      → P x
      → ((e : Fault) → P (f e))
      → ((status : ℕ) (body : Option (Option Members)) → P (g status body))
      → P (elim a as (λ _. Outcome) [
        | unsent (some e) ↦ f e
        | unsent none ↦ x
        | answered status body ↦ g status body
      ])
  answer-outcome P (unsent none) x f g p q r = p
  answer-outcome P (unsent (some e)) x f g p q r = q e
  answer-outcome P (answered status body) x f g p q r = r status body

  legacy_exchange-outcome :
      (P : Outcome → Type 0) (turn : Turn) (c : Credential)
      → Covers P turn c
      → P (legacy_exchange turn c)
  unfolding legacy_exchange
  legacy_exchange-outcome P turn c covers =
      option-outcome P turn.malformed _ _
        (answer-outcome P (turn.answer _) _ _ _ (covers.one_sent _ _ tt)
          (λ e. covers.one_sent (err e) _ tt)
          (λ status body. covers.one_sent _ _ (decoded-Fresh status body c _ refl)))
        (λ e. covers.none_sent e)

  -- What holds of each way in which an exchange can end holds of every exchange.
  pub exchange-outcome :
      (P : Outcome → Type 0) (now : ℕ) (first second : Turn) (c : Credential)
      → Covers P first c
      → P (exchange now first second c)
  unfolding exchange
  exchange-outcome P now first second c covers =
      if-outcome P
        (c.refresh_token == ""
          || (not (eqb c.refresh_expires_at 0) && ltb c.refresh_expires_at now))
        _ _ (λ e. covers.none_sent _)
        (if-outcome P
          (not (c.device_key == "") || not (c.device_id == "") || not (c.machine_id == "")) _ _
          (λ e.
            if-outcome P (c.device_key == "" || c.device_id == "" || c.machine_id == "") _ _
              (λ e. covers.none_sent _) (bound_exchange-outcome P first second c covers))
          (legacy_exchange-outcome P first c covers))

  -- The credential of an exchange that succeeds was accepted by the decoder.
  pub exchange-Fresh :
      (now : ℕ) (first second : Turn) (c : Credential) → Fresh c (exchange now first second c).0
  exchange-Fresh now first second c =
      exchange-outcome (λ o. Fresh c o.0) now first second c
        (record { none_sent = λ e. tt; one_sent = λ o r h. h; two_sent = λ o r s t h. h })
