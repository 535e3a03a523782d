-- ===== src/Refresh/Exchange/Request.antt =====
-- auth.go: the requests of a token exchange (exchange, boundExchange, legacyExchange). Each comes with
-- the log of the requests that were sent, in order.
--
-- The key, its signatures and the nonces, the clock and the answers are arguments.
pub mod Once
pub mod Outcomes
use trae_api.Prelude.{
  ℕ, ◌+◌, ◌-◌, ◌*◌, ◌/◌, ◌^◌, String, ◌==◌, ◌<>◌, string_eq, Bool, true, false, not, ◌&&◌, ◌||◌,
  Option, none, some, List, [], ◌∷◌, if◌then◌else◌, eqb, ltb,
}
use trae_api.Fault.{Fault, failure, login_required, Result, ok, err}
use trae_api.Json.{Codec, Number, Value, text, number, object, Members, end, member}
use trae_api.Login.{Credential}
use trae_api.Models.Discovery.{Answer, unsent, answered}
use trae_api.Refresh.Exchange.{Texts, decode_exchange}

pub record ExchangeRequest : Type 0 where
  pub path : String
  pub authorization : String
  pub body : Value

pub record Crypto : Type 0 where
  -- the PEM text of x509.MarshalPKIXPublicKey, unless that fails
  pub public_key : String → Option String
  -- base64 of ecdsa.SignASN1 of the sha256 of a text
  pub sign : String → String → Option String
  -- %d
  pub format_int : ℕ → String

-- What one client meets: the nonce in hexadecimal, unless rand.Read fails, the time in Unix seconds, the error of
-- http.NewRequestWithContext, and the answer to what it sends.
pub record Turn : Type 0 where
  pub nonce : Option String
  pub at : ℕ
  pub malformed : Option Fault
  pub answer : ExchangeRequest → Answer

pub record Client : Type 0 where
  pub id : String
  pub platform : String
  pub version : String

abbrev solo : Client
solo = record { id = "en1oxy7wnw8j9n"; platform = "SOLO_PC"; version = "0.1.64" }

abbrev ide : Client
ide = record { id = "ono9krqynydwx5"; platform = "IDE_PC"; version = "3.3.99" }

abbrev device_exchange_path : String
device_exchange_path = "/trae/api/v3/oauth/ExchangeToken"

abbrev members : List (String × Value) → Members
members [] = end
members ((k, v) ∷ rest) = member k v (members rest)

abbrev dict : List (String × Value) → Value
dict fields = object (members fields)

abbrev whole : ℕ → Value
whole n = number (record { negative = false; whole = n; fraction = 0 })

-- The keys stand in the order of the source.
unfoldable pub device_body : Client → Credential → String → ℕ → String → String → Value
device_body as' c nonce at signature key = dict (
    ("ClientID", text as'.id)
    ∷ ("ClientSecret", text "")
    ∷ ("RefreshToken", text c.refresh_token)
    ∷ ("IDEVersion", text as'.version)
    ∷ (
      "DeviceProof",
      dict (("Signature", text signature) ∷ ("Timestamp", whole at) ∷ ("Nonce", text nonce) ∷ []),
    )
    ∷ (
      "DeviceInfo",
      dict (
          ("DeviceID", text c.device_id)
          ∷ ("MachineID", text c.machine_id)
          ∷ ("PlatformCode", text as'.platform)
          ∷ ("DeviceType", text "PC")
          ∷ ("DeviceName", text "")
          ∷ ("DeviceModel", text "")
          ∷ ("ClientVersion", text as'.version)
          ∷ ("DevicePublicKey", text key)
          ∷ ("DeviceBrand", text "ASUS TUF Gaming A15 FA507RM_FA507RM")
          ∷ ("DeviceCPU", text "AMD")
          ∷ ("OSInfo", text "Windows")
          ∷ ("OSVersion", text "10.0.22631")
          ∷ []),
    )
    ∷ [])

abbrev bearer : Credential → String
bearer c = if c.token == "" then "" else "Bearer " <> c.token

-- Whether the loop goes on after an answer.
abbrev turned_away : ℕ → Bool
turned_away status = eqb status 401 || eqb status 403

abbrev pub Outcome : Type 0
Outcome = Result Credential × List ExchangeRequest

module _ ⦃go : Codec⦄ ⦃texts : Texts⦄ ⦃crypto : Crypto⦄ where
  unfoldable pub signed_text : Client → Credential → ℕ → String → String
  signed_text as' c at nonce =
      "POST\n"
      <> device_exchange_path
      <> "\n"
      <> as'.id
      <> "\n"
      <> c.refresh_token
      <> "\n"
      <> crypto.format_int at
      <> "\n"
      <> nonce

  abbrev pub after_answer :
      (Result Credential → Outcome) → Credential → ExchangeRequest → Answer → Outcome
  after_answer next c r (unsent (some e)) = (err e, r ∷ [])
  after_answer next c r (unsent none) = (err (failure "device exchange connection failed"), r ∷ [])
  after_answer next c r (answered status body) =
      let result = decode_exchange status body c in
      elim result [
        | ok fresh ↦ (ok fresh, r ∷ [])
        | err e ↦
            if turned_away status
            then (let rest = next (err e) in (rest.0, r ∷ rest.1))
            else (err e, r ∷ [])
      ]

  -- One client; `next` is the rest of the loop, given the last result.
  unfoldable pub bound_turn :
      Client → Turn → String → Credential → (Result Credential → Outcome) → Outcome
  unfolding device_body signed_text
  bound_turn as' turn key c next = elim turn.nonce [
    | none ↦ (err (failure "device nonce generation failed"), [])
    | some nonce ↦ (elim (crypto.sign c.device_key (signed_text as' c turn.at nonce)) [
      | none ↦ (err (failure "device signing failed"), [])
      | some signature ↦ (elim turn.malformed [
        | some e ↦ (err e, [])
        | none ↦
            let r : ExchangeRequest = record {
              path = device_exchange_path;
              authorization = bearer c;
              body = device_body as' c nonce turn.at signature key;
            } in
            after_answer next c r (turn.answer r)
      ])
    ])
  ]

  unfoldable pub bound_exchange : Turn → Turn → Credential → Outcome
  unfolding bound_turn
  bound_exchange first second c = elim (crypto.public_key c.device_key) [
    | none ↦ (err (failure "device public key encoding failed"), [])
    | some key ↦ bound_turn solo first key c (λ _. bound_turn ide second key c (λ last. (last, [])))
  ]

  unfoldable pub legacy_exchange : Turn → Credential → Outcome
  legacy_exchange turn c =
      let r : ExchangeRequest = record {
        path = "/cloudide/api/v3/trae/oauth/ExchangeToken";
        authorization = "";
        body = dict (
            ("ClientID", text c.client_id)
            ∷ ("RefreshToken", text c.refresh_token)
            ∷ ("ClientSecret", text "-")
            ∷ ("UserID", text c.user_id)
            ∷ []);
      } in
      elim turn.malformed [
        | some e ↦ (err e, [])
        | none ↦ (elim (turn.answer r) [
          | unsent (some e) ↦ (err e, r ∷ [])
          | unsent none ↦ (err (failure "token exchange connection failed"), r ∷ [])
          | answered status body ↦ (decode_exchange status body c, r ∷ [])
        ])
      ]

  unfoldable pub exchange : ℕ → Turn → Turn → Credential → Outcome
  unfolding bound_exchange legacy_exchange
  exchange now first second c =
      if c.refresh_token == "" || (not (eqb c.refresh_expires_at 0) && ltb c.refresh_expires_at now)
      then (err login_required, [])
      else if not (c.device_key == "") || not (c.device_id == "") || not (c.machine_id == "")
      then (if c.device_key == "" || c.device_id == "" || c.machine_id == ""
          then (err login_required, [])
          else bound_exchange first second c)
      else legacy_exchange first c
