-- ===== src/Refresh/Exchange/Request/Once.antt =====
-- auth.go exchange: how often a refresh token is sent in one exchange.
use trae_api.Prelude.{ℕ, List, [], ◌∷◌}
use trae_api.Json.{Codec}
use trae_api.Login.{Credential}
use trae_api.Refresh.Exchange.{Texts}
use trae_api.Refresh.Exchange.Request.{ExchangeRequest, Crypto, Turn, exchange}
use trae_api.Refresh.Exchange.Request.Outcomes.{TurnedAway, exchange-outcome}

-- At most two requests, and a second one only after the first was turned away.
abbrev pub SentOnce : Turn → List ExchangeRequest → Type 0
SentOnce first [] = Unit
SentOnce first (r ∷ []) = Unit
SentOnce first (r ∷ s ∷ []) = TurnedAway (first.answer r)
SentOnce first (r ∷ s ∷ t ∷ rest) = ⊥

module _ ⦃go : Codec⦄ ⦃texts : Texts⦄ ⦃crypto : Crypto⦄ where
  -- One exchange sends its refresh token at most twice, and a second time only after the server
  -- answered the first request with status 401 or 403.
  pub exchange-SentOnce :
      (now : ℕ) (first second : Turn) (c : Credential)
      → SentOnce first (exchange now first second c).1
  exchange-SentOnce now first second c =
      exchange-outcome (λ o. SentOnce first o.1) now first second c
        (record { none_sent = λ e. tt; one_sent = λ o r h. tt; two_sent = λ o r s t h. t })
