-- ===== src/Http/Guarded.antt =====
-- http.go authMiddleware with main.go validateAPIConfig: whom a server that was started serves.
use trae_api.Prelude.{
  String, ◌==◌, ◌<>◌, string_eq, Bool, true, false, not, ◌&&◌, ◌||◌, Option, none, some, ◌≡◌, ◌≢◌,
  ◌⊎◌, inl, inr, refl, if-cases, text_eq_iff, Bool-cases,
}
use trae_api.Fault.{Fault, Result, ok, err, >>-eq-ok, reject-eq-ok}
use trae_api.Server.Config.{Net, Config, is_loopback_addr, validate_api_config}
use trae_api.Http.{Urls, Request, same_origin, served, local_management_host, auth_middleware}

nand : (a b : Bool) → (not a && b) ≡ false → (a ≡ true) ⊎ (b ≡ false)
nand true b h = inl refl
nand false true h = absurd (cc)
nand false false h = inr refl

nor : (a b : Bool) → (not a || not b) ≡ false → (a ≡ true) × (b ≡ true)
nor true true h = (refl, refl)
nor true false h = absurd (cc)
nor false b h = absurd (cc)

or-true : (a b : Bool) → (a || b) ≡ true → a ≡ false → b ≡ true
or-true false b h e = h
or-true true b h e = absurd (cc)

with_host :
    {A : Type 0} (m : Option A) (e : Fault) (f : A → Result (Unit {0})) {P : Type 0}
    → ((a : A) → f a ≡ ok tt → P)
    → (elim m as (λ _. Result (Unit {0})) [ none ↦ err e | some a ↦ f a ]) ≡ ok tt
    → P
with_host none e f k h = absurd (cc)
with_host (some a) e f k h = k a h

and-true : (a b : Bool) → (a && b) ≡ false → a ≡ true → b ≡ false
and-true true b h e = h
and-true false b h e = absurd (cc)

tokenless : (a b : Bool) → (a ≡ true) ⊎ (b ≡ false) → b ≡ true → a ≡ true
tokenless a b (inl h) e = h
tokenless a b (inr h) e = absurd (cc)

filled : (s : String) → (s == "") ≡ false → s ≢ ""
filled s e h = absurd (let q : (s == "") ≡ true = (text_eq_iff s "").1 h in cc)

module _ ⦃net : Net⦄ where
  -- The server listens on a loopback address, or has a token.
  pub validate_api_config-safe :
      (c : Config)
      → validate_api_config c ≡ ok tt
      → (is_loopback_addr c.addr ≡ true) ⊎ ((c.api_token == "") ≡ false)
  unfolding validate_api_config
  validate_api_config-safe c h =
      with_host (net.split_host_port c.addr) _ _
        (λ p q.
          nand (is_loopback_addr c.addr) (c.api_token == "") (reject-eq-ok _ _ (>>-eq-ok _ _ q).1))
        h

-- Whom the middleware serves.
abbrev pub Entitled : ⦃net : Net⦄ ⦃urls : Urls⦄ → Config → Request → Type 0
Entitled c r =
    ((c.api_token ≢ "") × (r.authorization ≡ "Bearer " <> c.api_token))
    ⊎ ((is_loopback_addr c.addr ≡ true)
        × (local_management_host r.host ≡ true)
        × (same_origin r ≡ true))

module _ ⦃net : Net⦄ ⦃urls : Urls⦄ where
  -- A server whose configuration was accepted serves a request only if it carries the token, or if the
  -- server listens on a loopback address and the request names a local host and comes from the same
  -- origin.
  pub auth_middleware-Entitled :
      (c : Config) (r : Request)
      → validate_api_config c ≡ ok tt
      → auth_middleware c.api_token r ≡ served
      → Entitled c r
  unfolding auth_middleware
  auth_middleware-Entitled c r valid h =
      elim (if-cases
        (c.api_token == "" && (not (local_management_host r.host) || not (same_origin r))) h) [
          | inl (e, h) ↦ absurd (cc)
          | inr (e, h) ↦
              (elim (if-cases (c.api_token == "" || r.authorization == "Bearer " <> c.api_token)
                h) [
                  | inr (q, h) ↦ absurd (cc)
                  | inl (q, h) ↦ (elim (Bool-cases (c.api_token == "")) [
                    | inr n ↦ inl (filled c.api_token n, (text_eq_iff _ _).0 (or-true _ _ q n))
                    | inl t ↦
                        let (host, origin) =
                          nor (local_management_host r.host) (same_origin r) (and-true _ _ e t) in
                        inr (tokenless _ _ (validate_api_config-safe c valid) t, host, origin)
                  ])
                ])
        ]
