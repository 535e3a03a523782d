-- ===== src/Command/Exposed.antt =====
-- command.go and main.go: on which addresses a gateway listens.
use trae_api.Prelude.{
  String, ◌==◌, string_eq, true, false, none, some, Assoc, lookup, ◌≡◌, ◌≢◌, ◌⊎◌, inl, inr, ap, sym,
  ◌∙◌, Option-cases, text_eq, text_eq_refl, subst,
}
use trae_api.Fault.{Result, ok, ◌>>◌, >>-eq-ok, Result-cases}
use trae_api.Server.Config.{Net, Config, is_loopback_addr, validate_api_config}
use trae_api.Server.Lifecycle.{Stop}
use trae_api.Server.Gateway.{new_server, listen_api, run_current}
use trae_api.Refresh.Exchange.Accepted.{not_empty}
use trae_api.Http.Guarded.{validate_api_config-safe}
use trae_api.Command.{
  CommandName, trae_api_command, api_command, auth_command, login_command, Parsed, flag_or,
  command_config, action, dispatch, validate, Action, gateway_config,
}

-- A token was given with the flag or its environment variable.
pub record HasToken (flags : Assoc String String) : Type 0 where
  pub token : String
  pub given : lookup "api-token" flags ≡ some token
  pub something : token ≢ ""

of_action :
    (name : CommandName) (d : Config) {c : Config} → gateway_config (action name d) ≡ some c → c ≡ d
unfolding gateway_config
of_action trae_api_command d h = cc
of_action api_command d h = cc
of_action auth_command d h = absurd (cc)
of_action login_command d h = absurd (cc)

module _ ⦃net : Net⦄ where
  bound :
      (bind : String → Result (Unit {0})) (c : Config) {u : Unit {0}}
      → listen_api bind (new_server c) ≡ ok u
      → (validate_api_config c >> bind c.addr) ≡ ok u
  unfolding listen_api new_server
  bound bind c h = h

  listened :
      (bind : String → Result (Unit {0})) (stop : Stop) (c : Config) {addr : String}
      → (run_current bind stop c).listened ≡ some addr
      → (c.addr ≡ addr) × (validate_api_config c ≡ ok tt)
  unfolding run_current
  listened bind stop c {addr} h = elim (Result-cases (listen_api bind (new_server c))) [
    | inl (e, q) ↦ absurd (let g : none ≡ some addr = rw (q, run_current) at h in cc)
    | inr (u, q) ↦ (
      (let g : some c.addr ≡ some addr = rw (q, run_current) at h in cc),
      (>>-eq-ok (validate_api_config c) (bind c.addr) (bound bind c q)).0,
    )
  ]

token_given :
    (flags : Assoc String String)
    → ((command_config flags).api_token == "") ≡ false
    → HasToken flags
unfolding command_config
token_given flags h = elim (Option-cases (lookup "api-token" flags)) [
  | inl e ↦ absurd (
      let g : text_eq "" "" ≡ false = rw (e, flag_or) at h in
      let q : true ≡ false = sym (text_eq_refl "") ∙ g in cc)
  | inr (t, e) ↦ record { token = t; given = e; something = not_empty t (rw (e, flag_or) at h) }
]

config_of :
    (p : Parsed) (a : Action) {c : Config}
    → dispatch p ≡ ok a
    → gateway_config a ≡ some c
    → c ≡ command_config p.flags
unfolding dispatch
config_of p a h g =
    let (x, q) = >>-eq-ok (validate p.command p.arguments) _ h in
    let r : action p.command (command_config p.flags) ≡ a = cc in
    of_action p.command (command_config p.flags) (ap gateway_config r ∙ g)

module _ ⦃net : Net⦄ where
  -- A gateway that one of the commands starts listens on a loopback address only, unless a token that
  -- is not empty was given with the flag or its environment variable.
  pub gateway-Exposed :
      (p : Parsed) (a : Action) (c : Config) (bind : String → Result (Unit {0})) (stop : Stop)
      (addr : String)
      → dispatch p ≡ ok a
      → gateway_config a ≡ some c
      → (run_current bind stop c).listened ≡ some addr
      → (is_loopback_addr addr ≡ true) ⊎ HasToken p.flags
  gateway-Exposed p a c bind stop addr d g h =
      let q : c ≡ command_config p.flags = config_of p a d g in
      let (x, v) = listened bind stop c h in
      elim (validate_api_config-safe c v) [
        | inl local ↦ inl (subst (λ z. is_loopback_addr z ≡ true) x local)
        | inr token ↦ inr (token_given p.flags (subst (λ z. (z.api_token == "") ≡ false) q token))
      ]
