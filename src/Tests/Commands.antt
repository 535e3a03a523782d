-- ===== src/Tests/Commands.antt =====
-- The gateway on another port, started by the command "api".
use trae_api.Prelude.{text_eq, true, none, some, [], ◌∷◌, ◌≡◌, ◌⊎◌, refl, lookup}
use trae_api.Fault.{ok}
use trae_api.Server.Config.{is_loopback_addr, validate_api_config}
use trae_api.Server.Gateway.{run_current}
use trae_api.Server.Lifecycle.{signalled}
use trae_api.Command.{Parsed, api_command, api_only, command_config, dispatch, gateway_config}
use trae_api.Command.Exposed.{HasToken, gateway-Exposed}
use trae_api.Tests.Serving.{net}

abbrev parsed : Parsed
parsed = record {
  command = api_command;
  flags = ("api-addr", "127.0.0.1:9000") ∷ [];
  arguments = [];
}

runs : dispatch parsed ≡ ok (api_only (command_config parsed.flags))
unfolding dispatch
runs = refl

starts :
    gateway_config (api_only (command_config parsed.flags)) ≡ some (command_config parsed.flags)
unfolding gateway_config
starts = refl

listens :
    (run_current (λ addr. ok tt) (signalled none none) (command_config parsed.flags)).listened
    ≡ some "127.0.0.1:9000"
unfolding run_current command_config lookup text_eq validate_api_config is_loopback_addr
listens = refl

gateway-Exposed_example : (is_loopback_addr "127.0.0.1:9000" ≡ true) ⊎ HasToken parsed.flags
gateway-Exposed_example =
    gateway-Exposed parsed (api_only (command_config parsed.flags)) (command_config parsed.flags)
      (λ addr. ok tt) (signalled none none) "127.0.0.1:9000" runs starts listens
