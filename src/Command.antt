-- ===== src/Command.antt =====
-- command.go: the commands and their flags (newCommand, commandConfig).
--
-- The cli package gives the command, the flags of this command that are set, from the command line or the environment,
-- and the arguments that are left.
pub mod Exposed
use trae_api.Prelude.{String, string_eq, Option, none, some, List, [], ◌∷◌, Assoc, lookup, or_else}
use trae_api.Fault.{failure, Result, ok, err, ◌>>◌}
use trae_api.Server.Config.{Config, default_config}

pub data CommandName : Type 0 where
  trae_api_command : CommandName
  api_command : CommandName
  auth_command : CommandName
  login_command : CommandName

pub record Parsed : Type 0 where
  pub command : CommandName
  pub flags : Assoc String String
  pub arguments : List String

-- A flag that is set, or else the value of the configuration.
abbrev flag_or : String → String → Assoc String String → String
flag_or name current flags = or_else (lookup name flags) current

unfoldable pub command_config : Assoc String String → Config
unfolding default_config
command_config flags = record default_config {
  addr = flag_or "api-addr" default_config.addr flags;
  auth_addr = flag_or "auth-addr" default_config.auth_addr flags;
  api_token = flag_or "api-token" default_config.api_token flags;
}

-- What a command runs.
pub data Action : Type 0 where
  combined : Config → Action
  api_only : Config → Action
  auth_only : Config → Action
  login : Config → Action

abbrev no_arguments : List String → Result (Unit {0})
no_arguments [] = ok tt
no_arguments (a ∷ as') = err (failure "unexpected arguments")

abbrev action : CommandName → Config → Action
action trae_api_command c = combined c
action api_command c = api_only c
action auth_command c = auth_only c
action login_command c = login c

-- Only the command without a name checks its arguments.
abbrev validate : CommandName → List String → Result (Unit {0})
validate trae_api_command arguments = no_arguments arguments
validate _ arguments = ok tt

unfoldable pub dispatch : Parsed → Result Action
unfolding command_config
dispatch p = validate p.command p.arguments >> ok (action p.command (command_config p.flags))

-- The configuration of the gateway that an action runs.
unfoldable pub gateway_config : Action → Option Config
gateway_config (combined c) = some c
gateway_config (api_only c) = some c
gateway_config _ = none
