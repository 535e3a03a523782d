-- ===== src/Server/Gateway.antt =====
-- main.go: the life of the API gateway (newServer, listenAPI, shutdown, shutdownHTTP, runCurrent), and
-- runAPIOnly of coordinator.go.
use trae_api.Prelude.{String, Bool, true, false, Option, none, some, List, [], ◌∷◌, if◌then◌else◌}
use trae_api.Fault.{Fault, Result, ok, err, ◌>>◌}
use trae_api.Server.Config.{Net, Config, validate_api_config}
use trae_api.Server.Lifecycle.{Stop, ended, signalled, wait_for_http}

-- `stopped` is whether the work of shutdown, which is done once, is done.
pub record Gateway : Type 0 where
  pub cfg : Config
  pub cancelled : Bool
  pub idle_closed : Bool
  pub stopped : Bool

unfoldable pub new_server : Config → Gateway
new_server cfg = record { cfg = cfg; cancelled = false; idle_closed = false; stopped = false }

unfoldable pub shutdown : Gateway → Gateway
shutdown g =
    if g.stopped then g else record g { cancelled = true; idle_closed = true; stopped = true }

-- The streams are cancelled before the server waits for its requests. `shut` is what Shutdown of
-- net/http gives; after an error the server is closed, whatever Close gives.
unfoldable pub shutdown_http : Option Fault → Gateway → Option Fault × Gateway
unfolding shutdown
shutdown_http shut g = (shut, shutdown g)

-- The gateway when serving has ended.
abbrev after_stop : Stop → Gateway → Gateway
after_stop (ended e) g = g
after_stop (signalled shut e) g = (shutdown_http shut g).1

-- What runCurrent has done: the address that it listened on, its errors, and the gateway it leaves.
pub record Served : Type 0 where
  pub listened : Option String
  pub faults : List Fault
  pub gateway : Gateway

module _ ⦃net : Net⦄ where
  -- `bind` is what net.Listen gives for an address.
  unfoldable pub listen_api : (String → Result (Unit {0})) → Gateway → Result (Unit {0})
  unfolding validate_api_config
  listen_api bind g = validate_api_config g.cfg >> bind g.cfg.addr

  unfoldable pub run_current : (String → Result (Unit {0})) → Stop → Config → Served
  unfolding new_server listen_api shutdown shutdown_http wait_for_http
  run_current bind stop cfg =
      let g = new_server cfg in
      elim (listen_api bind g) as (λ _. Served) [
        | err e ↦ record { listened = none; faults = e ∷ []; gateway = shutdown g }
        | ok _ ↦ record {
          listened = some cfg.addr;
          faults = wait_for_http stop;
          gateway = shutdown (after_stop stop g);
        }
      ]
