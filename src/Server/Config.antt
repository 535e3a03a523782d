-- ===== src/Server/Config.antt =====
-- main.go: the configuration, and the check of the address to listen on (config, defaultConfig,
-- isLoopbackAddr, validateAPIConfig). Durations are nanoseconds.
use trae_api.Prelude.{
  ℕ, ◌*◌, ℤ, pos, negsuc, String, ◌==◌, string_eq, Bool, true, false, not, ◌&&◌, ◌||◌, Option, none,
  some, ltb,
}
use trae_api.Fault.{failure, Result, err, ◌>>◌, reject}

-- What package net and strconv are used for.
pub record Net : Type 0 where
  -- net.SplitHostPort
  pub split_host_port : String → Option (String × String)
  -- strconv.Atoi
  pub atoi : String → Option ℤ
  -- net.ParseIP, and IsLoopback of what it gives
  pub parse_ip : String → Option Bool

pub record Config : Type 0 where
  pub addr : String
  pub auth_addr : String
  pub api_token : String
  pub base_url : String
  pub auth_base_url : String
  pub auth_url : String
  pub client_id : String
  pub ide_version : String
  pub ide_version_code : String
  pub max_concurrent : ℕ
  pub queue_timeout : ℕ
  pub request_timeout : ℕ
  pub shutdown_timeout : ℕ

abbrev second : ℕ
second = 1000000000

unfoldable pub default_config : Config
default_config = record {
  addr = "127.0.0.1:8723";
  auth_addr = "127.0.0.1:8765";
  api_token = "";
  base_url = "https://trae-api-cn.mchost.guru";
  auth_base_url = "https://api.trae.cn";
  auth_url = "https://www.trae.cn/authorization";
  client_id = "ono9krqynydwx5";
  ide_version = "3.3.65";
  ide_version_code = "20260401";
  max_concurrent = 2;
  queue_timeout = 60 * second;
  request_timeout = 300 * second;
  shutdown_timeout = 30 * second;
}

abbrev pub is_loopback : Option Bool → Bool
is_loopback none = false
is_loopback (some b) = b

abbrev bad_port : Option ℤ → Bool
bad_port none = true
bad_port (some (negsuc n)) = true
bad_port (some (pos n)) = ltb 65535 n

abbrev is_missing : Option Bool → Bool
is_missing none = true
is_missing (some b) = false

module _ ⦃net : Net⦄ where
  unfoldable pub is_loopback_addr : String → Bool
  is_loopback_addr addr = elim (net.split_host_port addr) [
    | none ↦ false
    | some (host, port) ↦ host == "localhost" || is_loopback (net.parse_ip host)
  ]

  unfoldable pub validate_api_config : Config → Result (Unit {0})
  unfolding is_loopback_addr
  validate_api_config c = elim (net.split_host_port c.addr) [
    | none ↦ err (failure "API address must be host:port with port 0..65535")
    | some (host, port) ↦
        reject (bad_port (net.atoi port))
          (failure "API address must be host:port with port 0..65535")
        >> reject (not (host == "") && not (host == "localhost") && is_missing (net.parse_ip host))
            (failure "API address must use localhost or a literal IP")
        >> reject (not (is_loopback_addr c.addr) && c.api_token == "")
            (failure "TRAE_API_TOKEN is required for non-loopback listening")
  ]
