-- ===== src/Login/Link.antt =====
-- auth.go beginLogin: the authorization link, whose query carries the id of the attempt.
pub mod Query
use trae_api.Prelude.{ℕ, String, string_eq, List, [], ◌∷◌, Assoc, insert, lookup, or_else}
use trae_api.Login.{Device}

-- What config.go says of the client.
pub record ClientConfig : Type 0 where
  pub client_id : String
  pub ide_version : String

-- The values, in the order of the source; the keys differ, so that the order does not matter.
unfoldable pub link_values : ClientConfig → String → String → Device → Assoc String String
link_values cfg callback_url state d =
    ("login_version", "1")
    ∷ ("auth_from", "solo")
    ∷ ("login_channel", "native_ide")
    ∷ ("plugin_version", "2.3.24254")
    ∷ ("auth_type", "local")
    ∷ ("client_id", cfg.client_id)
    ∷ ("redirect", "0")
    ∷ ("login_trace_id", state)
    ∷ ("auth_callback_url", callback_url)
    ∷ ("machine_id", d.machine)
    ∷ ("device_id", d.device)
    ∷ ("x_device_id", d.device)
    ∷ ("x_machine_id", d.machine)
    ∷ ("x_device_brand", "ASUS TUF Gaming A15 FA507RM_FA507RM")
    ∷ ("x_device_type", "windows")
    ∷ ("x_os_version", "Windows 10 Pro")
    ∷ ("x_env", "")
    ∷ ("x_app_version", cfg.ide_version)
    ∷ ("x_app_type", "stable")
    ∷ ("hide_saas_login", "true")
    ∷ []

-- The loop of q.Set over the values.
unfoldable pub set_all : Assoc String String → Assoc String String → Assoc String String
set_all [] q = q
set_all ((k, v) ∷ values) q = set_all values (insert k v q)

-- The query of the link, over that of the configured URL.
unfoldable pub link_query :
    ClientConfig → String → String → Device → Assoc String String → Assoc String String
unfolding link_values set_all
link_query cfg callback_url state d q = set_all (link_values cfg callback_url state d) q

-- q.Get
abbrev pub get : String → Assoc String String → String
get k q = or_else (lookup k q) ""
