-- ===== src/Login/State.antt =====
-- auth.go: the state of the auth manager, with its credential and its login attempts.
--
-- A time is a count of nanoseconds since the zero Time.
use trae_api.Prelude.{ℕ, String, Bool, true, false, Option, none, some, Assoc}
use trae_api.Fault.{Fault}

-- A private key is named by a text.
pub record Credential : Type 0 where
  pub token : String
  pub refresh_token : String
  pub user_id : String
  pub client_id : String
  pub expires_at : ℕ
  pub refresh_expires_at : ℕ
  pub refresh_pending : Bool
  pub device_id : String
  pub machine_id : String
  pub device_key : String

pub record LoginAttempt : Type 0 where
  pub expires : ℕ
  pub device : String
  pub machine : String
  pub key : String
  pub generation : ℕ

pub data Status : Type 0 where
  pending : Status
  superseded : Status
  expired : Status
  cancelled : Status
  failed : Status
  completed : Status
  durability_uncertain : Status

pub record LoginResult : Type 0 where
  pub status : Status
  pub expires : ℕ

-- What the goroutine that refreshes has read before it let go of the mutex: the channel
-- `refreshing` stands for it.
pub record Flight : Type 0 where
  pub old : Credential
  pub generation : ℕ

pub record AuthManager : Type 0 where
  pub cred : Credential
  pub generation : ℕ
  pub refresh_err : Option Fault
  pub uncertain : Bool
  pub attempts : Assoc String LoginAttempt
  pub callback_url : String
  pub latest_login : String
  pub login_results : Assoc String LoginResult
  pub refreshing : Option Flight
  pub refreshed_at : ℕ
  pub has_store : Bool

abbrev pub is_open : Status → Bool
is_open pending = true
is_open _ = false

abbrev pub is_pending : LoginResult → Bool
is_pending r = is_open r.status

-- result.Status == "pending", where an absent result has no status
abbrev pub awaits : Option LoginResult → Bool
awaits none = false
awaits (some r) = is_pending r

abbrev pub no_credential : Credential
no_credential = record {
  token = "";
  refresh_token = "";
  user_id = "";
  client_id = "";
  expires_at = 0;
  refresh_expires_at = 0;
  refresh_pending = false;
  device_id = "";
  machine_id = "";
  device_key = "";
}
