-- ===== src/Http.antt =====
-- http.go: who may call the gateway (authMiddleware, localManagementHost, sameOrigin), and the status
-- and type of an error. The children have the body of a request, the stream of events that answers it,
-- and the handler of a chat.
--
-- net/url and net are the records Urls and Net.
pub mod Errors
pub mod Guarded
pub mod Body
pub mod Sink
pub mod Usage
pub mod Chat
pub mod ModelList
use trae_api.Prelude.{
  ℕ, String, ◌==◌, ◌<>◌, string_eq, Bool, true, false, not, ◌&&◌, ◌||◌, Option, none, some,
  if◌then◌else◌, eqb,
}
use trae_api.Fault.{Fault, status_for_error}
use trae_api.Server.Config.{Net, is_loopback}

pub record Url : Type 0 where
  pub host : String
  pub has_user : Bool
  pub path : String
  pub raw_query : String
  pub fragment : String
  -- Hostname()
  pub hostname : String

pub record Urls : Type 0 where
  pub parse : String → Option Url
  -- strings.EqualFold
  pub equal_fold : String → String → Bool

-- The parts of an http.Request that the middleware reads; an absent header is the empty text.
pub record Request : Type 0 where
  pub host : String
  pub origin : String
  pub sec_fetch_site : String
  pub authorization : String

unfoldable pub same_origin : Request → Bool
same_origin r =
    if r.origin == ""
    then not (r.sec_fetch_site == "cross-site")
    else r.origin == "http://" <> r.host || r.origin == "https://" <> r.host

-- What becomes of a request before the handlers.
pub data Admission : Type 0 where
  denied : ℕ → String → Admission
  served : Admission

module _ ⦃net : Net⦄ ⦃urls : Urls⦄ where
  unfoldable pub local_management_host : String → Bool
  local_management_host host = elim (urls.parse ("http://" <> host)) [
    | none ↦ false
    | some u ↦
        if not (u.host == host)
          || u.has_user
          || not (u.path == "")
          || not (u.raw_query == "")
          || not (u.fragment == "")
        then false
        else urls.equal_fold u.hostname "localhost" || is_loopback (net.parse_ip u.hostname)
  ]

  unfoldable pub auth_middleware : String → Request → Admission
  unfolding local_management_host same_origin
  auth_middleware token r =
      if token == "" && (not (local_management_host r.host) || not (same_origin r))
      then denied 403 "non-local or cross-origin management request denied"
      else if token == "" || r.authorization == "Bearer " <> token
      then served
      else denied 401 "invalid API token"

-- The type of the error in the body that writeError sends.
unfoldable pub error_type : ℕ → String
error_type status =
    if eqb status 401
    then "authentication_error"
    else if eqb status 400
    then "invalid_request_error"
    else "server_error"
