-- ===== src/AuthService/Routes.antt =====
-- auth_service.go: whom the handlers of Auth serve (routes). `callback` is the URL that listen has set,
-- "" when Auth does not listen.
pub mod Admitted
use trae_api.Prelude.{
  ℕ, String, ◌==◌, string_eq, Bool, true, false, not, ◌&&◌, ◌||◌, Option, none, some, if◌then◌else◌,
}
use trae_api.Server.Config.{Net, is_loopback}
use trae_api.Http.{
  Urls, Url, Request, Admission, denied, served, local_management_host, same_origin,
}

pub record AuthRequest : Type 0 where
  pub request : Request
  pub remote_addr : String
  -- r.URL.EscapedPath()
  pub path : String
  pub method : String

module _ ⦃net : Net⦄ ⦃urls : Urls⦄ where
  -- The peer, RemoteAddr without its port, is a loopback address.
  abbrev pub is_local_peer : String → Bool
  is_local_peer addr = elim (net.split_host_port addr) [
    | none ↦ false
    | some (peer, port) ↦ is_loopback (net.parse_ip peer)
  ]

  abbrev pub is_callback_host : String → String → Bool
  is_callback_host callback host = elim (urls.parse callback) [
    | none ↦ false
    | some u ↦ not (u.host == "") && host == u.host
  ]

  unfoldable pub admit : String → AuthRequest → Admission
  unfolding local_management_host same_origin
  admit callback r =
      let authorize = r.path == "/authorize" in
      if not (is_callback_host callback r.request.host)
        || not (local_management_host r.request.host)
        || not (is_local_peer r.remote_addr)
        || authorize && not (r.method == "GET")
      then denied 403 "non-local Auth request denied"
      else if not authorize && not (same_origin r.request)
      then denied 403 "cross-origin management request denied"
      else served
