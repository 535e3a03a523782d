-- ===== src/AuthService.antt =====
-- auth_service.go: the start of the Auth service, the start of a login, and when the refresh loop asks
-- for a credential (newAuthService, startLogin, refreshIfNeeded), with newAuthManager of auth.go.
pub mod Fenced
pub mod Handlers
pub mod Routes
pub mod Running
use trae_api.Prelude.{
  ℕ, ◌+◌, ◌*◌, String, ◌==◌, string_eq, Bool, true, false, not, ◌&&◌, ◌||◌, Option, none, some, [],
  if◌then◌else◌, ltb, is_some,
}
use trae_api.Fault.{Fault, failure, ambiguous_exchange, Result, ok, err, ◌>>◌}
use trae_api.Server.Config.{Net, is_loopback}
use trae_api.Store.{Calls, Disk, is_not_exist}
use trae_api.Store.Codec.{Encoding}
use trae_api.Store.Read.{load}
use trae_api.Store.Owner.{open_credential_store, close_store}
use trae_api.Login.{Credential, AuthManager, Device, no_credential, begin_login}
use trae_api.Refresh.{minute, Entered, enter}

unfoldable pub new_auth_manager : AuthManager
new_auth_manager = record {
  cred = no_credential;
  generation = 0;
  refresh_err = none;
  uncertain = false;
  attempts = [];
  callback_url = "";
  latest_login = "";
  login_results = [];
  refreshing = none;
  refreshed_at = 0;
  has_store = false;
}

-- The credential that the store holds is taken over; a store without one is no error.
unfoldable pub adopt : Result Credential → Result AuthManager
unfolding new_auth_manager
adopt (ok saved) = ok (record new_auth_manager {
  cred = saved;
  refresh_err = if saved.refresh_pending then some ambiguous_exchange else none;
  has_store = true;
})
adopt (err e) = if is_not_exist e then ok (record new_auth_manager { has_store = true }) else err e

-- The address, "" for the default one.
unfoldable pub auth_addr : String → String
auth_addr addr = if addr == "" then "127.0.0.1:8765" else addr

module _ ⦃net : Net⦄ where
  unfoldable pub is_auth_addr : String → Bool
  is_auth_addr addr = elim (net.split_host_port addr) [
    | none ↦ false
    | some (host, port) ↦
        not (host == "") && (host == "localhost" || is_loopback (net.parse_ip host))
  ]

module _ ⦃net : Net⦄ ⦃go : Encoding⦄ where
  -- A failure after the store was opened closes it.
  unfoldable pub new_auth_service :
      Calls → Calls → Calls → Calls → String → String → Disk → Result AuthManager × Disk
  unfolding is_auth_addr adopt auth_addr
  new_auth_service opening inner loading closing addr path disk =
      if not (is_auth_addr (auth_addr addr))
      then (err (failure "Auth address must be a loopback host:port"), disk)
      else (let opened = open_credential_store opening inner path disk in
          elim opened.0 [
            | err e ↦ (err e, opened.1)
            | ok _ ↦ (elim (adopt (load loading path opened.1)) [
              | err e ↦ (err e, (close_store closing true path opened.1).1)
              | ok m ↦ (ok m, opened.1)
            ])
          ])

-- What startLogin answers: the id that the link carries, when a login has begun.
pub data StartedLogin : Type 0 where
  already_logged_in : StartedLogin
  unavailable : StartedLogin
  pending : String → StartedLogin

abbrev is_logged_in : ℕ → AuthManager → Bool
is_logged_in now a =
    not (a.cred.token == "")
    && not (is_some a.refresh_err)
    && not a.uncertain
    && ltb now a.cred.expires_at

unfoldable pub start_login : ℕ → String → Option Device → AuthManager → StartedLogin × AuthManager
unfolding begin_login
start_login now state drawn a =
    let begun = begin_login now state drawn a in
    if is_logged_in now a
    then (already_logged_in, a)
    else ((elim begun.0 [ err e ↦ unavailable | ok id ↦ pending id ]), begun.1)

-- The first part of refreshIfNeeded: whether it calls `get`, and what `get` does first.
unfoldable pub refresh_if_needed :
    ℕ → Result (Unit {0}) → AuthManager → Option Entered × AuthManager
unfolding enter
refresh_if_needed now fence a =
    let entered = enter now fence a in
    if a.cred.token == "" || ltb (now + 2 * minute) a.cred.expires_at || is_some a.refresh_err
    then (none, a)
    else (some entered.0, entered.1)
