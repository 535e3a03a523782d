-- ===== src/Tests/Running.antt =====
-- The Auth service from its start to the end of Run.
use trae_api.Prelude.{
  ◌==◌, string_eq, text_eq, true, false, none, some, [], ◌≡◌, refl, ap, sym, if◌then◌else◌,
}
use trae_api.Fault.{failure, ok, err}
use trae_api.Http.{Urls, Url, denied}
use trae_api.Login.{begin_login}
use trae_api.Store.{lock_path, Calls, private}
use trae_api.AuthService.{new_auth_manager}
use trae_api.AuthService.Routes.{admit}
use trae_api.AuthService.Running.{AuthService, loopback, Closing, asked, run_service}
use trae_api.AuthService.Running.Closed.{run_service-closed}
use trae_api.Tests.Admission.{status_request}
use trae_api.Tests.Serving.{net}

abbrev nowhere : Url
nowhere = record {
  host = "";
  has_user = false;
  path = "";
  raw_query = "";
  fragment = "";
  hostname = "";
}

instance abbrev urls : Urls
urls = record {
  parse = λ s.
      if s == ""
      then some nowhere
      else some (record nowhere { host = "127.0.0.1:8765"; hostname = "127.0.0.1" });
  equal_fold = text_eq;
}

abbrev quiet : Calls
quiet = record {
  lstat = none;
  made = ok private;
  open_file = none;
  stat = none;
  read = none;
  create_temp = none;
  chmod = none;
  write = none;
  sync = none;
  close = none;
  remove = none;
  rename = none;
  open_dir = none;
  sync_dir = none;
  random = none;
  lock = none;
}

abbrev service : AuthService
service = record {
  manager = new_auth_manager;
  has_listener = false;
  has_http = false;
  cancelled = false;
  held = true;
  store_path = "auth";
  disk = record { directory = private; files = []; locked = λ p. p == "auth.lock" };
  down = false;
  shutdown_err = [];
}

abbrev closing : Closing
closing = record { http = none; listener = none; store = quiet }

hostless : (u : Url) → urls.parse "" ≡ some u → u.host ≡ ""
unfolding text_eq
hostless u h = let q : nowhere ≡ u = cc in ap (λ z. z.host) (sym q)

run_service-closed_example :
    ((run_service
          (loopback "127.0.0.1:8765")
          (λ a. a)
          (asked none none none)
          closing
          service).1.disk.locked
        (lock_path "auth")
      ≡ false)
    × (admit
          (run_service
            (loopback "127.0.0.1:8765")
            (λ a. a)
            (asked none none none)
            closing
            service).1.manager.callback_url
          status_request
        ≡ denied 403 "non-local Auth request denied")
    × ((begin_login 5 "login" none
          (run_service
            (loopback "127.0.0.1:8765")
            (λ a. a)
            (asked none none none)
            closing
            service).1.manager).0
        ≡ err (failure "authorization callback listener is unavailable"))
run_service-closed_example =
    run_service-closed (loopback "127.0.0.1:8765") (λ a. a) (asked none none none) closing service
      status_request 5 "login" none refl refl hostless
