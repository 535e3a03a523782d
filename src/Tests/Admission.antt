-- ===== src/Tests/Admission.antt =====
-- A request that Auth serves.
use trae_api.Prelude.{text_eq, ◌<>◌, ◌≡◌, refl, ◌↔◌}
use trae_api.Http.{served, local_management_host, same_origin}
use trae_api.AuthService.Routes.{AuthRequest, admit}
use trae_api.AuthService.Routes.Admitted.{Admitted, admit_iff}
use trae_api.Tests.Serving.{net, urls, local}

abbrev pub status_request : AuthRequest
status_request = record {
  request = local;
  remote_addr = "127.0.0.1:50000";
  path = "/api/auth/login/status";
  method = "POST";
}

admits : admit "http://127.0.0.1:8723/authorize" status_request ≡ served
unfolding admit local_management_host same_origin text_eq ◌<>◌
admits = refl

admit_iff_example :
    (admit "http://127.0.0.1:8723/authorize" status_request ≡ served)
    ↔ Admitted "http://127.0.0.1:8723/authorize" status_request
admit_iff_example = admit_iff "http://127.0.0.1:8723/authorize" status_request
