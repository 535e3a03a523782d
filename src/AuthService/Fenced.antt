-- ===== src/AuthService/Fenced.antt =====
-- auth_service.go and auth.go get: the mark of a pending refresh outlives the process.
use trae_api.Prelude.{string_eq}
