-- ===== src/AuthService/Handlers.antt =====
-- auth_service.go: the requests about a login attempt (attemptRequest, loginStatus, cancelLogin).
use trae_api.Prelude.{
  ℕ, String, ◌==◌, string_eq, Bool, Option, none, some, [], ◌∷◌, ◌⊎◌, inl, inr, if◌then◌else◌,
}
use trae_api.Fault.{ok, err}
use trae_api.Http.Body.{First, Raws, decode_body}
use trae_api.Json.{Codec, text, object_value, first_string}
use trae_api.Login.{Status, AuthManager, login_status, cancel_login}

-- An error with its status, or the status of the attempt with 200.
pub data AttemptReply : Type 0 where
  refused : ℕ → String → AttemptReply
  status_of : Status → AttemptReply

-- The id of the attempt, or the 400 that is answered.
module _ ⦃raws : Raws⦄ ⦃go : Codec⦄ where
  unfoldable pub attempt_request : First → Bool → AttemptReply ⊎ String
  unfolding decode_body
  attempt_request first at_end = elim (decode_body first at_end) [
    | err e ↦ inl (refused 400 "invalid login attempt request")
    | ok (body, raw) ↦
        let id = first_string (object_value (text body)) ("attempt_id" ∷ []) in
        if id == "" then inl (refused 400 "missing attempt_id") else inr id
  ]

  abbrev found : Option Status → AttemptReply
  found none = refused 404 "login attempt not found"
  found (some s) = status_of s

  -- A request that names an attempt is answered by an operation on the manager.
  abbrev answer_attempt :
      (String → AuthManager → Option Status × AuthManager)
      → AttemptReply ⊎ String
      → AuthManager
      → AttemptReply × AuthManager
  answer_attempt operate (inl reply) a = (reply, a)
  answer_attempt operate (inr id) a = let r = operate id a in (found r.0, r.1)

  unfoldable pub status_handler : ℕ → First → Bool → AuthManager → AttemptReply × AuthManager
  unfolding attempt_request login_status
  status_handler now first at_end a =
      answer_attempt (login_status now) (attempt_request first at_end) a

  unfoldable pub cancel_handler : First → Bool → AuthManager → AttemptReply × AuthManager
  unfolding attempt_request cancel_login
  cancel_handler first at_end a = answer_attempt cancel_login (attempt_request first at_end) a
