-- ===== src/Tests/Logins.antt =====
-- Two logins, the second of which replaces the first.
use trae_api.Prelude.{
  ◌≤◌, true, false, none, some, [], ◌∷◌, ◌≡◌, refl, length, text_eq, insert, lookup, delete, arith,
}
use trae_api.Fault.{ok}
use trae_api.Login.{
  Credential, LoginAttempt, AuthManager, no_credential, Device, begin_login, supersede, make_room,
  claim, published, commit, begin, claimed, finished, cancel, log_out, run,
}
use trae_api.Login.Winner.{begin_login-wins, commit-once}
use trae_api.Login.Capacity.{run-capacity}

abbrev pub idle : AuthManager
idle = record {
  cred = no_credential;
  generation = 0;
  refresh_err = none;
  uncertain = false;
  attempts = [];
  callback_url = "http://127.0.0.1:8765/authorize";
  latest_login = "";
  login_results = [];
  refreshing = none;
  refreshed_at = 0;
  has_store = true;
}

abbrev pub drawn : Device
drawn = record { key = "key"; device = "device"; machine = "machine" }

abbrev attempt : LoginAttempt
attempt = record {
  expires = 600000000000;
  device = "device";
  machine = "machine";
  key = "key";
  generation = 0;
}

abbrev granted : Credential
granted = record no_credential { token = "token"; user_id = "user" }

-- The state after the first login has begun.
abbrev first_begun : AuthManager
first_begun = (begin_login 0 "first" (some drawn) idle).1

second_begins : (begin_login 5 "second" (some drawn) first_begun).0 ≡ ok "second"
unfolding begin_login text_eq
second_begins = refl

begin_login-wins_example :
    commit false 9 "first" attempt granted published
      (run (claimed 7 "first" ∷ []) (begin_login 5 "second" (some drawn) first_begun).1)
    ≡ (false, run (claimed 7 "first" ∷ []) (begin_login 5 "second" (some drawn) first_begun).1)
begin_login-wins_example =
    begin_login-wins 5 "second" (some drawn) first_begun (claimed 7 "first" ∷ []) "first" false 9
      attempt granted published second_begins (λ e. cc) (tt, tt)

abbrev first_claimed : AuthManager
first_claimed = (claim 7 "first" first_begun).1

first_commits : (commit false 9 "first" attempt granted published first_claimed).0 ≡ true
unfolding commit claim begin_login supersede make_room text_eq lookup insert delete
first_commits = refl

commit-once_example :
    commit false 11 "first" attempt granted published (
      run
        (finished "first" ∷ [])
        (commit false 9 "first" attempt granted published first_claimed).1)
    ≡ (
      false,
      run
          (finished "first" ∷ [])
          (commit false 9 "first" attempt granted published first_claimed).1,
    )
commit-once_example =
    commit-once "first" false 9 attempt granted published first_claimed (finished "first" ∷ [])
      false 11 attempt granted published first_commits (tt, tt)

run-capacity_example :
    length (run (begin 0 "first" (some drawn) ∷ cancel "first" ∷ log_out ∷ []) idle).login_results
    ≤ 128
run-capacity_example =
    run-capacity (begin 0 "first" (some drawn) ∷ cancel "first" ∷ log_out ∷ []) idle (omega arith)
