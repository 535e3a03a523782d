-- ===== src/Login/Capacity.antt =====
-- auth.go beginLogin: how many results of login attempts are kept.
use trae_api.Prelude.{
  ℕ, ◌+◌, ◌≤◌, ◌<◌, String, ◌==◌, string_eq, text_eq_refl, text_eq, ap, Bool, true, false, ◌||◌,
  Option, none, some, List, [], ◌∷◌, ◌≡◌, refl, sym, subst, ◌⊎◌, inl, inr, if◌then◌else◌, ltb, leb,
  is_some, Assoc, lookup, length, arith, Bool-cases, Option-cases, length-insert-le,
  length-insert_present, length-delete_present,
}
use trae_api.Login.{
  Credential, Status, failed, expired, cancelled, completed, durability_uncertain, LoginResult,
  AuthManager, supersede, make_room, oldest_login, Device, begin_login, claim, set_status, publish,
  refused, published, unconfirmed, commit, finish_login, login_status, cancel_login, logout, Event,
  begin, claimed, committed, finished, asked, cancel, log_out, step, run,
}
use trae_api.Login.Settled.{claim-same}

abbrev Results : Type 0
Results = Assoc String LoginResult

length-supersede-le : (now : ℕ) (rs : Results) → length (supersede now rs) ≤ length rs
unfolding supersede
length-supersede-le now [] = omega arith
length-supersede-le now ((id, r) ∷ rs) = ground (arith, length-supersede-le now rs)

here : (id : String) (r : LoginResult) (rs : Results) → is_some (lookup id ((id, r) ∷ rs)) ≡ true
unfolding lookup
here id r rs = ground (arith, text_eq_refl id)

later :
    (j id : String) (r : LoginResult) (rs : Results)
    → is_some (lookup j rs) ≡ true
    → is_some (lookup j ((id, r) ∷ rs)) ≡ true
unfolding lookup
later j id r rs h = ground arith

-- The result that the search ends with is the one it starts with or one of the list.
oldest_login-found :
    (b : String × ℕ) (rs : Results)
    → ((oldest_login b rs).0 ≡ b.0) ⊎ (is_some (lookup (oldest_login b rs).0 rs) ≡ true)
unfolding oldest_login
oldest_login-found b [] = inl refl
oldest_login-found b ((id, r) ∷ rs) = elim (Bool-cases (b.0 == "" || ltb r.expires b.1)) [
  | inl t ↦
      rw (t, oldest_login)
        (inr (elim (oldest_login-found (id, r.expires) rs) [
          | inl q ↦ subst (λ j. is_some (lookup j ((id, r) ∷ rs)) ≡ true) (sym q) (here id r rs)
          | inr h ↦ later _ id r rs h
        ]))
  | inr t ↦
      rw (t, oldest_login)
        (elim (oldest_login-found b rs) [ inl q ↦ inl q | inr h ↦ inr (later _ id r rs h) ])
]

oldest_login-present :
    (rs : Results) → 0 < length rs → is_some (lookup (oldest_login ("", 0) rs).0 rs) ≡ true
unfolding oldest_login text_eq
oldest_login-present [] h = absurd (omega arith)
oldest_login-present ((id, r) ∷ rs) h = elim (oldest_login-found (id, r.expires) rs) [
  | inl q ↦ subst (λ j. is_some (lookup j ((id, r) ∷ rs)) ≡ true) (sym q) (here id r rs)
  | inr i ↦ later _ id r rs i
]

make_room-length : (rs : Results) → length rs ≤ 128 → length (make_room rs) + 1 ≤ 128
unfolding make_room
make_room-length rs h = elim (Bool-cases (leb 128 (length rs))) [
  | inl t ↦ rw t (
      omega (
        arith,
        length-delete_present (oldest_login ("", 0) rs).0 rs
            (oldest_login-present rs (ground arith)),
        h,
      ))
  | inr t ↦ rw t (ground arith)
]

begin_login-small :
    (now : ℕ) (state : String) (drawn : Option Device) (a : AuthManager)
    → length a.login_results ≤ 128
    → length (begin_login now state drawn a).1.login_results ≤ 128
unfolding begin_login
begin_login-small now state none a h = ground (
  arith,
  make_room-length (supersede now a.login_results),
  length-supersede-le now a.login_results,
)
begin_login-small now state (some d) a h = elim (Bool-cases (a.callback_url == "")) [
  | inl t ↦ rw (t, begin_login) h
  | inr t ↦
      rw (t, begin_login)
        (omega (
          arith,
          length-insert-le state _ (make_room (supersede now a.login_results)),
          make_room-length (supersede now a.login_results)
              (omega (arith, h, length-supersede-le now a.login_results)),
        ))
]

length-set_status :
    (id : String) (s : Status) (a : AuthManager)
    → length (set_status id s a).login_results ≡ length a.login_results
length-set_status id s a = elim (Option-cases (lookup id a.login_results)) [
  | inl t ↦ rw (t, set_status) refl
  | inr (r, t) ↦ rw (t, set_status) (length-insert_present id _ a.login_results (rw t refl))
]

publish-small :
    (c : Credential) (state : String) (unsure : Bool) (a : AuthManager)
    → length a.login_results ≤ 128
    → length (publish c state unsure a).login_results ≤ 128
publish-small c state true a h = omega (arith, h, length-set_status state durability_uncertain _)
publish-small c state false a h = omega (arith, h, length-set_status state completed _)

small-if :
    (b : Bool) (x y : Bool × AuthManager)
    → length x.1.login_results ≤ 128
    → length y.1.login_results ≤ 128
    → length (if b then x else y).1.login_results ≤ 128
small-if true x y h i = h
small-if false x y h i = i

step-small :
    (e : Event) (a : AuthManager)
    → length a.login_results ≤ 128
    → length (step e a).login_results ≤ 128
unfolding step claim commit finish_login login_status cancel_login logout
step-small (begin now state drawn) a h = begin_login-small now state drawn a h
step-small (claimed now state) a h = omega (arith, h, ap length (claim-same now state a))
step-small (committed done now state p c refused) a h = ground (arith, h)
step-small (committed done now state p c published) a h =
    small-if _ (false, a) (true, publish c state false a) h (publish-small c state false a h)
step-small (committed done now state p c unconfirmed) a h =
    small-if _ (false, a) (true, publish c state true a) h (publish-small c state true a h)
step-small (finished id) a h = ground (arith, h, length-set_status id failed a)
step-small (asked now id) a h = ground (arith, h, length-set_status id expired a)
step-small (cancel id) a h = ground (arith, h, length-set_status id cancelled a)
step-small log_out a h = h

-- No run of the operations keeps more than 128 results of login attempts, if there were no more.
pub run-capacity :
    (es : List Event) (a : AuthManager)
    → length a.login_results ≤ 128
    → length (run es a).login_results ≤ 128
unfolding run
run-capacity [] a h = h
run-capacity (e ∷ es) a h = run-capacity es (step e a) (step-small e a h)
