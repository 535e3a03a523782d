-- ===== src/Fault.antt =====
-- The errors that the gateway tells apart, and the result of a function that may fail: main.go
-- (apiError, statusForError), auth.go (errLoginRequired, errAmbiguousExchange), upstream.go
-- (errCredentialRejected). A `failure` carries the fixed text of a fmt.Errorf or errors.New; the
-- values that the source formats into such a text are left out, since nothing reads them.
use trae_api.Prelude.{ℕ, String, Bool, true, false, ◌≡◌, refl, ◌⊎◌, inl, inr}

pub data Fault : Type 0 where
  -- &apiError{status, message}
  api : ℕ → String → Fault
  login_required : Fault
  credential_rejected : Fault
  ambiguous_exchange : Fault
  cancelled : Fault
  deadline_exceeded : Fault
  -- os.ErrNotExist
  not_exist : Fault
  failure : String → Fault
  -- an index out of range: Go panics
  panic : Fault

pub data Result {ℓ} (A : Type ℓ) : Type ℓ where
  ok : A → Result A
  err : Fault → Result A

-- `if test { return error }`
abbrev pub reject : Bool → Fault → Result (Unit {0})
reject false fault = ok tt
reject true fault = err fault

-- An error skips what comes after it.
infixl 5 ◌>>=◌
abbrev pub ◌>>=◌ {ℓ κ} : {A : Type ℓ} {B : Type κ} → Result A → (A → Result B) → Result B
err fault >>= rest = err fault
ok value >>= rest = rest value

infixl 5 ◌>>◌
abbrev pub ◌>>◌ {ℓ} : {C : Type ℓ} → Result (Unit {0}) → Result C → Result C
test >> rest = test >>= λ done. rest

abbrev pub bad_request : String → Fault
bad_request s = api 400 s

-- main.go statusForError
unfoldable pub status_for_error : Fault → ℕ
status_for_error (api status _) = status
status_for_error login_required = 401
status_for_error deadline_exceeded = 504
status_for_error _ = 502

-- When a chain succeeds, its first part gave a value and the rest succeeds on it.
pub >>=-eq-ok {ℓ κ} :
    {A : Type ℓ} {B : Type κ} (first : Result A) (rest : A → Result B) {last : B}
    → (first >>= rest) ≡ ok last
    → (value : A) × (first ≡ ok value) × (rest value ≡ ok last)
>>=-eq-ok (err fault) rest e = absurd (cc)
>>=-eq-ok (ok value) rest e = (value, refl, e)

pub Result-cases {ℓ} :
    {A : Type ℓ} (m : Result A) → ((e : Fault) × (m ≡ err e)) ⊎ ((a : A) × (m ≡ ok a))
Result-cases (err e) = inl (e, refl)
Result-cases (ok a) = inr (a, refl)

pub >>-eq-ok {ℓ} :
    {B : Type ℓ} (test : Result (Unit {0})) (rest : Result B) {last : B}
    → (test >> rest) ≡ ok last
    → (test ≡ ok tt) × (rest ≡ ok last)
>>-eq-ok (err fault) rest e = absurd (cc)
>>-eq-ok (ok done) rest e = (refl, e)

pub reject-eq-ok :
    (b : Bool) (fault : Fault) {done : Unit {0}} → reject b fault ≡ ok done → b ≡ false
reject-eq-ok true fault e = absurd (cc)
reject-eq-ok false fault e = refl
