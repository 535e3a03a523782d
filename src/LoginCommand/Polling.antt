-- ===== src/LoginCommand/Polling.antt =====
-- login_cli.go runLogin: when the command reports a success.
use trae_api.Prelude.{
  String, ◌==◌, string_eq, text_eq_iff, Option, none, some, List, [], ◌∷◌, ◌≡◌, text_eq, ◌⊎◌, ◌↔◌,
  inl, inr, refl, ap, ◌∙◌, if◌then◌else◌, Bool-cases,
}
use trae_api.Fault.{Fault, Result, ok, err}
use trae_api.LoginCommand.{
  Fields, get, login_call, login_error, Turn, over, ticked, judge, poll_loop,
}

-- The service was asked until it said "completed", and said "pending" before.
abbrev pub Succeeded : List Turn → Type 0
Succeeded [] = ⊥
Succeeded (over e ∷ turns) = ⊥
Succeeded (ticked reply ∷ turns) =
    (state : Fields) × (login_call reply ≡ ok state)
    × ((get "status" state ≡ "completed") ⊎ ((get "status" state ≡ "pending") × Succeeded turns))

record Verdict (s : String) (m : Option (Result (Unit {0}))) : Type 0 where
  waits : m ≡ none → s ≡ "pending"
  succeeds : m ≡ some (ok tt) → s ≡ "completed"

if-Verdict :
    (s t : String) (x y : Option (Result (Unit {0})))
    → (s ≡ t → Verdict s x)
    → Verdict s y
    → Verdict s (if s == t then x else y)
if-Verdict s t x y p q = elim (Bool-cases (s == t)) [
  | inl e ↦ rw (e) (p ((text_eq_iff s t).0 e))
  | inr e ↦ rw (e) q
]

fails : (s : String) (e : Fault) → Verdict s (some (err e))
fails s e = record { waits = λ q. absurd (cc); succeeds = λ q. absurd (cc) }

judge-Verdict : (s : String) → Verdict s (judge s)
unfolding judge
judge-Verdict s =
    if-Verdict s "completed" _ _ (λ e. record { waits = λ q. absurd (cc); succeeds = λ q. e })
      (if-Verdict s "durability_uncertain" _ _ (λ e. fails s _)
        (if-Verdict s "pending" _ _ (λ e. record { waits = λ q. e; succeeds = λ q. absurd (cc) })
          (if-Verdict s "cancelled" _ _ (λ e. fails s _)
            (if-Verdict s "expired" _ _ (λ e. fails s _)
              (if-Verdict s "superseded" _ _ (λ e. fails s _)
                (if-Verdict s "failed" _ _ (λ e. fails s _) (fails s _)))))))

poll_loop-Succeeded : (turns : List Turn) → poll_loop turns ≡ some (ok tt) → Succeeded turns
unfolding poll_loop
poll_loop-Succeeded [] h = absurd (cc)
poll_loop-Succeeded (over e ∷ turns) h = absurd (cc)
poll_loop-Succeeded (ticked reply ∷ turns) h =
    answered (λ q. poll_loop-Succeeded turns q) (login_call reply) h
  where
    judged :
        (rest : poll_loop turns ≡ some (ok tt) → Succeeded turns) (state : Fields)
        (m : Option (Result (Unit {0})))
        → Verdict (get "status" state) m
        → (elim m as (λ _. Option (Result (Unit {0}))) [ some r ↦ some r | none ↦ poll_loop turns ])
          ≡ some (ok tt)
        → (get "status" state ≡ "completed") ⊎ ((get "status" state ≡ "pending") × Succeeded turns)
    judged rest state none v h = inr (v.waits refl, rest h)
    judged rest state (some r) v h = inl (v.succeeds h)

    answered :
        (rest : poll_loop turns ≡ some (ok tt) → Succeeded turns) (m : Result Fields)
        → (elim m as (λ _. Option (Result (Unit {0}))) [
          | err e ↦ some (err (login_error e))
          | ok state ↦ (elim (judge (get "status" state)) [
            | some r ↦ some r
            | none ↦ poll_loop turns
          ])
        ])
          ≡ some (ok tt)
        → (state : Fields) × (m ≡ ok state)
          × ((get "status" state ≡ "completed")
              ⊎ ((get "status" state ≡ "pending") × Succeeded turns))
    answered rest (err e) h = absurd (cc)
    answered rest (ok state) h = (state, refl, judged rest state _ (judge-Verdict _) h)

judge-completed : judge "completed" ≡ some (ok tt)
unfolding judge text_eq
judge-completed = refl

judge-pending : judge "pending" ≡ none
unfolding judge text_eq
judge-pending = refl

-- A turn of the loop on an answer, given the result of the rest.
turn : Result Fields → Option (Result (Unit {0})) → Option (Result (Unit {0}))
turn m rest = elim m [
  | err e ↦ some (err (login_error e))
  | ok state ↦ (elim (judge (get "status" state)) [ some r ↦ some r | none ↦ rest ])
]

turn-completed :
    (m : Result Fields) (state : Fields) (rest : Option (Result (Unit {0})))
    → m ≡ ok state
    → get "status" state ≡ "completed"
    → turn m rest ≡ some (ok tt)
unfolding turn
turn-completed m state rest e q = rw (e) (
    ap (λ s. elim (judge s) as (λ _. Option (Result (Unit {0}))) [ some r ↦ some r | none ↦ rest ])
      q
    ∙ ap (λ j. elim j as (λ _. Option (Result (Unit {0}))) [ some r ↦ some r | none ↦ rest ])
        judge-completed)

turn-pending :
    (m : Result Fields) (state : Fields) (rest : Option (Result (Unit {0})))
    → m ≡ ok state
    → get "status" state ≡ "pending"
    → turn m rest ≡ rest
unfolding turn
turn-pending m state rest e q = rw (e) (
    ap (λ s. elim (judge s) as (λ _. Option (Result (Unit {0}))) [ some r ↦ some r | none ↦ rest ])
      q
    ∙ ap (λ j. elim j as (λ _. Option (Result (Unit {0}))) [ some r ↦ some r | none ↦ rest ])
        judge-pending)

poll_loop_complete : (turns : List Turn) → Succeeded turns → poll_loop turns ≡ some (ok tt)
unfolding poll_loop turn
poll_loop_complete [] h = absurd h
poll_loop_complete (over e ∷ turns) h = absurd h
poll_loop_complete (ticked reply ∷ turns) (state, e, inl q) =
    turn-completed (login_call reply) state (poll_loop turns) e q
poll_loop_complete (ticked reply ∷ turns) (state, e, inr (q, h)) =
    turn-pending (login_call reply) state (poll_loop turns) e q ∙ poll_loop_complete turns h

-- The loop of the command ends in a success exactly when the service, asked turn after turn, says
-- "pending" until it says "completed", every call is answered, and the context is not done before.
pub poll_loop_iff : (turns : List Turn) → (poll_loop turns ≡ some (ok tt)) ↔ Succeeded turns
poll_loop_iff turns = (poll_loop-Succeeded turns, poll_loop_complete turns)
