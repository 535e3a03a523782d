-- ===== src/Upstream.antt =====
-- upstream.go: the reader of the IDE's event stream. This module has the state; its children have
-- the operations, from the smallest (Snapshot, Event) to the whole stream (Stream), and the proofs.
pub mod Snapshot
pub mod Event
pub mod Calls
pub mod Extract
pub mod Frame
pub mod Stream
pub mod Rules
pub mod View
pub mod Texts
pub mod CallState
pub mod Invariant
pub mod Slots
pub mod Updates
pub mod Kept
pub mod Closing
pub mod Results
use trae_api.Prelude.{
  ℕ, String, Bool, true, false, ◌≡◌, refl, subst, Option-cases, inl, inr, if◌then◌else◌, Option,
  none, some, List, [], ◌∷◌, Assoc,
}
use trae_api.Fault.{Fault, failure, credential_rejected}
use trae_api.Chat.{Function, ToolCall, Message, ChatRequest, Completion}

-- delta
pub record Delta : Type 0 where
  pub text : String
  pub reasoning : String
  pub call : Option ToolCall
  pub index : ℕ
  pub heartbeat : Bool
  pub start : Bool
  pub model : String

abbrev pub blank : Delta
blank = record {
  text = "";
  reasoning = "";
  call = none;
  index = 0;
  heartbeat = false;
  start = false;
  model = "";
}

-- What the reader is given: the random identifiers of newID("call_"), in the order in which they
-- are drawn, and the caller's emit, which may fail. What emit answers may depend on all that was
-- delivered before, newest first. A nil emit is one that never fails.
pub record Host : Type 0 where
  pub new_id : ℕ → String
  pub emit : List Delta → Delta → Option Fault

-- accumulatedCall
pub record AccumulatedCall : Type 0 where
  pub call : ToolCall
  pub sent : Bool
  pub sent_args : String

-- ideAccumulator. `delivered` is what emit has accepted, newest first, and `drawn` the number of
-- identifiers drawn. An absent index is `none` where the source has -1.
pub record Accumulator : Type 0 where
  pub result : Completion
  pub calls : List AccumulatedCall
  pub by_id : Assoc String ℕ
  pub by_index : Assoc ℕ ℕ
  pub request : ChatRequest
  pub terminal : Bool
  pub last_call : ℕ
  pub delivered : List Delta
  pub drawn : ℕ

-- The outcome of an operation on the accumulator: what was written stays written on an error.
pub data Step {ℓ} (S : Type ℓ) : Type ℓ where
  next : S → Step S
  fail : Fault → Accumulator → Step S

infixl 5 ◌>>=◌
abbrev pub ◌>>=◌ {ℓ κ} : {S : Type ℓ} {T : Type κ} → Step S → (S → Step T) → Step T
next s >>= f = f s
fail e a >>= f = fail e a

-- `if x == nil { return error }`
abbrev pub require {ℓ} : {A : Type ℓ} → Option A → Fault → Accumulator → Step A
require none e a = fail e a
require (some x) e a = next x

module _ ⦃host : Host⦄ where
  -- (a *ideAccumulator) send
  unfoldable pub send : Delta → Accumulator → Step Accumulator
  send d a = elim (host.emit a.delivered d) [
    | none ↦ next (record a { delivered = d ∷ a.delivered })
    | some e ↦ fail e a
  ]

abbrev Outcome : {S : Type 0} → (S → Type 0) → (Fault → Type 0) → Step S → Type 0
Outcome P E (next s) = P s
Outcome P E (fail e a) = E e

-- What holds of an outcome: P of the state, or E of the error.
pub record Ensures {S : Type 0} (P : S → Type 0) (E : Fault → Type 0) (m : Step S) : Type 0 where
  pub at : Outcome P E m

module _ {S : Type 0} {P : S → Type 0} {E : Fault → Type 0} where
  pub Ensures-next : {s : S} → P s → Ensures P E (next s)
  Ensures-next h = record { at = h }

  pub Ensures-fail : {e : Fault} {a : Accumulator} → E e → Ensures P E (fail e a)
  Ensures-fail h = record { at = h }

  pub Ensures-if :
      (b : Bool) (m n : Step S)
      → (b ≡ true → Ensures P E m)
      → (b ≡ false → Ensures P E n)
      → Ensures P E (if b then m else n)
  Ensures-if true m n km kn = km refl
  Ensures-if false m n km kn = kn refl

pub Ensures-bind :
    {S T : Type 0} {P : S → Type 0} {Q : T → Type 0} {E : Fault → Type 0} (m : Step S)
    (f : S → Step T)
    → Ensures P E m
    → ((s : S) → P s → Ensures Q E (f s))
    → Ensures Q E (m >>= f)
Ensures-bind (next s) f h k = k s h.at
Ensures-bind (fail e a) f h k = record { at = h.at }

pub Ensures-require :
    {A T : Type 0} {Q : T → Type 0} {E : Fault → Type 0} (o : Option A) (e : Fault)
    (a : Accumulator) (f : A → Step T)
    → E e
    → ((x : A) → o ≡ some x → Ensures Q E (f x))
    → Ensures Q E (require o e a >>= f)
Ensures-require none e a f h k = record { at = h }
Ensures-require (some x) e a f h k = k x refl

pub Ensures-found :
    {A T : Type 0} {Q : T → Type 0} {E : Fault → Type 0} (o : Option A) (e : Fault)
    (a : Accumulator) (f : A → Step T) {x : A}
    → o ≡ some x
    → Ensures Q E (f x)
    → Ensures Q E (require o e a >>= f)
Ensures-found none e a f q h = absurd (cc)
Ensures-found {Q} {E} (some y) e a f {x} q h =
    let p : x ≡ y = cc in subst (λ z. Ensures Q E (f z)) p h

-- What an outcome that succeeds says.
pub Ensures-eq_next :
    {S : Type 0} {P : S → Type 0} {E : Fault → Type 0} (m : Step S) {s : S}
    → Ensures P E m
    → m ≡ next s
    → P s
Ensures-eq_next {P} (next t) {s} h e = let q : t ≡ s = cc in subst P q h.at
Ensures-eq_next (fail x a) h e = absurd (cc)

pub Ensures-eq_fail :
    {S : Type 0} {P : S → Type 0} {E : Fault → Type 0} (m : Step S) {e : Fault} {a : Accumulator}
    → Ensures P E m
    → m ≡ fail e a
    → E e
Ensures-eq_fail (next t) h q = absurd (cc)
Ensures-eq_fail {E} (fail x b) {e} h q = let p : x ≡ e = cc in subst E p h.at

pub ruleset ensures_rules = (Ensures-next, Ensures-fail, Ensures-if, Ensures-bind, Ensures-require)

-- What the errors of a stream satisfy, those of emit included.
pub record Faults ⦃host : Host⦄ (E : Fault → Type 0) : Type 0 where
  pub failed : (s : String) → E (failure s)
  pub rejected : E credential_rejected
  pub emitted : (ds : List Delta) (d : Delta) (e : Fault) → host.emit ds d ≡ some e → E e

-- An error of emit, or the delta is delivered.
pub Ensures-send :
    ⦃host : Host⦄ {P : Accumulator → Type 0} {E : Fault → Type 0}
    → Faults E
    → (d : Delta) (a : Accumulator) → P (record a { delivered = d ∷ a.delivered })
    → Ensures P E (send d a)
unfolding send
Ensures-send ⦃host⦄ faults d a h = elim (Option-cases (host.emit a.delivered d)) [
  | inl e ↦ rw (e, send) (Ensures-next h)
  | inr (x, e) ↦ rw (e, send) (Ensures-fail (faults.emitted _ _ x e))
]
