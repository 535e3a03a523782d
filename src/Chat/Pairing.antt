-- ===== src/Chat/Pairing.antt =====
-- types.go validateToolHistory: in a history that is accepted, calls and results pair up.
use mathlib.Core.List.{append-nil}
use trae_api.Prelude.{
  ℕ, ◌+◌, ◌≤◌, String, ◌==◌, string_eq, Bool, true, false, not, List, [], ◌∷◌, ◌++◌, if◌then◌else◌,
  ◌≡◌, ◌≢◌, refl, arith, text_eq_iff, Bool-cases, inl, inr, sym, subst,
}
use trae_api.Fault.{Fault, Result, ok, ◌>>=◌, reject, >>=-eq-ok}
use trae_api.Chat.{Message, ToolCall}
use trae_api.Chat.Validate.{is_empty}
use trae_api.Chat.History.{has, without, with_key, add_calls, check_history, validate_tool_history}

-- How often a text occurs among the ids of some calls, among the ids that the tool results of a
-- history name, and among the ids of the calls that its other messages make.
abbrev pub calls_of : String → List ToolCall → ℕ
calls_of k [] = 0
calls_of k (c ∷ cs) = (if c.id == k then 1 else 0) + calls_of k cs

abbrev pub results : String → List Message → ℕ
results k [] = 0
results k (m ∷ ms) =
    (if m.role == "tool" then (if m.tool_call_id == k then 1 else 0) else 0) + results k ms

abbrev pub calls : String → List Message → ℕ
calls k [] = 0
calls k (m ∷ ms) = (if m.role == "tool" then 0 else calls_of k m.tool_calls) + calls k ms

abbrev held : String → List String → ℕ
held k xs = if has k xs then 1 else 0

has-without :
    (k j : String) (xs : List String) → has k (without j xs) ≡ (if j == k then false else has k xs)
unfolding has without
has-without k j [] = ground arith
has-without k j (x ∷ xs) =
    ground (arith, text_eq_iff x j, text_eq_iff x k, text_eq_iff j k, has-without k j xs)

has-with_key :
    (k j : String) (xs : List String) → has k (with_key j xs) ≡ (if j == k then true else has k xs)
unfolding has with_key
has-with_key k j xs = ground (arith, text_eq_iff j k)

-- Every pending call has been seen.
abbrev Sub : List String → List String → Type 0
Sub p s = (k : String) → has k p ≡ true → has k s ≡ true

reject-ok :
    (b : Bool) (e : Fault) {A : Type 0} {m : Result A} {x : A}
    → (reject b e >>= λ _. m) ≡ ok x
    → (b ≡ false) × (m ≡ ok x)
reject-ok true e h = absurd (cc)
reject-ok false e h = (refl, h)

record After (count : String → ℕ) (answered : String → ℕ) (p s p' s' : List String) : Type 0 where
  sub : Sub p' s'
  open_calls : (k : String) → held k p' + answered k ≡ held k p + count k
  all_seen : (k : String) → held k s' ≡ held k s + count k

After-refl : (p s : List String) → Sub p s → After (λ _. 0) (λ _. 0) p s p s
After-refl p s sub = record {
  sub = sub;
  open_calls = λ k. omega arith;
  all_seen = λ k. omega arith;
}

add_calls-After :
    (cs : List ToolCall) (p s : List String) (q : List String × List String)
    → Sub p s
    → add_calls cs p s ≡ ok q
    → After (λ k. calls_of k cs) (λ _. 0) p s q.0 q.1
unfolding add_calls
add_calls-After [] p s q sub h =
    let e : (p, s) ≡ q = cc in
    subst (λ (x : List String × List String). After (λ _. 0) (λ _. 0) p s x.0 x.1) e
      (After-refl p s sub)
add_calls-After (c ∷ cs) p s q sub h =
    let fresh = reject-ok (has c.id s) _ h in
    let rest =
      add_calls-After cs (with_key c.id p) (with_key c.id s) q
        (λ k. ground (arith, has-with_key k c.id p, has-with_key k c.id s, sub k)) fresh.1 in
    record {
      sub = rest.sub;
      open_calls = λ k.
          ground
            (arith, rest.open_calls k, has-with_key k c.id p, text_eq_iff c.id k, sub k, fresh.0);
      all_seen =
          λ k. ground (arith, rest.all_seen k, has-with_key k c.id s, text_eq_iff c.id k, fresh.0);
    }

-- Where the loop stands after the messages `xs`.
Reached : List Message → List Message → List String → List String → Type 0
Reached xs ys p s =
    (q : List String × List String) × (check_history ys q.0 q.1 ≡ ok tt)
    × After (λ k. calls k xs) (λ k. results k xs) p s q.0 q.1

result-Reached :
    (m : Message) (xs ys : List Message) (p s : List String)
    → (m.role == "tool") ≡ true
    → has m.tool_call_id p ≡ true
    → Reached xs ys (without m.tool_call_id p) s
    → Reached (m ∷ xs) ys p s
unfolding Reached
result-Reached m xs ys p s t h (q, e, r) = (
  q,
  e,
  record {
    sub = r.sub;
    open_calls = λ k.
        ground (
          arith,
          r.open_calls k,
          has-without k m.tool_call_id p,
          text_eq_iff m.tool_call_id k,
          t,
          h,
        );
    all_seen = λ k. ground (arith, r.all_seen k, t);
  },
)

message-Reached :
    (m : Message) (xs ys : List Message) (p s : List String) (u : List String × List String)
    → (m.role == "tool") ≡ false
    → After (λ k. calls_of k m.tool_calls) (λ _. 0) p s u.0 u.1
    → Reached xs ys u.0 u.1
    → Reached (m ∷ xs) ys p s
unfolding Reached
message-Reached m xs ys p s u t a (q, e, r) = (
  q,
  e,
  record {
    sub = r.sub;
    open_calls = λ k. ground (arith, r.open_calls k, a.open_calls k, t);
    all_seen = λ k. ground (arith, r.all_seen k, a.all_seen k, t);
  },
)

Reached-refl :
    (ys : List Message) (p s : List String)
    → Sub p s
    → check_history ys p s ≡ ok tt
    → Reached [] ys p s
unfolding Reached
Reached-refl ys p s sub h = ((p, s), h, After-refl p s sub)

if-true : {A : Type 0} (b : Bool) (x y : A) {z : A} → b ≡ true → (if b then x else y) ≡ z → x ≡ z
if-true b x y t h = ground arith

if-false : {A : Type 0} (b : Bool) (x y : A) {z : A} → b ≡ false → (if b then x else y) ≡ z → y ≡ z
if-false b x y t h = ground arith

check_history-Reached :
    (xs ys : List Message) (p s : List String)
    → Sub p s
    → check_history (xs ++ ys) p s ≡ ok tt
    → Reached xs ys p s
unfolding check_history
check_history-Reached [] ys p s sub h = Reached-refl ys p s sub h
check_history-Reached (m ∷ xs) ys p s sub h = elim (Bool-cases (m.role == "tool")) [
  | inl t ↦
      let k = reject-ok (not (has m.tool_call_id p)) _ (if-true (m.role == "tool") _ _ t h) in
      result-Reached m xs ys p s t (ground arith) (
        check_history-Reached xs ys (without m.tool_call_id p) s
          (λ j. ground (arith, has-without j m.tool_call_id p, sub j)) k.1)
  | inr t ↦
      let k = reject-ok (not (is_empty p)) _ (if-false (m.role == "tool") _ _ t h) in
      let u = >>=-eq-ok (add_calls m.tool_calls p s) _ k.1 in
      let a = add_calls-After m.tool_calls p s u.0 sub u.1 in
      message-Reached m xs ys p s u.0 t a (check_history-Reached xs ys u.0.0 u.0.1 a.sub u.2)
]

empty-Sub : Sub [] []
empty-Sub k h = h

held-empty : (k : String) (p : List String) → not (is_empty p) ≡ false → held k p ≡ 0
unfolding has
held-empty k [] h = refl
held-empty k (x ∷ p) h = absurd (cc)

held-le : (k : String) (p : List String) → held k p ≤ 1
held-le k p = ground arith

at_end : (k : String) (p s : List String) → check_history [] p s ≡ ok tt → held k p ≡ 0
unfolding check_history
at_end k p s h = held-empty k p (ground arith)

at_message :
    (k : String) (m : Message) (ms : List Message) (p s : List String)
    → m.role ≢ "tool"
    → check_history (m ∷ ms) p s ≡ ok tt
    → held k p ≡ 0
unfolding check_history
at_message k m ms p s n h =
    held-empty k p
      (reject-ok (not (is_empty p)) _
        (if-false (m.role == "tool") _ _ (ground (arith, text_eq_iff m.role "tool")) h)).0

-- In a history that is accepted, each id names at most one call, and each call has exactly one
-- result: the ids of the calls and those of the results are the same, with the same counts.
pub validate_tool_history-paired :
    (ms : List Message) (k : String)
    → validate_tool_history ms ≡ ok tt
    → (results k ms ≡ calls k ms) × (calls k ms ≤ 1)
unfolding validate_tool_history Reached has
validate_tool_history-paired ms k h =
    let (q, e, a) =
      check_history-Reached ms [] [] [] empty-Sub
        (subst (λ xs. check_history xs [] [] ≡ ok tt) (sym (append-nil ms)) h) in
    (omega (arith, a.open_calls k, at_end k q.0 q.1 e), omega (arith, a.all_seen k, held-le k q.1))

-- In a history that is accepted, before every message that is not a tool result each call so far
-- has had its result, and no result ever comes before its call.
pub validate_tool_history-answered :
    (xs : List Message) (m : Message) (ys : List Message) (k : String)
    → validate_tool_history (xs ++ m ∷ ys) ≡ ok tt
    → (results k xs ≤ calls k xs) × (m.role ≢ "tool" → results k xs ≡ calls k xs)
unfolding validate_tool_history Reached has
validate_tool_history-answered xs m ys k h =
    let (q, e, a) = check_history-Reached xs (m ∷ ys) [] [] empty-Sub h in
    (
      omega (arith, a.open_calls k),
      λ n. omega (arith, a.open_calls k, at_message k m ys q.0 q.1 n e),
    )
