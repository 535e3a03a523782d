-- ===== src/Upstream/CallState.antt =====
-- What holds of a call while its stream is read, and of the calls together.
use trae_api.Prelude.{
  lt_of_get_elem?, subst, zero, suc, ℕ, ◌*◌, ◌^◌, ◌≤◌, ◌<◌, String, len, ◌==◌, string_eq, nat_eq,
  true, false, some, List, [], ◌∷◌, ◌++◌, ◌≡◌, refl, ◌⊎◌, inl, inr, <>-empty, empty-<>,
  trim_prefix_lem, trim_prefix, has_prefix, text_eq_iff, Bool-cases, arith, get_elem?, set, length,
  map, map-set, length-map, if◌then◌else◌, ap, ◌∙◌, eqb_iff,
}
use trae_api.Chat.{ToolCall, ChatRequest}
use trae_api.Upstream.{Delta, blank, AccumulatedCall}
use trae_api.Upstream.View.{no_call, join_call, shown, call_at, received}
use trae_api.Upstream.Calls.{fragment, is_allowed}

abbrev pub name_of : AccumulatedCall → String
name_of s = s.call.function.name

abbrev pub args_of : AccumulatedCall → String
args_of s = s.call.function.arguments

abbrev pub max_args : ℕ
max_args = 4 * 2 ^ 20

-- Nothing of the call has been streamed, or it has been streamed as far as it is known.
abbrev pub Status : ChatRequest → AccumulatedCall → Type 0
Status r s =
    ((s.sent ≡ false) × (s.sent_args ≡ "") × (name_of s ≡ ""))
    ⊎ ((s.sent ≡ true)
        × (s.sent_args ≡ args_of s)
        × (is_allowed r (name_of s) ≡ true)
        × ((name_of s == "") ≡ false))

-- A call between two events.
pub record Settled (r : ChatRequest) (s : AccumulatedCall) : Type 0 where
  pub kind : s.call.kind ≡ "function"
  pub size : len (args_of s) ≤ max_args
  pub status : Status r s

-- A call with an event's name and arguments, which are not streamed yet.
pub record Draft (s : AccumulatedCall) : Type 0 where
  pub kind : s.call.kind ≡ "function"
  pub status :
      ((s.sent ≡ false) × (s.sent_args ≡ "")) ⊎ ((s.sent ≡ true) × ((name_of s == "") ≡ false))

abbrev pub streamed : AccumulatedCall → AccumulatedCall
streamed s = record s { sent = true; sent_args = args_of s }

-- The fragment makes what was shown of the call the whole call.
pub join-fragment :
    (s : AccumulatedCall)
    → Draft s
    → has_prefix (args_of s) s.sent_args ≡ true
    → join_call (shown s) (fragment s) ≡ shown (streamed s)
unfolding fragment
join-fragment s d h = ground (
  arith,
  trim_prefix_lem (args_of s) s.sent_args h,
  empty-<> s.call.id,
  <>-empty s.call.id,
  empty-<> "function",
  <>-empty s.call.kind,
  empty-<> (name_of s),
  <>-empty (name_of s),
  empty-<> (trim_prefix (args_of s) s.sent_args),
)

pub streamed-Settled :
    (r : ChatRequest) (s : AccumulatedCall)
    → Draft s
    → len (args_of s) ≤ max_args
    → is_allowed r (name_of s) ≡ true
    → (name_of s == "") ≡ false
    → Settled r (streamed s)
streamed-Settled r s d l a n = record { kind = d.kind; size = l; status = inr (refl, refl, a, n) }

-- A call that is not named yet.
pub nameless-Settled :
    (r : ChatRequest) (s : AccumulatedCall)
    → Draft s
    → len (args_of s) ≤ max_args
    → (name_of s == "") ≡ true
    → Settled r s
nameless-Settled r s d l n = record {
  kind = d.kind;
  size = l;
  status = ground (arith, text_eq_iff (name_of s) "");
}

-- Nothing new to stream: the arguments are those that were streamed.
pub unchanged-Settled :
    (r : ChatRequest) (s : AccumulatedCall)
    → Draft s
    → len (args_of s) ≤ max_args
    → is_allowed r (name_of s) ≡ true
    → (name_of s == "") ≡ false
    → has_prefix (args_of s) s.sent_args ≡ true
    → s.sent ≡ true
    → (trim_prefix (args_of s) s.sent_args == "") ≡ true
    → Settled r s
unchanged-Settled r s d l a n h t e = record {
  kind = d.kind;
  size = l;
  status = ground (
    arith,
    trim_prefix_lem (args_of s) s.sent_args h,
    text_eq_iff (trim_prefix (args_of s) s.sent_args) "",
    <>-empty s.sent_args,
  );
}

abbrev pub shown_calls : List AccumulatedCall → List ToolCall
shown_calls = map shown

pub call_at-set :
    (cs : List ToolCall) (i j : ℕ) (c : ToolCall)
    → i < length cs
    → call_at (set cs i c) j ≡ (if i == j then c else call_at cs j)
call_at-set [] i j c h = elim h [ ]
call_at-set (x ∷ cs) zero zero c h = refl
call_at-set (x ∷ cs) zero (suc j) c h = ground arith
call_at-set (x ∷ cs) (suc i) zero c h = ground arith
call_at-set (x ∷ cs) (suc i) (suc j) c h = ground (arith, call_at-set cs i j c (omega arith))

-- A call of which nothing was shown stands where nothing was received.
pub call_at-append_no_call :
    (cs : List ToolCall) (i : ℕ) → call_at (cs ++ no_call ∷ []) i ≡ call_at cs i
call_at-append_no_call [] zero = refl
call_at-append_no_call [] (suc i) = refl
call_at-append_no_call (x ∷ cs) zero = refl
call_at-append_no_call (x ∷ cs) (suc i) = call_at-append_no_call cs i

-- Each index has received what is shown of its call.
abbrev pub Seen : List ToolCall → List Delta → Type 0
Seen cs ds = (i : ℕ) → received i ds ≡ call_at cs i

pub call_at-shown :
    (calls : List AccumulatedCall) (i : ℕ) {s : AccumulatedCall}
    → get_elem? calls i ≡ some s
    → call_at (shown_calls calls) i ≡ shown s
call_at-shown [] i e = absurd (cc)
call_at-shown (x ∷ calls) zero {s} e = let q : x ≡ s = cc in ap shown q
call_at-shown (x ∷ calls) (suc i) e = call_at-shown calls i e

-- After the fragment of one call is delivered, each index has received its call.
pub Seen-fragment :
    (calls : List AccumulatedCall) (ds : List Delta) (slot : ℕ) (s : AccumulatedCall)
    → Seen (shown_calls calls) ds
    → get_elem? calls slot ≡ some s
    → Draft s
    → has_prefix (args_of s) s.sent_args ≡ true
    → Seen
        (shown_calls (set calls slot (streamed s)))
        (record blank { call = some (fragment s); index = slot } ∷ ds)
Seen-fragment calls ds slot s seen e d h i = rw (map-set shown calls slot (streamed s)) (
    rw (call_at-set (shown_calls calls) slot i (shown (streamed s)) in_range)
      (elim (Bool-cases (slot == i)) [
        | inl t ↦ rw t (
            ap (λ c. join_call c (fragment s)) (seen i ∙ here ((eqb_iff slot i).0 t))
            ∙ join-fragment s d h)
        | inr t ↦ rw t (seen i)
      ]))
  where
    in_range : slot < length (shown_calls calls)
    in_range = rw (length-map shown calls) (lt_of_get_elem? calls slot e)

    here : slot ≡ i → call_at (shown_calls calls) i ≡ shown s
    here q = subst (λ j. call_at (shown_calls calls) j ≡ shown s) q (call_at-shown calls slot e)
