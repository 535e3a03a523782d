-- ===== src/Server/Answered.antt =====
-- main.go execute: what a request that is carried out ends in.
use trae_api.Prelude.{
  ℕ, String, ◌==◌, string_eq, Bool, true, false, ◌||◌, Option, none, some, List, [], ◌∷◌, ◌++◌, ◌⊎◌,
  <>-empty, ◌≡◌, refl, ap, ◌∙◌, subst, if◌then◌else◌, inl, inr,
}
use trae_api.Fault.{Fault, Result, ok, err}
use trae_api.Json.{Codec}
use trae_api.Chat.{ChatRequest, Completion}
use trae_api.Chat.Validate.{validate_request}
use trae_api.Chat.History.{validate_tool_history}
use trae_api.Models.Cache.{Cache}
use trae_api.Store.Codec.{ApiCredential}
use trae_api.Upstream.{Delta, Host}
use trae_api.Server.{
  Outside, Executed, refuse, start_delta, route_of, ask, pick_model, first_model, start_stream,
  answer_request, with_slot, execute, acquire_gate, invalid,
}
use trae_api.Server.Sent.{Fulfils, Wordless, Sent, prompt-Sent}

-- Nothing was delivered, or the start delta with the model came first.
abbrev pub Begun : String → List Delta → Type 0
Begun model ds = (ds ≡ []) ⊎ ((later : List Delta) × (ds ≡ later ++ start_delta model ∷ []))

record Start (emitting : Bool) (model : String) (p : Option Fault × List Delta) : Type 0 where
  silent : Wordless p.1
  begun : emitting ≡ true → p.0 ≡ none → p.1 ≡ start_delta model ∷ []

start_stream-Start :
    ⦃go : Codec⦄ (emitting : Bool) (host : Host) (model : String)
    → Start emitting model (start_stream emitting host model)
start_stream-Start false host model = record {
  silent = record { text = refl; reasoning = refl; calls = λ i. refl };
  begun = λ e. absurd (cc);
}
start_stream-Start true host model = emitted (host.emit [] (start_delta model))
  where
    emitted :
        (e : Option Fault)
        → Start true model (elim e as (λ _. Option Fault × List Delta) [
          | none ↦ (none, start_delta model ∷ [])
          | some e ↦ (some e, [])
        ])
    emitted none = record {
      silent = record { text = <>-empty ""; reasoning = <>-empty ""; calls = λ i. refl };
      begun = λ e h. refl;
    }
    emitted (some e) = record {
      silent = record { text = refl; reasoning = refl; calls = λ i. refl };
      begun = λ q h. absurd (cc);
    }

-- What holds however a request ends: `v` is the request once it was validated.
pub record Carried ⦃go : Codec⦄ (emitting : Bool) (v : ChatRequest) (x : Executed) : Type 0 where
  pub same : x.request ≡ record v { model = x.request.model }
  pub begun : emitting ≡ true → Begun x.request.model x.delivered
  pub fulfilled : (c : Completion) → x.outcome ≡ ok c → Fulfils x.request c x.delivered

module _ ⦃go : Codec⦄ (emitting : Bool) (v : ChatRequest) where
  refuse-Carried :
      (q : ChatRequest) (e : Fault) (cache : Cache) (used : ℕ)
      → q ≡ record v { model = q.model }
      → Carried emitting v (refuse q e cache used)
  refuse-Carried q e cache used same = record {
    same = same;
    begun = λ _. inl refl;
    fulfilled = λ c h. absurd (cc);
  }

  result-Carried :
      {A : Type 0} (m : Result A) (f : Fault → Executed) (g : A → Executed)
      → ((e : Fault) → Carried emitting v (f e))
      → ((a : A) → m ≡ ok a → Carried emitting v (g a))
      → Carried emitting v (elim m as (λ _. Executed) [ err e ↦ f e | ok a ↦ g a ])
  result-Carried (err e) f g p q = p e
  result-Carried (ok a) f g p q = q a refl

  option-Carried :
      (m : Option Fault) (f : Fault → Executed) (x : Executed)
      → ((e : Fault) → Carried emitting v (f e))
      → (m ≡ none → Carried emitting v x)
      → Carried emitting v (elim m as (λ _. Executed) [ some e ↦ f e | none ↦ x ])
  option-Carried (some e) f x p q = p e
  option-Carried none f x p q = q refl

  Sent-Carried :
      (q : ChatRequest) (start : Option Fault × List Delta) (p : Result Completion × List Delta)
      (cache : Cache) (used : ℕ)
      → q ≡ record v { model = q.model }
      → Start emitting q.model start
      → start.0 ≡ none
      → Sent q start.1 p
      → Carried emitting v
          (record { request = q; outcome = p.0; delivered = p.1; cache = cache; used = used })
  Sent-Carried q start p cache used same s e h = record {
    same = same;
    begun = λ yes. inr (h.grown.0, h.grown.1 ∙ ap (λ ds. h.grown.0 ++ ds) (s.begun yes e));
    fulfilled = h.fulfilled;
  }

  answer_request-Carried :
      (host : Host) (o : Outside) (c : ApiCredential) (q : ChatRequest) (cache : Cache) (used : ℕ)
      → q ≡ record v { model = q.model }
      → Carried emitting v (answer_request emitting host o c q cache used)
  unfolding answer_request
  answer_request-Carried host o c q cache used same =
      let start = start_stream-Start emitting host q.model in
      option-Carried (start_stream emitting host q.model).0 _ _
        (λ e. refuse-Carried q e cache used same)
        (λ e.
          Sent-Carried q (start_stream emitting host q.model) _ _ used same start e
            (prompt-Sent host o c (start_stream emitting host q.model).1 q cache start.silent))

  abbrev Renamed : Result ChatRequest → Type 0
  Renamed m = (q : ChatRequest) → m ≡ ok q → q ≡ record v { model = q.model }

  own-Renamed : (model : String) → Renamed (ok (record v { model = model }))
  own-Renamed model q e =
      let h : record v { model = model } ≡ q = cc in
      subst (λ q. q ≡ record v { model = q.model }) h refl

  named-Renamed :
      (m : Result String)
      → Renamed (elim m as (λ _. Result ChatRequest) [
        | err e ↦ err e
        | ok n ↦ ok (record v { model = n })
      ])
  named-Renamed (err e) q h = absurd (cc)
  named-Renamed (ok n) q h = own-Renamed n q h

  if-Renamed :
      (test : Bool) (x y : Result ChatRequest × Cache)
      → Renamed x.0
      → Renamed y.0
      → Renamed (if test then x else y).0
  if-Renamed true x y p q = p
  if-Renamed false x y p q = q

  pick_model-Renamed :
      (o : Outside) (c : ApiCredential) (cache : Cache) → Renamed (pick_model o c v cache).0
  unfolding pick_model
  pick_model-Renamed o c cache =
      if-Renamed (v.model == "" || v.model == "auto") _ _
        (named-Renamed (first_model (ask o o.first (o.identity c) cache).0)) (own-Renamed v.model)

  with_slot-Carried :
      (host : Host) (o : Outside) (cache : Cache) (used : ℕ)
      → Carried emitting v (with_slot emitting host o v cache used)
  unfolding with_slot
  with_slot-Carried host o cache used =
      result-Carried o.credential _ _ (λ e. refuse-Carried v e cache used refl)
        (λ c h.
          result-Carried (pick_model o c v cache).0 _ _ (λ e. refuse-Carried v e _ used refl)
            (λ q picked.
              let same = pick_model-Renamed o c cache q picked in
              result-Carried
                (route_of o o.second (o.identity c) q.model (pick_model o c v cache).1).0 _ _
                (λ e. refuse-Carried q e _ used same)
                (λ route h. answer_request-Carried host o c q _ used same)))

-- What a request ends in: `v` is the request as validation leaves it.
abbrev pub Ends : ⦃go : Codec⦄ → Bool → ChatRequest → Executed → Type 0
Ends emitting r x =
    ((e : Fault) × (x.outcome ≡ err e) × (x.delivered ≡ []))
    ⊎ ((v : ChatRequest) × (validate_request r ≡ ok v)
        × (validate_tool_history v.messages ≡ ok tt)
        × Carried emitting v x)

module _ ⦃go : Codec⦄ (emitting : Bool) (r : ChatRequest) where
  option-Ends :
      (m : Option Fault) (q : ChatRequest) (cache : Cache) (used : ℕ) (x : Executed)
      → Ends emitting r x
      → Ends emitting r (elim m as (λ _. Executed) [ some e ↦ refuse q e cache used | none ↦ x ])
  option-Ends none q cache used x h = h
  option-Ends (some e) q cache used x h = inl (e, refl, refl)

  result-Ends :
      {A : Type 0} (m : Result A) (q : ChatRequest) (fault : Fault → Fault) (cache : Cache)
      (used : ℕ) (x : A → Executed)
      → ((a : A) → m ≡ ok a → Ends emitting r (x a))
      → Ends emitting r
          (elim m as (λ _. Executed) [ err e ↦ refuse q (fault e) cache used | ok a ↦ x a ])
  result-Ends (ok a) q fault cache used x h = h a refl
  result-Ends (err e) q fault cache used x h = inl (fault e, refl, refl)

  -- However a request ends, it was either refused before anything was delivered, or validation and the
  -- check of its tool history succeeded and the request differs from the validated one in its model at
  -- most; then, when it streams, the first delta is the start of the stream with that model, if there is
  -- any, and a completion answers the request with calls of its tools, the texts of the deltas that were
  -- delivered join up to its texts, and the fragments of each index to the call at that index.
  pub execute-Ends :
      (host : Host) (o : Outside) (cache : Cache) (used : ℕ)
      → Ends emitting r (execute emitting host o r cache used)
  unfolding execute
  execute-Ends host o cache used = option-Ends o.cancelled _ _ _ _ (
      result-Ends (validate_request r) _ invalid _ _ _ (λ v valid.
        result-Ends (validate_tool_history v.messages) _ invalid _ _ _ (λ u paired.
          result-Ends (acquire_gate o.cancelled_at_gate o.wait used).0 _ (λ e. e) _ _ _
            (λ u free. inr (v, valid, paired, with_slot-Carried emitting v host o cache _)))))
