-- ===== src/Refresh/Entry.antt =====
-- auth.go get: when an exchange begins. While none is under way, no exchange can begin with the
-- credential, or none has.
use trae_api.Prelude.{
  ℕ, ◌<◌, String, ◌==◌, string_eq, Bool, true, false, Option, none, some, List, [], ◌∷◌, ◌≡◌, ◌≢◌,
  refl, sym, subst, ◌⊎◌, inl, inr, if◌then◌else◌, is_some, text_eq_iff, ◌∙◌, ap,
}
use trae_api.Fault.{Fault, Result, ok, err}
use trae_api.Chat.History.{has}
use trae_api.Login.{Credential, AuthManager, Flight}
use trae_api.Refresh.{
  Entered, given, refused, waits, exchanges, enter, begin_refresh, is_fresh, marked,
}
use trae_api.Refresh.System.{System, Event, returns, logs_in, note, step, Distinct}

-- What the run relies on: no caller gives up while it refreshes, and whatever credential comes from
-- the account, by an exchange or by a login, has a refresh token with which no exchange
-- began before.
abbrev pub Fresh : Event → List String → Type 0
Fresh (returns now (some e) outcome stored) sent = ⊥
Fresh (returns now none (ok c) stored) sent = has c.refresh_token sent ≡ false
Fresh (logs_in c unsure) sent = has c.refresh_token sent ≡ false
Fresh _ sent = Unit

abbrev pub AllFresh : List Event → System → Type 0
AllFresh [] s = Unit
AllFresh (e ∷ es) s = Fresh e s.sent × AllFresh es (step e s)

-- No exchange can begin with the credential, or none has.
abbrev pub Safe : AuthManager → List String → Type 0
Safe a sent =
    (a.cred.token ≡ "") ⊎ ((is_some a.refresh_err ≡ true) ⊎ (has a.cred.refresh_token sent ≡ false))

abbrev pub Flying : AuthManager → List String → Option Flight → Type 0
Flying a sent none = Safe a sent
Flying a sent (some f) =
    (f.generation ≡ a.generation) ⊎ ((f.generation < a.generation) × Safe a sent)

pub record Inv (s : System) : Type 0 where
  pub distinct : Distinct s.sent
  pub stored : s.manager.has_store ≡ true
  pub flying : Flying s.manager s.sent s.manager.refreshing

-- An entry that is no exchange, and leaves the credential, the error and the channel alone.
pub record Quiet (a b : AuthManager) : Type 0 where
  cred : b.cred ≡ a.cred
  generation : b.generation ≡ a.generation
  refresh_err : b.refresh_err ≡ a.refresh_err
  refreshing : b.refreshing ≡ a.refreshing
  has_store : b.has_store ≡ a.has_store

-- What an entry does: an exchange begins only of a credential with a token, without an error, and
-- while no other goroutine refreshes.
abbrev pub EnteredAs : AuthManager → Entered → AuthManager → Type 0
EnteredAs a (exchanges f) b =
    (a.cred.token ≢ "")
    × (a.refresh_err ≡ none)
    × (a.refreshing ≡ none)
    × (f.old.refresh_token ≡ a.cred.refresh_token)
    × (f.generation ≡ b.generation)
    × (b.refreshing ≡ some f)
    × (b.has_store ≡ a.has_store)
EnteredAs a _ b = Quiet a b

EnteredAs-if :
    (a : AuthManager) (test : Bool) (x y : Entered × AuthManager)
    → (test ≡ true → EnteredAs a x.0 x.1)
    → (test ≡ false → EnteredAs a y.0 y.1)
    → EnteredAs a (if test then x else y).0 (if test then x else y).1
EnteredAs-if a true x y p q = p refl
EnteredAs-if a false x y p q = q refl

Quiet-if :
    (a b : AuthManager) (test : Bool) (c : Credential) (g : ℕ) (e : Fault)
    → Quiet a b
    → EnteredAs a (if test then given c g else refused e) b
Quiet-if a b true c g e q = q
Quiet-if a b false c g e q = q

still : (a : AuthManager) → Quiet a a
still a = record {
  cred = refl;
  generation = refl;
  refresh_err = refl;
  refreshing = refl;
  has_store = refl;
}

none-of {ℓ} : {A : Type ℓ} (o : Option A) → is_some o ≡ false → o ≡ none
none-of none e = refl
none-of (some x) e = absurd (cc)

filled : (s : String) → (s == "") ≡ false → s ≢ ""
filled s e h = absurd (let q : (s == "") ≡ true = (text_eq_iff s "").1 h in cc)

exchange-EnteredAs :
    (a : AuthManager) (c : Credential)
    → c.refresh_token ≡ a.cred.refresh_token
    → (a.cred.token == "") ≡ false
    → a.refresh_err ≡ none
    → a.refreshing ≡ none
    → let f : Flight = record { old = c; generation = a.generation } in
      (d : Credential) → EnteredAs a (exchanges f) (record a { cred = d; refreshing = some f })
exchange-EnteredAs a c e t r f d = (filled _ t, r, f, e, refl, refl, refl)

begin_refresh-EnteredAs :
    (now : ℕ) (fence : Result (Unit {0})) (a : AuthManager)
    → (a.cred.token == "") ≡ false
    → a.refresh_err ≡ none
    → a.refreshing ≡ none
    → EnteredAs a (begin_refresh now fence a).0 (begin_refresh now fence a).1
begin_refresh-EnteredAs now (err e) a t r f =
    EnteredAs-if a a.has_store _ _
      (λ _.
        Quiet-if a (record a { refreshed_at = now }) _ _ _ _
          (record {
            cred = refl;
            generation = refl;
            refresh_err = refl;
            refreshing = refl;
            has_store = refl;
          }))
      (λ _. exchange-EnteredAs a a.cred refl t r f a.cred)
begin_refresh-EnteredAs now (ok u) a t r f =
    EnteredAs-if a a.has_store _ _
      (λ _. exchange-EnteredAs a (marked a.cred) refl t r f (marked a.cred))
      (λ _. exchange-EnteredAs a a.cred refl t r f a.cred)

pub enter-EnteredAs :
    (now : ℕ) (fence : Result (Unit {0})) (a : AuthManager)
    → EnteredAs a (enter now fence a).0 (enter now fence a).1
unfolding enter
enter-EnteredAs now fence a =
    EnteredAs-if a (a.cred.token == "") _ _ (λ _. still a)
      (λ t.
        EnteredAs-if a (is_some a.refresh_err) _ _ (λ _. Quiet-if a a _ _ _ _ (still a))
          (λ r.
            EnteredAs-if a (is_fresh now a) _ _ (λ _. still a)
              (λ _.
                EnteredAs-if a (is_some a.refreshing) _ _ (λ _. still a)
                  (λ f. begin_refresh-EnteredAs now fence a t (none-of _ r) (none-of _ f)))))

Quiet-Safe : (a b : AuthManager) (sent : List String) → Quiet a b → Safe a sent → Safe b sent
Quiet-Safe a b sent q (inl e) = inl (ap (λ c. c.token) q.cred ∙ e)
Quiet-Safe a b sent q (inr (inl e)) = inr (inl (ap is_some q.refresh_err ∙ e))
Quiet-Safe a b sent q (inr (inr e)) = inr (inr (ap (λ c. has c.refresh_token sent) q.cred ∙ e))

Quiet-Flying :
    (a b : AuthManager) (sent : List String) (o : Option Flight)
    → Quiet a b
    → Flying a sent o
    → Flying b sent o
Quiet-Flying a b sent none q h = Quiet-Safe a b sent q h
Quiet-Flying a b sent (some f) q (inl e) = inl (e ∙ sym q.generation)
Quiet-Flying a b sent (some f) q (inr (lt, h)) =
    inr (subst (λ g. f.generation < g) (sym q.generation) lt, Quiet-Safe a b sent q h)

Quiet-Inv :
    (a b : AuthManager) (sent : List String)
    → Quiet a b
    → Inv (record { manager = a; sent = sent })
    → Inv (record { manager = b; sent = sent })
Quiet-Inv a b sent q inv = record {
  distinct = inv.distinct;
  stored = q.has_store ∙ inv.stored;
  flying = subst (λ o. Flying b sent o) (sym q.refreshing) (Quiet-Flying a b sent _ q inv.flying);
}

-- No exchange has begun with the refresh token before.
unsent :
    (a : AuthManager) (sent : List String)
    → a.cred.token ≢ ""
    → a.refresh_err ≡ none
    → Safe a sent
    → has a.cred.refresh_token sent ≡ false
unsent a sent t r (inl e) = absurd (t e)
unsent a sent t r (inr (inl e)) = absurd (cc)
unsent a sent t r (inr (inr e)) = e

pub enters-Inv :
    (a b : AuthManager) (entered : Entered) (sent : List String)
    → EnteredAs a entered b
    → Inv (record { manager = a; sent = sent })
    → Inv (record { manager = b; sent = note entered sent })
enters-Inv a b (given c g) sent q inv = Quiet-Inv a b sent q inv
enters-Inv a b (refused e) sent q inv = Quiet-Inv a b sent q inv
enters-Inv a b waits sent q inv = Quiet-Inv a b sent q inv
enters-Inv a b (exchanges f) sent (t, r, idle, token, generation, flight, store) inv = record {
  distinct = (
    ap (λ x. has x sent) token ∙ unsent a sent t r (subst (Flying a sent) idle inv.flying),
    inv.distinct,
  );
  stored = store ∙ inv.stored;
  flying = subst (Flying b (note (exchanges f) sent)) (sym flight) (inl generation);
}
