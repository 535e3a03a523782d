-- ===== src/Login/Link/Query.antt =====
-- auth.go beginLogin: the query of the authorization link.
use trae_api.Prelude.{
  String, ◌==◌, string_eq, text_eq, Option, none, some, [], ◌∷◌, ◌≡◌, refl, inl, inr, Assoc, insert,
  lookup, lookup-insert, Bool-cases, text_eq_iff, ap, sym, ◌∙◌,
}
use trae_api.Login.{Device}
use trae_api.Login.Link.{ClientConfig, link_values, set_all, link_query, get}

-- The keys differ.
abbrev AllDistinct : Assoc String String → Type 0
AllDistinct [] = Unit
AllDistinct ((k, v) ∷ values) = (lookup k values ≡ none) × AllDistinct values

-- The first of two values, when there is one.
abbrev pub first_of : Option String → Option String → Option String
first_of none o = o
first_of (some v) o = some v

set_all-lookup :
    (k : String) (values q : Assoc String String)
    → AllDistinct values
    → lookup k (set_all values q) ≡ first_of (lookup k values) (lookup k q)
unfolding set_all lookup
set_all-lookup k [] q h = refl
set_all-lookup k ((j, v) ∷ values) q h =
    set_all-lookup k values (insert j v q) h.1
    ∙ (rw (lookup-insert j k v q) (elim (Bool-cases (j == k)) [
      | inl e ↦
          let s : j ≡ k = (text_eq_iff j k).0 e in
          let f : lookup k values ≡ none = ap (λ z. lookup z values) (sym s) ∙ h.0 in
          rw (e) (rw (f) refl)
      | inr e ↦ rw (e) refl
    ]))

link_values-AllDistinct :
    (cfg : ClientConfig) (url id : String) (d : Device) → AllDistinct (link_values cfg url id d)
unfolding link_values lookup text_eq
link_values-AllDistinct cfg url id d = search

-- The link has each of the values under its key, and keeps what the configured URL has under another.
pub link_query-lookup :
    (cfg : ClientConfig) (url id : String) (d : Device) (q : Assoc String String) (k : String)
    → lookup k (link_query cfg url id d q)
      ≡ first_of (lookup k (link_values cfg url id d)) (lookup k q)
unfolding link_query
link_query-lookup cfg url id d q k =
    set_all-lookup k (link_values cfg url id d) q (link_values-AllDistinct cfg url id d)

link_values-trace :
    (cfg : ClientConfig) (url id : String) (d : Device)
    → lookup "login_trace_id" (link_values cfg url id d) ≡ some id
unfolding link_values lookup text_eq
link_values-trace cfg url id d = refl

-- The link carries the id of the attempt.
pub link_query-trace :
    (cfg : ClientConfig) (url id : String) (d : Device) (q : Assoc String String)
    → get "login_trace_id" (link_query cfg url id d q) ≡ id
link_query-trace cfg url id d q =
    rw (link_query-lookup cfg url id d q "login_trace_id")
      (rw (link_values-trace cfg url id d) refl)
