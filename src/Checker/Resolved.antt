-- ===== src/Checker/Resolved.antt =====
-- tools/checker/main.go underlying: how far a type is followed.
use trae_api.Prelude.{
  ℕ, zero, suc, ◌≤◌, String, string_eq, none, some, Assoc, lookup, ◌≡◌, refl, ◌⊎◌, inl, inr, arith,
  ◌∙◌, ap, Option-cases,
}
use trae_api.Checker.{
  Expr, absent, ident, star, index, index_list, selector, array_type, map_type, struct_type,
  composite, key_value, another, resolve, underlying, fields_of, struct_fields,
}

-- One round: a pointer and an instance of a generic type lead to their type, a name to what it was
-- declared as.
pub data Round (types : Assoc String Expr) : Expr → Expr → Type 0 where
  through_star : {x : Expr} → Round types (star x) x
  through_index : {x : Expr} → Round types (index x) x
  through_index_list : {x : Expr} → Round types (index_list x) x
  by_name : {name : String} {e : Expr} → lookup name types ≡ some e → Round types (ident name) e

-- A number of rounds in a row.
pub data Rounds (types : Assoc String Expr) : ℕ → Expr → Expr → Type 0 where
  here : {e : Expr} → Rounds types zero e e
  after : {n : ℕ} {d e f : Expr} → Round types d e → Rounds types n e f → Rounds types (suc n) d f

-- No round leads on.
abbrev pub IsResolved : Assoc String Expr → Expr → Type 0
IsResolved types (star x) = ⊥
IsResolved types (index x) = ⊥
IsResolved types (index_list x) = ⊥
IsResolved types (ident name) = lookup name types ≡ none
IsResolved types e = Unit

-- What a loop of `k` rounds has come to.
pub record Followed (types : Assoc String Expr) (k : ℕ) (e d : Expr) : Type 0 where
  pub rounds : ℕ
  pub bounded : rounds ≤ k
  pub path : Rounds types rounds e d
  pub ended : IsResolved types d ⊎ (rounds ≡ k)

one_more :
    (types : Assoc String Expr) (k : ℕ) (d e f : Expr)
    → Round types d e
    → Followed types k e f
    → Followed types (suc k) d f
one_more types k d e f r w = record {
  rounds = suc w.rounds;
  bounded = let b = w.bounded in omega arith;
  path = after r w.path;
  ended = elim w.ended [ inl h ↦ inl h | inr h ↦ inr (omega arith) ];
}

stays : (types : Assoc String Expr) (k : ℕ) (e : Expr) → IsResolved types e → Followed types k e e
stays types k e h = record { rounds = 0; bounded = omega arith; path = here; ended = inl h }

resolve-Followed :
    (types : Assoc String Expr) (k : ℕ) (e : Expr) → Followed types k e (resolve k types e)
unfolding resolve
resolve-Followed types zero e = record {
  rounds = 0;
  bounded = omega arith;
  path = here;
  ended = inr refl;
}
resolve-Followed types (suc k) (star x) =
    one_more types k _ _ _ through_star (resolve-Followed types k x)
resolve-Followed types (suc k) (index x) =
    one_more types k _ _ _ through_index (resolve-Followed types k x)
resolve-Followed types (suc k) (index_list x) =
    one_more types k _ _ _ through_index_list (resolve-Followed types k x)
resolve-Followed types (suc k) (ident name) = elim (Option-cases (lookup name types)) [
  | inl h ↦ rw (h, resolve) (stays types (suc k) (ident name) h)
  | inr (e, h) ↦ rw (h, resolve) (one_more types k _ _ _ (by_name h) (resolve-Followed types k e))
]
resolve-Followed types (suc k) absent = stays types (suc k) _ tt
resolve-Followed types (suc k) selector = stays types (suc k) _ tt
resolve-Followed types (suc k) (array_type x) = stays types (suc k) _ tt
resolve-Followed types (suc k) (map_type x) = stays types (suc k) _ tt
resolve-Followed types (suc k) (struct_type a f c) = stays types (suc k) _ tt
resolve-Followed types (suc k) (composite n t l e r) = stays types (suc k) _ tt
resolve-Followed types (suc k) (key_value a b) = stays types (suc k) _ tt
resolve-Followed types (suc k) another = stays types (suc k) _ tt

resolve-resolved :
    (types : Assoc String Expr) (k : ℕ) (d : Expr) → IsResolved types d → resolve k types d ≡ d
unfolding resolve
resolve-resolved types zero d h = refl
resolve-resolved types (suc k) (star x) h = absurd h
resolve-resolved types (suc k) (index x) h = absurd h
resolve-resolved types (suc k) (index_list x) h = absurd h
resolve-resolved types (suc k) (ident name) h = rw (h, resolve) refl
resolve-resolved types (suc k) absent h = refl
resolve-resolved types (suc k) selector h = refl
resolve-resolved types (suc k) (array_type x) h = refl
resolve-resolved types (suc k) (map_type x) h = refl
resolve-resolved types (suc k) (struct_type a f c) h = refl
resolve-resolved types (suc k) (composite n t l e r) h = refl
resolve-resolved types (suc k) (key_value a b) h = refl
resolve-resolved types (suc k) another h = refl

resolve_one :
    (types : Assoc String Expr) (k : ℕ) {e f : Expr}
    → Round types e f
    → resolve (suc k) types e ≡ resolve k types f
unfolding resolve
resolve_one types k through_star = refl
resolve_one types k through_index = refl
resolve_one types k through_index_list = refl
resolve_one types k (by_name h) = rw (h, resolve) refl

resolve-end :
    (types : Assoc String Expr) (k : ℕ) {n : ℕ} {e d : Expr}
    → Rounds types n e d
    → IsResolved types d
    → n ≤ k
    → resolve k types e ≡ d
resolve-end types k here h l = resolve-resolved types k _ h
resolve-end types zero (after r rest) h l = absurd (omega arith)
resolve-end types (suc k) (after r rest) h l =
    resolve_one types k r ∙ resolve-end types k rest h (omega arith)

-- What `underlying` gives is reached from the type in ten rounds at most, and no round leads on from it
-- unless ten were made.
pub underlying-Followed :
    (types : Assoc String Expr) (e : Expr) → Followed types 10 e (underlying types e)
unfolding underlying
underlying-Followed types e = resolve-Followed types 10 e

-- Where ten rounds or fewer lead from a type to one from which no round leads on, the fields that the
-- checker sees for it are those of that type.
pub struct_fields-end :
    (types : Assoc String Expr) {n : ℕ} {e d : Expr}
    → Rounds types n e d
    → IsResolved types d
    → n ≤ 10
    → struct_fields types e ≡ fields_of d
unfolding struct_fields
struct_fields-end types p h l = ap fields_of (resolve-end types 10 p h l)
