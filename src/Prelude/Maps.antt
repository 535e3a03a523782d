-- ===== src/Prelude/Maps.antt =====
-- Go maps as association lists: the first entry of a key counts, a write replaces the entry in
-- its place or adds one at the end, and a delete drops every entry of the key.
use Prim.Native.Nat.{◌≤◌, ◌+◌}
use mathlib.Core.Path.{◌≡◌, refl, subst}
use mathlib.Core.Bool.{true}
use mathlib.Core.Option.{Option, none, some}
use mathlib.Core.List.{List, [], ◌∷◌}
use mathlib.Core.Logic.{inl, inr}
use native.Mathlib.Omega.{arith}
use trae_api.Prelude.Tests.{Eq, ◌==◌, if◌then◌else◌, is_some, Bool-cases}
use trae_api.Prelude.Lists.{length, All}

abbrev pub Assoc {ℓ κ} : Type ℓ → Type κ → Type (ℓ ⊔ κ)
Assoc K V = List (K × V)

module _ {ℓ κ} {K : Type ℓ} {V : Type κ} ⦃e : Eq K⦄ where
  -- v, ok := m[k]
  unfoldable pub lookup : K → Assoc K V → Option V
  lookup k [] = none
  lookup k ((j, v) ∷ m) = if j == k then some v else lookup k m

  -- m[k] = v
  unfoldable pub insert : K → V → Assoc K V → Assoc K V
  insert k v [] = (k, v) ∷ []
  insert k v ((j, w) ∷ m) = if j == k then (k, v) ∷ m else (j, w) ∷ insert k v m

  -- delete(m, k)
  unfoldable pub delete : K → Assoc K V → Assoc K V
  delete k [] = []
  delete k ((j, w) ∷ m) = let rest = delete k m in if j == k then rest else (j, w) ∷ rest

  -- What a write leaves under a key.
  pub lookup-insert :
      (at k : K) (w : V) (m : Assoc K V)
      → lookup k (insert at w m) ≡ (if at == k then some w else lookup k m)
  unfolding insert lookup
  lookup-insert at k w ((j, u) ∷ rest) =
      ground (arith, lookup-insert at k w rest, e.test_iff at k, e.test_iff j at, e.test_iff j k)
  lookup-insert at k w [] = refl

  pub lookup-delete :
      (k j : K) (m : Assoc K V) → lookup j (delete k m) ≡ (if k == j then none else lookup j m)
  unfolding lookup delete
  lookup-delete k j [] = ground arith
  lookup-delete k j ((i, w) ∷ m) =
      ground (arith, e.test_iff k j, e.test_iff i k, e.test_iff i j, lookup-delete k j m)

  pub length-delete-le : (k : K) (m : Assoc K V) → length (delete k m) ≤ length m
  unfolding delete
  length-delete-le k [] = omega arith
  length-delete-le k ((i, w) ∷ m) = ground (arith, length-delete-le k m)

  pub length-insert-le : (k : K) (v : V) (m : Assoc K V) → length (insert k v m) ≤ length m + 1
  unfolding insert
  length-insert-le k v [] = omega arith
  length-insert-le k v ((i, w) ∷ m) = ground (arith, length-insert-le k v m)

  pub length-insert_present :
      (k : K) (v : V) (m : Assoc K V)
      → is_some (lookup k m) ≡ true
      → length (insert k v m) ≡ length m
  unfolding lookup insert
  length-insert_present k v [] h = ground arith
  length-insert_present k v ((i, w) ∷ m) h = ground (arith, length-insert_present k v m)

  pub length-delete_present :
      (k : K) (m : Assoc K V) → is_some (lookup k m) ≡ true → length (delete k m) + 1 ≤ length m
  unfolding lookup delete
  length-delete_present k [] h = ground arith
  length-delete_present k ((i, w) ∷ m) h =
      ground (arith, length-delete_present k m, length-delete-le k m)

  pub All-insert {μ} :
      (P : V → Type μ) (k : K) (v : V) (m : Assoc K V)
      → P v
      → All (λ (p : K × V). P p.1) m
      → All (λ (p : K × V). P p.1) (insert k v m)
  unfolding insert
  All-insert P k v [] p h = (p, tt)
  All-insert P k v ((i, w) ∷ m) p h = elim (Bool-cases (i == k)) [
    | inl e ↦ rw e (p, h.1)
    | inr e ↦ rw e (h.0, All-insert P k v m p h.1)
  ]

  pub All-lookup {μ} :
      (P : V → Type μ) (k : K) (m : Assoc K V) {v : V}
      → All (λ (p : K × V). P p.1) m
      → lookup k m ≡ some v
      → P v
  unfolding lookup
  All-lookup P k [] h e = absurd (cc)
  All-lookup P k ((i, w) ∷ m) {v} h e = elim (Bool-cases (i == k)) [
    | inl t ↦ let q : w ≡ v = ground arith in subst P q h.0
    | inr t ↦ All-lookup P k m h.1 (ground arith)
  ]
