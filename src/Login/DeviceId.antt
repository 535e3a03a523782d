-- ===== src/Login/DeviceId.antt =====
-- auth.go newDeviceID: the id of a device.
use trae_api.Prelude.{
  ℕ, zero, suc, ◌+◌, ◌≤◌, ◌<◌, Option, false, none, some, List, [], ◌∷◌, ◌≡◌, refl, eqb,
  if◌then◌else◌, length, All, arith, Option-cases, inl, inr, subst,
}

-- The loop, with the digits as numbers. `draw base` is what rand.Int gives in a round, and none its error.
unfoldable pub digits : (ℕ → ℕ → Option ℕ) → ℕ → ℕ → Option (List ℕ)
digits draw i zero = some []
digits draw i (suc n) =
    let rest = digits draw (i + 1) n in
    elim (draw i (if eqb i 0 then 9 else 10)) [
      | none ↦ none
      | some d ↦ (elim rest [ none ↦ none | some ds ↦ some ((if eqb i 0 then d + 1 else d) ∷ ds) ])
    ]

unfoldable pub new_device_id : (ℕ → ℕ → Option ℕ) → Option (List ℕ)
unfolding digits
new_device_id draw = digits draw 0 19

-- A draw is below its bound.
pub record IsFair (draw : ℕ → ℕ → Option ℕ) : Type 0 where
  pub below : (i base : ℕ) {d : ℕ} → draw i base ≡ some d → d < base

abbrev IsDigits : ℕ → List ℕ → Type 0
IsDigits n ds = (length ds ≡ n) × All (λ d. d ≤ 9) ds

push : (n d : ℕ) (e ds : List ℕ) → d ≤ 9 → IsDigits n e → (d ∷ e) ≡ ds → IsDigits (suc n) ds
push n d e ds l h q = subst (IsDigits (suc n)) q (omega (arith, h.0), (l, h.1))

digits-IsDigits :
    (draw : ℕ → ℕ → Option ℕ) (i n : ℕ) (ds : List ℕ)
    → IsFair draw
    → 0 < i
    → digits draw i n ≡ some ds
    → IsDigits n ds
unfolding digits
digits-IsDigits draw i zero ds f p h = let q : [] ≡ ds = cc in subst (IsDigits 0) q (refl, tt)
digits-IsDigits draw i (suc n) ds f p h =
    let z : eqb i 0 ≡ false = ground arith in
    elim (Option-cases (draw i 10)) [
      | inl e ↦ absurd (let g : none ≡ some ds = rw (z, digits, e) at h in cc)
      | inr (d, e) ↦ (elim (Option-cases (digits draw (i + 1) n)) [
        | inl r ↦ absurd (let g : none ≡ some ds = rw (z, digits, e, r) at h in cc)
        | inr (rest, r) ↦
            let g : some ((if eqb i 0 then d + 1 else d) ∷ rest) ≡ some ds =
              rw (z, digits, e, r) at h in
            let l : d < 10 = f.below i 10 e in
            let v : (if eqb i 0 then d + 1 else d) ≤ 9 = rw (z) (omega arith) in
            push n _ rest ds v (digits-IsDigits draw (i + 1) n rest f (omega arith) r) (cc)
      ])
    ]

-- The digits of a device id.
abbrev pub IsDeviceId : List ℕ → Type 0
IsDeviceId [] = ⊥
IsDeviceId (d ∷ ds) = (0 < d) × (d ≤ 9) × (length ds ≡ 18) × All (λ e. e ≤ 9) ds

-- An id of a device has nineteen decimal digits, the first of which is not zero, if each draw is below
-- its bound.
pub new_device_id-IsDeviceId :
    (draw : ℕ → ℕ → Option ℕ) (ds : List ℕ)
    → IsFair draw
    → new_device_id draw ≡ some ds
    → IsDeviceId ds
unfolding new_device_id
new_device_id-IsDeviceId draw ds f h = elim (Option-cases (draw 0 9)) [
  | inl e ↦ absurd (let g : none ≡ some ds = rw (e, new_device_id, digits) at h in cc)
  | inr (d, e) ↦ (elim (Option-cases (digits draw 1 18)) [
    | inl r ↦ absurd (let g : none ≡ some ds = rw (e, r, new_device_id, digits) at h in cc)
    | inr (rest, r) ↦
        let g : some ((d + 1) ∷ rest) ≡ some ds = rw (e, r, new_device_id, digits) at h in
        let q : (d + 1) ∷ rest ≡ ds = cc in
        let l : d < 9 = f.below 0 9 e in
        let (x, y) = digits-IsDigits draw 1 18 rest f (omega arith) r in
        subst IsDeviceId q (omega arith, omega arith, x, y)
  ])
]
