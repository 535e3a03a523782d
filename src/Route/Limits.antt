-- ===== src/Route/Limits.antt =====
-- upstream.go buildRoutedIDEBody: the token limits that a request is sent with.
use trae_api.Prelude.{
  ℕ, ◌+◌, ◌≤◌, ◌<◌, ◌-◌, ap, ℤ, pos, negsuc, String, Option, none, some, ◌≡◌, refl, Bool-cases,
  ◌&&◌, ◌⊎◌, inl, inr, arith, ltb, exceeds_ℤ, sub_ℤ, if◌then◌else◌, is_neg, false,
}
use trae_api.Chat.{ChatRequest}
use trae_api.Route.{ModelRoute, asked_limit, cut_limit, final_limit, build_routed_ide_body}

-- The output limit of a body as a number, 0 where it sends none.
abbrev pub output : Option ℤ → ℕ
output (some (pos n)) = n
output _ = 0

-- The limits that a request asks for are not negative.
abbrev pub Asks : ChatRequest → Type 0
Asks r = (is_neg r.max_tokens ≡ false) × (is_neg r.max_completion_tokens ≡ false)

asked_limit-pos :
    (r : ChatRequest) (route : ModelRoute) → Asks r → is_neg (asked_limit r route) ≡ false
unfolding asked_limit
asked_limit-pos r route h = ground (arith, h.0, h.1)

-- A cap of 0 does not cut.
capped : ℕ → ℕ → ℕ
capped cap n = if ltb 0 cap && ltb cap n then cap else n

capped-le :
    (cap n : ℕ) → (capped cap n ≤ n) × (0 < cap → capped cap n ≤ cap) × (0 < n → 0 < capped cap n)
unfolding capped
capped-le cap n = (ground arith, λ h. ground arith, λ h. ground arith)

cut_limit-capped :
    (route : ModelRoute) (n : ℕ)
    → cut_limit route (pos n) ≡ pos (capped route.window (capped route.most n))
unfolding cut_limit capped
cut_limit-capped route n = elim (Bool-cases (ltb 0 route.most && ltb route.most n)) [
  | inl e ↦ rw e (ground arith)
  | inr e ↦ rw e (ground arith)
]

-- What is sent for a route: an output limit that is absent or not 0 and within the route's two
-- bounds, and the rest of the window, all of it, for the prompt.
pub record Bounded (route : ModelRoute) (limit prompt : Option ℤ) : Type 0 where
  pub sent : (limit ≡ none) ⊎ ((limit ≡ some (pos (output limit))) × (0 < output limit))
  pub within_most : 0 < route.most → output limit ≤ route.most
  pub within_window : 0 < route.window → output limit ≤ route.window
  pub rest :
      0 < route.window → (p : ℕ) × (prompt ≡ some (pos p)) × (p + output limit ≡ route.window)

final_cut :
    (route : ModelRoute) (n : ℕ)
    → (if exceeds_ℤ (pos n) 0 then cut_limit route (pos n) else pos n)
      ≡ pos (capped route.window (capped route.most n))
final_cut route n = elim (Bool-cases (ltb 0 n)) [
  | inl e ↦ rw e (cut_limit-capped route n)
  | inr e ↦ rw e (
      ap pos (ground (arith, capped-le route.window (capped route.most n), capped-le route.most n)))
]

is_pos : (z : ℤ) → is_neg z ≡ false → (n : ℕ) × (z ≡ pos n)
is_pos (pos n) h = (n, refl)
is_pos (negsuc n) h = absurd (cc)

record Cut (route : ModelRoute) (n m : ℕ) : Type 0 where
  positive : 0 < n → 0 < m
  below : m ≤ n
  most : 0 < route.most → m ≤ route.most
  window : 0 < route.window → m ≤ route.window

capped-Cut : (route : ModelRoute) (n : ℕ) → Cut route n (capped route.window (capped route.most n))
unfolding capped
capped-Cut route n = record {
  positive = λ h. ground arith;
  below = ground arith;
  most = λ h. ground arith;
  window = λ h. ground arith;
}

Cut-Bounded :
    (route : ModelRoute) (n m : ℕ)
    → Cut route n m
    → Bounded route
        (if ltb 0 n then some (pos m) else none)
        (if ltb 0 route.window then some (sub_ℤ route.window (pos m)) else none)
Cut-Bounded route n m c = elim (Bool-cases (ltb 0 n)) [
  | inl t ↦ rw t (record {
    sent = inr (refl, c.positive (ground arith));
    within_most = c.most;
    within_window = c.window;
    rest = λ h. (route.window - m, ground (arith, c.window h), omega (arith, c.window h));
  })
  | inr t ↦ rw t (record {
    sent = inl refl;
    within_most = λ h. omega arith;
    within_window = λ h. omega arith;
    rest = λ h. (route.window, ground (arith, c.below), omega arith);
  })
]

-- When the limits asked for are not negative, the output limit that is sent is absent or positive
-- and within the route's own bounds, and the prompt is given exactly the rest of the window.
pub build_routed_ide_body-Bounded :
    (r : ChatRequest) (id : String) (route : ModelRoute)
    → Asks r
    → Bounded route
        (build_routed_ide_body r id route).max_tokens
        (build_routed_ide_body r id route).prompt_max_tokens
unfolding build_routed_ide_body final_limit
build_routed_ide_body-Bounded r id route h =
    let (n, e) = is_pos (asked_limit r route) (asked_limit-pos r route h) in
    rw (e, final_cut route n)
      (Cut-Bounded route n (capped route.window (capped route.most n)) (capped-Cut route n))
