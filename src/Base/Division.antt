-- ===== src/Base/Division.antt =====
-- Division with the remainder dropped.
use native.Mathlib.Nat.{le_of_mul-le-mul_right}
use hubconnect.Base.{ap, ℕ, ◌+◌, ◌*◌, ◌/◌, ◌≤◌, ◌<◌, ◌≡◌, List, [], ◌∷◌, arith, length}

pub div_bounds : (k d : ℕ) → 0 < d → (k / d * d ≤ k) × (k < k / d * d + d)
div_bounds k d h = grind arith

pub div-le_of_le_mul : (k d b : ℕ) → 0 < d → k ≤ b * d → k / d ≤ b
div-le_of_le_mul k d b h p = grind arith

pub div_antitone : (k c d : ℕ) → 0 < c → c ≤ d → k / d ≤ k / c
div_antitone k c d h p = grind (arith, div_bounds k c h, div_bounds k d)

abbrev pub sum : List ℕ → ℕ
sum [] = 0
sum (x ∷ xs) = x + sum xs

-- What each weight gets of an amount that is split over a total.
abbrev pub shares : ℕ → ℕ → List ℕ → List ℕ
shares amount total [] = []
shares amount total (w ∷ ws) = (amount * w / total) ∷ shares amount total ws

shares_scaled :
    (amount total : ℕ) (ws : List ℕ)
    → 0 < total
    → (sum (shares amount total ws) * total ≤ amount * sum ws)
      × (amount * sum ws ≤ sum (shares amount total ws) * total + length ws * total)
shares_scaled amount total [] h = (omega arith, omega arith)
shares_scaled amount total (w ∷ ws) h =
    let ih = shares_scaled amount total ws h in
    let b = div_bounds (amount * w) total h in (grind arith, grind arith)

-- The shares of all weights stay within the amount, and miss it by at most one unit each.
pub shares_bounds :
    (amount total : ℕ) (ws : List ℕ)
    → 0 < total
    → sum ws ≡ total
    → (sum (shares amount total ws) ≤ amount) × (amount ≤ sum (shares amount total ws) + length ws)
shares_bounds amount total ws h e =
    let s = shares_scaled amount total ws h in
    let whole : amount * sum ws ≡ amount * total = ap (λ n. amount * n) e in
    (
      le_of_mul-le-mul_right {k = total} (omega arith) h,
      le_of_mul-le-mul_right {k = total} (grind arith) h,
    )
