-- ===== src/Curve/Reserves.antt =====
-- The curve's stored state and its constant-product arithmetic (computeBuy, computeSell,
-- progressBp and the spot price of web/workers/bonding-curve.ts). Virtual reserves never go below
-- zero; the two running totals are signed, since a sale may take more than was raised.
pub mod Product
pub mod RoundTrip
use hubconnect.Base.{ℕ, ◌+◌, ◌-◌, ◌*◌, ◌/◌, ◌^◌, Bool, Option, String, ltb, ◌==◌, if◌then◌else◌}
use hubconnect.Base.Int.{ℤ, pos_part, neg_part, pos, negsuc}
use hubconnect.Curve.Config.{graduation_target_lamports, hub_decimals}

pub record CurveState : Type 0 where
  pub virtual_sol : ℕ
  pub virtual_hub : ℕ
  pub real_sol_raised : ℤ
  pub real_hub_sold : ℤ
  pub graduated : Bool
  pub pool_address : Option String
  pub graduated_at : Option ℕ
  pub created_at : ℕ

pub record Fill : Type 0 where
  pub out : ℕ
  pub new_sol : ℕ
  pub new_hub : ℕ

unfoldable pub compute_buy : CurveState → ℕ → Fill
compute_buy state sol_in =
    let k = state.virtual_sol * state.virtual_hub in
    let new_sol = state.virtual_sol + sol_in in
    let new_hub = k / new_sol in
    record { out = state.virtual_hub - new_hub; new_sol = new_sol; new_hub = new_hub }

unfoldable pub compute_sell : CurveState → ℕ → Fill
compute_sell state hub_in =
    let k = state.virtual_sol * state.virtual_hub in
    let new_hub = state.virtual_hub + hub_in in
    let new_sol = k / new_hub in
    record { out = state.virtual_sol - new_sol; new_sol = new_sol; new_hub = new_hub }

-- `bigint` division rounds towards zero.
abbrev div_trunc : ℤ → ℕ → ℤ
div_trunc (pos n) d = pos (n / d)
div_trunc (negsuc n) d = let q = (n + 1) / d in if q == 0 then pos 0 else negsuc (q - 1)

abbrev scale : ℤ → ℕ → ℤ
scale (pos n) m = pos (n * m)
scale (negsuc n) m = if m == 0 then pos 0 else negsuc ((n + 1) * m - 1)

cap_bp : ℤ → ℤ
cap_bp (pos bp) = if ltb 10_000 bp then pos 10_000 else pos bp
cap_bp (negsuc bp) = negsuc bp

unfoldable pub progress_bp : CurveState → ℤ
unfolding cap_bp
progress_bp state =
    cap_bp (div_trunc (scale state.real_sol_raised 10_000) graduation_target_lamports)

-- Lamports for a whole $HUB.
unfoldable pub spot_price : CurveState → ℕ
spot_price state =
    if state.virtual_hub == 0 then 0 else state.virtual_sol * 10 ^ hub_decimals / state.virtual_hub
