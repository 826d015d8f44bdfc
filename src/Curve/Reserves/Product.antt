-- ===== src/Curve/Reserves/Product.antt =====
-- What one trade does to the product of the reserves, and how its output depends on the input.
use hubconnect.Base.{ℕ, ◌+◌, ◌*◌, ◌≤◌, ◌<◌, ◌≡◌, arith}
use hubconnect.Base.Division.{div_bounds, div-le_of_le_mul, div_antitone}
use hubconnect.Curve.Reserves.{CurveState, compute_buy, compute_sell}

-- A buy adds its input to the SOL side and takes its output from the $HUB side, and the product of
-- the reserves falls by less than the new SOL reserve and never rises.
pub buy_product :
    (s : CurveState) (sol_in : ℕ)
    → 0 < s.virtual_sol + sol_in
    → let f = compute_buy s sol_in in
      let k = s.virtual_sol * s.virtual_hub in
      (f.new_sol ≡ s.virtual_sol + sol_in)
      × (f.new_hub + f.out ≡ s.virtual_hub)
      × (f.new_sol * f.new_hub ≤ k)
      × (k < f.new_sol * f.new_hub + f.new_sol)
unfolding compute_buy
buy_product s sol_in h =
    let vs = s.virtual_sol in
    let vh = s.virtual_hub in
    let k = vs * vh in
    let b = div_bounds k (vs + sol_in) h in
    let fits = div-le_of_le_mul k (vs + sol_in) vh h (grind arith) in
    (omega arith, omega arith, omega arith, omega arith)

-- A sale is the mirror image: the product falls by less than the new $HUB reserve and never rises.
pub sell_product :
    (s : CurveState) (hub_in : ℕ)
    → 0 < s.virtual_hub + hub_in
    → let f = compute_sell s hub_in in
      let k = s.virtual_sol * s.virtual_hub in
      (f.new_hub ≡ s.virtual_hub + hub_in)
      × (f.new_sol + f.out ≡ s.virtual_sol)
      × (f.new_sol * f.new_hub ≤ k)
      × (k < f.new_sol * f.new_hub + f.new_hub)
unfolding compute_sell
sell_product s hub_in h =
    let vs = s.virtual_sol in
    let vh = s.virtual_hub in
    let k = vs * vh in
    let b = div_bounds k (vh + hub_in) h in
    let fits = div-le_of_le_mul k (vh + hub_in) vs h (grind arith) in
    (omega arith, omega arith, omega arith, omega arith)

-- Against non-empty reserves a positive deposit buys at least one base unit, and more SOL never
-- buys less $HUB.
buy_mono :
    (s : CurveState) (a b : ℕ)
    → 0 < s.virtual_sol
    → 0 < s.virtual_hub
    → 0 < a
    → a ≤ b
    → (0 < (compute_buy s a).out) × ((compute_buy s a).out ≤ (compute_buy s b).out)
unfolding compute_buy
buy_mono s a b hs hh pa le =
    let vs = s.virtual_sol in
    let vh = s.virtual_hub in
    let k = vs * vh in
    let anti = div_antitone k (vs + a) (vs + b) (omega arith) (omega arith) in
    let d = div_bounds k (vs + a) (omega arith) in (grind arith, omega arith)
