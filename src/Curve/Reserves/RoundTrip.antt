-- ===== src/Curve/Reserves/RoundTrip.antt =====
-- A buy followed at once by the sale of what it bought.
use hubconnect.Base.{ℕ, ◌+◌, ◌-◌, ◌*◌, ◌≤◌, ◌<◌, ◌≡◌, ap, arith}
use hubconnect.Curve.Reserves.{CurveState, Fill, compute_buy, compute_sell}
use hubconnect.Curve.Reserves.Product.{buy_product, sell_product}

le_of_mul_le : (a b c : ℕ) → 0 < c → a * c ≤ b * c → a ≤ b
le_of_mul_le a b c h p = grind arith

-- The gain of a round trip, on the reserves alone: `vs`, `vh` before, `ns`, `nh` between, `gs` after.
gain_bounds :
    (vs vh ns nh gs : ℕ)
    → 0 < vh
    → ns * nh ≤ vs * vh
    → vs * vh < ns * nh + ns
    → gs * vh ≤ ns * nh
    → ns * nh < gs * vh + vh
    → (gs ≤ vs) × ((vs - gs) * vh < ns + vh)
gain_bounds vs vh ns nh gs h p q r t =
    let le = le_of_mul_le gs vs vh h (omega arith) in
    let gain = vs - gs in
    let e : vs ≡ gs + gain = omega arith in
    let m : vs * vh ≡ (gs + gain) * vh = ap (λ (n : ℕ). n * vh) e in (le, omega arith)

-- The state that a fill leaves, as far as prices depend on it.
abbrev pub refill : CurveState → Fill → CurveState
refill s f = record s { virtual_sol = f.new_sol; virtual_hub = f.new_hub }

-- Selling at once what a buy paid out returns at least the deposit: rounding favours the trader.
-- The gain times the $HUB reserve stays below the sum of the SOL and the $HUB reserve.
pub buy_then_sell :
    (s : CurveState) (sol_in : ℕ)
    → 0 < s.virtual_sol
    → 0 < s.virtual_hub
    → let f = compute_buy s sol_in in
      let g = compute_sell (refill s f) f.out in
      (g.new_hub ≡ s.virtual_hub)
      × (sol_in ≤ g.out)
      × ((g.out - sol_in) * s.virtual_hub < f.new_sol + s.virtual_hub)
buy_then_sell s sol_in hs hh =
    let f = compute_buy s sol_in in
    let g = compute_sell (refill s f) f.out in
    let b = buy_product s sol_in (omega arith) in
    let c = sell_product (refill s f) f.out (omega arith) in
    let back : g.new_hub ≡ s.virtual_hub = omega arith in
    let (le, gain) =
      gain_bounds s.virtual_sol s.virtual_hub f.new_sol f.new_hub g.new_sol hh (omega arith)
        (omega arith) (rw back at (c.2)) (rw back at (c.3)) in
    let e : g.out - sol_in ≡ s.virtual_sol - g.new_sol = omega arith in
    (back, omega arith, rw e gain)
