-- ===== src/Web/CpSwap/Loss.antt =====
-- A trade with the pool and its reverse, by the quotes.
use native.Mathlib.Nat.{mul-add, mul-le-mul_right, le_trans}
use hubconnect.Base.{
  ℕ, ◌+◌, ◌-◌, ◌*◌, ◌/◌, ◌≤◌, ◌<◌, ◌≡◌, ap, ◌∙◌, ◌==◌, ◌||◌, pick, if◌then◌else◌, arith,
}
use hubconnect.Base.Division.{div_bounds, div-le_of_le_mul}
use hubconnect.Web.CpSwap.{Side, buy, sell, CpSwapReserves, reserve_out, after_fee, quote_cp_swap}

-- The reserves once a quote was paid.
abbrev pub traded : Side → ℕ → ℕ → CpSwapReserves → CpSwapReserves
traded buy amount out r = record {
  hub_reserve = r.hub_reserve - out;
  sol_reserve = r.sol_reserve + amount;
}
traded sell amount out r = record {
  hub_reserve = r.hub_reserve + amount;
  sol_reserve = r.sol_reserve - out;
}

abbrev pub reverse : Side → Side
reverse buy = sell
reverse sell = buy

-- A quote by the reserves of the input and of the output.
abbrev quoted : ℕ → ℕ → ℕ → ℕ
quoted i o x =
    if i == 0 || o == 0 || x == 0
    then 0
    else if after_fee x == 0
    then 0
    else after_fee x * o / (i + after_fee x)

-- A quote is no more than what its input is worth in the reserves that it leaves.
division_fair :
    (i o x f : ℕ) → f ≤ x → 0 < i → let q = f * o / (i + f) in (q ≤ o) × (q * i ≤ x * (o - q))
division_fair i o x f less some_in =
    let q = f * o / (i + f) in
    let (low, _) = div_bounds (f * o) (i + f) (omega arith) in
    let within : q ≤ o = div-le_of_le_mul (f * o) (i + f) o (omega arith) (grind arith) in
    let parts : f * o ≡ f * (o - q) + f * q = ap (λ n. f * n) (omega arith) ∙ mul-add f (o - q) q in
    let wider : f * (o - q) ≤ x * (o - q) = mul-le-mul_right (o - q) less in (within, grind arith)

-- What is worth at most an amount in the reserves is quoted at most that.
division_bound : (i o f w : ℕ) → 0 < i → f * o ≤ w * i → f * (o + w) / (i + f) ≤ w
division_bound i o f w some_in h =
    div-le_of_le_mul (f * (o + w)) (i + f) w (omega arith) (grind arith)

after_fee_bound : (x : ℕ) → after_fee x ≤ x
after_fee_bound x = omega arith

quoted_fair : (i o x : ℕ) → let q = quoted i o x in (q ≤ o) × (q * i ≤ x * (o - q))
quoted_fair i o x =
    pick (λ q. (q ≤ o) × (q * i ≤ x * (o - q))) (i == 0 || o == 0 || x == 0)
      (λ _. (omega arith, omega arith))
      (λ e.
        pick (λ q. (q ≤ o) × (q * i ≤ x * (o - q))) (after_fee x == 0)
          (λ _. (omega arith, omega arith))
          (λ _. division_fair i o x (after_fee x) (after_fee_bound x) (ground (arith, e))))

quoted_bound : (i o w x : ℕ) → x * o ≤ w * i → quoted i (o + w) x ≤ w
quoted_bound i o w x h =
    pick (λ q. q ≤ w) (i == 0 || o + w == 0 || x == 0) (λ _. omega arith)
      (λ e.
        pick (λ q. q ≤ w) (after_fee x == 0) (λ _. omega arith)
          (λ _.
            division_bound i o (after_fee x) w (ground (arith, e))
              (le_trans (mul-le-mul_right o (after_fee_bound x)) h)))

-- Whatever the reserves and the amount, who trades it for its quote and trades the quote back at
-- once, is quoted no more than the amount: in both directions.
pub round_trip_bounded :
    (side : Side) (x : ℕ) (r : CpSwapReserves)
    → let q = quote_cp_swap side x r in
      (q ≤ reserve_out side r) × (quote_cp_swap (reverse side) q (traded side x q r) ≤ x)
unfolding quote_cp_swap
round_trip_bounded buy x r =
    let (within, fair) = quoted_fair r.sol_reserve r.hub_reserve x in
    (within, quoted_bound _ r.sol_reserve x _ fair)
round_trip_bounded sell x r =
    let (within, fair) = quoted_fair r.hub_reserve r.sol_reserve x in
    (within, quoted_bound _ r.hub_reserve x _ fair)
