-- ===== src/Sdk/Rounds.antt =====
-- sdk/src/reader.ts: the open round, as the program will close it. Amounts are numbers below 2^53,
-- and so are their products with basis points: there the source's divisions are exact.
use hubconnect.Base.{
  ℕ, zero, suc, ◌||◌, ◌+◌, ◌-◌, ◌*◌, ◌/◌, ◌<◌, ◌≡◌, ◌↔◌, Bool, true, false, not, ◌&&◌, ltb, leb,
  ◌==◌, if◌then◌else◌, arith,
}
use hubconnect.Base.Int.{ℤ, pos, negsuc, sub_ℕ}
use hubconnect.Sdk.Constants.{bps, acc_scale}
use hubconnect.Sdk.Tiers.{weight_bp}
use hubconnect.Sdk.Views.{ConfigView, EpochView}

unfoldable pub dust_carry_lamports : ConfigView → ℕ
dust_carry_lamports c = c.dust_scaled / acc_scale

unfoldable pub effective_inflow_lamports : EpochView → ConfigView → ℕ
effective_inflow_lamports e c = e.inflow_lamports + dust_carry_lamports c

unfoldable pub can_finalize : EpochView → ConfigView → Bool
can_finalize e c =
    not e.finalized
    && ltb 0 c.total_weight_bp
    && leb c.min_pot_threshold_lamports (effective_inflow_lamports e c)

-- The subtraction stops at 0, as `Math.max(0, …)` does.
unfoldable pub lamports_to_threshold : EpochView → ConfigView → ℕ
lamports_to_threshold e c = c.min_pot_threshold_lamports - effective_inflow_lamports e c

-- `Math.floor(inflow * bp / BPS)`
unfoldable pub bp_of : ℕ → ℕ → ℕ
bp_of amount bp = amount * bp / bps

-- `Math.floor(v * w / total)`, which rounds down also below 0.
abbrev pub floor_share : ℤ → ℕ → ℕ → ℤ
floor_share (pos n) w total = pos (n * w / total)
floor_share (negsuc n) zero total = pos 0
floor_share (negsuc n) (suc w) total = negsuc ((suc n * suc w - 1) / total)

unfoldable pub project_round_yield : EpochView → ℕ → ℕ → ℕ → ℕ → ℕ → ℤ
project_round_yield e tier total_weight burn_bp lp_bp float_bp =
    let w = weight_bp tier in
    let inflow = e.inflow_lamports in
    let swapped = bp_of inflow burn_bp + bp_of inflow lp_bp + bp_of inflow float_bp in
    if w == 0 || total_weight == 0 then pos 0 else floor_share (sub_ℕ inflow swapped) w total_weight

-- The round can be closed exactly if it is open, some weight is active and no lamport is missing.
pub can_finalize_iff :
    (e : EpochView) (c : ConfigView)
    → (can_finalize e c ≡ true)
      ↔ ((e.finalized ≡ false) × (0 < c.total_weight_bp) × (lamports_to_threshold e c ≡ 0))
unfolding can_finalize lamports_to_threshold
can_finalize_iff e c = ground arith
