-- ===== src/Sdk/Plan.antt =====
-- sdk/src/constants.ts: the plan of the supply for a count of desks. The labels of the slices, which
-- are shown only, are left out.
use hubconnect.Base.{
  ℕ, ◌+◌, ◌-◌, ◌*◌, ◌/◌, ◌≤◌, ◌<◌, ◌≡◌, ◌≢◌, ◌⊎◌, inl, inr, refl, Bool, true, false, ltb, ltb→lt,
  ltb→ge, eq-false, ◌==◌, if◌then◌else◌, Option, none, some, List, [], ◌∷◌, arith, Bool-cases,
}
use hubconnect.Base.Int.{ℤ, pos, pos_part, sub_ℕ, ◌+ℤ◌}
use hubconnect.Sdk.Constants.{
  bps, hub_max_supply_units, airdrop_per_desk_units, airdrop_desk_cap, yield_reserve_bp,
  treasury_lock_bp, team_allocation_bp,
}

pub data SliceId : Type 0 where
  public_curve yield_reserve lp_reserve desk_airdrop team : SliceId

pub record AllocationSlice : Type 0 where
  pub id : SliceId
  pub units : ℕ
  pub bp : ℤ

pub record TokenomicsPlan : Type 0 where
  pub max_units : ℕ
  pub desk_count : ℤ
  pub airdrop_per_desk : ℕ
  pub airdrop_eligible_desk_count : ℕ
  pub desk_cap : ℕ
  pub airdrop_capped : Bool
  pub slices : List AllocationSlice
  pub airdrop_units : ℕ
  pub treasury_lock_units : ℕ
  pub yield_reserve_units : ℕ
  pub lp_units : ℕ
  pub team_units : ℕ
  pub public_units : ℕ
  pub over_allocated : Bool

-- The options that a caller may leave out.
pub record PlanOptions : Type 0 where
  pub max_units? : Option ℕ
  pub airdrop_per_desk? : Option ℕ
  pub treasury_lock_bp? : Option ℕ
  pub team_bp? : Option ℕ
  pub airdrop_desk_cap? : Option ℕ

abbrev pub or_default : Option ℕ → ℕ → ℕ
or_default none d = d
or_default (some v) d = v

abbrev pub min_of : ℕ → ℕ → ℕ
min_of a b = if ltb b a then b else a

-- `Math.round` of the quotient: a half is rounded up.
unfoldable pub round_div : ℕ → ℕ → ℕ
round_div a b = (2 * a + b) / (2 * b)

-- The body of `tokenomicsPlan`, the options with their defaults put in.
unfoldable pub plan_of : ℤ → ℕ → ℕ → ℕ → ℕ → ℕ → TokenomicsPlan
plan_of desk_count max per_desk lock_bp team_bp cap =
    let clamped = pos_part desk_count in
    let eligible = min_of clamped cap in
    let airdrop = eligible * per_desk in
    let yield_bp = round_div (lock_bp * yield_reserve_bp) treasury_lock_bp in
    let lp_bp = lock_bp - yield_bp in
    let yield_units = max * yield_bp / bps in
    let lp_units = max * lp_bp / bps in
    let lock_units = yield_units + lp_units in
    let team_units = max * team_bp / bps in
    let carved = airdrop + lock_units + team_units in
    let over = ltb max carved in
    let public_units = if over then 0 else max - carved in
    let airdrop_bp = airdrop * bps / max in
    let public_bp = if over then pos 0 else sub_ℕ bps (airdrop_bp + lock_bp + team_bp) in
    record {
      max_units = max;
      desk_count = desk_count;
      airdrop_per_desk = per_desk;
      airdrop_eligible_desk_count = eligible;
      desk_cap = cap;
      airdrop_capped = ltb cap clamped;
      slices =
          record { id = public_curve; units = public_units; bp = public_bp }
          ∷ record { id = yield_reserve; units = yield_units; bp = pos yield_bp }
          ∷ record { id = lp_reserve; units = lp_units; bp = pos lp_bp }
          ∷ record { id = desk_airdrop; units = airdrop; bp = pos airdrop_bp }
          ∷ record { id = team; units = team_units; bp = pos team_bp }
          ∷ [];
      airdrop_units = airdrop;
      treasury_lock_units = lock_units;
      yield_reserve_units = yield_units;
      lp_units = lp_units;
      team_units = team_units;
      public_units = public_units;
      over_allocated = over;
    }

abbrev pub max_of : PlanOptions → ℕ
max_of opts = or_default opts.max_units? hub_max_supply_units

unfoldable pub plan_with : ℤ → PlanOptions → TokenomicsPlan
plan_with desk_count opts =
    plan_of desk_count (max_of opts) (or_default opts.airdrop_per_desk? airdrop_per_desk_units)
      (or_default opts.treasury_lock_bp? treasury_lock_bp)
      (or_default opts.team_bp? team_allocation_bp)
      (or_default opts.airdrop_desk_cap? airdrop_desk_cap)

-- `none` where the source throws: it divides by the maximum.
unfoldable pub tokenomics_plan : ℤ → PlanOptions → Option TokenomicsPlan
tokenomics_plan desk_count opts =
    if max_of opts == 0 then none else some (plan_with desk_count opts)

abbrev pub slice_units : List AllocationSlice → ℕ
slice_units [] = 0
slice_units (s ∷ ss) = s.units + slice_units ss

abbrev pub slice_bp : List AllocationSlice → ℤ
slice_bp [] = pos 0
slice_bp (s ∷ ss) = s.bp +ℤ slice_bp ss

-- The reserve of the lock's share for yield is no more than the lock.
yield_bp-le : (lock : ℕ) → round_div (lock * yield_reserve_bp) treasury_lock_bp ≤ lock
unfolding round_div
yield_bp-le lock = omega arith

-- The slices are the whole supply, and their shares all of it, or the plan says that it gives out
-- more than there is and leaves the public nothing.
abbrev pub Allots : TokenomicsPlan → Type 0
Allots p =
    ((p.over_allocated ≡ false)
      × (slice_units p.slices ≡ p.max_units)
      × (slice_bp p.slices ≡ pos bps))
    ⊎ ((p.over_allocated ≡ true) × (p.public_units ≡ 0) × (p.max_units < slice_units p.slices))

shares_of_bps :
    (a y l t : ℕ)
    → y ≤ l
    → sub_ℕ bps (a + l + t) +ℤ (pos y +ℤ (pos (l - y) +ℤ (pos a +ℤ (pos t +ℤ pos 0)))) ≡ pos bps
unfolding ◌+ℤ◌
shares_of_bps a y l t h = ground arith

plan_of-Allots :
    (d : ℤ) (max per_desk lock_bp team_bp cap : ℕ)
    → Allots (plan_of d max per_desk lock_bp team_bp cap)
unfolding plan_of
plan_of-Allots d max per_desk lock_bp team_bp cap =
    let yield_bp = round_div (lock_bp * yield_reserve_bp) treasury_lock_bp in
    let airdrop = min_of (pos_part d) cap * per_desk in
    let lock_units = max * yield_bp / bps + max * (lock_bp - yield_bp) / bps in
    let carved = airdrop + lock_units + max * team_bp / bps in
    elim (Bool-cases (ltb max carved)) [
      | inl over ↦ inr (rw over (refl, refl, omega (arith, ltb→lt max carved over)))
      | inr fits ↦ inl (
          rw fits (
            refl,
            omega (arith, ltb→ge max carved fits),
            shares_of_bps (airdrop * bps / max) yield_bp lock_bp team_bp (yield_bp-le lock_bp),
          ))
    ]

-- For every maximum but 0 there is a plan, and its slices are the whole supply and its shares all
-- of it, or it says that it gives out more than there is and leaves the public nothing.
pub tokenomics_plan-Allots :
    (d : ℤ) (opts : PlanOptions)
    → max_of opts ≢ 0
    → (p : TokenomicsPlan) × (tokenomics_plan d opts ≡ some p) × Allots p
unfolding tokenomics_plan plan_with
tokenomics_plan-Allots d opts h =
    (plan_with d opts, rw (eq-false (max_of opts) 0 h) refl, plan_of-Allots d _ _ _ _ _)

-- The launch plan, for which no option is given.
abbrev pub launch : PlanOptions
launch = record {
  max_units? = none;
  airdrop_per_desk? = none;
  treasury_lock_bp? = none;
  team_bp? = none;
  airdrop_desk_cap? = none;
}

-- By the launch plan no count of desks gives out more than there is: the airdrop takes at most a
-- fortieth of the supply, and at least 95 of 100 units stay public.
pub launch-within :
    (d : ℤ)
    → (p : TokenomicsPlan) × (tokenomics_plan d launch ≡ some p)
      × (p.over_allocated ≡ false)
      × (p.airdrop_units * 40 ≤ hub_max_supply_units)
      × (hub_max_supply_units * 95 ≤ p.public_units * 100)
unfolding tokenomics_plan plan_with plan_of round_div
launch-within d = (
  plan_of d hub_max_supply_units airdrop_per_desk_units treasury_lock_bp team_allocation_bp
      airdrop_desk_cap,
  refl,
  ground arith,
  ground arith,
  ground arith,
)
