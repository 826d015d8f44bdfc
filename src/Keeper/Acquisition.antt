-- ===== src/Keeper/Acquisition.antt =====
-- `decideAcquisition` of keeper/sweeper/src/arbitrage.ts: sweep the cheapest listing, mint a desk, or
-- hold. Lamports and $OTC units are whole numbers; prices are floating-point.
use hubconnect.Base.{
  ℕ, ◌+◌, ◌-◌, ◌*◌, ◌≤◌, ◌<◌, ◌≡◌, refl, Bool, not, ◌&&◌, ◌||◌, Option, none, some, ltb, leb, arith,
  if◌then◌else◌, Bool-cases, inl, inr, ◌⊎◌, pick,
}
use hubconnect.Keeper.Numbers.{Floats}

abbrev pub mint_otc_units : ℕ
mint_otc_units = 100_000 * 1_000_000

abbrev pub mint_sol_lamports : ℕ
mint_sol_lamports = 500_000_000

abbrev pub desk_acquisition_target : ℕ
desk_acquisition_target = 20

pub data AcquisitionPlan : Type 0 where
  sweep : (cost sol_from_reserve otc_to_swap : ℕ) → AcquisitionPlan
  mint : (cost_otc cost_sol : ℕ) → AcquisitionPlan
  hold : AcquisitionPlan

module _ (floats : Floats) where
  open floats use {F, of_ℕ, add, mul, div, lt, ceil}

  pub record Inputs : Type 0 where
    pub floor_listing : Option ℕ
    pub otc_lamports_per_unit : F
    pub treasury_sol : ℕ
    pub treasury_otc : ℕ
    pub sol_reserve_floor : ℕ
    pub desks_owned : ℕ
    pub desk_target : ℕ
    pub mint_otc : ℕ
    pub mint_sol : ℕ
    pub buyer_cost_multiplier : F

  unfoldable pub mint_cost : Inputs → F
  mint_cost i = add (mul (of_ℕ i.mint_otc) i.otc_lamports_per_unit) (of_ℕ i.mint_sol)

  unfoldable pub can_mint_outright : Inputs → Bool
  can_mint_outright i =
      leb i.mint_otc i.treasury_otc && leb (i.sol_reserve_floor + i.mint_sol) i.treasury_sol

  -- Subtraction stops at 0, which is what `Math.max(0, …)` does.
  unfoldable pub sol_available : Inputs → ℕ
  sol_available i = i.treasury_sol - i.sol_reserve_floor

  unfoldable pub cover_by_swap : Inputs → ℕ → ℕ → AcquisitionPlan
  unfolding sol_available
  cover_by_swap i cost units =
      if ltb i.treasury_otc units then hold else sweep cost (sol_available i) units

  unfoldable pub plan_sweep : Inputs → ℕ → AcquisitionPlan
  unfolding cover_by_swap
  plan_sweep i cost =
      if leb cost (sol_available i)
      then sweep cost cost 0
      else cover_by_swap i cost (ceil (div (of_ℕ (cost - sol_available i)) i.otc_lamports_per_unit))

  unfoldable pub plan_mint : Inputs → AcquisitionPlan
  unfolding can_mint_outright
  plan_mint i = if can_mint_outright i then mint i.mint_otc i.mint_sol else hold

  unfoldable pub plan_listing : Inputs → Option ℕ → AcquisitionPlan
  unfolding plan_sweep plan_mint mint_cost
  plan_listing i none = plan_mint i
  plan_listing i (some listing) =
      let cost = ceil (mul (of_ℕ listing) i.buyer_cost_multiplier) in
      if lt (of_ℕ cost) (mint_cost i) || not (can_mint_outright i)
      then plan_sweep i cost
      else plan_mint i

  unfoldable pub decide_acquisition : Inputs → AcquisitionPlan
  unfolding plan_listing
  decide_acquisition i =
      if leb i.desk_target i.desks_owned then hold else plan_listing i i.floor_listing

  -- The least whole number of $OTC units for what the free SOL falls short of the cost.
  abbrev pub shortfall_units : Inputs → ℕ → ℕ
  shortfall_units i cost =
      ceil (div (of_ℕ (cost - (i.treasury_sol - i.sol_reserve_floor))) i.otc_lamports_per_unit)

  -- How a cost is paid: in free SOL alone if that is enough; else with all of it, and with as much $OTC
  -- as the rest is worth, which the treasury has.
  abbrev pub IsPaid : Inputs → (cost sol otc : ℕ) → Type 0
  IsPaid i cost sol otc =
      let free = i.treasury_sol - i.sol_reserve_floor in
      ((cost ≤ free) × (sol ≡ cost) × (otc ≡ 0))
      ⊎ ((free < cost) × (sol ≡ free) × (otc ≡ shortfall_units i cost) × (otc ≤ i.treasury_otc))

  -- Below the target, the desk of the floor listing at its price with the fee, paid as above, or a mint at
  -- the mint's price that leaves the reserve floor.
  abbrev pub IsAffordable : Inputs → AcquisitionPlan → Type 0
  IsAffordable i (sweep cost sol otc) =
      (i.desks_owned < i.desk_target)
      × ((listing : ℕ) × (i.floor_listing ≡ some listing)
          × (cost ≡ ceil (mul (of_ℕ listing) i.buyer_cost_multiplier)))
      × IsPaid i cost sol otc
  IsAffordable i (mint otc sol) =
      (i.desks_owned < i.desk_target)
      × (otc ≡ i.mint_otc)
      × (sol ≡ i.mint_sol)
      × (otc ≤ i.treasury_otc)
      × (sol + i.sol_reserve_floor ≤ i.treasury_sol)
  IsAffordable i hold = Unit

  module _ (i : Inputs) (open_for : i.desks_owned < i.desk_target) where
    module _ (listing : ℕ) (listed : i.floor_listing ≡ some listing) where
      abbrev cost : ℕ
      cost = ceil (mul (of_ℕ listing) i.buyer_cost_multiplier)

      cover_by_swap-IsAffordable :
          sol_available i < cost → IsAffordable i (cover_by_swap i cost (shortfall_units i cost))
      unfolding cover_by_swap sol_available
      cover_by_swap-IsAffordable lt =
          elim (Bool-cases (ltb i.treasury_otc (shortfall_units i cost))) [
            | inl e ↦ rw e tt
            | inr e ↦ rw e (open_for, (listing, listed, refl), inr (lt, refl, refl, ground arith))
          ]

      plan_sweep-IsAffordable : IsAffordable i (plan_sweep i cost)
      unfolding plan_sweep sol_available
      plan_sweep-IsAffordable = elim (Bool-cases (leb cost (sol_available i))) [
        | inl e ↦ rw e (open_for, (listing, listed, refl), inl (ground arith, refl, refl))
        | inr e ↦ rw e (cover_by_swap-IsAffordable (ground arith))
      ]

    plan_mint-IsAffordable : IsAffordable i (plan_mint i)
    unfolding plan_mint can_mint_outright
    plan_mint-IsAffordable = elim (Bool-cases (can_mint_outright i)) [
      | inl e ↦ rw e (open_for, refl, refl, ground arith, ground arith)
      | inr e ↦ rw e tt
    ]

    plan_listing-IsAffordable :
        (listing : Option ℕ) → i.floor_listing ≡ listing → IsAffordable i (plan_listing i listing)
    unfolding plan_listing
    plan_listing-IsAffordable none l = plan_mint-IsAffordable
    plan_listing-IsAffordable (some listing) l =
        pick (IsAffordable i)
          (lt (of_ℕ (ceil (mul (of_ℕ listing) i.buyer_cost_multiplier))) (mint_cost i)
            || not (can_mint_outright i))
          (λ _. plan_sweep-IsAffordable listing l) (λ _. plan_mint-IsAffordable)

  -- Whatever the prices, a decision to sweep or mint is only made below the desk target. A sweep is of the
  -- floor listing, at its price with the fee: free SOL above the reserve floor alone pays it if that is
  -- enough, and then no $OTC is swapped; else all free SOL is used, with as much $OTC as the shortfall is
  -- worth, rounded up, which the treasury has. A mint is at the mint's price, which the treasury has in
  -- $OTC, and in SOL above the floor.
  pub decide_acquisition-IsAffordable : (i : Inputs) → IsAffordable i (decide_acquisition i)
  unfolding decide_acquisition
  decide_acquisition-IsAffordable i = elim (Bool-cases (leb i.desk_target i.desks_owned)) [
    | inl e ↦ rw e tt
    | inr e ↦ rw e (plan_listing-IsAffordable i (ground arith) i.floor_listing refl)
  ]
