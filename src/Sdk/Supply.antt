-- ===== src/Sdk/Supply.antt =====
-- sdk/src/constants.ts and reader.ts: how the supply of $HUB is broken down.
use hubconnect.Base.{
  ℕ, ◌+◌, ◌-◌, ◌*◌, ◌/◌, ◌≤◌, ◌≡◌, ◌≢◌, ◌⊎◌, Bool, true, false, not, ltb, le→leb, leb, ◌==◌,
  if◌then◌else◌, Option, none, some, arith,
}
use hubconnect.Base.Int.{ℤ, pos, pos_part, ◌-ℤ◌, ltb_ℤ}
use hubconnect.Sdk.Constants.{bps, hub_max_supply_units}

pub record SupplyBreakdown : Type 0 where
  pub max_units : ℤ
  pub burned_units : ℕ
  pub locked_units : ℕ
  pub circulating_units : ℕ
  pub burn_pct_of_circulating_bp : Option ℕ
  pub burn_pct_of_max_bp : ℕ

-- Below 0 counts as 0.
unfoldable pub clamp_non_neg : ℤ → ℕ
clamp_non_neg v = pos_part v

unfoldable pub supply_breakdown : ℤ → ℤ → ℤ → SupplyBreakdown
supply_breakdown burned_in locked_in max =
    let burned = clamp_non_neg (if ltb_ℤ max burned_in then max else burned_in) in
    let locked = clamp_non_neg locked_in in
    let circulating = clamp_non_neg (max -ℤ pos burned -ℤ pos locked) in
    record {
      max_units = max;
      burned_units = burned;
      locked_units = locked;
      circulating_units = circulating;
      burn_pct_of_circulating_bp =
          if ltb 0 circulating then some (burned * bps / circulating) else none;
      burn_pct_of_max_bp = if ltb_ℤ (pos 0) max then burned * bps / pos_part max else 0;
    }

pub record MintState : Type 0 where
  pub supply_units : ℕ
  pub decimals : ℕ

-- What is read of the token: its mint, if there is one, and what its locked accounts hold.
pub record HubTokenState : Type 0 where
  pub mint : Option MintState
  pub locked_units : ℕ

pub record SupplyView : Type 0 where
  pub breakdown : SupplyBreakdown
  pub mint_supply_units : Option ℕ
  pub view_decimals : ℕ
  pub ledger_burned_units : ℕ
  pub ledger_drift : Bool

abbrev mint_supply : Option MintState → Option ℕ
mint_supply none = none
mint_supply (some m) = some m.supply_units

abbrev mint_decimals : Option MintState → ℕ
mint_decimals none = 6
mint_decimals (some m) = m.decimals

-- The mint proves what was burned, unless it is missing or above the maximum.
unfoldable pub burned_of : Option ℕ → ℕ → ℕ
burned_of none ledger = ledger
burned_of (some supply) ledger =
    if leb supply hub_max_supply_units then hub_max_supply_units - supply else ledger

abbrev drifts : Option ℕ → ℕ → ℕ → Bool
drifts none burned ledger = false
drifts (some _) burned ledger = not (burned == ledger)

unfoldable pub to_supply_view : HubTokenState → ℕ → ℕ → SupplyView
to_supply_view token ledger lp_deposited =
    let supply = mint_supply token.mint in
    let burned = burned_of supply ledger in
    record {
      breakdown =
          supply_breakdown (pos burned) (pos (token.locked_units + lp_deposited))
            (pos hub_max_supply_units);
      mint_supply_units = supply;
      view_decimals = mint_decimals token.mint;
      ledger_burned_units = ledger;
      ledger_drift = drifts supply burned ledger;
    }

pub breakdown_parts :
    (burned locked max : ℕ)
    → let b = supply_breakdown (pos burned) (pos locked) (pos max) in
      (b.burned_units ≤ burned)
      × (b.burned_units ≤ max)
      × (b.locked_units ≡ locked)
      × (b.circulating_units ≡ max - b.burned_units - locked)
unfolding supply_breakdown clamp_non_neg ◌-ℤ◌
breakdown_parts burned locked max = ground arith

breakdown_burned :
    (burned locked max : ℕ)
    → burned ≤ max
    → (supply_breakdown (pos burned) (pos locked) (pos max)).burned_units ≡ burned
unfolding supply_breakdown clamp_non_neg
breakdown_burned burned locked max h = ground arith

-- Where the mint is read with a supply up to the maximum and no more is locked than there is, the
-- burned, locked and circulating units make the maximum, what circulates is the mint's supply less
-- what is locked, and the view shows a drift exactly if the ledger disagrees with the mint.
supply_from_mint :
    (token : HubTokenState) (m : MintState) (ledger lp : ℕ)
    → token.mint ≡ some m
    → m.supply_units ≤ hub_max_supply_units
    → token.locked_units + lp ≤ m.supply_units
    → let v = to_supply_view token ledger lp in
      let b = v.breakdown in
      (b.burned_units + b.locked_units + b.circulating_units ≡ hub_max_supply_units)
      × (b.locked_units + b.circulating_units ≡ m.supply_units)
      × ((v.ledger_drift ≡ true) ⊎ (m.supply_units + ledger ≡ hub_max_supply_units))
      × ((v.ledger_drift ≡ false) ⊎ (m.supply_units + ledger ≢ hub_max_supply_units))
unfolding to_supply_view burned_of
supply_from_mint token m ledger lp e h l =
    rw (e, le→leb m.supply_units hub_max_supply_units h)
      (let burned = hub_max_supply_units - m.supply_units in
        let parts = breakdown_parts burned (token.locked_units + lp) hub_max_supply_units in
        let whole =
          breakdown_burned burned (token.locked_units + lp) hub_max_supply_units (omega arith) in
        (omega arith, omega arith, ground arith, ground arith))
