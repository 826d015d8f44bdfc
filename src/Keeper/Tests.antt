-- ===== src/Keeper/Tests.antt =====
-- Cycles of the keepers at concrete inputs.
use hubconnect.Base.{
  Option, ℕ, ◌*◌, ◌/◌, ltb, All, ◌+◌, ◌≤◌, ◌<◌, ◌≡◌, refl, true, false, none, some, [], ◌∷◌, arith,
}
use hubconnect.Base.Int.{pos}
use hubconnect.Keeper.Basket.{
  sales, swap_stocks, RotationStock, stock_aapl, stock_otc, StockBalance, IsSwap, sum_sol, otc,
  crclx, nvdax, spcxx, plan_basket_consolidation, plan_basket_consolidation-IsSwap,
}
use hubconnect.Keeper.Numbers.{Floats}
use hubconnect.Keeper.CreatorFee.{FeeState}
use hubconnect.Keeper.Acquisition.{
  Inputs, IsAffordable, sweep, decide_acquisition, plan_listing, plan_sweep, cover_by_swap,
  sol_available, mint_cost, desk_acquisition_target, mint_otc_units, mint_sol_lamports,
  decide_acquisition-IsAffordable,
}
use hubconnect.Keeper.OtcBuy.Record.{
  UnresolvedSwap, find_unresolved_swap, walk_back, append_journal,
}
use hubconnect.Keeper.OtcBuy.Cycle.{
  Node, World, swapped, record_threw, amount_to_swap, run_cycle, note_swap,
}
use hubconnect.Keeper.OtcBuy.Resume.{Fronts, run_cycle-Fronts, run_cycle_resumes}
use hubconnect.Keeper.OtcBuy.Recovery.{
  Ready, AfterRecord, resumed_until_recorded, stopped_then_fronts,
}

-- A node on which every check passes.
abbrev node : Node
node = record {
  keeper_key = "keeper";
  is_dry_run = false;
  max_swap = 2_000_000_000;
  balance = some 1_040_000_000;
  paused = some false;
  sealed = some true;
  otc_pot = some (some (record { authority = "keeper"; otc_pending_lamports = 700_000_000 }));
  otc_balance = some 9_000;
  swap = λ a. swapped "swap" 8_000;
  record_buy = λ p. record_threw false;
}

abbrev poor : Node
poor = record node { balance = some 1_000 }

abbrev fresh : World
fresh = record { journal = []; fronted = []; booked = [] }

abbrev bought : UnresolvedSwap
bought = record { bought = 8_000; spent = 700_000_000; swap_tx = "swap" }

abbrev pending_world : World
pending_world = note_swap bought fresh

pending_is_unresolved : find_unresolved_swap pending_world.journal ≡ some bought
unfolding find_unresolved_swap append_journal walk_back
pending_is_unresolved = refl

ready : Ready node 1_040_000_000 700_000_000
ready = record { funded = refl; enough = omega arith; running = refl; sealed = refl; pot = refl }

run_cycle-Fronts_example : Fronts node [] (run_cycle node fresh).1.fronted
run_cycle-Fronts_example = run_cycle-Fronts node fresh

run_cycle_resumes_example : (run_cycle node pending_world).1.fronted ≡ 700_000_000 ∷ []
run_cycle_resumes_example = run_cycle_resumes node pending_world bought pending_is_unresolved

resumed_until_recorded_example :
    AfterRecord bought [] (record_threw false) (run_cycle node pending_world).1
resumed_until_recorded_example =
    resumed_until_recorded node 1_040_000_000 700_000_000 pending_world bought ready
      pending_is_unresolved (omega arith) (omega arith)

nothing_unresolved : find_unresolved_swap fresh.journal ≡ none
unfolding find_unresolved_swap walk_back
nothing_unresolved = refl

amount : amount_to_swap node 1_040_000_000 700_000_000 ≡ 700_000_000
unfolding amount_to_swap
amount = refl

amount_positive : 0 < amount_to_swap node 1_040_000_000 700_000_000
unfolding amount_to_swap
amount_positive = omega arith

stopped_then_fronts_example :
    (run_cycle node (run_cycle poor pending_world).1).1.fronted
    ≡ amount_to_swap node 1_040_000_000 700_000_000 ∷ 700_000_000 ∷ []
stopped_then_fronts_example =
    stopped_then_fronts poor node 1_000 1_040_000_000 700_000_000 pending_world "swap" 8_000 refl
      (omega arith) ready amount_positive refl refl

abbrev fees : FeeState
fees = record {
  pending_otc = 100;
  clear_threshold = 90;
  burn_pending = 7;
  lp_pending = 9;
  stack_pending = 0;
  ops_pending = 4;
}

-- Prices in whole numbers.
abbrev whole : Floats
whole = record {
  F = ℕ;
  of_ℕ = λ n. n;
  add = λ a b. a + b;
  mul = λ a b. a * b;
  div = λ a b. a / b;
  lt = ltb;
  ceil = λ a. a;
  floor = λ a. pos a;
}

abbrev treasury : Inputs whole
treasury = record {
  floor_listing = some 900_000_000;
  otc_lamports_per_unit = 1;
  treasury_sol = 800_000_000;
  treasury_otc = 500_000_000;
  sol_reserve_floor = 100_000_000;
  desks_owned = 3;
  desk_target = desk_acquisition_target;
  mint_otc = mint_otc_units;
  mint_sol = mint_sol_lamports;
  buyer_cost_multiplier = 1;
}

swept : decide_acquisition whole treasury ≡ sweep 900_000_000 700_000_000 200_000_000
unfolding decide_acquisition plan_listing plan_sweep cover_by_swap sol_available mint_cost
swept = refl

decide_acquisition-IsAffordable_example :
    IsAffordable whole treasury (decide_acquisition whole treasury)
decide_acquisition-IsAffordable_example = decide_acquisition-IsAffordable whole treasury

-- Two stocks were claimed, one of them in the basket.
abbrev claimed : RotationStock → Option (StockBalance whole)
claimed stock_aapl = some (record { units = 10; lamports_per_unit = 7 })
claimed stock_otc = some (record { units = 5; lamports_per_unit = 1 })
claimed _ = none

plan_basket_consolidation-IsSwap_example :
    let plan = plan_basket_consolidation whole claimed in
    let share = plan.bucket_sol otc in
    (plan.stock_to_sol ≡ sales whole claimed swap_stocks)
    × All (IsSwap whole claimed) plan.stock_to_sol
    × (plan.total ≡ sum_sol plan.stock_to_sol)
    × (plan.bucket_sol crclx ≡ share)
    × (plan.bucket_sol nvdax ≡ share)
    × (plan.bucket_sol spcxx ≡ share)
    × (share + share + share + share ≤ plan.total)
    × (plan.total < share + share + share + share + 4)
plan_basket_consolidation-IsSwap_example = plan_basket_consolidation-IsSwap whole claimed
