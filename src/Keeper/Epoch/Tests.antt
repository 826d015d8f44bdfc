-- ===== src/Keeper/Epoch/Tests.antt =====
-- The epoch keeper on a configuration, a round and a market that would close it.
use hubconnect.Base.{ℕ, ◌+◌, ◌≤◌, ◌≡◌, refl, true, false, none, some, List, [], ◌∷◌, map, arith}
use hubconnect.Base.Int.{pos}
use hubconnect.Sdk.Views.{ConfigView, EpochView}
use hubconnect.Sdk.Shares.{RoundInputs, tier_payout_lamports, sum_ℤ}
use hubconnect.Sdk.Tiers.{weight_bp}
use hubconnect.Keeper.Epoch.Raydium.{quote_hop2, quote_of, fetch_hop2_route, hop2_swap_accounts}
use hubconnect.Keeper.Epoch.Jupiter.{
  Market, BuildConfig, replied, WsolToHubRoute, fetch_hop_route, fetch_wsol_to_hub_route,
  unsigned_by,
}
use hubconnect.Keeper.Epoch.Journal.{
  JournalEntry, Json, sent, already_sent, append_journal, read_entries, marks, is_sent,
}
use hubconnect.Keeper.Epoch.Cycle.{
  Node, KeeperEnv, AltSend, signed, send_threw, swap_total, ready_round, finalize_call,
}
use hubconnect.Keeper.Epoch.Run.{
  World, run_cycle, run_cycles, after_ready, submit, book_reply, send_with_alt,
}
use hubconnect.Keeper.Epoch.Refines.{closer_run, attempt, view, run_cycles_refines}
use hubconnect.Keeper.Epoch.Once.{count, SubmitsTo, sent_never_again, run_cycle-Submits}
use hubconnect.Keeper.Epoch.Conserve.{round_conserves}
use hubconnect.Keeper.Checks.{check_gas_float, check_operational_gate}
use hubconnect.Sdk.Rounds.{can_finalize, effective_inflow_lamports, dust_carry_lamports, bp_of}

abbrev config : ConfigView
config = record {
  authority = "A";
  pot = "P";
  ops_wallet = "O";
  treasury = "T";
  otc_program = "G";
  otc_desk_pot = "D";
  desk_collection = "C";
  hub_mint = "HUB";
  otc_mint = "OTC";
  usdc_mint = "USDC";
  tier_weights = 10_000 ∷ 12_500 ∷ 16_000 ∷ 20_000 ∷ [];
  step_fee = 500_000_000;
  tier_usd_cost_micros = [];
  tier_hub_cost_units_cached = [];
  last_price_update_ts = 0;
  tier_cost_burn_bp = 5_000;
  min_pot_threshold_lamports = 100_000_000;
  burn_pct_bp = 500;
  lp_pct_bp = 250;
  treasury_float_pct_bp = 250;
  ops_bp = 1_000;
  protocol_fee_bp = 0;
  lp_enabled = false;
  lp_target_sol_lamports = 0;
  lp_phase2_open_ts = 0;
  paused = false;
  current_epoch = 7;
  genesis_ts = 0;
  total_weight_bp = 30_000;
  pot_liability_lamports = 0;
  acc_per_weight = 0;
  dust_scaled = 0;
}

abbrev epoch : EpochView
epoch = record {
  index = 7;
  start_ts = 0;
  finalized_ts = 0;
  inflow_lamports = 200_000_000;
  distributed_lamports = 0;
  burn_pending_lamports = 0;
  lp_pending_lamports = 0;
  rolled_forward_lamports = 0;
  total_weight_bp = 30_000;
  per_weight_scaled = 0;
  acc_per_weight_after = 0;
  finalized = false;
}

abbrev market : Market
market = record {
  build = λ r. replied (record {
    out_amount = some 4_000_000;
    other_amount_threshold = some 3_960_000;
    route_plan = some (some "Whirlpool" ∷ none ∷ some "" ∷ []);
    swap_instruction = some (record {
      program_id = "JUP6LkbZbjS1jKKwapdHNy74zcZ3tLUZoi5QNyVTaV4";
      accounts =
          record { pubkey = "V"; is_signer = true; is_writable = true }
          ∷ record { pubkey = "X"; is_signer = true; is_writable = false }
          ∷ [];
      bytes = 1 ∷ 2 ∷ [];
    });
  });
  is_key = λ _. true;
  usdc_reserve = some 1_000_000_000;
  hub_reserve = some 50_000_000_000;
}

abbrev alt_send : AltSend
alt_send = record {
  lookup_table = some true;
  instruction = true;
  blockhash = true;
  size_with_memo = some 1_200;
  without_memo = true;
  send_transaction = λ memo. signed "S";
  confirms = true;
}

abbrev node : Node
node = record {
  now = "2026-01-01T00:00:00.000Z";
  balance = some 100_000_000;
  config = some config;
  epoch_account = λ k. some epoch;
  mint_sealed = some true;
  treasury_state = some (record { vault_hub = "VH"; vault_usdc = "VU" });
  market = market;
  rpc = λ call. send_threw true;
  alt = λ call. alt_send;
}

abbrev env : KeeperEnv
env = record {
  vault = "V";
  is_dry_run = false;
  slippage_bps = 100;
  max_accounts = 32;
  epoch_alt = some "ALT";
}

-- A line is the entry itself.
abbrev json : Json JournalEntry
json = record { stringify = λ e. e; parse = λ e. some e; parse_stringify = λ e. refl }

abbrev start : World JournalEntry
start = record { journal = []; submitted = [] }

abbrev sent_entry : JournalEntry
sent_entry = record {
  ts = "";
  epoch_index = 7;
  swap_total_lamports = 0;
  min_usdc_out = 0;
  min_hub_out = pos 0;
  out_amount = 0;
  route_labels = [];
  is_dry_run = false;
  status = sent;
  signature = some "S";
}

abbrev closed_start : World JournalEntry
closed_start = record { journal = sent_entry ∷ []; submitted = 7 ∷ [] }

-- Two cycles on an open round: the second finds the entry of the first.
submits_once : (run_cycles json env (node ∷ node ∷ []) start).submitted ≡ 7 ∷ []
unfolding run_cycles run_cycle after_ready submit book_reply send_with_alt already_sent
    append_journal read_entries marks is_sent ready_round finalize_call check_gas_float
    check_operational_gate can_finalize effective_inflow_lamports dust_carry_lamports swap_total
    bp_of fetch_wsol_to_hub_route fetch_hop_route fetch_hop2_route quote_hop2 quote_of unsigned_by
    hop2_swap_accounts
submits_once = refl

-- A transaction that got to the network and whose confirmation throws is submitted again by the next
-- cycle, as long as the round reads as open: its entry says failed.
submits_again :
    (run_cycles json (record env { epoch_alt = none }) (node ∷ node ∷ []) start).submitted
    ≡ 7 ∷ 7 ∷ []
unfolding run_cycles run_cycle after_ready submit book_reply send_with_alt already_sent
    append_journal read_entries marks is_sent ready_round finalize_call check_gas_float
    check_operational_gate can_finalize effective_inflow_lamports dust_carry_lamports swap_total
    bp_of fetch_wsol_to_hub_route fetch_hop_route fetch_hop2_route quote_hop2 quote_of unsigned_by
    hop2_swap_accounts
submits_again = refl

run_cycles_refines_example :
    view json (run_cycles json env (node ∷ node ∷ []) start)
    ≡ closer_run (map (attempt env) (node ∷ node ∷ [])) (view json start)
run_cycles_refines_example = run_cycles_refines json env (node ∷ node ∷ []) start

closed_start-sent : already_sent json 7 closed_start.journal ≡ true
unfolding already_sent read_entries marks is_sent
closed_start-sent = refl

sent_never_again_example :
    count 7 (run_cycles json env (node ∷ node ∷ []) closed_start).submitted ≡ 1
sent_never_again_example =
    sent_never_again json env (node ∷ node ∷ []) closed_start 7 closed_start-sent

run_cycle-Submits_example :
    SubmitsTo json env node start (run_cycle json env node start).1.submitted
run_cycle-Submits_example = run_cycle-Submits json env node start

abbrev inputs : RoundInputs
inputs = record {
  round_inflow_lamports = 100_000_007;
  weight_total_bp = 38_500;
  burn_bp = 500;
  lp_bp = 250;
  float_bp = 250;
}

abbrev tiers : List ℕ
tiers = 1 ∷ 2 ∷ 3 ∷ []

tiers_weigh : weight_bp 1 + (weight_bp 2 + (weight_bp 3 + 0)) ≡ 38_500
unfolding weight_bp
tiers_weigh = refl

round_conserves_example :
    let swapped = swap_total 100_000_007 500 250 250 in
    (estimated : ℕ) × (sum_ℤ (λ t. tier_payout_lamports t inputs) tiers ≡ pos estimated)
    × (swapped ≤ 100_000_007)
    × (swapped + estimated ≤ 100_000_007)
    × (100_000_007 ≤ swapped + estimated + 3)
round_conserves_example = round_conserves inputs tiers (omega arith) (omega arith) tiers_weigh

abbrev route : WsolToHubRoute
route = record {
  hop1 = record {
    hop1_min_out = 3_960_000;
    hop1_data = 1 ∷ 2 ∷ [];
    hop1_accounts =
        record { pubkey = "V"; is_signer = false; is_writable = true }
        ∷ record { pubkey = "X"; is_signer = true; is_writable = false }
        ∷ [];
    hop1_out_amount = 4_000_000;
    hop1_labels = "Whirlpool" ∷ [];
  };
  hop2 = record {
    hop2_min_out = pos 195_246_821;
    hop2_accounts = hop2_swap_accounts "V" "VU" "VH" "HUB";
    hop2_out_amount = 197_219_012;
    hop2_labels = "Raydium CP" ∷ [];
  };
}

abbrev build_config : BuildConfig
build_config = record { slippage_bps = some 100; max_accounts = none }

route_fetched :
    fetch_wsol_to_hub_route market "V" "HUB" "VU" "VH" 20_000_000 build_config ≡ some route
unfolding fetch_wsol_to_hub_route fetch_hop_route fetch_hop2_route quote_hop2 quote_of unsigned_by
    hop2_swap_accounts
route_fetched = refl
