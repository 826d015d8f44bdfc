-- ===== src/Keeper/Epoch/Cycle.antt =====
-- `runCycle` and `sendWithAlt` of keeper/keeper/src/index.ts, on the journal and on what reached the
-- network. Lamports are numbers below 2^53, and so are their products with basis points.
use text.Mathlib.Text.{◌==◌ as str_eq}
use hubconnect.Base.{
  ℕ, ◌+◌, ◌≡◌, refl, Bool-cases, inl, inr, ==_iff, Bool, true, false, ◌==◌, if◌then◌else◌, Option,
  none, some, List, [], ◌∷◌, ◌++◌, String,
}
use hubconnect.Base.Int.{ℤ, pos}
use hubconnect.Sdk.Views.{ConfigView, EpochView}
use hubconnect.Sdk.Rounds.{bp_of, effective_inflow_lamports, can_finalize}
use hubconnect.Keeper.Checks.{
  keeper_hard_min_lamports, keeper_drip_trigger_lamports, keeper_target_ceiling_lamports,
  GasFloatCheck, gas_ok, gas_refused, check_gas_float, OperationalGate, gate_ok, gate_paused,
  gate_unsealed, check_operational_gate,
}
use hubconnect.Keeper.Epoch.Raydium.{AccountMeta}
use hubconnect.Keeper.Epoch.Jupiter.{
  Market, WsolToHubRoute, fetch_wsol_to_hub_route, route_accounts,
}

pub data End : Type 0 where
  returned threw : End

-- A cycle that goes on with a value, or that has ended.
pub data Step {ℓ} (A : Type ℓ) : Type ℓ where
  goes : A → Step A
  ends : End → Step A

infixl 5 ◌>>=◌ ◌>>◌
abbrev pub ◌>>=◌ {ℓ κ} : {A : Type ℓ} {B : Type κ} → Step A → (A → Step B) → Step B
goes a >>= f = f a
ends e >>= f = ends e

abbrev pub ◌>>◌ {ℓ} : {B : Type ℓ} → Step (Unit {0}) → Step B → Step B
m >> k = m >>= λ _. k

-- A read that throws ends the cycle.
abbrev pub read {ℓ} : {A : Type ℓ} → Option A → Step A
read none = ends threw
read (some a) = goes a

-- A check that fails ends it too, with a line in the log.
abbrev pub check : Bool → Step (Unit {0})
check true = goes tt
check false = ends returned

pub read-goes {ℓ} :
    {A : Type 0} {B : Type ℓ} (o : Option A) (f : A → Step B) {b : B}
    → (read o >>= f) ≡ goes b
    → (a : A) × (o ≡ some a) × (f a ≡ goes b)
read-goes none f h = cc
read-goes (some a) f h = (a, refl, h)

pub check-goes {ℓ} :
    {B : Type ℓ} (t : Bool) (m : Step B) {b : B}
    → (check t >> m) ≡ goes b
    → (t ≡ true) × (m ≡ goes b)
check-goes true m h = (refl, h)
check-goes false m h = cc

pub record TreasuryState : Type 0 where
  pub vault_hub : String
  pub vault_usdc : String

-- How the call that hands the transaction to the network ended, and whether one that threw got there.
pub data SendReply : Type 0 where
  signed : String → SendReply
  send_threw : Bool → SendReply

-- What `sendWithAlt` asks of the outside. The size is that of the message with the memo; the
-- Booleans say that a call returns.
pub record AltSend : Type 0 where
  pub lookup_table : Option Bool
  pub instruction : Bool
  pub blockhash : Bool
  pub size_with_memo : Option ℕ
  pub without_memo : Bool
  pub send_transaction : Bool → SendReply
  pub confirms : Bool

pub record KeeperEnv : Type 0 where
  pub vault : String
  pub is_dry_run : Bool
  pub slippage_bps : ℕ
  pub max_accounts : ℕ
  pub epoch_alt : Option String

pub record FinalizeCall : Type 0 where
  pub epoch : ℕ
  pub swap_total : ℕ
  pub min_usdc_out : ℕ
  pub min_hub_out : ℤ
  pub hop1_account_count : ℕ
  pub hop1_bytes : List ℕ
  pub remaining_accounts : List AccountMeta
  pub labels : List String
  pub out_amount : ℕ

-- What one cycle reads; `none` is a read that throws.
pub record Node : Type 0 where
  pub now : String
  pub balance : Option ℕ
  pub config : Option ConfigView
  pub epoch_account : ℕ → Option EpochView
  pub mint_sealed : Option Bool
  pub treasury_state : Option TreasuryState
  pub market : Market
  pub rpc : FinalizeCall → SendReply
  pub alt : FinalizeCall → AltSend

-- The key of 32 zero bytes.
abbrev pub default_key : String
default_key = "11111111111111111111111111111111"

abbrev pub memo_safe_limit_bytes : ℕ
memo_safe_limit_bytes = 1_180

abbrev pub gas_passes : GasFloatCheck → Bool
gas_passes (gas_ok _) = true
gas_passes gas_refused = false

abbrev pub gate_passes : OperationalGate → Bool
gate_passes gate_ok = true
gate_passes gate_paused = false
gate_passes gate_unsealed = false

-- The part of a cycle before the journal is asked.
unfoldable pub ready_round : Node → Step (ConfigView × EpochView)
ready_round n = do
  balance ← read n.balance
  check (
      gas_passes (
        check_gas_float balance keeper_hard_min_lamports keeper_drip_trigger_lamports
          keeper_target_ceiling_lamports))
  config ← read n.config
  epoch ← read (n.epoch_account config.current_epoch)
  sealed ← read n.mint_sealed
  check (gate_passes (check_operational_gate config.paused sealed))
  check (can_finalize epoch config)
  goes (config, epoch)

-- The three legs that are swapped: burn, liquidity and the treasury's float.
unfoldable pub swap_total : ℕ → ℕ → ℕ → ℕ → ℕ
swap_total inflow burn_bp lp_bp float_bp =
    bp_of inflow burn_bp + bp_of inflow lp_bp + bp_of inflow float_bp

abbrev pub count_of {ℓ} : {A : Type ℓ} → List A → ℕ
count_of [] = 0
count_of (_ ∷ xs) = count_of xs + 1

abbrev pub no_swap : ℕ → FinalizeCall
no_swap epoch = record {
  epoch = epoch;
  swap_total = 0;
  min_usdc_out = 0;
  min_hub_out = pos 0;
  hop1_account_count = 0;
  hop1_bytes = [];
  remaining_accounts = [];
  labels = [];
  out_amount = 0;
}

abbrev pub swap_by : ℕ → ℕ → WsolToHubRoute → FinalizeCall
swap_by epoch total r = record {
  epoch = epoch;
  swap_total = total;
  min_usdc_out = r.hop1.hop1_min_out;
  min_hub_out = r.hop2.hop2_min_out;
  hop1_account_count = count_of r.hop1.hop1_accounts;
  hop1_bytes = r.hop1.hop1_data;
  remaining_accounts = route_accounts r;
  labels = r.hop1.hop1_labels ++ r.hop2.hop2_labels;
  out_amount = r.hop2.hop2_out_amount;
}

abbrev pub routed : ℕ → ℕ → Option WsolToHubRoute → Step FinalizeCall
routed epoch total none = ends threw
routed epoch total (some r) = goes (swap_by epoch total r)

-- The part between the journal and the sending: the call that would close the round.
unfoldable pub finalize_call : KeeperEnv → Node → ConfigView → EpochView → Step FinalizeCall
finalize_call env n config epoch = do
  treasury ← read n.treasury_state
  check (if str_eq treasury.vault_hub default_key then false else true)
  let total =
      swap_total (effective_inflow_lamports epoch config) config.burn_pct_bp config.lp_pct_bp
        config.treasury_float_pct_bp
  if total == 0
      then goes (no_swap config.current_epoch)
      else routed config.current_epoch total (
          fetch_wsol_to_hub_route n.market env.vault config.hub_mint treasury.vault_usdc
            treasury.vault_hub total
            (record { slippage_bps = some env.slippage_bps; max_accounts = some env.max_accounts }))

routed_call :
    (k total : ℕ) (route : Option WsolToHubRoute) (call : FinalizeCall)
    → routed k total route ≡ goes call
    → (call.epoch ≡ k) × (call.swap_total ≡ total)
routed_call k total none call e = cc
routed_call k total (some r) call e = (cc, cc)

chosen_call :
    (k total : ℕ) (route : Option WsolToHubRoute) (call : FinalizeCall)
    → (if total == 0 then goes (no_swap k) else routed k total route) ≡ goes call
    → (call.epoch ≡ k) × (call.swap_total ≡ total)
chosen_call k total route call e = elim (Bool-cases (total == 0)) [
  | inl none_swapped ↦
      let f = rw none_swapped at e in let z = (==_iff total 0).0 none_swapped in (cc, cc)
  | inr swaps ↦ routed_call k total route call (rw swaps at e)
]

-- A call closes the current epoch, and swaps the three legs of its inflow.
pub finalize_call_lem :
    (env : KeeperEnv) (n : Node) (config : ConfigView) (epoch : EpochView) (call : FinalizeCall)
    → finalize_call env n config epoch ≡ goes call
    → (call.epoch ≡ config.current_epoch)
      × (call.swap_total
          ≡ swap_total
              (effective_inflow_lamports epoch config)
              config.burn_pct_bp
              config.lp_pct_bp
              config.treasury_float_pct_bp)
unfolding finalize_call
finalize_call_lem env n config epoch call e =
    let (treasury, _, e1) = read-goes n.treasury_state _ e in
    let (_, e2) = check-goes (if str_eq treasury.vault_hub default_key then false else true) _ e1 in
    chosen_call config.current_epoch _ _ call e2
