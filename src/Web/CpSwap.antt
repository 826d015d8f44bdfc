-- ===== src/Web/CpSwap.antt =====
-- web/src/hub/lib/cpswap.ts: trading against the pool of a curve that has graduated. Keys are their
-- base-58 text; the address derivations of web3.js and of the SDK are given.
pub mod Loss
use text.Mathlib.Text.{◌==◌ as str_eq}
use hubconnect.Base.{
  ℕ, ◌+◌, ◌-◌, ◌*◌, ◌/◌, Bool, true, false, ◌==◌, ◌||◌, Option, none, some, List, [], ◌∷◌, ◌++◌,
  String, if◌then◌else◌,
}
use hubconnect.Keeper.Epoch.Raydium.{AccountMeta}

abbrev pub wsol_mint : String
wsol_mint = "So11111111111111111111111111111111111111112"

abbrev token_program_id : String
token_program_id = "TokenkegQfeZyiNwAJbNbGKPFXCWuBvf9Ss623VQ5DA"

abbrev pub cpmm_amm_config : String
cpmm_amm_config = "5MxLgy9oPdTC3YgkiePHqr3EoCRD9uLVYRQS2ANAs7wy"

abbrev pub cpmm_trade_fee_bps : ℕ
cpmm_trade_fee_bps = 25

pub record CpSwapPoolKeys : Type 0 where
  pub token0_mint : String
  pub token1_mint : String
  pub authority : String
  pub pool_state : String
  pub vault0 : String
  pub vault1 : String
  pub observation_state : String

-- `before` compares the bytes of two keys, `find_pda` is the address of a prefix and some keys.
unfoldable pub derive_cp_swap_pool_keys :
    (String → String → Bool) → (String → List String → String) → String → CpSwapPoolKeys
derive_cp_swap_pool_keys before find_pda hub_mint =
    let hub_first = before hub_mint wsol_mint in
    let token0 = if hub_first then hub_mint else wsol_mint in
    let token1 = if hub_first then wsol_mint else hub_mint in
    let pool = find_pda "pool" (cpmm_amm_config ∷ token0 ∷ token1 ∷ []) in
    record {
      token0_mint = token0;
      token1_mint = token1;
      authority = find_pda "vault_and_lp_mint_auth_seed" [];
      pool_state = pool;
      vault0 = find_pda "pool_vault" (pool ∷ token0 ∷ []);
      vault1 = find_pda "pool_vault" (pool ∷ token1 ∷ []);
      observation_state = find_pda "observation" (pool ∷ []);
    }

pub record CpSwapReserves : Type 0 where
  pub hub_reserve : ℕ
  pub sol_reserve : ℕ

abbrev balance_or_zero : Option ℕ → ℕ
balance_or_zero none = 0
balance_or_zero (some n) = n

-- The balance of a vault, by its key; `none` is a read that throws.
unfoldable pub fetch_cp_swap_reserves :
    (String → Option ℕ) → CpSwapPoolKeys → String → CpSwapReserves
fetch_cp_swap_reserves balance keys hub_mint =
    let r0 = balance_or_zero (balance keys.vault0) in
    let r1 = balance_or_zero (balance keys.vault1) in
    if str_eq keys.token0_mint hub_mint
    then record { hub_reserve = r0; sol_reserve = r1 }
    else record { hub_reserve = r1; sol_reserve = r0 }

pub data Side : Type 0 where
  buy sell : Side

abbrev pub reserve_in : Side → CpSwapReserves → ℕ
reserve_in buy r = r.sol_reserve
reserve_in sell r = r.hub_reserve

abbrev pub reserve_out : Side → CpSwapReserves → ℕ
reserve_out buy r = r.hub_reserve
reserve_out sell r = r.sol_reserve

abbrev pub after_fee : ℕ → ℕ
after_fee amount_in = amount_in - amount_in * cpmm_trade_fee_bps / 10_000

unfoldable pub quote_cp_swap : Side → ℕ → CpSwapReserves → ℕ
quote_cp_swap side amount_in reserves =
    if reserve_in side reserves == 0 || reserve_out side reserves == 0 || amount_in == 0
    then 0
    else if after_fee amount_in == 0
    then 0
    else after_fee amount_in
      * reserve_out side reserves
      / (reserve_in side reserves + after_fee amount_in)

-- The instructions of a trade.
pub data Instruction : Type 0 where
  create_ata_idempotent : String → Instruction
  transfer : String → String → ℕ → Instruction
  sync_native : List AccountMeta → Instruction
  swap_base_input : List AccountMeta → ℕ → ℕ → Instruction
  close_account : List AccountMeta → Instruction

abbrev meta : String → Bool → Bool → AccountMeta
meta key is_signer is_writable = record {
  pubkey = key;
  is_signer = is_signer;
  is_writable = is_writable;
}

abbrev pub sync_native_ix : String → Instruction
sync_native_ix account = sync_native (meta account false true ∷ [])

abbrev pub close_account_ix : String → String → String → Instruction
close_account_ix account destination owner =
    close_account
      (meta account false true ∷ meta destination false true ∷ meta owner true false ∷ [])

-- Two arguments each for the accounts, the mints and the amounts, in before out.
unfoldable pub build_swap_base_input_ix :
    String → CpSwapPoolKeys → String → String → String → String → ℕ → ℕ → Instruction
build_swap_base_input_ix payer keys input_account output_account input_mint output_mint =
    let input_is_token0 = str_eq input_mint keys.token0_mint in
    let input_vault = if input_is_token0 then keys.vault0 else keys.vault1 in
    let output_vault = if input_is_token0 then keys.vault1 else keys.vault0 in
    swap_base_input (
      meta payer true false
      ∷ meta keys.authority false false
      ∷ meta cpmm_amm_config false false
      ∷ meta keys.pool_state false true
      ∷ meta input_account false true
      ∷ meta output_account false true
      ∷ meta input_vault false true
      ∷ meta output_vault false true
      ∷ meta token_program_id false false
      ∷ meta token_program_id false false
      ∷ meta input_mint false false
      ∷ meta output_mint false false
      ∷ meta keys.observation_state false true
      ∷ [])

-- What `executeCpSwapTrade` puts into its transaction, by the payer's two token accounts.
unfoldable pub trade_instructions :
    String → String → String → String → CpSwapPoolKeys → Side → ℕ → ℕ → List Instruction
trade_instructions payer hub_mint hub_ata wsol_ata keys buy amount_in minimum_out =
    create_ata_idempotent wsol_mint
    ∷ create_ata_idempotent hub_mint
    ∷ transfer payer wsol_ata amount_in
    ∷ sync_native_ix wsol_ata
    ∷ build_swap_base_input_ix payer keys wsol_ata hub_ata wsol_mint hub_mint amount_in minimum_out
    ∷ close_account_ix wsol_ata payer payer
    ∷ []
trade_instructions payer hub_mint hub_ata wsol_ata keys sell amount_in minimum_out =
    create_ata_idempotent wsol_mint
    ∷ create_ata_idempotent hub_mint
    ∷ build_swap_base_input_ix payer keys hub_ata wsol_ata hub_mint wsol_mint amount_in minimum_out
    ∷ close_account_ix wsol_ata payer payer
    ∷ []
