-- ===== src/Claim/Accounts.antt =====
-- The accounts of the claiming instructions. The derived addresses, sdk/src/pda.ts, are given.
use hubconnect.Base.{ℕ, String}
use hubconnect.Sdk.Views.{ConfigView, OtcPotView}

pub record Pdas : Type 0 where
  pub config : String
  pub pot : String
  pub otc_pot : String
  pub otc_pay : String
  pub hub_pot : String
  pub hub_pot_inflow : String
  pub treasury : String
  pub vault : String
  pub tier_fee : String
  pub tokenomics : String
  pub burn : String
  pub epoch : ℕ → String
  pub desk_tier : String → String
  pub hub_pot_round : ℕ → String
  pub hub_pot_claim : ℕ → String → String
  -- Owner, mint and token program.
  pub ata : String → String → String → String

abbrev pub system_program : String
system_program = "11111111111111111111111111111111"

abbrev pub token_program : String
token_program = "TokenkegQfeZyiNwAJbNbGKPFXCWuBvf9Ss623VQ5DA"

abbrev pub token_2022_program : String
token_2022_program = "TokenzQdBNbLqP5VEhdkAS6EPFLC1PHnBqCXEpPxuEb"

-- `createAtaIdempotentIx`, by its arguments and the address it creates.
pub record CreateAta : Type 0 where
  pub payer : String
  pub account : String
  pub owner : String
  pub mint : String
  pub program : String

unfoldable pub create_ata_idempotent_ix : Pdas → String → String → String → String → CreateAta
create_ata_idempotent_ix pda payer owner mint program = record {
  payer = payer;
  account = pda.ata owner mint program;
  owner = owner;
  mint = mint;
  program = program;
}

pub record ClaimYield : Type 0 where
  pub claimer : String
  pub desk_asset : String
  pub config : String
  pub desk_tier : String
  pub pot : String
  pub otc_pot : String
  pub otc_mint : String
  pub otc_vault : String
  pub claimer_otc : String
  pub token_program : String
  pub system_program : String

unfoldable pub build_claim_yield_ix : Pdas → String → String → ConfigView → OtcPotView → ClaimYield
build_claim_yield_ix pda claimer desk_asset config otc_pot = record {
  claimer = claimer;
  desk_asset = desk_asset;
  config = pda.config;
  desk_tier = pda.desk_tier desk_asset;
  pot = pda.pot;
  otc_pot = pda.otc_pot;
  otc_mint = config.otc_mint;
  otc_vault = otc_pot.otc_vault;
  claimer_otc = pda.ata claimer config.otc_mint token_2022_program;
  token_program = token_2022_program;
  system_program = system_program;
}
