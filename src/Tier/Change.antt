-- ===== src/Tier/Change.antt =====
-- `buildTierChangeIxs` and `executeTierChange`: the one transaction of a move to a higher tier.
use hubconnect.Base.{
  ℕ, ◌&&◌, Bool, true, false, Option, none, some, List, [], ◌∷◌, ◌++◌, String, ltb, ◌==◌,
  if◌then◌else◌,
}
use hubconnect.Swap.Execute.{Confirmation, confirmed, failed_on_chain, confirm_threw}
use hubconnect.Sdk.Views.{ConfigView, OtcPotView}
use hubconnect.Keeper.Epoch.Raydium.{AccountMeta}
use hubconnect.Keeper.Epoch.Jupiter.{jupiter_program_id}
use hubconnect.Claim.Accounts.{
  Pdas, CreateAta, create_ata_idempotent_ix, ClaimYield, build_claim_yield_ix, system_program,
  token_program, token_2022_program,
}
use hubconnect.Tier.Quote.{OtcPayView, assert_tier_range, otc_payable}
use hubconnect.Tier.Route.{OtcSwapRoute}

pub data PayMethod : Type 0 where
  by_sol by_otc : PayMethod

-- The accounts that every tier instruction takes.
pub record TierAccounts : Type 0 where
  pub payer : String
  pub desk_asset : String
  pub config : String
  pub epoch : String
  pub pot : String
  pub ops_wallet : String
  pub desk_tier : String
  pub tier_fee : String
  pub hub_mint : String
  pub payer_hub : String
  pub tokenomics : String
  pub treasury_lock_vault : String
  pub burn : String
  pub system_program : String

pub record OtcAccounts : Type 0 where
  pub common : TierAccounts
  pub otc_pay : String
  pub otc_mint : String
  pub payer_otc : String
  pub otc_pot : String
  pub otc_vault : String
  pub otc_token_program : String
  pub hub_token_program : String
  pub jupiter_program : String

pub data TierIx : Type 0 where
  create_ata : CreateAta → TierIx
  claim_yield : ClaimYield → TierIx
  activate_tier upgrade_tier : ℕ → TierAccounts → String → TierIx
  activate_tier_otc upgrade_tier_otc : ℕ → ℕ → List ℕ → OtcAccounts → List AccountMeta → TierIx

pub record ChangeInputs : Type 0 where
  pub pda : Pdas
  pub payer : String
  pub desk_asset : String
  pub from_tier : ℕ
  pub to_tier : ℕ
  pub method : PayMethod
  pub config : ConfigView
  pub otc_pay : Option OtcPayView
  pub otc_pot : Option OtcPotView
  -- `treasuryLockVault` of the tokenomics.
  pub tokenomics : Option String
  pub pending_lamports : ℕ
  pub otc_route : Option OtcSwapRoute

abbrev pub common_accounts : ChangeInputs → String → TierAccounts
common_accounts i lock_vault = record {
  payer = i.payer;
  desk_asset = i.desk_asset;
  config = i.pda.config;
  epoch = i.pda.epoch i.config.current_epoch;
  pot = i.pda.pot;
  ops_wallet = i.config.ops_wallet;
  desk_tier = i.pda.desk_tier i.desk_asset;
  tier_fee = i.pda.tier_fee;
  hub_mint = i.config.hub_mint;
  payer_hub = i.pda.ata i.payer i.config.hub_mint token_program;
  tokenomics = i.pda.tokenomics;
  treasury_lock_vault = lock_vault;
  burn = i.pda.burn;
  system_program = system_program;
}

abbrev pub otc_accounts : ChangeInputs → String → OtcPotView → OtcAccounts
otc_accounts i lock_vault pot = record {
  common = common_accounts i lock_vault;
  otc_pay = i.pda.otc_pay;
  otc_mint = i.config.otc_mint;
  payer_otc = i.pda.ata i.payer i.config.otc_mint token_2022_program;
  otc_pot = i.pda.otc_pot;
  otc_vault = pot.otc_vault;
  otc_token_program = token_2022_program;
  hub_token_program = token_program;
  jupiter_program = jupiter_program_id;
}

-- The claim of what is pending, which must come before an upgrade; `none` is an error.
abbrev pub settle_with : ChangeInputs → Option OtcPotView → Option (List TierIx)
settle_with i none = none
settle_with i (some pot) =
    if pot.total_lamports_spent == 0
    then none
    else some (
        create_ata
          (create_ata_idempotent_ix i.pda i.payer i.payer i.config.otc_mint token_2022_program)
        ∷ claim_yield (build_claim_yield_ix i.pda i.payer i.desk_asset i.config pot)
        ∷ [])

unfoldable pub settle_ixs : ChangeInputs → Option (List TierIx)
settle_ixs i =
    if ltb 0 i.from_tier && ltb 0 i.pending_lamports then settle_with i i.otc_pot else some []

abbrev pub otc_ix : ChangeInputs → String → Option OtcPotView → Option OtcSwapRoute → Option TierIx
otc_ix i lock_vault none route = none
otc_ix i lock_vault (some pot) none = none
otc_ix i lock_vault (some pot) (some r) = some (
    if i.from_tier == 0
    then activate_tier_otc i.to_tier r.otc_swap_amount r.jupiter_data
        (otc_accounts i lock_vault pot) r.remaining_accounts
    else upgrade_tier_otc i.to_tier r.otc_swap_amount r.jupiter_data (otc_accounts i lock_vault pot)
        r.remaining_accounts)

abbrev pub sol_ix : ChangeInputs → String → TierIx
sol_ix i lock_vault =
    if i.from_tier == 0
    then activate_tier i.to_tier (common_accounts i lock_vault) token_program
    else upgrade_tier i.to_tier (common_accounts i lock_vault) token_program

unfoldable pub tier_ix : ChangeInputs → String → PayMethod → Option TierIx
tier_ix i lock_vault by_sol = some (sol_ix i lock_vault)
tier_ix i lock_vault by_otc =
    if otc_payable i.otc_pay then otc_ix i lock_vault i.otc_pot i.otc_route else none

abbrev pub followed_by : Option (List TierIx) → Option TierIx → Option (List TierIx)
followed_by none ix = none
followed_by (some ixs) none = none
followed_by (some ixs) (some ix) = some (ixs ++ (ix ∷ []))

abbrev pub ixs_with : ChangeInputs → Option String → Option (List TierIx)
ixs_with i none = none
ixs_with i (some lock_vault) = followed_by (settle_ixs i) (tier_ix i lock_vault i.method)

-- `none` is an error.
unfoldable pub build_tier_change_ixs : ChangeInputs → Option (List TierIx)
unfolding settle_ixs tier_ix
build_tier_change_ixs i =
    if assert_tier_range i.from_tier i.to_tier then ixs_with i i.tokenomics else none

pub data Failure : Type 0 where
  aborted simulation_failed rejected chain_failed : Failure

pub record TierChangeResult : Type 0 where
  pub sig : Option String
  pub failure : Option Failure

-- What surrounds it; `none` is a call that throws, for the wallet a rejection.
pub record ChangeNode : Type 0 where
  pub has_blockhash : Bool
  pub simulate : List TierIx → Option Bool
  pub sign : List TierIx → Option String
  pub send : String → Option String
  pub confirm : String → Confirmation

-- The result, and the bytes that were broadcast.
abbrev pub Outcome : Type 0
Outcome = TierChangeResult × Option String

abbrev pub failed : Failure → Option String → Outcome
failed f bytes = (record { sig = none; failure = some f }, bytes)

unfoldable pub after_confirm : String → String → Confirmation → Outcome
after_confirm bytes x confirmed = (record { sig = some x; failure = none }, some bytes)
after_confirm bytes x failed_on_chain =
    (record { sig = some x; failure = some chain_failed }, some bytes)
after_confirm bytes x confirm_threw = failed aborted (some bytes)

unfoldable pub after_send : ChangeNode → String → Option String → Outcome
unfolding after_confirm
after_send n bytes none = failed aborted (some bytes)
after_send n bytes (some x) = after_confirm bytes x (n.confirm x)

unfoldable pub after_sign : ChangeNode → Option String → Outcome
unfolding after_send
after_sign n none = failed rejected none
after_sign n (some bytes) = after_send n bytes (n.send bytes)

unfoldable pub after_sim : ChangeNode → List TierIx → Option Bool → Outcome
unfolding after_sign
after_sim n ixs none = failed aborted none
after_sim n ixs (some false) = failed simulation_failed none
after_sim n ixs (some true) = after_sign n (n.sign ixs)

unfoldable pub after_build : ChangeNode → Option (List TierIx) → Outcome
unfolding after_sim
after_build n none = failed aborted none
after_build n (some ixs) =
    if n.has_blockhash then after_sim n ixs (n.simulate ixs) else failed aborted none

unfoldable pub execute_tier_change : ChangeNode → ChangeInputs → Outcome
unfolding after_build
execute_tier_change n i = after_build n (build_tier_change_ixs i)
