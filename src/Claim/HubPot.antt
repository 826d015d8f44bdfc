-- ===== src/Claim/HubPot.antt =====
-- `executeClaimHubPotReward`: claiming a round of the basket for the desks of a wallet.
use hubconnect.Base.{ℕ, Bool, Option, none, some, List, [], ◌∷◌, map, String, if◌then◌else◌}
use hubconnect.Claim.Accounts.{Pdas, CreateAta, create_ata_idempotent_ix, system_program}
use hubconnect.Claim.Send.{Batch, Node, ClaimResult, claim_batches}

pub record HubPotView : Type 0 where
  pub otc_mint : String
  pub crclx_mint : String
  pub nvdax_mint : String
  pub spcxx_mint : String
  pub otc_vault : String
  pub crclx_vault : String
  pub nvdax_vault : String
  pub spcxx_vault : String

-- A bucket's mint with the program that owns it.
pub record Bucket : Type 0 where
  pub mint : String
  pub vault : String
  pub program : String

pub record ClaimHubPot : Type 0 where
  pub claimant : String
  pub config : String
  pub desk_asset : String
  pub desk_tier : String
  pub hub_pot : String
  pub round : String
  pub inflow : String
  pub treasury_state : String
  pub vault : String
  pub mints : List String
  pub vaults : List String
  pub claimant_accounts : List String
  pub token_programs : List String
  pub claim : String
  pub system_program : String

unfoldable pub build_claim_hub_pot_reward_ix :
    Pdas → String → ℕ → List Bucket → String → ClaimHubPot
build_claim_hub_pot_reward_ix pda claimant round_index buckets desk_asset = record {
  claimant = claimant;
  config = pda.config;
  desk_asset = desk_asset;
  desk_tier = pda.desk_tier desk_asset;
  hub_pot = pda.hub_pot;
  round = pda.hub_pot_round round_index;
  inflow = pda.hub_pot_inflow;
  treasury_state = pda.treasury;
  vault = pda.vault;
  mints = map (λ (b : Bucket). b.mint) buckets;
  vaults = map (λ (b : Bucket). b.vault) buckets;
  claimant_accounts = map (λ (b : Bucket). pda.ata claimant b.mint b.program) buckets;
  token_programs = map (λ (b : Bucket). b.program) buckets;
  claim = pda.hub_pot_claim round_index desk_asset;
  system_program = system_program;
}

pub record HubPotTx : Type 0 where
  pub fee_payer : String
  pub preamble : List CreateAta
  pub claim : ClaimHubPot

-- `owners` and `accounts` answer for all at once; a mint that is not there has no owner.
pub record HubPotHost : Type 0 where
  pub pda : Pdas
  pub claimant : String
  pub owners : List String → Option (List (Option String))
  pub accounts : List String → Option (List Bool)
  pub has_blockhash : Bool
  pub node : Node HubPotTx

abbrev pub bucket_mints : HubPotView → List (String × String)
bucket_mints pot =
    (pot.otc_mint, pot.otc_vault)
    ∷ (pot.crclx_mint, pot.crclx_vault)
    ∷ (pot.nvdax_mint, pot.nvdax_vault)
    ∷ (pot.spcxx_mint, pot.spcxx_vault)
    ∷ []

abbrev bucket : String × String → Option String → Option (List Bucket) → Option (List Bucket)
bucket (mint, vault) (some program) (some rest) =
    some (record { mint = mint; vault = vault; program = program } ∷ rest)
bucket m _ _ = none

-- `none` if a mint is missing.
unfoldable pub token_programs : List (String × String) → List (Option String) → Option (List Bucket)
token_programs [] owners = some []
token_programs (m ∷ ms) [] = none
token_programs (m ∷ ms) (o ∷ os) = bucket m o (token_programs ms os)

-- The claimant's accounts that do not exist yet.
unfoldable pub hub_pot_preamble : HubPotHost → List Bucket → List Bool → List CreateAta
hub_pot_preamble h [] exists = []
hub_pot_preamble h (b ∷ bs) [] =
    create_ata_idempotent_ix h.pda h.claimant h.claimant b.mint b.program ∷ hub_pot_preamble h bs []
hub_pot_preamble h (b ∷ bs) (e ∷ es) =
    let rest = hub_pot_preamble h bs es in
    if e then rest else create_ata_idempotent_ix h.pda h.claimant h.claimant b.mint b.program ∷ rest

abbrev pub hub_pot_batch : HubPotHost → ℕ → List Bucket → List CreateAta → String → Batch HubPotTx
hub_pot_batch h round_index buckets preamble asset = record {
  assets = asset ∷ [];
  tx = record {
    fee_payer = h.claimant;
    preamble = preamble;
    claim = build_claim_hub_pot_reward_ix h.pda h.claimant round_index buckets asset;
  };
}

-- One transaction for each desk.
unfoldable pub hub_pot_batches :
    HubPotHost → ℕ → List Bucket → List CreateAta → List String → List (Batch HubPotTx)
hub_pot_batches h round_index buckets preamble [] = []
hub_pot_batches h round_index buckets preamble (a ∷ rest) =
    hub_pot_batch h round_index buckets preamble a
    ∷ map (hub_pot_batch h round_index buckets []) rest

abbrev pub build_hub_pot :
    HubPotHost → ℕ → List String → List Bucket → Option (List Bool) → Option (List ClaimResult)
build_hub_pot h round_index assets buckets none = none
build_hub_pot h round_index assets buckets (some exists) =
    if h.has_blockhash
    then claim_batches h.node
        (hub_pot_batches h round_index buckets (hub_pot_preamble h buckets exists) assets)
    else none

abbrev pub with_buckets :
    HubPotHost → ℕ → List String → Option (List Bucket) → Option (List ClaimResult)
with_buckets h round_index assets none = none
with_buckets h round_index assets (some buckets) =
    build_hub_pot h round_index assets buckets
      (h.accounts (map (λ (b : Bucket). h.pda.ata h.claimant b.mint b.program) buckets))

abbrev pub with_owners :
    HubPotHost
    → ℕ
    → List String
    → List (String × String)
    → Option (List (Option String))
    → Option (List ClaimResult)
with_owners h round_index assets mints none = none
with_owners h round_index assets mints (some owners) =
    with_buckets h round_index assets (token_programs mints owners)

unfoldable pub execute_claim_hub_pot_reward :
    HubPotHost → ℕ → HubPotView → List String → Option (List ClaimResult)
unfolding hub_pot_batches
execute_claim_hub_pot_reward h round_index pot [] = some []
execute_claim_hub_pot_reward h round_index pot (a ∷ rest) =
    with_owners h round_index (a ∷ rest) (bucket_mints pot)
      (h.owners (map (λ (m : String × String). m.0) (bucket_mints pot)))
