-- ===== src/Claim/Yield.antt =====
-- `executeClaimYield`: claiming the $OTC yield of the desks of a wallet.
use hubconnect.Base.{
  ℕ, Bool, Option, none, some, List, [], ◌∷◌, map, length, String, ltb, ◌==◌, if◌then◌else◌,
}
use hubconnect.Sdk.Views.{ConfigView, OtcPotView}
use hubconnect.Claim.Accounts.{
  Pdas, CreateAta, create_ata_idempotent_ix, ClaimYield, build_claim_yield_ix, token_2022_program,
}
use hubconnect.Claim.Batches.{group_batches}
use hubconnect.Claim.Send.{
  Batch, Node, Reason, not_provisioned, nothing_bought, underfunded, ClaimResult, results_for,
  claim_batches,
}

abbrev pub cu_limit : ℕ
cu_limit = 400_000

abbrev pub cu_price_micro : ℕ
cu_price_micro = 10_000

pub record YieldTx : Type 0 where
  pub fee_payer : String
  pub unit_limit : ℕ
  pub unit_price : ℕ
  pub preamble : List CreateAta
  pub claims : List ClaimYield

abbrev pub yield_tx : String → List CreateAta → List ClaimYield → YieldTx
yield_tx payer preamble claims = record {
  fee_payer = payer;
  unit_limit = cu_limit;
  unit_price = cu_price_micro;
  preamble = preamble;
  claims = claims;
}

-- The preamble rides in the first transaction only.
unfoldable pub pack_txs : List (List ClaimYield) → List CreateAta → String → List YieldTx
pack_txs [] preamble payer = []
pack_txs (g ∷ gs) preamble payer = yield_tx payer preamble g ∷ map (λ h. yield_tx payer [] h) gs

-- Each transaction with the desks of its place.
unfoldable pub assets_of : {T : Type 0} → List (List String) → List T → List (Batch T)
assets_of gs [] = []
assets_of [] (t ∷ ts) = record { assets = []; tx = t } ∷ assets_of [] ts
assets_of (g ∷ gs) (t ∷ ts) = record { assets = g; tx = t } ∷ assets_of gs ts

-- What surrounds a claim besides its sending; `none` is a read that throws.
pub record YieldHost : Type 0 where
  pub pda : Pdas
  pub claimer : String
  pub vault_balance : String → Option ℕ
  pub has_account : String → Option Bool
  pub has_blockhash : Bool
  pub node : Node YieldTx

abbrev pub abort : Reason → List String → Option (List ClaimResult)
abort reason assets = some (results_for assets none (some reason))

unfoldable pub yield_batches :
    YieldHost → ConfigView → OtcPotView → Bool → List String → List (Batch YieldTx)
unfolding assets_of pack_txs
yield_batches h config pot exists assets =
    let preamble : List CreateAta =
      if exists
      then []
      else create_ata_idempotent_ix h.pda h.claimer h.claimer config.otc_mint token_2022_program
        ∷ [] in
    let ixs = map (λ a. build_claim_yield_ix h.pda h.claimer a config pot) assets in
    assets_of (group_batches assets (length preamble))
      (pack_txs (group_batches ixs (length preamble)) preamble h.claimer)

abbrev pub build_yield :
    YieldHost → ConfigView → OtcPotView → List String → Option Bool → Option (List ClaimResult)
build_yield h config pot assets none = none
build_yield h config pot assets (some exists) =
    if h.has_blockhash
    then claim_batches h.node (yield_batches h config pot exists assets)
    else none

unfoldable pub with_pot :
    YieldHost → ConfigView → OtcPotView → List String → Option (List ClaimResult)
with_pot h config pot assets =
    build_yield h config pot assets
      (h.has_account (h.pda.ata h.claimer config.otc_mint token_2022_program))

abbrev pub if_funded :
    YieldHost → ConfigView → OtcPotView → List String → ℕ → Option ℕ → Option (List ClaimResult)
if_funded h config pot assets due none = none
if_funded h config pot assets due (some balance) =
    if ltb balance due then abort underfunded assets else with_pot h config pot assets

-- The vault is looked at only if something is expected to be due.
abbrev pub check_vault :
    YieldHost → ConfigView → OtcPotView → List String → Option ℕ → Option (List ClaimResult)
check_vault h config pot assets none = with_pot h config pot assets
check_vault h config pot assets (some due) =
    if due == 0
    then with_pot h config pot assets
    else if_funded h config pot assets due (h.vault_balance pot.otc_vault)

unfoldable pub execute_claim_yield :
    YieldHost → ConfigView → Option OtcPotView → Option ℕ → List String → Option (List ClaimResult)
unfolding with_pot
execute_claim_yield h config pot due [] = some []
execute_claim_yield h config none due (a ∷ rest) = abort not_provisioned (a ∷ rest)
execute_claim_yield h config (some pot) due (a ∷ rest) =
    if pot.total_lamports_spent == 0
    then abort nothing_bought (a ∷ rest)
    else check_vault h config pot (a ∷ rest) due
