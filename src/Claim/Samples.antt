-- ===== src/Claim/Samples.antt =====
-- Addresses and a vault for tests.
use hubconnect.Sdk.Views.{OtcPotView}
use hubconnect.Claim.Accounts.{Pdas}

abbrev pub pda : Pdas
pda = record {
  config = "config";
  pot = "pot";
  otc_pot = "otc_pot";
  otc_pay = "otc_pay";
  hub_pot = "hub_pot";
  hub_pot_inflow = "inflow";
  treasury = "treasury";
  vault = "vault";
  tier_fee = "tier_fee";
  tokenomics = "tokenomics";
  burn = "burn";
  epoch = λ n. "epoch";
  desk_tier = λ a. a;
  hub_pot_round = λ n. "round";
  hub_pot_claim = λ n a. a;
  ata = λ o m p. m;
}

abbrev pub pot : OtcPotView
pot = record {
  authority = "keeper";
  otc_vault = "vault";
  otc_pending_lamports = 0;
  total_lamports_spent = 5;
  total_otc_bought_units = 9;
}
