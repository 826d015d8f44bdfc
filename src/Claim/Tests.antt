-- ===== src/Claim/Tests.antt =====
-- Claims for three desks of a wallet.
use mathlib.Core.List.{Perm, Mem}
use hubconnect.Base.{
  ℕ, ◌≡◌, refl, true, false, none, some, List, [], ◌∷◌, String, All, if◌then◌else◌,
}
use text.Mathlib.Text.{◌==◌ as str_eq}
use hubconnect.Swap.Execute.{Confirmation, confirmed, failed_on_chain}
use hubconnect.Sdk.Samples.{config}
use hubconnect.Claim.Samples.{pda, pot}
use hubconnect.Claim.Accounts.{create_ata_idempotent_ix, build_claim_yield_ix}
use hubconnect.Claim.Yield.{
  YieldHost, pack_txs, assets_of, yield_batches, with_pot, execute_claim_yield,
}
use hubconnect.Claim.HubPot.{HubPotView, HubPotHost, token_programs, execute_claim_hub_pot_reward}
use hubconnect.Claim.Complete.{execute_claim_yield-Answers}
use hubconnect.Claim.Batches.{group_batches, later_groups}
use hubconnect.Claim.Send.{
  Batch, Node, Signed, ClaimResult, claim_batches, simulate_all, sign_passing, after_prompt,
  send_all, confirm_all, underfunded, simulation_failed, chain_failed,
}
use hubconnect.Claim.Results.{desks}
use hubconnect.Claim.Passing.{passing_of}
use hubconnect.Claim.Earned.{IsEarned, claim_batches-IsEarned}

grouped :
    group_batches {A = ℕ} (1 ∷ 2 ∷ 3 ∷ 4 ∷ 5 ∷ 6 ∷ []) 1
    ≡ (1 ∷ 2 ∷ []) ∷ (3 ∷ 4 ∷ 5 ∷ []) ∷ (6 ∷ []) ∷ []
unfolding group_batches later_groups
grouped = refl

abbrev confirm_but : String → Confirmation
confirm_but x = if str_eq x "two" then failed_on_chain else confirmed

-- A wallet that signs every transaction.
abbrev each : {T : Type 0} → (T → String) → (ts : List T) → Signed ts
each f [] = tt
each f (t ∷ ts) = (f t, each f ts)

-- Transactions are texts; the third fails its simulation, the second on chain.
abbrev node : Node String
node = record {
  simulate = λ t. if str_eq t "three" then some false else some true;
  prompt = λ ts. some (each (λ t. t) ts);
  send = λ bytes. some bytes;
  confirm = confirm_but;
}

abbrev batches : List (Batch String)
batches =
    record { assets = "a" ∷ "b" ∷ []; tx = "one" }
    ∷ record { assets = "c" ∷ []; tx = "two" }
    ∷ record { assets = "d" ∷ []; tx = "three" }
    ∷ []

abbrev results : List ClaimResult
results =
    record { asset = "d"; sig = none; reason = some simulation_failed }
    ∷ record { asset = "a"; sig = some "one"; reason = none }
    ∷ record { asset = "b"; sig = some "one"; reason = none }
    ∷ record { asset = "c"; sig = some "two"; reason = some chain_failed }
    ∷ []

claimed : claim_batches node batches ≡ some results
unfolding claim_batches simulate_all sign_passing after_prompt send_all confirm_all
claimed = refl

claim_batches-IsEarned_example :
    All (IsEarned node (λ b. Mem b batches) (passing_of node batches)) results
claim_batches-IsEarned_example = claim_batches-IsEarned node batches results claimed

-- The second transaction fails on chain.
abbrev host : YieldHost
host = record {
  pda = pda;
  claimer = "me";
  vault_balance = λ v. some 100;
  has_account = λ a. some false;
  has_blockhash = true;
  node = record {
    simulate = λ t. some true;
    prompt = λ ts. some (each (λ t. elim t.preamble [ [] ↦ "two" | c ∷ cs ↦ "one" ]) ts);
    send = λ bytes. some bytes;
    confirm = confirm_but;
  };
}

abbrev yields : List ClaimResult
yields =
    record { asset = "a"; sig = some "one"; reason = none }
    ∷ record { asset = "b"; sig = some "one"; reason = none }
    ∷ record { asset = "c"; sig = some "two"; reason = some chain_failed }
    ∷ []

yields_claimed :
    execute_claim_yield host config (some pot) (some 100) ("a" ∷ "b" ∷ "c" ∷ []) ≡ some yields
unfolding execute_claim_yield with_pot yield_batches group_batches later_groups assets_of pack_txs
    create_ata_idempotent_ix build_claim_yield_ix claim_batches simulate_all sign_passing
    after_prompt send_all confirm_all
yields_claimed = refl

execute_claim_yield-Answers_example : Perm (desks yields) ("a" ∷ "b" ∷ "c" ∷ [])
execute_claim_yield-Answers_example =
    execute_claim_yield-Answers host config (some pot) (some 100) ("a" ∷ "b" ∷ "c" ∷ []) yields
      yields_claimed

-- One lamport too few in the vault: nothing is built.
abbrev refused : List ClaimResult
refused = record { asset = "a"; sig = none; reason = some underfunded } ∷ []

vault_short : execute_claim_yield host config (some pot) (some 101) ("a" ∷ []) ≡ some refused
unfolding execute_claim_yield
vault_short = refl

abbrev basket : HubPotView
basket = record {
  otc_mint = "otc";
  crclx_mint = "crclx";
  nvdax_mint = "nvdax";
  spcxx_mint = "spcxx";
  otc_vault = "v1";
  crclx_vault = "v2";
  nvdax_vault = "v3";
  spcxx_vault = "v4";
}

abbrev basket_host : HubPotHost
basket_host = record {
  pda = pda;
  claimant = "me";
  owners = λ ms. some (some "p" ∷ some "p" ∷ some "p" ∷ none ∷ []);
  accounts = λ as_. some [];
  has_blockhash = true;
  node = record {
    simulate = λ t. some true;
    prompt = λ ts. none;
    send = λ bytes. none;
    confirm = confirm_but;
  };
}

-- A bucket's mint that is not there ends the claim.
missing_mint : execute_claim_hub_pot_reward basket_host 3 basket ("a" ∷ []) ≡ none
unfolding execute_claim_hub_pot_reward token_programs
missing_mint = refl
