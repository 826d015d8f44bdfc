-- ===== src/Payouts/RewardTests.antt =====
-- A deposit, a round and its payments to two of three desks.
use text.Mathlib.Text.{◌==◌ as str_eq}
use hubconnect.Base.{
  ◌≡◌, refl, true, false, Option, none, some, List, [], ◌∷◌, map, String, arith, if◌then◌else◌,
}
use hubconnect.Payouts.Pay.{confirmed, Host, Run, draft, pay_group, pay_all, pending}
use hubconnect.Payouts.Reward.{
  RewardArgs, Keys, Rounds, DeskTier, distributed, rewarded, fetch_tiers, active_of,
  hub_units_from_whole, run_reward_mode,
}
use hubconnect.Payouts.Pays.{ListsOnce, PaysOnce, listed_first}
use hubconnect.Payouts.Rightly.{Grown}
use hubconnect.Payouts.RewardGuards.{IsRewardGuarded, run_reward_mode-IsRewardGuarded}
use hubconnect.Payouts.Rewards.{IsActiveDesk, run_reward_mode-PaysActive}

abbrev smooth : Host
smooth = record {
  owner_of = λ l a. some (some "alice");
  has_account = λ l o. some true;
  deliver = λ l cs ps. confirmed;
  reads_claim = λ a. true;
}

-- Desk "two" has tier 0.
abbrev tier_of : String → Option DeskTier
tier_of a = some (record { voided = false; tier = if str_eq a "two" then 0 else 2 })

abbrev desks : List String
desks = "one" ∷ "two" ∷ "three" ∷ []

abbrev rounds : Rounds
rounds = record {
  funds = λ u. true;
  standing = λ f. some (50000000000, 4);
  opens = λ r. true;
  has_round = λ o r. some true;
  desks = some desks;
  tiers = λ as_. some (map tier_of as_);
  claims = λ r. [];
  host = smooth;
}

abbrev args : RewardArgs
args = record { fund = some "50000"; open_round = true; round = none; dry_run = false; batch = 2 }

abbrev keys : Keys
keys = record { authority = "boss"; signer = "boss"; treasury = "vault"; treasury_signer = "vault" }

abbrev paid_run : Run
paid_run = record {
  ledger =
      record { asset = "one"; owner = "alice"; units = none; proof = [] }
      ∷ record { asset = "three"; owner = "alice"; units = none; proof = [] }
      ∷ [];
  paid = 2;
  failures = 0;
  crashed = false;
}

funded_test : (run_reward_mode rounds args keys).funded ≡ some 50000000000
unfolding run_reward_mode hub_units_from_whole
funded_test = refl

reward_test : (run_reward_mode rounds args keys).outcome ≡ distributed 4 (some paid_run)
unfolding run_reward_mode hub_units_from_whole fetch_tiers active_of pending pay_all pay_group draft
reward_test = refl

desks-ListsOnce : ListsOnce (map rewarded desks)
desks-ListsOnce a = listed_first a (rewarded "one") (rewarded "two" ∷ rewarded "three" ∷ []) refl (
    listed_first a (rewarded "two") (rewarded "three" ∷ []) refl
      (listed_first a (rewarded "three") [] refl (omega arith)))

run_reward_mode-IsRewardGuarded_example :
    IsRewardGuarded rounds args keys (run_reward_mode rounds args keys)
run_reward_mode-IsRewardGuarded_example = run_reward_mode-IsRewardGuarded rounds args keys

run_reward_mode-PaysActive_example :
    Grown smooth (IsActiveDesk tier_of desks) [] paid_run.ledger × PaysOnce paid_run.ledger
run_reward_mode-PaysActive_example =
    run_reward_mode-PaysActive rounds args keys tier_of (λ as_. refl) desks refl 4 paid_run
      desks-ListsOnce (λ a. omega arith) reward_test
