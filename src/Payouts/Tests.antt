-- ===== src/Payouts/Tests.antt =====
-- Two runs of the airdrop over three desks: in the first one the second transaction fails.
use mathlib.Core.List.{Mem}
use hubconnect.Base.{
  ℕ, ◌≤◌, ◌≡◌, refl, true, false, ◌+◌, All, some, List, [], ◌∷◌, String, arith, length,
}
use hubconnect.Payouts.Pay.{
  Payee, Payment, Delivery, confirmed, failed, Host, Run, draft, pay_group, pay_all, pending,
  started,
}
use hubconnect.Payouts.Airdrop.{Args, Snapshot, Chain, distributed, run_airdrop, exit_code}
use hubconnect.Payouts.Counts.{times_paid}
use hubconnect.Payouts.Pays.{Paid, none_yet, after_run, ListsOnce, listed_first, Paid-PaysOnce}
use hubconnect.Payouts.Ends.{pay_all-AddsUp}
use hubconnect.Payouts.Rightly.{Grown, pay_all-PaysRightly}
use hubconnect.Payouts.Complete.{pay_all-PaysAll, IsSmooth, Claimed}
use hubconnect.Payouts.Guards.{IsGuarded, run_airdrop-IsGuarded}

abbrev listed : String → ℕ → Payee
listed asset units = record { asset = asset; units = some units; proof = [] }

abbrev entries : List Payee
entries = listed "one" 5 ∷ listed "two" 7 ∷ listed "three" 9 ∷ []

abbrev snapshot : Snapshot
snapshot = record { program_id = "hub"; root = "00ff"; desk_count = 3; entries = entries }

abbrev args : Args
args = record { publish_root = true; opens = true; dry_run = false; force = false; batch = 2 }

abbrev smooth : Host
smooth = record {
  owner_of = λ l a. some (some "alice");
  has_account = λ l o. some false;
  deliver = λ l cs ps. confirmed;
  reads_claim = λ a. true;
}

-- Once something is paid, the next transaction fails.
abbrev second_fails : List Payment → Delivery
second_fails [] = confirmed
second_fails (p ∷ ps) = failed false

abbrev flaky : Host
flaky = record smooth { deliver = λ l cs ps. second_fails l }

abbrev paid_by : String → ℕ → Payment
paid_by asset units = record { asset = asset; owner = "alice"; units = some units; proof = [] }

abbrev chain : String → List Payment → Chain
chain root l = record {
  program_id = "hub";
  authority = "boss";
  signer = "boss";
  airdrop_root = root;
  airdrop_claims = length l;
  ledger = l;
}

abbrev first_run : Run
first_run = record {
  ledger = paid_by "one" 5 ∷ paid_by "two" 7 ∷ [];
  paid = 2;
  failures = 1;
  crashed = false;
}

abbrev second_run : Run
second_run = record {
  ledger = paid_by "three" 9 ∷ paid_by "one" 5 ∷ paid_by "two" 7 ∷ [];
  paid = 1;
  failures = 0;
  crashed = false;
}

first_test :
    (run_airdrop 3 flaky (λ p. true) args snapshot (some (chain "0000" []))).outcome
    ≡ distributed (some first_run)
unfolding run_airdrop pay_all pay_group draft pending
first_test = refl

second_test :
    (run_airdrop 3 smooth (λ p. true) args snapshot (some (chain "00ff" first_run.ledger))).outcome
    ≡ distributed (some second_run)
unfolding run_airdrop pay_all pay_group draft pending
second_test = refl

first_code : exit_code first_run ≡ 1
first_code = refl

entries-ListsOnce : ListsOnce entries
entries-ListsOnce a =
    listed_first a (listed "one" 5) (listed "two" 7 ∷ listed "three" 9 ∷ []) refl (
      listed_first a (listed "two" 7) (listed "three" 9 ∷ []) refl
        (listed_first a (listed "three" 9) [] refl (omega arith)))

abbrev history : Paid second_run.ledger
history =
    after_run 3 smooth (λ p. true) args snapshot (chain "00ff" first_run.ledger) second_run
      (after_run 3 flaky (λ p. true) args snapshot (chain "0000" []) first_run none_yet
        entries-ListsOnce first_test)
      entries-ListsOnce second_test

Paid-PaysOnce_example : times_paid "one" second_run.ledger ≤ 1
Paid-PaysOnce_example = Paid-PaysOnce second_run.ledger history "one"

pay_test : pay_all 3 flaky 2 entries (started []) ≡ some first_run
unfolding pay_all pay_group draft
pay_test = refl

pay_all-AddsUp_example :
    (after : Run) × (pay_all 3 flaky 2 entries (started []) ≡ some after)
    × (after.crashed ≡ false → after.paid + after.failures ≡ length entries)
pay_all-AddsUp_example = pay_all-AddsUp 3 flaky 2 entries [] (omega arith) (omega arith)

pay_all-PaysRightly_example : Grown flaky (λ p. Mem p entries) [] first_run.ledger
pay_all-PaysRightly_example = pay_all-PaysRightly 3 flaky 2 entries [] first_run pay_test

smooth-IsSmooth : IsSmooth smooth
smooth-IsSmooth = (λ l a. ("alice", refl), λ l o. (false, refl), λ l cs ps. refl)

pay_all-PaysAll_example :
    (after : Run) × (pay_all 3 smooth 2 entries (started []) ≡ some after)
    × (after.failures ≡ 0)
    × (after.paid ≡ length entries)
    × All (Claimed after.ledger) entries
pay_all-PaysAll_example =
    pay_all-PaysAll smooth 3 2 entries [] smooth-IsSmooth (omega arith) (omega arith)

run_airdrop-IsGuarded_example :
    IsGuarded
      (λ p. true)
      args
      snapshot
      (chain "0000" [])
      (run_airdrop 3 flaky (λ p. true) args snapshot (some (chain "0000" [])))
run_airdrop-IsGuarded_example =
    run_airdrop-IsGuarded 3 flaky (λ p. true) args snapshot (chain "0000" [])
