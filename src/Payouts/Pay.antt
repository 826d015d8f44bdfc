-- ===== src/Payouts/Pay.antt =====
-- The loop that pays the desks that are pending, a batch to a transaction.
use text.Mathlib.Text.{◌==◌ as str_eq}
use hubconnect.Base.{
  ℕ, zero, suc, ◌+◌, Bool, true, false, Option, none, some, List, [], ◌∷◌, ◌++◌, String, length,
  take, drop, if◌then◌else◌,
}

-- A desk to pay. An airdrop's units are the snapshot's; a reward's are worked out on chain.
pub record Payee : Type 0 where
  pub asset : String
  pub units : Option ℕ
  pub proof : List String

-- A payment on chain, which leaves the claim of its desk there.
pub record Payment : Type 0 where
  pub asset : String
  pub owner : String
  pub units : Option ℕ
  pub proof : List String

-- How sending a transaction ended; `failed true` threw although it landed.
pub data Delivery : Type 0 where
  confirmed : Delivery
  failed : Bool → Delivery

-- What surrounds the payments, after those on chain so far. `none` is a read that throws; a desk
-- that was burned has no owner.
pub record Host : Type 0 where
  pub owner_of : List Payment → String → Option (Option String)
  pub has_account : List Payment → String → Option Bool
  pub deliver : List Payment → List String → List Payment → Delivery
  pub reads_claim : String → Bool

-- The payments so far with the counts of the run; a run that crashed does nothing more.
pub record Run : Type 0 where
  pub ledger : List Payment
  pub paid : ℕ
  pub failures : ℕ
  pub crashed : Bool

-- A transaction: the owners whose accounts it creates, its payments, and the desks it skips.
pub record Draft : Type 0 where
  pub creates : List String
  pub payments : List Payment
  pub skipped : ℕ

abbrev pub pay_to : Payee → String → Bool → Draft → Draft
pay_to p owner exists d = record d {
  creates = if exists then d.creates else owner ∷ d.creates;
  payments =
      record { asset = p.asset; owner = owner; units = p.units; proof = p.proof } ∷ d.payments;
}

abbrev pub with_account : Payee → String → Option Bool → Option Draft → Option Draft
with_account p owner none rest = none
with_account p owner (some exists) none = none
with_account p owner (some exists) (some d) = some (pay_to p owner exists d)

abbrev pub drafted :
    Host → List Payment → Payee → Option (Option String) → Option Draft → Option Draft
drafted h ledger p none rest = none
drafted h ledger p (some none) none = none
drafted h ledger p (some none) (some d) = some (record d { skipped = d.skipped + 1 })
drafted h ledger p (some (some owner)) rest = with_account p owner (h.has_account ledger owner) rest

-- The current owner of each desk is looked up; `none` if a read throws.
unfoldable pub draft : Host → List Payment → List Payee → Option Draft
draft h ledger [] = some (record { creates = []; payments = []; skipped = 0 })
draft h ledger (p ∷ ps) = drafted h ledger p (h.owner_of ledger p.asset) (draft h ledger ps)

abbrev pub after_delivery : Draft → Delivery → Run → Run
after_delivery d confirmed r = record r {
  ledger = d.payments ++ r.ledger;
  paid = r.paid + length d.payments;
  failures = r.failures + d.skipped;
}
after_delivery d (failed true) r = record r {
  ledger = d.payments ++ r.ledger;
  failures = r.failures + (length d.payments + d.skipped);
}
after_delivery d (failed false) r = record r {
  failures = r.failures + (length d.payments + d.skipped);
}

-- A transaction with no payment is not sent.
abbrev pub send_draft : Host → Draft → List Payment → Run → Run
send_draft h d [] r = record r { failures = r.failures + d.skipped }
send_draft h d (p ∷ ps) r = after_delivery d (h.deliver r.ledger d.creates d.payments) r

abbrev pub settle_group : Host → Option Draft → Run → Run
settle_group h none r = record r { crashed = true }
settle_group h (some d) r = send_draft h d d.payments r

unfoldable pub pay_group : Host → List Payee → Run → Run
unfolding draft
pay_group h group r = if r.crashed then r else settle_group h (draft h r.ledger group) r

-- Groups of `batch` desks, on fuel; `none` is a run that has not ended.
unfoldable pub pay_all : ℕ → Host → ℕ → List Payee → Run → Option Run
unfolding pay_group
pay_all fuel h batch [] r = some r
pay_all zero h batch (p ∷ ps) r = none
pay_all (suc fuel) h batch (p ∷ ps) r =
    pay_all fuel h batch (drop batch (p ∷ ps)) (pay_group h (take batch (p ∷ ps)) r)

abbrev pub has_claim : String → List Payment → Bool
has_claim asset [] = false
has_claim asset (p ∷ ps) =
    let rest = has_claim asset ps in if str_eq p.asset asset then true else rest

-- The desks that have no claim yet; `none` if a read throws.
abbrev pub unless_claimed : Payee → Bool → Option (List Payee) → Option (List Payee)
unless_claimed p claimed none = none
unless_claimed p true (some ps) = some ps
unless_claimed p false (some ps) = some (p ∷ ps)

unfoldable pub pending : Host → List Payee → List Payment → Option (List Payee)
pending h [] ledger = some []
pending h (p ∷ ps) ledger =
    let rest = pending h ps ledger in
    if h.reads_claim p.asset then unless_claimed p (has_claim p.asset ledger) rest else none

abbrev pub started : List Payment → Run
started ledger = record { ledger = ledger; paid = 0; failures = 0; crashed = false }
