-- ===== src/Claim/Send.antt =====
-- What both claiming functions do with their transactions: simulate all, one prompt for those that
-- pass, broadcast, confirm; a result for each desk of a transaction. The results that come at once
-- stand in the order of the transactions.
use hubconnect.Base.{Bool, true, false, Option, none, some, List, [], ◌∷◌, ◌++◌, String}
use hubconnect.Swap.Execute.{Confirmation, confirmed, failed_on_chain}

-- A transaction with the desks that it claims for.
pub record Batch (T : Type 0) : Type 0 where
  pub assets : List String
  pub tx : T

pub data Reason : Type 0 where
  not_provisioned nothing_bought underfunded simulation_failed rejected send_failed chain_failed :
      Reason

pub record ClaimResult : Type 0 where
  pub asset : String
  pub sig : Option String
  pub reason : Option Reason

-- `ok` of a result: there is no reason.
abbrev pub is_ok : ClaimResult → Bool
is_ok r = elim r.reason [ none ↦ true | some x ↦ false ]

-- The bytes that a wallet signs: one for each transaction, in their order.
abbrev pub Signed : {T : Type 0} → List T → Type 0
Signed [] = Unit
Signed (t ∷ ts) = String × Signed ts

-- What surrounds the sending. `none` is a call that throws, for the wallet a rejection.
pub record Node (T : Type 0) : Type 0 where
  pub simulate : T → Option Bool
  pub prompt : (ts : List T) → Option (Signed ts)
  pub send : String → Option String
  pub confirm : String → Confirmation

abbrev pub results_for : List String → Option String → Option Reason → List ClaimResult
results_for [] sig reason = []
results_for (a ∷ rest) sig reason =
    record { asset = a; sig = sig; reason = reason } ∷ results_for rest sig reason

-- The batches by what their simulations said.
pub record Split (T : Type 0) : Type 0 where
  pub failures : List ClaimResult
  pub passing : List (Batch T)

module _ {T : Type 0} where
  abbrev pub simulated : Batch T → Bool → Split T → Split T
  simulated b true s = record s { passing = b ∷ s.passing }
  simulated b false s = record s {
    failures = results_for b.assets none (some simulation_failed) ++ s.failures;
  }

  abbrev pub simulated_of : Batch T → Option Bool → Option (Split T) → Option (Split T)
  simulated_of b none rest = none
  simulated_of b (some ok) none = none
  simulated_of b (some ok) (some s) = some (simulated b ok s)

  -- `none` if a simulation throws.
  unfoldable pub simulate_all : Node T → List (Batch T) → Option (Split T)
  simulate_all n [] = some (record { failures = []; passing = [] })
  simulate_all n (b ∷ bs) = simulated_of b (n.simulate b.tx) (simulate_all n bs)

  unfoldable pub rejections : List (Batch T) → List ClaimResult
  rejections [] = []
  rejections (b ∷ bs) = results_for b.assets none (some rejected) ++ rejections bs

  abbrev pub txs_of : List (Batch T) → List T
  txs_of [] = []
  txs_of (b ∷ bs) = b.tx ∷ txs_of bs

-- A broadcast transaction, by the desks it claims for.
pub record Sent : Type 0 where
  pub assets : List String
  pub sig : String

pub record Sending : Type 0 where
  pub send_failures : List ClaimResult
  pub sent : List Sent

abbrev pub broadcast : List String → Option String → Sending → Sending
broadcast assets none s = record s {
  send_failures = results_for assets none (some send_failed) ++ s.send_failures;
}
broadcast assets (some sig) s = record s { sent = record { assets = assets; sig = sig } ∷ s.sent }

-- What was signed is matched with the batches by its position.
unfoldable pub send_all :
    {T : Type 0} → Node T → (bs : List (Batch T)) → Signed (txs_of bs) → Sending
send_all n [] xs = record { send_failures = []; sent = [] }
send_all n (b ∷ bs) (x, xs) = broadcast b.assets (n.send x) (send_all n bs xs)

abbrev pub confirmed_with :
    Sent → Confirmation → Option (List ClaimResult) → Option (List ClaimResult)
confirmed_with s confirmed (some rest) = some (results_for s.assets (some s.sig) none ++ rest)
confirmed_with s failed_on_chain (some rest) =
    some (results_for s.assets (some s.sig) (some chain_failed) ++ rest)
confirmed_with s _ _ = none

-- `none` if a confirmation throws: the results of the others are lost with it.
unfoldable pub confirm_all : (String → Confirmation) → List Sent → Option (List ClaimResult)
confirm_all confirm [] = some []
confirm_all confirm (s ∷ rest) = confirmed_with s (confirm s.sig) (confirm_all confirm rest)

abbrev pub prepend : List ClaimResult → Option (List ClaimResult) → Option (List ClaimResult)
prepend rs none = none
prepend rs (some more) = some (rs ++ more)

module _ {T : Type 0} (n : Node T) where
  unfoldable pub after_prompt :
      (passing : List (Batch T)) → Option (Signed (txs_of passing)) → Option (List ClaimResult)
  after_prompt passing none = some (rejections passing)
  after_prompt passing (some signed) =
      let s = send_all n passing signed in prepend s.send_failures (confirm_all n.confirm s.sent)

  -- Nothing is signed if no simulation passed.
  unfoldable pub sign_passing : List (Batch T) → Option (List ClaimResult)
  unfolding after_prompt
  sign_passing [] = some []
  sign_passing (b ∷ bs) = after_prompt (b ∷ bs) (n.prompt (txs_of (b ∷ bs)))

  abbrev pub after_sims : Option (Split T) → Option (List ClaimResult)
  after_sims none = none
  after_sims (some s) = prepend s.failures (sign_passing s.passing)

  -- The results; `none` is a call that threw.
  unfoldable pub claim_batches : List (Batch T) → Option (List ClaimResult)
  unfolding sign_passing
  claim_batches batches = after_sims (simulate_all n batches)
