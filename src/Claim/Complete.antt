-- ===== src/Claim/Complete.antt =====
-- The results of a claim, one by one against its desks.
use mathlib.Core.List.{flatten, Perm}
use mathlib.Core.List.Perm
use mathlib.Core.Option.{some-injective}
use hubconnect.Base.{
  ℕ, suc, ◌≡◌, refl, sym, ap, subst, ◌∙◌, Bool, true, false, Option, none, some, List, [], ◌∷◌,
  ◌++◌, map, String, length, arith, ltb, ◌==◌, pick, if◌then◌else◌,
}
use hubconnect.Sdk.Views.{ConfigView, OtcPotView}
use hubconnect.Claim.Accounts.{CreateAta, ClaimYield, build_claim_yield_ix}
use hubconnect.Claim.Batches.{group_batches, group_batches-GroupsFit, group_batches-length}
use hubconnect.Claim.Send.{Reason, not_provisioned, nothing_bought, underfunded, ClaimResult}
use hubconnect.Claim.Yield.{
  YieldHost, yield_tx, pack_txs, assets_of, abort, yield_batches, build_yield, with_pot, if_funded,
  check_vault, execute_claim_yield,
}
use hubconnect.Claim.Results.{desks, desks_of, desks-results_for, claim_batches-Perm}

desks_of-assets_of :
    {T : Type 0} (gs : List (List String)) (ts : List T)
    → length gs ≡ length ts
    → desks_of (assets_of gs ts) ≡ flatten gs
unfolding assets_of flatten
desks_of-assets_of [] [] e = refl
desks_of-assets_of (g ∷ gs) (t ∷ ts) e = ap (λ l. g ++ l) (desks_of-assets_of gs ts (omega arith))
desks_of-assets_of [] (t ∷ ts) e = absurd (omega arith)
desks_of-assets_of (g ∷ gs) [] e = absurd (omega arith)

length-map {ℓ κ} :
    {A : Type ℓ} {B : Type κ} (f : A → B) (xs : List A) → length (map f xs) ≡ length xs
length-map f [] = refl
length-map f (x ∷ xs) = ap suc (length-map f xs)

length-pack_txs :
    (gs : List (List ClaimYield)) (preamble : List CreateAta) (payer : String)
    → length (pack_txs gs preamble payer) ≡ length gs
unfolding pack_txs
length-pack_txs [] preamble payer = refl
length-pack_txs (g ∷ gs) preamble payer = ap suc (length-map (λ h. yield_tx payer [] h) gs)

-- What is returned only if a test holds.
if_some :
    {A : Type 0} (b : Bool) (x : Option A) (a : A) → (if b then x else none) ≡ some a → x ≡ some a
if_some true x a e = e
if_some false x a e = cc

desks_of-packed :
    (f : String → ClaimYield) (preamble : List CreateAta) (payer : String) (assets : List String)
    → desks_of (
        assets_of
          (group_batches assets (length preamble))
          (pack_txs (group_batches (map f assets) (length preamble)) preamble payer))
      ≡ assets
desks_of-packed f preamble payer assets =
    let n = length preamble in
    desks_of-assets_of (group_batches assets n)
      (pack_txs (group_batches (map f assets) n) preamble payer)
      (group_batches-length assets (map f assets) n (sym (length-map f assets))
        ∙ sym (length-pack_txs (group_batches (map f assets) n) preamble payer))
    ∙ (group_batches-GroupsFit assets n).0

module _ (h : YieldHost) (config : ConfigView) where
  desks_of-yield_batches :
      (pot : OtcPotView) (exists : Bool) (assets : List String)
      → desks_of (yield_batches h config pot exists assets) ≡ assets
  unfolding yield_batches
  desks_of-yield_batches pot exists assets =
      desks_of-packed (λ a. build_claim_yield_ix h.pda h.claimer a config pot) _ h.claimer assets

  abbrev pub Answers : List String → Option (List ClaimResult) → Type 0
  Answers assets out = (rs : List ClaimResult) → out ≡ some rs → Perm (desks rs) assets

  abort-Answers : (r : Reason) (assets : List String) → Answers assets (abort r assets)
  abort-Answers r assets rs e =
      subst (λ l. Perm l assets)
        (sym (desks-results_for assets none (some r)) ∙ ap desks (some-injective _ _ e))
        (Perm.refl assets)

  build_yield-Answers :
      (pot : OtcPotView) (assets : List String) (exists : Option Bool)
      → Answers assets (build_yield h config pot assets exists)
  build_yield-Answers pot assets none rs e = cc
  build_yield-Answers pot assets (some exists) rs e =
      subst (Perm (desks rs)) (desks_of-yield_batches pot exists assets) (
        claim_batches-Perm h.node (yield_batches h config pot exists assets) rs
          (if_some h.has_blockhash _ rs e))

  with_pot-Answers :
      (pot : OtcPotView) (assets : List String) → Answers assets (with_pot h config pot assets)
  unfolding with_pot
  with_pot-Answers pot assets = build_yield-Answers pot assets _

  if_funded-Answers :
      (pot : OtcPotView) (assets : List String) (due : ℕ) (balance : Option ℕ)
      → Answers assets (if_funded h config pot assets due balance)
  if_funded-Answers pot assets due none = λ rs e. cc
  if_funded-Answers pot assets due (some b) =
      pick (Answers assets) (ltb b due) (λ _. abort-Answers underfunded assets)
        (λ _. with_pot-Answers pot assets)

  check_vault-Answers :
      (pot : OtcPotView) (assets : List String) (due : Option ℕ)
      → Answers assets (check_vault h config pot assets due)
  check_vault-Answers pot assets none = with_pot-Answers pot assets
  check_vault-Answers pot assets (some due) =
      pick (Answers assets) (due == 0) (λ _. with_pot-Answers pot assets)
        (λ _. if_funded-Answers pot assets due _)

  -- Unless a call throws, every desk that yield is claimed for has one result, no more and no other:
  -- also where the claim is aborted, a simulation or a transaction fails or the wallet rejects.
  pub execute_claim_yield-Answers :
      (pot : Option OtcPotView) (due : Option ℕ) (assets : List String) (rs : List ClaimResult)
      → execute_claim_yield h config pot due assets ≡ some rs
      → Perm (desks rs) assets
  unfolding execute_claim_yield
  execute_claim_yield-Answers pot due [] rs e =
      subst (λ l. Perm (desks l) []) (some-injective _ _ e) (Perm.refl [])
  execute_claim_yield-Answers none due (a ∷ rest) rs e =
      abort-Answers not_provisioned (a ∷ rest) rs e
  execute_claim_yield-Answers (some pot) due (a ∷ rest) rs e =
      pick (Answers (a ∷ rest)) (pot.total_lamports_spent == 0)
        (λ _. abort-Answers nothing_bought (a ∷ rest)) (λ _. check_vault-Answers pot (a ∷ rest) due)
        rs e
