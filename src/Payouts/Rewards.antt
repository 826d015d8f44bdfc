-- ===== src/Payouts/Rewards.antt =====
-- Which desks the reward mode pays.
use hubconnect.Base.{
  ℕ, zero, suc, ◌≤◌, ◌≡◌, refl, sym, ap, subst, ◌∙◌, Bool, true, false, Option, none, some, List,
  [], ◌∷◌, map, String, length, length-drop, take, drop, take-append-drop, arith, All, All-self,
  pick, if◌then◌else◌,
}
use mathlib.Core.List.{Mem, map-append}
use mathlib.Core.Option.{some-injective}
use hubconnect.Payouts.Counts.{times_listed}
use hubconnect.Payouts.Entered.{FromChain}
use hubconnect.Payouts.RewardGuards.{run_reward_mode-IsRewardGuarded}
use hubconnect.Payouts.Pays.{ListsOnce, PaysOnce, pay_pending-PaysOnce}
use hubconnect.Payouts.Rightly.{Grown, as_before, pay_all-Grown}
use hubconnect.Payouts.Pay.{
  Payee, Payment, Host, Run, pending, unless_claimed, has_claim, pay_all, started,
}
use hubconnect.Payouts.Reward.{
  RewardArgs, Keys, distributed, run_reward_mode, DeskTier, Rounds, joined, fetch_tiers, is_active,
  rewarded, active_of,
}

abbrev pub active_desks : (String → Option DeskTier) → List String → List Payee
active_desks one [] = []
active_desks one (a ∷ as_) =
    let rest = active_desks one as_ in if is_active (one a) then rewarded a ∷ rest else rest

module _ (n : Rounds) (one : String → Option DeskTier)
    (each : (as_ : List String) → n.tiers as_ ≡ some (map one as_)) where
  fetch_tiers-map :
      (fuel : ℕ) (as_ : List String)
      → length as_ ≤ fuel
      → fetch_tiers fuel n as_ ≡ some (map one as_)
  unfolding fetch_tiers
  fetch_tiers-map fuel [] le = refl
  fetch_tiers-map zero (a ∷ as_) le = absurd (omega arith)
  fetch_tiers-map (suc fuel) (a ∷ as_) le =
      let first = each (take 100 (a ∷ as_)) in
      let rest =
        fetch_tiers-map fuel (drop 100 (a ∷ as_)) (omega (arith, length-drop 100 (a ∷ as_))) in
      ap (joined (n.tiers (take 100 (a ∷ as_)))) rest
      ∙ ap (λ o. joined o (some (map one (drop 100 (a ∷ as_))))) first
      ∙ ap some (sym (map-append one (take 100 (a ∷ as_)) (drop 100 (a ∷ as_))))
      ∙ ap (λ xs. some (map one xs)) (take-append-drop 100 (a ∷ as_))

  active_of-map : (as_ : List String) → active_of as_ (map one as_) ≡ active_desks one as_
  unfolding active_of
  active_of-map [] = refl
  active_of-map (a ∷ as_) = rw (active_of-map as_) refl

-- A desk of the collection that is active.
abbrev pub IsActiveDesk : (String → Option DeskTier) → List String → Payee → Type 0
IsActiveDesk one as_ p = (a : String) × (p ≡ rewarded a) × Mem a as_ × (is_active (one a) ≡ true)

active_desks-IsActiveDesk :
    (one : String → Option DeskTier) (as_ bs : List String)
    → All (λ a. Mem a as_) bs
    → All (IsActiveDesk one as_) (active_desks one bs)
active_desks-IsActiveDesk one as_ [] m = tt
active_desks-IsActiveDesk one as_ (b ∷ bs) (m, ms) =
    pick (All (IsActiveDesk one as_)) (is_active (one b))
      (λ t. ((b, refl, m, t), active_desks-IsActiveDesk one as_ bs ms))
      (λ _. active_desks-IsActiveDesk one as_ bs ms)

active_desks-listed :
    (one : String → Option DeskTier) (a : String) (as_ : List String)
    → times_listed a (active_desks one as_) ≤ times_listed a (map rewarded as_)
active_desks-listed one a [] = omega arith
active_desks-listed one a (b ∷ bs) = let ih = active_desks-listed one a bs in ground (arith, ih)

module _ (h : Host) (l : List Payment) (Q : Payee → Type 0) where
  unless_claimed-All :
      (p : Payee) (b : Bool) (o : Option (List Payee)) (qs : List Payee)
      → Q p
      → unless_claimed p b o ≡ some qs
      → ((rs : List Payee) → o ≡ some rs → All Q rs)
      → All Q qs
  unless_claimed-All p b none qs q e ih = cc
  unless_claimed-All p true (some rs) qs q e ih = ih qs e
  unless_claimed-All p false (some rs) qs q e ih =
      subst (All Q) (some-injective _ _ e) (q, ih rs refl)

  pending-All : (ps qs : List Payee) → All Q ps → pending h ps l ≡ some qs → All Q qs
  unfolding pending
  pending-All [] qs q e = subst (All Q) (some-injective _ _ e) tt
  pending-All (p ∷ ps) qs (q, all) e =
      pick (λ o. o ≡ some qs → All Q qs) (h.reads_claim p.asset)
        (λ _ t.
          unless_claimed-All p (has_claim p.asset l) (pending h ps l) qs q t
            (λ rs. pending-All ps rs all))
        (λ _ t. cc) e

module _ (n : Rounds) (args : RewardArgs) (k : Keys) (one : String → Option DeskTier)
    (each : (as_ : List String) → n.tiers as_ ≡ some (map one as_)) (as_ : List String)
    (owned : n.desks ≡ some as_) (r : ℕ) (run : Run) where
  from_active :
      FromChain n args k r (some run)
      → (qs : List Payee) × (pending n.host (active_desks one as_) (n.claims r) ≡ some qs)
        × (pay_all (length qs) n.host args.batch qs (started (n.claims r)) ≡ some run)
  from_active (bs, ts, qs, d, f, p, e, _) =
      let same : bs ≡ as_ = some-injective _ _ (sym d ∙ owned) in
      let mapped : ts ≡ map one bs =
        some-injective _ _ (sym f ∙ fetch_tiers-map n one each (length bs) bs (omega arith)) in
      (
        qs,
        ap (λ xs. pending n.host (active_desks one xs) (n.claims r)) (sym same)
            ∙ ap (λ xs. pending n.host xs (n.claims r)) (sym (active_of-map n one each bs))
            ∙ ap (λ xs. pending n.host (active_of bs xs) (n.claims r)) (sym mapped)
            ∙ p,
        e,
      )

  -- Where the node answers a request for many tiers with each of them, the collection lists no desk
  -- twice, and none has two claims of the round, the reward mode leaves none with two claims. What is on
  -- chain then is what was there before, and on top of it the claims of one transaction after the other,
  -- each for a desk of the collection that is active, paid to the owner that the desk has with the claims
  -- that were on chain before the transaction.
  pub run_reward_mode-PaysActive :
      ListsOnce (map rewarded as_)
      → PaysOnce (n.claims r)
      → (run_reward_mode n args k).outcome ≡ distributed r (some run)
      → Grown n.host (IsActiveDesk one as_) (n.claims r) run.ledger × PaysOnce run.ledger
  run_reward_mode-PaysActive once before e =
      let (_, _, _, given) = (run_reward_mode-IsRewardGuarded n args k).2 r (some run) e in
      let (qs, p, d) = from_active given in
      (
        pay_all-Grown n.host (IsActiveDesk one as_) (n.claims r) (length qs) args.batch qs
            (started (n.claims r)) run
            (pending-All n.host (n.claims r) (IsActiveDesk one as_) (active_desks one as_) qs
              (active_desks-IsActiveDesk one as_ as_ (All-self as_)) p)
            as_before d,
        pay_pending-PaysOnce (length qs) args.batch n.host (active_desks one as_) qs (n.claims r)
            run (λ a. omega (arith, active_desks-listed one a as_, once a)) before p d,
      )
