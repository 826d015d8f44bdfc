-- ===== src/Payouts/RewardGuards.antt =====
-- When the reward mode deposits, opens a round and pays.
use text.Mathlib.TextEquality.{eq_iff}
use text.Mathlib.Text.{◌==◌ as str_eq}
use hubconnect.Base.{
  ℕ, ◌≡◌, refl, ◌==◌, true, false, not, ◌⊎◌, inl, inr, Option, none, some, String, pick, from_not,
  subst,
}
use mathlib.Core.Option.{some-injective}
use hubconnect.Payouts.Pay.{Run}
use hubconnect.Payouts.Reward.{
  RewardArgs, Keys, Rounds, distributed, RewardReport, report, hub_units_from_whole, fund_units,
  fund_step, or_opened, open_standing, open_step, pay_round, run_reward_mode,
}
use hubconnect.Payouts.Entered.{MayReward, pay_round-MayReward}

module _ (n : Rounds) (args : RewardArgs) (k : Keys) where
  abbrev pub MayFund : ℕ → Type 0
  MayFund u =
      (v : String) × (args.fund ≡ some v)
      × (hub_units_from_whole v ≡ some u)
      × (k.treasury ≡ k.treasury_signer)
      × (args.dry_run ≡ false)

  abbrev pub MayOpen : Option ℕ → ℕ → Type 0
  MayOpen funded c =
      (units : ℕ) × (n.standing funded ≡ some (units, c))
      × ((units == 0) ≡ false)
      × (args.open_round ≡ true)
      × (args.dry_run ≡ false)

  abbrev pub IsRewardGuarded : RewardReport → Type 0
  IsRewardGuarded rep =
      ((u : ℕ) → rep.funded ≡ some u → MayFund u)
      × ((c : ℕ) → rep.opened ≡ some c → MayOpen rep.funded c)
      × ((r : ℕ) (o : Option Run)
          → rep.outcome ≡ distributed r o
          → MayReward n args k rep.opened r o)

  module _ (funded : Option ℕ) (paid_in : (u : ℕ) → funded ≡ some u → MayFund u) where
    ended :
        (opened round : Option ℕ)
        → ((c : ℕ) → opened ≡ some c → MayOpen funded c)
        → ((x : ℕ) → round ≡ some x → (args.round ≡ some x) ⊎ (opened ≡ some x))
        → IsRewardGuarded (report funded opened (pay_round n args k opened round))
    ended opened round w v = (paid_in, w, λ r o. pay_round-MayReward n args k r o opened round v)

    or_opened_from :
        (asked : Option ℕ) (c x : ℕ)
        → some (or_opened asked c) ≡ some x
        → (asked ≡ some x) ⊎ (some c ≡ some x)
    or_opened_from none c x e = inr e
    or_opened_from (some a) c x e = inl e

    not_opened : IsRewardGuarded (report funded none (pay_round n args k none args.round))
    not_opened = ended none args.round (λ c e. cc) (λ x e. inl e)

    open_standing-IsRewardGuarded :
        (s : Option (ℕ × ℕ))
        → n.standing funded ≡ s
        → args.open_round ≡ true
        → IsRewardGuarded (
            open_standing n args funded s
              (λ opened round. report funded opened (pay_round n args k opened round)))
    open_standing-IsRewardGuarded none e w = (paid_in, λ c t. cc, λ r o t. cc)
    open_standing-IsRewardGuarded (some (units, count)) e w =
        pick IsRewardGuarded (units == 0) (λ _. not_opened)
          (λ z.
            pick IsRewardGuarded args.dry_run (λ _. not_opened)
              (λ d.
                let may : (c : ℕ) → some count ≡ some c → MayOpen funded c =
                  λ c t. subst (MayOpen funded) (some-injective _ _ t) (units, e, z, w, d) in
                pick IsRewardGuarded (n.opens count)
                  (λ _.
                    ended (some count) (some (or_opened args.round count)) may
                      (or_opened_from args.round count))
                  (λ _. (paid_in, may, λ r o t. cc))))

    open_step-IsRewardGuarded : IsRewardGuarded (
        open_step n args funded
          (λ opened round. report funded opened (pay_round n args k opened round)))
    open_step-IsRewardGuarded =
        pick IsRewardGuarded args.open_round
          (open_standing-IsRewardGuarded (n.standing funded) refl) (λ _. not_opened)

  module _ (next : Option ℕ → RewardReport)
      (go : (f : Option ℕ) → ((u : ℕ) → f ≡ some u → MayFund u) → IsRewardGuarded (next f)) where
    unfunded : IsRewardGuarded (next none)
    unfunded = go none (λ u e. cc)

    fund_units-IsRewardGuarded :
        (v : String) (u : Option ℕ)
        → args.fund ≡ some v
        → hub_units_from_whole v ≡ u
        → IsRewardGuarded (fund_units n args k u next)
    fund_units-IsRewardGuarded v none e w = (λ u t. cc, λ c t. cc, λ r o t. cc)
    fund_units-IsRewardGuarded v (some u) e w =
        pick IsRewardGuarded (not (str_eq k.treasury k.treasury_signer))
          (λ _. (λ u t. cc, λ c t. cc, λ r o t. cc))
          (λ s.
            pick IsRewardGuarded args.dry_run (λ _. unfunded)
              (λ d.
                let signed =
                  (eq_iff k.treasury k.treasury_signer).0
                    (from_not (str_eq k.treasury k.treasury_signer) s) in
                let may : (x : ℕ) → some u ≡ some x → MayFund x =
                  λ x t. subst MayFund (some-injective _ _ t) (v, e, w, signed, d) in
                pick IsRewardGuarded (n.funds u) (λ _. go (some u) may)
                  (λ _. (may, λ c t. cc, λ r o t. cc))))

    fund_step-IsRewardGuarded :
        (f : Option String) → args.fund ≡ f → IsRewardGuarded (fund_step n args k f next)
    fund_step-IsRewardGuarded none e = unfunded
    fund_step-IsRewardGuarded (some v) e =
        fund_units-IsRewardGuarded v (hub_units_from_whole v) e refl

-- In the reward mode a deposit is sent only for an amount that was given in digits, by the treasury's
-- own key; a round is opened only if `--open` is given and units are pending, under the number of
-- rounds so far; nothing is sent in a dry run. The loop that pays is entered only by the authority, for
-- a round that exists and was asked for or just opened, and with the active desks of the collection
-- that have no claim of that round.
pub run_reward_mode-IsRewardGuarded :
    (n : Rounds) (args : RewardArgs) (k : Keys)
    → IsRewardGuarded n args k (run_reward_mode n args k)
unfolding run_reward_mode
run_reward_mode-IsRewardGuarded n args k =
    fund_step-IsRewardGuarded n args k _ (λ f may. open_step-IsRewardGuarded n args k f may)
      args.fund refl
