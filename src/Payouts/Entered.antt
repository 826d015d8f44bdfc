-- ===== src/Payouts/Entered.antt =====
-- What the loop of the reward mode is given when it is entered.
use text.Mathlib.TextEquality.{eq_iff}
use text.Mathlib.Text.{◌==◌ as str_eq}
use hubconnect.Base.{
  ℕ, ◌≡◌, refl, ap, Bool, true, false, not, ◌⊎◌, Option, none, some, List, [], ◌∷◌, String, length,
  pick, from_not, subst,
}
use hubconnect.Payouts.Pay.{Payee, Run, pay_all, pending, started}
use hubconnect.Payouts.Reward.{
  RewardArgs, Keys, Rounds, DeskTier, distributed, fetch_tiers, active_of, pay_pending, pay_active,
  pay_tiers, pay_desks, pay_found, pay_round,
}

module _ (n : Rounds) (args : RewardArgs) (k : Keys) where
  -- What a loop that pays round `r` and ends as `o` was given.
  abbrev pub FromChain : ℕ → Option Run → Type 0
  FromChain r o =
      (as_ : List String) × (ts : List (Option DeskTier)) × (qs : List Payee) × (n.desks ≡ some as_)
      × (fetch_tiers (length as_) n as_ ≡ some ts)
      × (pending n.host (active_of as_ ts) (n.claims r) ≡ some qs)
      × (pay_all (length qs) n.host args.batch qs (started (n.claims r)) ≡ o)
      × (args.dry_run ≡ false)

  abbrev pub MayReward : Option ℕ → ℕ → Option Run → Type 0
  MayReward opened r o =
      (k.authority ≡ k.signer)
      × (n.has_round opened r ≡ some true)
      × ((args.round ≡ some r) ⊎ (opened ≡ some r))
      × FromChain r o

  module _ (r : ℕ) (o : Option Run) where
    pay_pending-FromChain :
        (as_ : List String) (ts : List (Option DeskTier)) (r' : ℕ) (q : Option (List Payee))
        → n.desks ≡ some as_
        → fetch_tiers (length as_) n as_ ≡ some ts
        → pending n.host (active_of as_ ts) (n.claims r') ≡ q
        → pay_pending n args r' q ≡ distributed r o
        → (r' ≡ r) × FromChain r' o
    pay_pending-FromChain as_ ts r' none d f p e = cc
    pay_pending-FromChain as_ ts r' (some qs) d f p t =
        pick (λ x. x ≡ distributed r o → (r' ≡ r) × FromChain r' o) args.dry_run (λ _ e. cc)
          (λ w e. (cc e, (as_, ts, qs, d, f, p, cc e, w))) t

    pay_active-FromChain :
        (as_ : List String) (ts : List (Option DeskTier)) (r' : ℕ) (ps : List Payee)
        → n.desks ≡ some as_
        → fetch_tiers (length as_) n as_ ≡ some ts
        → active_of as_ ts ≡ ps
        → pay_active n args r' ps ≡ distributed r o
        → (r' ≡ r) × FromChain r' o
    pay_active-FromChain as_ ts r' [] d f p e = cc
    pay_active-FromChain as_ ts r' (x ∷ xs) d f p e =
        pay_pending-FromChain as_ ts r' (pending n.host (x ∷ xs) (n.claims r')) d f
          (ap (λ ps. pending n.host ps (n.claims r')) p) e

    pay_tiers-FromChain :
        (as_ : List String) (r' : ℕ) (ts : Option (List (Option DeskTier)))
        → n.desks ≡ some as_
        → fetch_tiers (length as_) n as_ ≡ ts
        → pay_tiers n args r' as_ ts ≡ distributed r o
        → (r' ≡ r) × FromChain r' o
    pay_tiers-FromChain as_ r' none d f e = cc
    pay_tiers-FromChain as_ r' (some ts) d f e =
        pay_active-FromChain as_ ts r' (active_of as_ ts) d f refl e

    pay_desks-FromChain :
        (r' : ℕ) (ds : Option (List String))
        → n.desks ≡ ds
        → pay_desks n args r' ds ≡ distributed r o
        → (r' ≡ r) × FromChain r' o
    pay_desks-FromChain r' none d e = cc
    pay_desks-FromChain r' (some []) d e = cc
    pay_desks-FromChain r' (some (a ∷ as_)) d e =
        pay_tiers-FromChain (a ∷ as_) r' (fetch_tiers (length (a ∷ as_)) n (a ∷ as_)) d refl e

    pay_found-MayReward :
        (opened : Option ℕ) (r' : ℕ) (found : Option Bool)
        → k.authority ≡ k.signer
        → n.has_round opened r' ≡ found
        → ((args.round ≡ some r') ⊎ (opened ≡ some r'))
        → pay_found n args r' found ≡ distributed r o
        → (r' ≡ r) × MayReward opened r' o
    pay_found-MayReward opened r' none a h w e = cc
    pay_found-MayReward opened r' (some false) a h w e = cc
    pay_found-MayReward opened r' (some true) a h w e =
        let (same, c) = pay_desks-FromChain r' n.desks refl e in (same, (a, h, w, c))

    pub pay_round-MayReward :
        (opened round : Option ℕ)
        → ((x : ℕ) → round ≡ some x → (args.round ≡ some x) ⊎ (opened ≡ some x))
        → pay_round n args k opened round ≡ distributed r o
        → MayReward opened r o
    pay_round-MayReward opened none w e = cc
    pay_round-MayReward opened (some r') w s =
        pick (λ x. x ≡ distributed r o → MayReward opened r o) (not (str_eq k.authority k.signer))
          (λ _ e. cc)
          (λ t e.
            let (same, m) =
              pay_found-MayReward opened r' (n.has_round opened r')
                ((eq_iff k.authority k.signer).0 (from_not (str_eq k.authority k.signer) t)) refl
                (w r' refl) e in
            subst (λ x. MayReward opened x o) same m)
          s
