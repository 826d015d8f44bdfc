-- ===== src/Tier/Sound.antt =====
-- When the transaction of a tier change is broadcast and reported as good.
use mathlib.Core.Option.{some-injective}
use hubconnect.Base.{
  ◌≡◌, sym, subst, refl, Bool, true, false, Option, none, some, List, String, ◌↔◌, pick,
}
use hubconnect.Swap.Execute.{Confirmation, confirmed, failed_on_chain, confirm_threw}
use hubconnect.Tier.Change.{
  ChangeInputs, ChangeNode, TierIx, Outcome, build_tier_change_ixs, after_confirm, after_send,
  after_sign, after_sim, after_build, execute_tier_change, Failure, failed, aborted, rejected,
  simulation_failed,
}

module _ (n : ChangeNode) (i : ChangeInputs) where
  -- Bytes are broadcast only for the instructions that were built, once they passed a simulation and
  -- the wallet signed them; a good result is exactly for a broadcast that was confirmed.
  abbrev pub IsSound : Outcome → Type 0
  IsSound (r, bytes) =
      ((b : String)
        → bytes ≡ some b
        → (ixs : List TierIx) × (build_tier_change_ixs i ≡ some ixs)
          × (n.simulate ixs ≡ some true)
          × (n.sign ixs ≡ some b))
      × (r.failure ≡ none ↔ (
          (b : String) × (x : String) × (bytes ≡ some b)
          × (n.send b ≡ some x)
          × (n.confirm x ≡ confirmed)
          × (r.sig ≡ some x)))

  quiet-IsSound : (f : Failure) → IsSound (failed f none)
  quiet-IsSound f = (λ b e. cc, (λ e. cc, λ (b, x, e, s, c, g). cc))

  module _ (ixs : List TierIx) (b : String) (built : build_tier_change_ixs i ≡ some ixs)
      (passed : n.simulate ixs ≡ some true) (signed : n.sign ixs ≡ some b) where
    abbrev Earned : String → Type 0
    Earned c =
        (ixs : List TierIx) × (build_tier_change_ixs i ≡ some ixs)
        × (n.simulate ixs ≡ some true)
        × (n.sign ixs ≡ some c)

    earned : (c : String) → some b ≡ some c → Earned c
    earned c e = subst Earned (some-injective _ _ e) (ixs, built, passed, signed)

    after_confirm-IsSound :
        (x : String) (c : Confirmation)
        → n.send b ≡ some x
        → n.confirm x ≡ c
        → IsSound (after_confirm b x c)
    unfolding after_confirm
    after_confirm-IsSound x confirmed s c = (earned, (λ e. (b, x, refl, s, c, refl), λ z. refl))
    after_confirm-IsSound x failed_on_chain s c = (
      earned,
      (
        λ e. cc,
        λ (d, y, e, t, k, g).
            cc (subst (λ z. n.confirm z ≡ confirmed) (sym (some-injective _ _ g)) k, c),
      ),
    )
    after_confirm-IsSound x confirm_threw s c = (earned, (λ e. cc, λ (d, y, e, t, k, g). cc))

    after_send-IsSound : (x : Option String) → n.send b ≡ x → IsSound (after_send n b x)
    unfolding after_send
    after_send-IsSound none s = (earned, (λ e. cc, λ (d, y, e, t, k, g). cc))
    after_send-IsSound (some x) s = after_confirm-IsSound x (n.confirm x) s refl

  after_sign-IsSound :
      (ixs : List TierIx) (b : Option String)
      → build_tier_change_ixs i ≡ some ixs
      → n.simulate ixs ≡ some true
      → n.sign ixs ≡ b
      → IsSound (after_sign n b)
  unfolding after_sign
  after_sign-IsSound ixs none e p s = quiet-IsSound rejected
  after_sign-IsSound ixs (some b) e p s = after_send-IsSound ixs b e p s (n.send b) refl

  after_sim-IsSound :
      (ixs : List TierIx) (s : Option Bool)
      → build_tier_change_ixs i ≡ some ixs
      → n.simulate ixs ≡ s
      → IsSound (after_sim n ixs s)
  unfolding after_sim
  after_sim-IsSound ixs none e p = quiet-IsSound aborted
  after_sim-IsSound ixs (some false) e p = quiet-IsSound simulation_failed
  after_sim-IsSound ixs (some true) e p = after_sign-IsSound ixs (n.sign ixs) e p refl

  after_build-IsSound :
      (ixs : Option (List TierIx)) → build_tier_change_ixs i ≡ ixs → IsSound (after_build n ixs)
  unfolding after_build
  after_build-IsSound none e = quiet-IsSound aborted
  after_build-IsSound (some ixs) e =
      pick IsSound n.has_blockhash (λ _. after_sim-IsSound ixs (n.simulate ixs) e refl)
        (λ _. quiet-IsSound aborted)

  pub execute_tier_change-IsSound : IsSound (execute_tier_change n i)
  unfolding execute_tier_change
  execute_tier_change-IsSound = after_build-IsSound (build_tier_change_ixs i) refl
