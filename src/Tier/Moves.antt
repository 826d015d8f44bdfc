-- ===== src/Tier/Moves.antt =====
-- What the transaction of a tier change holds, and when it is broadcast.
use hubconnect.Keeper.Epoch.Raydium.{AccountMeta}
use hubconnect.Keeper.Epoch.Jupiter.{jupiter_program_id}
use mathlib.Core.Option.{some-injective}
use hubconnect.Base.{
  ℕ, ◌≤◌, ◌<◌, ◌≡◌, ◌⊎◌, sym, inl, inr, refl, true, false, ◌&&◌, Option, none, some, List, [], ◌∷◌,
  ◌++◌, String, ltb, ◌==◌, arith, Bool-cases, pick, subst,
}
use hubconnect.Sdk.Views.{OtcPotView}
use hubconnect.Tier.Route.{OtcSwapRoute}
use hubconnect.Claim.Accounts.{
  token_program, token_2022_program, CreateAta, create_ata_idempotent_ix, ClaimYield,
  build_claim_yield_ix,
}
use hubconnect.Tier.Quote.{max_tier, assert_tier_range, otc_payable}
use hubconnect.Tier.Change.{
  ChangeInputs, TierAccounts, OtcAccounts, common_accounts, otc_accounts, PayMethod, by_sol, by_otc,
  TierIx, activate_tier, upgrade_tier, activate_tier_otc, upgrade_tier_otc, create_ata, claim_yield,
  settle_with, settle_ixs, otc_ix, tier_ix, followed_by, ixs_with, build_tier_change_ixs,
}

module _ (i : ChangeInputs) where
  -- Nothing is settled for a desk that is not active or has nothing pending; else its yield is claimed.
  abbrev pub Settles : List TierIx → Type 0
  Settles s =
      ((ltb 0 i.from_tier && ltb 0 i.pending_lamports ≡ false) × (s ≡ []))
      ⊎ ((ltb 0 i.from_tier && ltb 0 i.pending_lamports ≡ true)
          × (c : CreateAta) × (y : ClaimYield) × (s ≡ create_ata c ∷ claim_yield y ∷ [])
          × (y.desk_asset ≡ i.desk_asset)
          × (y.claimer ≡ i.payer)
          × (c.account ≡ y.claimer_otc))

  -- The accounts of an instruction for the desk, its owner and the round that is open.
  abbrev pub IsForDesk : TierAccounts → Type 0
  IsForDesk a =
      (a.desk_asset ≡ i.desk_asset)
      × (a.desk_tier ≡ i.pda.desk_tier i.desk_asset)
      × (a.payer ≡ i.payer)
      × (a.payer_hub ≡ i.pda.ata i.payer i.config.hub_mint token_program)
      × (a.epoch ≡ i.pda.epoch i.config.current_epoch)
      × (i.tokenomics ≡ some a.treasury_lock_vault)

  -- What is paid in $OTC: the route's amount, swapped by the route's bytes and accounts, from the owner's
  -- account of $OTC.
  abbrev pub IsPaidByRoute : ℕ → List ℕ → OtcAccounts → List AccountMeta → Type 0
  IsPaidByRoute amount bytes a rest =
      (route : OtcSwapRoute) × (pot : OtcPotView) × (i.otc_route ≡ some route)
      × (i.otc_pot ≡ some pot)
      × (amount ≡ route.otc_swap_amount)
      × (bytes ≡ route.jupiter_data)
      × (rest ≡ route.remaining_accounts)
      × (a.otc_vault ≡ pot.otc_vault)
      × (a.payer_otc ≡ i.pda.ata i.payer i.config.otc_mint token_2022_program)
      × (a.jupiter_program ≡ jupiter_program_id)

  -- A move of the desk to the target tier, paid as was asked: an activation exactly from tier 0.
  abbrev pub IsTierIx : TierIx → Type 0
  IsTierIx (activate_tier to a program) =
      (i.from_tier ≡ 0) × (to ≡ i.to_tier) × (i.method ≡ by_sol) × IsForDesk a
  IsTierIx (upgrade_tier to a program) =
      (0 < i.from_tier) × (to ≡ i.to_tier) × (i.method ≡ by_sol) × IsForDesk a
  IsTierIx (activate_tier_otc to amount bytes a rest) =
      (i.from_tier ≡ 0)
      × (to ≡ i.to_tier)
      × (i.method ≡ by_otc)
      × IsForDesk a.common
      × IsPaidByRoute amount bytes a rest
  IsTierIx (upgrade_tier_otc to amount bytes a rest) =
      (0 < i.from_tier)
      × (to ≡ i.to_tier)
      × (i.method ≡ by_otc)
      × IsForDesk a.common
      × IsPaidByRoute amount bytes a rest
  IsTierIx (create_ata c) = ⊥
  IsTierIx (claim_yield y) = ⊥

  -- One move of the desk, and last.
  abbrev pub IsMove : List TierIx → Type 0
  IsMove ixs = (s : List TierIx) × (ix : TierIx) × (ixs ≡ s ++ (ix ∷ [])) × Settles s × IsTierIx ix

  settle_with-Settles :
      (pot : Option OtcPotView) (s : List TierIx)
      → (ltb 0 i.from_tier && ltb 0 i.pending_lamports) ≡ true
      → settle_with i pot ≡ some s
      → Settles s
  unfolding create_ata_idempotent_ix build_claim_yield_ix
  settle_with-Settles none s t e = cc
  settle_with-Settles (some pot) s t e = elim (Bool-cases (pot.total_lamports_spent == 0)) [
    | inl z ↦ cc (rw z at e)
    | inr z ↦ inr (t, _, _, sym (some-injective _ _ (rw z at e)), refl, refl, refl)
  ]

  settle_ixs-Settles : (s : List TierIx) → settle_ixs i ≡ some s → Settles s
  unfolding settle_ixs
  settle_ixs-Settles s e = elim (Bool-cases (ltb 0 i.from_tier && ltb 0 i.pending_lamports)) [
    | inl t ↦ settle_with-Settles i.otc_pot s t (rw t at e)
    | inr f ↦ inl (f, sym (some-injective _ _ (rw f at e)))
  ]

  module _ (lock_vault : String) (locked : i.tokenomics ≡ some lock_vault) where
    otc_ix-IsTierIx :
        (pot : Option OtcPotView) (route : Option OtcSwapRoute) (ix : TierIx)
        → i.otc_pot ≡ pot
        → i.otc_route ≡ route
        → i.method ≡ by_otc
        → otc_ix i lock_vault pot route ≡ some ix
        → IsTierIx ix
    otc_ix-IsTierIx none route ix ep er m e = cc
    otc_ix-IsTierIx (some pot) none ix ep er m e = cc
    otc_ix-IsTierIx (some pot) (some r) ix ep er m e =
        let desk : IsForDesk (common_accounts i lock_vault) =
          (refl, refl, refl, refl, refl, locked) in
        let paid : IsPaidByRoute r.otc_swap_amount r.jupiter_data (otc_accounts i lock_vault pot)
            r.remaining_accounts =
          (r, pot, er, ep, refl, refl, refl, refl, refl, refl) in
        subst IsTierIx (some-injective _ _ e) (
          pick IsTierIx (i.from_tier == 0) (λ t. (ground arith, refl, m, desk, paid))
            (λ f. (ground arith, refl, m, desk, paid)))

    tier_ix-IsTierIx :
        (m : PayMethod) (ix : TierIx)
        → i.method ≡ m
        → tier_ix i lock_vault m ≡ some ix
        → IsTierIx ix
    unfolding tier_ix
    tier_ix-IsTierIx by_sol ix m e =
        let desk : IsForDesk (common_accounts i lock_vault) =
          (refl, refl, refl, refl, refl, locked) in
        subst IsTierIx (some-injective _ _ e) (
          pick IsTierIx (i.from_tier == 0) (λ t. (ground arith, refl, m, desk))
            (λ f. (ground arith, refl, m, desk)))
    tier_ix-IsTierIx by_otc ix m e = elim (Bool-cases (otc_payable i.otc_pay)) [
      | inl t ↦ otc_ix-IsTierIx i.otc_pot i.otc_route ix refl refl m (rw t at e)
      | inr f ↦ cc (rw f at e)
    ]

  followed_by-IsMove :
      (s : Option (List TierIx)) (x : Option TierIx) (ixs : List TierIx)
      → followed_by s x ≡ some ixs
      → ((u : List TierIx) → s ≡ some u → Settles u)
      → ((ix : TierIx) → x ≡ some ix → IsTierIx ix)
      → IsMove ixs
  followed_by-IsMove none x ixs e p q = cc
  followed_by-IsMove (some s) none ixs e p q = cc
  followed_by-IsMove (some s) (some ix) ixs e p q =
      (s, ix, sym (some-injective _ _ e), p s refl, q ix refl)

  ixs_with-IsMove :
      (v : Option String) (ixs : List TierIx)
      → i.tokenomics ≡ v
      → ixs_with i v ≡ some ixs
      → IsMove ixs
  ixs_with-IsMove none ixs l e = cc
  ixs_with-IsMove (some v) ixs l e =
      followed_by-IsMove (settle_ixs i) (tier_ix i v i.method) ixs e settle_ixs-Settles
        (λ ix. tier_ix-IsTierIx v l i.method ix refl)

  -- What is built is for a target tier of 1 to 4 above the current one. It ends with one move to it of this
  -- desk, by its owner, an activation exactly from tier 0: paid as was asked, and in $OTC by the route's
  -- amount, bytes and accounts. In front of it the desk's yield is claimed into an account that is made
  -- sure to exist, exactly if the desk is active and has some pending.
  pub build_tier_change_ixs-IsMove :
      (ixs : List TierIx)
      → build_tier_change_ixs i ≡ some ixs
      → (1 ≤ i.to_tier) × (i.to_tier ≤ max_tier) × (i.from_tier < i.to_tier) × IsMove ixs
  unfolding build_tier_change_ixs assert_tier_range
  build_tier_change_ixs-IsMove ixs e = elim (Bool-cases (assert_tier_range i.from_tier i.to_tier)) [
    | inl t ↦ (
      ground arith,
      ground arith,
      ground arith,
      ixs_with-IsMove i.tokenomics ixs refl (rw t at e),
    )
    | inr f ↦ cc (rw f at e)
  ]
