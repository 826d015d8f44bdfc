-- ===== src/Faucet/Counts.antt =====
-- What the faucet's handlers leave alone: the counts of the addresses, and the ledger but for at
-- most two grants.
use hubconnect.Base.{
  ℕ, ◌+◌, ◌≤◌, ◌≡◌, ◌≢◌, inl, inr, refl, sym, subst, ◌∙◌, Bool, true, false, Option, none, some,
  List, String, length, arith, Bool-cases, ltb,
}
use text.Mathlib.Text.{◌==◌ as str_eq}
use hubconnect.Faucet.Config.{
  drip_cooldown_seconds, desk_cooldown_seconds, sol_cooldown_seconds, sol_drip_lamports,
  sol_faucet_reserve_lamports,
}
use hubconnect.Faucet.Host.{
  Host, Body, Grant, kit, sol, Delivery, confirmed, failed, Response, DeskReceipt, HubPot,
  FaucetConfig, MintInfo, kit_sent, desk_sent,
}
use hubconnect.Faucet.Store.{Kv, Key, ip_key, drip_key, sol_key, desk_key}
use hubconnect.Faucet.Handlers.{
  World, lands, cool, guarded, check_mints, after_desk, mint_desk_asset, drip_desk, send_kit,
  kit_checked, drip_to, handle_drip, send_sol, sol_to, handle_sol_drip, desk_to, handle_mint_desk,
  parse_wallet, challenged,
}
use hubconnect.Faucet.Guard.{guarded-cases}

module _ (kv : Kv) (hour : ℕ) (ip : String) (w : World kv.Store) where
  -- The address's count is what it was, and at most `n` grants are new.
  abbrev pub IsGentle : ℕ → World kv.Store → Type 0
  IsGentle n v =
      ((t : ℕ) → kv.get v.store t (ip_key hour ip) ≡ kv.get w.store t (ip_key hour ip))
      × (length v.ledger ≤ length w.ledger + n)

  pub unchanged-IsGentle : (n : ℕ) → IsGentle n w
  unchanged-IsGentle n = (λ t. refl, omega arith)

  lands-IsGentle :
      (n : ℕ) (g : Grant) (b : Bool) (v : World kv.Store)
      → IsGentle n v
      → IsGentle (n + 1) (lands kv g b v)
  lands-IsGentle n g true v (c, l) = (c, omega (arith, l))
  lands-IsGentle n g false v (c, l) = (c, omega (arith, l))

  more-IsGentle : (n : ℕ) (v : World kv.Store) → IsGentle n v → IsGentle (n + 1) v
  more-IsGentle n v (c, l) = (c, omega (arith, l))

  cool-IsGentle :
      (n : ℕ) (h : Host) (k : Key) (ttl : ℕ) (v : World kv.Store)
      → k ≢ ip_key hour ip
      → IsGentle n v
      → IsGentle n (cool kv h k ttl v)
  cool-IsGentle n h k ttl v ne (c, l) =
      (λ t. kv.get-put_ne v.store h.now t k (ip_key hour ip) h.now ttl ne ∙ c t, l)

  module _ (n : ℕ) (go : DeskReceipt → World kv.Store → Response × World kv.Store)
      (gentle : (d : DeskReceipt) (v : World kv.Store)
        → IsGentle (n + 1) v
        → IsGentle (n + 1) (go d v).1) where
    after_desk-IsGentle :
        (g : Grant) (k : ℕ) (d : Delivery) (v : World kv.Store)
        → IsGentle n v
        → IsGentle (n + 1) (after_desk kv go g k d v).1
    unfolding after_desk
    after_desk-IsGentle g k (failed b) v p = lands-IsGentle n g b v p
    after_desk-IsGentle g k (confirmed x) v p = gentle _ _ (lands-IsGentle n g true v p)

    mint_desk_asset-IsGentle :
        (h : Host) (wallet : String) (counts : Option (Option ℕ)) (v : World kv.Store)
        → IsGentle n v
        → IsGentle (n + 1) (mint_desk_asset kv h wallet go counts v).1
    unfolding mint_desk_asset
    mint_desk_asset-IsGentle h wallet none v p = more-IsGentle n v p
    mint_desk_asset-IsGentle h wallet (some c) v p = after_desk-IsGentle _ _ _ v p

  module _ (h : Host) (wallet : String) where
    send_kit-IsGentle : (d : Delivery) → IsGentle 2 (send_kit kv h wallet d w).1
    unfolding send_kit drip_desk
    send_kit-IsGentle (failed b) =
        more-IsGentle 1 _ (lands-IsGentle 0 (kit wallet) b w (unchanged-IsGentle 0))
    send_kit-IsGentle (confirmed x) =
        mint_desk_asset-IsGentle 1
          (λ d v. (kit_sent wallet x d, cool kv h (drip_key wallet) drip_cooldown_seconds v))
          (λ d v p. cool-IsGentle 2 h _ _ v (λ e. cc) p) h wallet h.counts _
          (lands-IsGentle 0 (kit wallet) true w (unchanged-IsGentle 0))

    kit_checked-IsGentle :
        (infos : Option (List MintInfo)) → IsGentle 2 (kit_checked kv h wallet infos w).1
    unfolding kit_checked challenged
    kit_checked-IsGentle none = unchanged-IsGentle 2
    kit_checked-IsGentle (some infos) = settled (check_mints h.payer infos)
      where
        settled :
            (r : Option Response)
            → IsGentle 2 (challenged kv r w (send_kit kv h wallet (h.deliver (kit wallet)) w)).1
        settled none = send_kit-IsGentle (h.deliver (kit wallet))
        settled (some r) = unchanged-IsGentle 2

    drip_to-IsGentle :
        (cfg : Option FaucetConfig) (pot : Option (Option HubPot))
        → IsGentle 2 (drip_to kv h wallet cfg pot w).1
    unfolding drip_to
    drip_to-IsGentle (some cfg) (some (some pot)) =
        elim (Bool-cases (str_eq cfg.desk_collection h.default_key)) [
          | inl e ↦ rw e (unchanged-IsGentle 2)
          | inr e ↦ rw e (kit_checked-IsGentle _)
        ]
    drip_to-IsGentle (some cfg) (some none) = unchanged-IsGentle 2
    drip_to-IsGentle (some cfg) none = unchanged-IsGentle 2
    drip_to-IsGentle none pot = unchanged-IsGentle 2

    drip-IsGentle : (b : Bool) → IsGentle 2 (lands kv (sol wallet sol_drip_lamports) b w)
    drip-IsGentle b =
        more-IsGentle 1 (lands kv (sol wallet sol_drip_lamports) b w)
          (lands-IsGentle 0 (sol wallet sol_drip_lamports) b w (unchanged-IsGentle 0))

    send_sol-IsGentle : (d : Delivery) → IsGentle 2 (send_sol kv h wallet d w).1
    unfolding send_sol
    send_sol-IsGentle (failed b) = drip-IsGentle b
    send_sol-IsGentle (confirmed x) =
        cool-IsGentle 2 h (sol_key wallet) sol_cooldown_seconds
          (lands kv (sol wallet sol_drip_lamports) true w) (λ e. cc) (drip-IsGentle true)

    sol_to-IsGentle : (balance : Option ℕ) → IsGentle 2 (sol_to kv h wallet balance w).1
    unfolding sol_to
    sol_to-IsGentle none = unchanged-IsGentle 2
    sol_to-IsGentle (some b) =
        elim (Bool-cases (ltb b (sol_faucet_reserve_lamports + sol_drip_lamports))) [
          | inl e ↦ rw e (unchanged-IsGentle 2)
          | inr e ↦ rw e (send_sol-IsGentle _)
        ]

    desk_to-IsGentle : (cfg : Option FaucetConfig) → IsGentle 2 (desk_to kv h wallet cfg w).1
    unfolding desk_to
    desk_to-IsGentle none = unchanged-IsGentle 2
    desk_to-IsGentle (some cfg) = elim (Bool-cases (str_eq cfg.desk_collection h.default_key)) [
      | inl e ↦ rw e (unchanged-IsGentle 2)
      | inr e ↦ rw e (
          mint_desk_asset-IsGentle 1
            (λ d v. (desk_sent d, cool kv h (desk_key wallet) desk_cooldown_seconds v))
            (λ d v p. cool-IsGentle 2 h _ _ v (λ e. cc) p) h wallet h.counts w
            (unchanged-IsGentle 1))
    ]

  guarded-IsGentle :
      (h : Host) (key : String → Key) (body : Body) (p : Option String)
      (go : String → Response × World kv.Store)
      → ((wallet : String) → IsGentle 2 (go wallet).1)
      → IsGentle 2 (guarded kv h key body p go w).1
  guarded-IsGentle h key body p go gentle = elim (guarded-cases kv h key body go w p) [
    | inl (_, e) ↦ subst (IsGentle 2) (sym e) (unchanged-IsGentle 2)
    | inr (wallet, _, _, g) ↦
        subst (λ (r : Response × World kv.Store). IsGentle 2 r.1) (sym g) (gentle wallet)
  ]

  pub handle_drip-IsGentle : (h : Host) (body : Body) → IsGentle 2 (handle_drip kv h body w).1
  unfolding handle_drip
  handle_drip-IsGentle h body =
      guarded-IsGentle h drip_key body (parse_wallet h body.wallet) _
        (λ wallet. drip_to-IsGentle h wallet h.config h.hub_pot)

  pub handle_sol_drip-IsGentle :
      (h : Host) (body : Body) → IsGentle 2 (handle_sol_drip kv h body w).1
  unfolding handle_sol_drip
  handle_sol_drip-IsGentle h body =
      guarded-IsGentle h sol_key body (parse_wallet h body.wallet) _
        (λ wallet. sol_to-IsGentle h wallet h.balance)

  pub handle_mint_desk-IsGentle :
      (h : Host) (body : Body) → IsGentle 2 (handle_mint_desk kv h body w).1
  unfolding handle_mint_desk
  handle_mint_desk-IsGentle h body =
      guarded-IsGentle h desk_key body (parse_wallet h body.wallet) _
        (λ wallet. desk_to-IsGentle h wallet h.config)
