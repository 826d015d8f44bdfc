-- ===== src/Faucet/Cooldown.antt =====
-- The mark that an answered grant leaves, and what it does to the next request.
use text.Mathlib.Text.{◌==◌ as str_eq}
use mathlib.Core.Option.{some-injective}
use hubconnect.Base.{
  ℕ, ◌+◌, ◌*◌, ◌≤◌, ◌<◌, ◌≡◌, ◌⊎◌, inl, inr, refl, sym, subst, ap, ◌∙◌, true, false, Option, none,
  some, List, [], ◌∷◌, String, ltb, Bool-cases,
}
use hubconnect.Faucet.Config.{
  sol_drip_lamports, sol_faucet_reserve_lamports, sol_cooldown_seconds, drip_cooldown_seconds,
  desk_cooldown_seconds,
}
use hubconnect.Faucet.Host.{
  Host, Body, Grant, kit, Delivery, confirmed, failed, Response, kit_sent, desk_sent, DeskReceipt,
  MintInfo, missing, unreadable, authority, FaucetConfig, HubPot,
}
use hubconnect.Faucet.Store.{Kv, Key, drip_key, sol_key, desk_key}
use hubconnect.Faucet.Handlers.{
  World, parse_wallet, guarded, challenged, handle_drip, handle_sol_drip, handle_mint_desk, sol_to,
  send_sol, send_kit, drip_desk, mint_desk_asset, cool, kit_checked, drip_to, desk_to, check_mints,
  after_desk,
}
use hubconnect.Faucet.Guard.{is_error, guarded_cooling, guarded-cases}

module _ (kv : Kv) (h : Host) where
  -- What a handler may leave after an answer that is no refusal: a mark that lasts for the cooldown.
  abbrev Cools : Key → ℕ → Response × World kv.Store → Type 0
  Cools key ttl x =
      (is_error x.0 ≡ true) ⊎ ((s : kv.Store) × (x.1.store ≡ kv.put s h.now key h.now ttl))

  send_sol-Cools :
      (wallet : String) (d : Delivery) (w : World kv.Store)
      → Cools (sol_key wallet) sol_cooldown_seconds (send_sol kv h wallet d w)
  unfolding send_sol
  send_sol-Cools wallet (failed b) w = inl refl
  send_sol-Cools wallet (confirmed x) w = inr (w.store, refl)

  sol_to-Cools :
      (wallet : String) (b : Option ℕ) (w : World kv.Store)
      → Cools (sol_key wallet) sol_cooldown_seconds (sol_to kv h wallet b w)
  unfolding sol_to
  sol_to-Cools wallet none w = inl refl
  sol_to-Cools wallet (some b) w =
      elim (Bool-cases (ltb b (sol_faucet_reserve_lamports + sol_drip_lamports))) [
        | inl e ↦ rw e (inl refl)
        | inr e ↦ rw e (send_sol-Cools wallet _ w)
      ]

  after_desk-Cools :
      (key : Key) (ttl : ℕ) (r : DeskReceipt → Response) (g : Grant) (n : ℕ) (d : Delivery)
      (w : World kv.Store)
      → Cools key ttl (after_desk kv (λ d v. (r d, cool kv h key ttl v)) g n d w)
  unfolding after_desk
  after_desk-Cools key ttl r g n (failed b) w = inl refl
  after_desk-Cools key ttl r g n (confirmed x) w = inr (w.store, refl)

  mint_desk_asset-Cools :
      (key : Key) (ttl : ℕ) (r : DeskReceipt → Response) (wallet : String) (c : Option (Option ℕ))
      (w : World kv.Store)
      → Cools key ttl (mint_desk_asset kv h wallet (λ d v. (r d, cool kv h key ttl v)) c w)
  unfolding mint_desk_asset
  mint_desk_asset-Cools key ttl r wallet none w = inl refl
  mint_desk_asset-Cools key ttl r wallet (some c) w = after_desk-Cools key ttl r _ _ _ w

  check_mints-error :
      (payer : String) (ms : List MintInfo) (r : Response)
      → check_mints payer ms ≡ some r
      → is_error r ≡ true
  unfolding check_mints
  check_mints-error payer [] r e = cc
  check_mints-error payer (missing ∷ ms) r e = cc
  check_mints-error payer (unreadable ∷ ms) r e = cc
  check_mints-error payer (authority none ∷ ms) r e = cc
  check_mints-error payer (authority (some a) ∷ ms) r e = elim (Bool-cases (str_eq a payer)) [
    | inl q ↦ check_mints-error payer ms r (rw q at e)
    | inr q ↦ cc (rw q at e)
  ]

  drip_to-Cools :
      (wallet : String) (cfg : Option FaucetConfig) (pot : Option (Option HubPot))
      (w : World kv.Store)
      → Cools (drip_key wallet) drip_cooldown_seconds (drip_to kv h wallet cfg pot w)
  unfolding drip_to kit_checked send_kit drip_desk challenged
  drip_to-Cools wallet none pot w = inl refl
  drip_to-Cools wallet (some cfg) none w = inl refl
  drip_to-Cools wallet (some cfg) (some none) w = inl refl
  drip_to-Cools wallet (some cfg) (some (some pot)) w =
      elim (Bool-cases (str_eq cfg.desk_collection h.default_key)) [
        | inl e ↦ rw e (inl refl)
        | inr e ↦ rw e (checked (h.mint_infos _))
      ]
    where
      kit_sent-Cools :
          (d : Delivery) → Cools (drip_key wallet) drip_cooldown_seconds (send_kit kv h wallet d w)
      kit_sent-Cools (failed b) = inl refl
      kit_sent-Cools (confirmed x) = mint_desk_asset-Cools _ _ (kit_sent wallet x) wallet h.counts _

      passed :
          (v : Option Response)
          → ((r : Response) → v ≡ some r → is_error r ≡ true)
          → Cools
              (drip_key wallet)
              drip_cooldown_seconds
              (challenged kv v w (send_kit kv h wallet (h.deliver (kit wallet)) w))
      passed none f = kit_sent-Cools _
      passed (some r) f = inl (f r refl)

      checked :
          (infos : Option (List MintInfo))
          → Cools (drip_key wallet) drip_cooldown_seconds (kit_checked kv h wallet infos w)
      checked none = inl refl
      checked (some infos) = passed (check_mints h.payer infos) (check_mints-error h.payer infos)

  -- After an answer that is no refusal the key is there until the cooldown ends.
  cooled :
      (key : Key) (ttl u : ℕ) (x : Response × World kv.Store)
      → Cools key ttl x
      → is_error x.0 ≡ false
      → h.now ≤ u
      → u < h.now + ttl * 1000
      → kv.get x.1.store u key ≡ some h.now
  cooled key ttl u x (inl e) ok le lt = cc
  cooled key ttl u x (inr (s, e)) ok le lt =
      ap (λ v. kv.get v u key) e ∙ kv.get-put_live s h.now u key h.now ttl le lt

  desk_to-Cools :
      (wallet : String) (cfg : Option FaucetConfig) (w : World kv.Store)
      → Cools (desk_key wallet) desk_cooldown_seconds (desk_to kv h wallet cfg w)
  unfolding desk_to
  desk_to-Cools wallet none w = inl refl
  desk_to-Cools wallet (some cfg) w = elim (Bool-cases (str_eq cfg.desk_collection h.default_key)) [
    | inl e ↦ rw e (inl refl)
    | inr e ↦ rw e (mint_desk_asset-Cools _ _ desk_sent wallet h.counts w)
  ]

  guarded-Cools :
      (key : String → Key) (ttl : ℕ) (body : Body) (p : Option String)
      (go : String → Response × World kv.Store) (w : World kv.Store) (wallet : String)
      → ((wallet : String) → Cools (key wallet) ttl (go wallet))
      → p ≡ some wallet
      → Cools (key wallet) ttl (guarded kv h key body p go w)
  guarded-Cools key ttl body p go w wallet f ep = elim (guarded-cases kv h key body go w p) [
    | inl (e, _) ↦ inl e
    | inr (wallet2, e, _, g) ↦
        subst (λ x. Cools (key wallet) ttl x) (sym g)
          (subst (λ z. Cools (key wallet) ttl (go z)) (some-injective _ _ (sym ep ∙ e)) (f wallet))
  ]

module _ (kv : Kv) (h h2 : Host) (body body2 : Body) (wallet : String) (w : World kv.Store)
    (named : parse_wallet h body.wallet ≡ some wallet)
    (named2 : parse_wallet h2 body2.wallet ≡ some wallet) (later : h.now ≤ h2.now) where
  -- A wallet that was granted gas SOL is granted none again until its cooldown ends.
  sol_once :
      is_error (handle_sol_drip kv h body w).0 ≡ false
      → h2.now < h.now + sol_cooldown_seconds * 1000
      → (handle_sol_drip kv h2 body2 (handle_sol_drip kv h body w).1).1
        ≡ (handle_sol_drip kv h body w).1
  unfolding handle_sol_drip
  sol_once ok lt = guarded_cooling kv h2 sol_key body2 _ _ _ wallet h.now named2 (
      cooled kv h (sol_key wallet) sol_cooldown_seconds h2.now (handle_sol_drip kv h body w)
        (guarded-Cools kv h sol_key sol_cooldown_seconds body _ _ w wallet
          (λ z. sol_to-Cools kv h z h.balance w) named)
        ok later lt)

  -- A wallet that was minted a desk alone is minted none this way again until its cooldown ends.
  desk_once :
      is_error (handle_mint_desk kv h body w).0 ≡ false
      → h2.now < h.now + desk_cooldown_seconds * 1000
      → (handle_mint_desk kv h2 body2 (handle_mint_desk kv h body w).1).1
        ≡ (handle_mint_desk kv h body w).1
  unfolding handle_mint_desk
  desk_once ok lt = guarded_cooling kv h2 desk_key body2 _ _ _ wallet h.now named2 (
      cooled kv h (desk_key wallet) desk_cooldown_seconds h2.now (handle_mint_desk kv h body w)
        (guarded-Cools kv h desk_key desk_cooldown_seconds body _ _ w wallet
          (λ z. desk_to-Cools kv h z h.config w) named)
        ok later lt)

module _ (kv : Kv) (h : Host) (body : Body) (wallet : String) (w : World kv.Store) where
  -- What a request for the kit leaves for the wallet that it names.
  pub handle_drip-cools :
      (u : ℕ)
      → parse_wallet h body.wallet ≡ some wallet
      → is_error (handle_drip kv h body w).0 ≡ false
      → h.now ≤ u
      → u < h.now + drip_cooldown_seconds * 1000
      → kv.get (handle_drip kv h body w).1.store u (drip_key wallet) ≡ some h.now
  unfolding handle_drip
  handle_drip-cools u named ok later lt =
      cooled kv h (drip_key wallet) drip_cooldown_seconds u (handle_drip kv h body w)
        (guarded-Cools kv h drip_key drip_cooldown_seconds body _ _ w wallet
          (λ z. drip_to-Cools kv h z h.config h.hub_pot w) named)
        ok later lt
