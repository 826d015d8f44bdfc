-- ===== src/Faucet/Writes.antt =====
-- The writes of the granting handlers, and predicates of the store that they keep.
use text.Mathlib.Text.{◌==◌ as str_eq}
use hubconnect.Base.{
  ℕ, ◌+◌, sym, subst, inl, inr, Bool, true, false, Option, none, some, List, String, ltb, pick,
}
use hubconnect.Faucet.Config.{
  drip_cooldown_seconds, desk_cooldown_seconds, sol_cooldown_seconds, sol_drip_lamports,
  sol_faucet_reserve_lamports,
}
use hubconnect.Faucet.Host.{
  Host, Body, Grant, kit, sol, Delivery, confirmed, failed, Response, DeskReceipt, HubPot,
  FaucetConfig, MintInfo, kit_sent, desk_sent,
}
use hubconnect.Faucet.Store.{Kv, Key, drip_key, sol_key, desk_key}
use hubconnect.Faucet.Handlers.{
  World, lands, cool, guarded, check_mints, after_desk, mint_desk_asset, drip_desk, send_kit,
  kit_checked, drip_to, handle_drip, send_sol, sol_to, handle_sol_drip, desk_to, handle_mint_desk,
  challenged,
}
use hubconnect.Faucet.Guard.{guarded-cases}

-- A predicate of the store that the marks of a request keep.
pub record Marks (kv : Kv) (h : Host) (Q : kv.Store → Type 0) : Type 0 where
  pub drips :
      (y : String) (s : kv.Store)
      → Q s
      → Q (kv.put s h.now (drip_key y) h.now drip_cooldown_seconds)
  pub sols :
      (y : String) (s : kv.Store) → Q s → Q (kv.put s h.now (sol_key y) h.now sol_cooldown_seconds)
  pub desks :
      (y : String) (s : kv.Store)
      → Q s
      → Q (kv.put s h.now (desk_key y) h.now desk_cooldown_seconds)

module _ {kv : Kv} {h : Host} {Q : kv.Store → Type 0} (marks : Marks kv h Q) where
  abbrev Leaves : Response × World kv.Store → Type 0
  Leaves x = Q x.1.store

  lands-keeps : (g : Grant) (b : Bool) (w : World kv.Store) → Q w.store → Q (lands kv g b w).store
  lands-keeps g true w q = q
  lands-keeps g false w q = q

  module _ (go : DeskReceipt → World kv.Store → Response × World kv.Store)
      (keeps : (d : DeskReceipt) (v : World kv.Store) → Q v.store → Leaves (go d v)) where
    after_desk-Leaves :
        (g : Grant) (n : ℕ) (d : Delivery) (w : World kv.Store)
        → Q w.store
        → Leaves (after_desk kv go g n d w)
    unfolding after_desk
    after_desk-Leaves g n (failed b) w q = lands-keeps g b w q
    after_desk-Leaves g n (confirmed x) w q = keeps _ _ q

    mint_desk_asset-Leaves :
        (wallet : String) (counts : Option (Option ℕ)) (w : World kv.Store)
        → Q w.store
        → Leaves (mint_desk_asset kv h wallet go counts w)
    unfolding mint_desk_asset
    mint_desk_asset-Leaves wallet none w q = q
    mint_desk_asset-Leaves wallet (some c) w q = after_desk-Leaves _ _ _ w q

  module _ (wallet : String) (w : World kv.Store) (q : Q w.store) where
    send_kit-Leaves : (d : Delivery) → Leaves (send_kit kv h wallet d w)
    unfolding send_kit drip_desk
    send_kit-Leaves (failed b) = lands-keeps (kit wallet) b w q
    send_kit-Leaves (confirmed x) =
        mint_desk_asset-Leaves
          (λ d v. (kit_sent wallet x d, cool kv h (drip_key wallet) drip_cooldown_seconds v))
          (λ d v. marks.drips wallet v.store) wallet h.counts _ q

    kit_checked-Leaves : (infos : Option (List MintInfo)) → Leaves (kit_checked kv h wallet infos w)
    unfolding kit_checked challenged
    kit_checked-Leaves none = q
    kit_checked-Leaves (some infos) = settled (check_mints h.payer infos)
      where
        settled :
            (r : Option Response)
            → Leaves (challenged kv r w (send_kit kv h wallet (h.deliver (kit wallet)) w))
        settled none = send_kit-Leaves (h.deliver (kit wallet))
        settled (some r) = q

    drip_to-Leaves :
        (cfg : Option FaucetConfig) (pot : Option (Option HubPot))
        → Leaves (drip_to kv h wallet cfg pot w)
    unfolding drip_to
    drip_to-Leaves (some cfg) (some (some pot)) =
        pick Leaves (str_eq cfg.desk_collection h.default_key) (λ _. q) (λ _. kit_checked-Leaves _)
    drip_to-Leaves (some cfg) (some none) = q
    drip_to-Leaves (some cfg) none = q
    drip_to-Leaves none pot = q

    send_sol-Leaves : (d : Delivery) → Leaves (send_sol kv h wallet d w)
    unfolding send_sol
    send_sol-Leaves (failed b) = lands-keeps (sol wallet sol_drip_lamports) b w q
    send_sol-Leaves (confirmed x) = marks.sols wallet w.store q

    sol_to-Leaves : (balance : Option ℕ) → Leaves (sol_to kv h wallet balance w)
    unfolding sol_to
    sol_to-Leaves none = q
    sol_to-Leaves (some b) =
        pick Leaves (ltb b (sol_faucet_reserve_lamports + sol_drip_lamports)) (λ _. q)
          (λ _. send_sol-Leaves _)

    desk_to-Leaves : (cfg : Option FaucetConfig) → Leaves (desk_to kv h wallet cfg w)
    unfolding desk_to
    desk_to-Leaves none = q
    desk_to-Leaves (some cfg) =
        pick Leaves (str_eq cfg.desk_collection h.default_key) (λ _. q)
          (λ _.
            mint_desk_asset-Leaves
              (λ d v. (desk_sent d, cool kv h (desk_key wallet) desk_cooldown_seconds v))
              (λ d v. marks.desks wallet v.store) wallet h.counts w q)

  module _ (w : World kv.Store) (q : Q w.store) (body : Body) where
    guarded-Leaves :
        (key : String → Key) (p : Option String) (go : String → Response × World kv.Store)
        → ((wallet : String) → Leaves (go wallet))
        → Leaves (guarded kv h key body p go w)
    guarded-Leaves key p go keeps = elim (guarded-cases kv h key body go w p) [
      | inl (_, e) ↦ subst (λ (v : World kv.Store). Q v.store) (sym e) q
      | inr (wallet, _, _, g) ↦ subst Leaves (sym g) (keeps wallet)
    ]

    pub handle_drip-Leaves : Leaves (handle_drip kv h body w)
    unfolding handle_drip
    handle_drip-Leaves = guarded-Leaves drip_key _ _ (λ y. drip_to-Leaves y w q h.config h.hub_pot)

    pub handle_sol_drip-Leaves : Leaves (handle_sol_drip kv h body w)
    unfolding handle_sol_drip
    handle_sol_drip-Leaves = guarded-Leaves sol_key _ _ (λ y. sol_to-Leaves y w q h.balance)

    pub handle_mint_desk-Leaves : Leaves (handle_mint_desk kv h body w)
    unfolding handle_mint_desk
    handle_mint_desk-Leaves = guarded-Leaves desk_key _ _ (λ y. desk_to-Leaves y w q h.config)
