-- ===== src/Faucet/Grants.antt =====
-- What a request to the faucet puts on the ledger.
use hubconnect.Base.{
  ℕ, ◌+◌, ◌≤◌, ◌≡◌, inl, inr, refl, sym, subst, true, false, Option, none, some, List, ◌∷◌, String,
  ltb, arith, Bool-cases,
}
use hubconnect.Faucet.Config.{sol_drip_lamports, sol_faucet_reserve_lamports}
use hubconnect.Faucet.Host.{Host, Body, Grant, sol, Delivery, confirmed, failed, Response}
use hubconnect.Faucet.Store.{Kv, sol_key}
use hubconnect.Faucet.Handlers.{World, handle_sol_drip, sol_to, send_sol, parse_wallet}
use hubconnect.Faucet.Guard.{guarded-cases}

-- What one request for gas SOL does to the ledger: nothing, or one grant to a wallet that was not
-- cooling down, from a balance that stays at or above the reserve.
pub data Tops (kv : Kv) (h : Host) (w : World kv.Store) : List Grant → Type 0 where
  tops_none : Tops kv h w w.ledger
  tops_one :
      (wallet : String) (b : ℕ)
      → h.balance ≡ some b
      → sol_faucet_reserve_lamports + sol_drip_lamports ≤ b
      → kv.get w.store h.now (sol_key wallet) ≡ none
      → Tops kv h w (sol wallet sol_drip_lamports ∷ w.ledger)

module _ (kv : Kv) (h : Host) (w : World kv.Store) where
  send_sol-Tops :
      (wallet : String) (b : ℕ) (d : Delivery)
      → h.balance ≡ some b
      → sol_faucet_reserve_lamports + sol_drip_lamports ≤ b
      → kv.get w.store h.now (sol_key wallet) ≡ none
      → Tops kv h w (send_sol kv h wallet d w).1.ledger
  unfolding send_sol
  send_sol-Tops wallet b (confirmed x) e le free = tops_one wallet b e le free
  send_sol-Tops wallet b (failed true) e le free = tops_one wallet b e le free
  send_sol-Tops wallet b (failed false) e le free = tops_none

  sol_to-Tops :
      (wallet : String) (balance : Option ℕ)
      → h.balance ≡ balance
      → kv.get w.store h.now (sol_key wallet) ≡ none
      → Tops kv h w (sol_to kv h wallet balance w).1.ledger
  unfolding sol_to
  sol_to-Tops wallet none e free = tops_none
  sol_to-Tops wallet (some b) e free =
      elim (Bool-cases (ltb b (sol_faucet_reserve_lamports + sol_drip_lamports))) [
        | inl f ↦ rw f tops_none
        | inr f ↦ rw f (send_sol-Tops wallet b _ e (ground arith) free)
      ]

  -- Whatever the outcome, a request for gas SOL grants at most one drip, to a wallet that was not
  -- cooling down and from a balance of at least the reserve and the drip.
  pub handle_sol_drip-Tops : (body : Body) → Tops kv h w (handle_sol_drip kv h body w).1.ledger
  unfolding handle_sol_drip
  handle_sol_drip-Tops body =
      elim (guarded-cases kv h sol_key body (λ wallet. sol_to kv h wallet h.balance w) w
        (parse_wallet h body.wallet)) [
          | inl (_, e) ↦ subst (λ (v : World kv.Store). Tops kv h w v.ledger) (sym e) tops_none
          | inr (wallet, _, free, g) ↦
              subst (λ (x : Response × World kv.Store). Tops kv h w x.1.ledger) (sym g)
                (sol_to-Tops wallet h.balance refl free)
        ]
