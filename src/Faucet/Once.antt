-- ===== src/Faucet/Once.antt =====
-- Requests for the starter kit while the wallet's cooldown lasts.
use text.Mathlib.Text.{◌==◌ as str_eq}
use hubconnect.Base.{ℕ, ◌≤◌, ◌<◌, ◌≡◌, some, List, [], ◌∷◌, String}
use hubconnect.Faucet.Host.{Host, Body}
use hubconnect.Faucet.Store.{Kv, drip_key}
use hubconnect.Faucet.Handlers.{World, handle_drip, handle_sol_drip, handle_mint_desk}

-- A request to the faucet: for the starter kit, for gas SOL, or for a desk alone.
pub data Post : Type 0 where
  for_kit for_sol for_desk : Host → Body → Post

abbrev pub time_of : Post → ℕ
time_of (for_kit h body) = h.now
time_of (for_sol h body) = h.now
time_of (for_desk h body) = h.now

-- The requests come one after the other, from `t` until `end`.
abbrev pub InOrder : ℕ → List Post → ℕ → Type 0
InOrder t [] end = t ≤ end
InOrder t (p ∷ ps) end = (t ≤ time_of p) × InOrder (time_of p) ps end

module _ (kv : Kv) where
  abbrev pub serve : Post → World kv.Store → World kv.Store
  serve (for_kit h body) w = (handle_drip kv h body w).1
  serve (for_sol h body) w = (handle_sol_drip kv h body w).1
  serve (for_desk h body) w = (handle_mint_desk kv h body w).1

  abbrev pub serve_all : List Post → World kv.Store → World kv.Store
  serve_all [] w = w
  serve_all (p ∷ ps) w = serve_all ps (serve p w)

  module _ (wallet : String) (end : ℕ) where
    -- From `t` until `end` the wallet has a mark.
    abbrev IsCooling : ℕ → kv.Store → Type 0
    IsCooling t s = (u : ℕ) → t ≤ u → u < end → (v : ℕ) × (kv.get s u (drip_key wallet) ≡ some v)
