-- ===== src/Faucet/Kits.antt =====
-- Requests for the starter kit whose desk does not land.
use text.Mathlib.Text.{◌==◌ as str_eq}
use hubconnect.Base.{ℕ, zero, suc, ◌+◌, ◌≡◌, false, Option, none, some, List, [], ◌∷◌, String}
use hubconnect.Faucet.Host.{
  Host, Body, Grant, kit, desk, confirmed, failed, FaucetConfig, HubPot, MintInfo,
}
use hubconnect.Faucet.Store.{Kv}
use hubconnect.Faucet.Handlers.{
  World, parse_wallet, verify_turnstile, check_mints, or_zero, handle_drip,
}

-- A request of the wallet that the faucet's checks let through, but for the cooldown.
pub record Passes (h : Host) (body : Body) (wallet : String) : Type 0 where
  pub config : FaucetConfig
  pub pot : HubPot
  pub infos : List MintInfo
  pub named : parse_wallet h body.wallet ≡ some wallet
  pub let_in : verify_turnstile h body.turnstile_token ≡ none
  pub configured : h.config ≡ some config
  pub funded : h.hub_pot ≡ some (some pot)
  pub collected : str_eq config.desk_collection h.default_key ≡ false
  pub found :
      h.mint_infos
        (config.hub_mint ∷ config.otc_mint ∷ pot.crclx_mint ∷ pot.nvdax_mint ∷ pot.spcxx_mint ∷ [])
      ≡ some infos
  pub authorised : check_mints h.payer infos ≡ none

-- The kit's transaction lands, the desk's does not.
pub record KitAlone (h : Host) (wallet : String) : Type 0 where
  pub signature : String
  pub counts : Option ℕ
  pub kit_landed : h.deliver (kit wallet) ≡ confirmed signature
  pub counted : h.counts ≡ some counts
  pub desk_failed : h.deliver (desk wallet (or_zero counts + 1)) ≡ failed false

abbrev pub kits : String → ℕ → List Grant
kits wallet zero = []
kits wallet (suc n) = kit wallet ∷ kits wallet n

module _ (kv : Kv) where
  -- The world after the requests for the kit, one after the other.
  unfoldable pub drip_all : List (Host × Body) → World kv.Store → World kv.Store
  drip_all [] w = w
  drip_all ((h, body) ∷ qs) w = drip_all qs (handle_drip kv h body w).1
