-- ===== src/Faucet/Handlers.antt =====
-- The faucet's handlers. A handler takes the store and the ledger of the grants that landed to an
-- answer and what it leaves; an exception is the answer 500, as the dispatcher gives it.
use text.Mathlib.Text.{◌==◌ as str_eq}
use hubconnect.Base.{
  ℕ, ◌+◌, Bool, true, false, Option, none, some, List, [], ◌∷◌, String, ltb, if◌then◌else◌,
}
use hubconnect.Faucet.Config.{
  drip_cooldown_seconds, desk_cooldown_seconds, sol_cooldown_seconds, sol_drip_lamports,
  sol_faucet_reserve_lamports,
}
use hubconnect.Faucet.Host.{
  Host, Body, Grant, kit, desk, sol, Delivery, confirmed, failed, SiteVerify, verify_threw,
  verify_said, MintInfo, missing, unreadable, authority, FaucetConfig, HubPot, Response, error,
  kit_sent, sol_sent, desk_sent, status, DeskReceipt, bad_wallet, challenge_required,
  challenge_failed, cooling_down, no_hub_pot, no_collection, mint_missing, not_mint_authority,
  low_on_sol, crashed,
}
use hubconnect.Faucet.Store.{Kv, Key, drip_key, sol_key, desk_key}

pub record World (S : Type 0) : Type 0 where
  pub store : S
  pub ledger : List Grant

abbrev pub parse_wallet : Host → Option String → Option String
parse_wallet h none = none
parse_wallet h (some text) = h.parse_pubkey text

-- What stops a request at the challenge: nothing without a secret, else a missing token, a call that
-- threw, or an answer that is not a success.
abbrev pub verdict : SiteVerify → Option Response
verdict verify_threw = some (error 500 crashed)
verdict (verify_said true) = none
verdict (verify_said false) = some (error 403 challenge_failed)

unfoldable pub verify_turnstile : Host → Option String → Option Response
verify_turnstile h token = if h.has_secret then token_verdict token else none
  where
    token_verdict : Option String → Option Response
    token_verdict none = some (error 403 challenge_required)
    token_verdict (some t) =
        if str_eq t "" then some (error 403 challenge_required) else verdict (h.site_verify t)

-- Every mint must be there with the faucet's own key as its authority.
unfoldable pub check_mints : String → List MintInfo → Option Response
check_mints payer [] = none
check_mints payer (missing ∷ ms) = some (error 503 mint_missing)
check_mints payer (unreadable ∷ ms) = some (error 500 crashed)
check_mints payer (authority none ∷ ms) = some (error 503 not_mint_authority)
check_mints payer (authority (some a) ∷ ms) =
    let rest = check_mints payer ms in
    if str_eq a payer then rest else some (error 503 not_mint_authority)

abbrev pub or_zero : Option ℕ → ℕ
or_zero none = 0
or_zero (some n) = n

module _ (kv : Kv) where
  open kv use {Store, get, put}

  abbrev pub crash : World Store → Response × World Store
  crash w = (error 500 crashed, w)

  abbrev pub lands : Grant → Bool → World Store → World Store
  lands g true w = record w { ledger = g ∷ w.ledger }
  lands g false w = w

  abbrev pub cool : Host → Key → ℕ → World Store → World Store
  cool h key ttl w = record w { store = put w.store h.now key h.now ttl }

  -- The checks that the three POST handlers share: the wallet, the challenge, and the cooldown.
  unfoldable pub unless_cooling :
      Option ℕ → World Store → Response × World Store → Response × World Store
  unless_cooling (some t) w go = (error 429 cooling_down, w)
  unless_cooling none w go = go

  unfoldable pub challenged :
      Option Response → World Store → Response × World Store → Response × World Store
  challenged (some r) w go = (r, w)
  challenged none w go = go

  unfoldable pub guarded :
      Host
      → (String → Key)
      → Body
      → Option String
      → (String → Response × World Store)
      → World Store
      → Response × World Store
  unfolding unless_cooling challenged
  guarded h key body none go w = (error 400 bad_wallet, w)
  guarded h key body (some wallet) go w =
      challenged (verify_turnstile h body.turnstile_token) w
        (unless_cooling (get w.store h.now (key wallet)) w (go wallet))

  unfoldable pub after_desk :
      (DeskReceipt → World Store → Response × World Store)
      → Grant
      → ℕ
      → Delivery
      → World Store
      → Response × World Store
  after_desk go g n (failed landed) w = crash (lands g landed w)
  after_desk go g n (confirmed x) w =
      go (record { desk_number = n; desk_signature = x }) (lands g true w)

  -- A desk, numbered after the last one that was minted.
  unfoldable pub mint_desk_asset :
      Host
      → String
      → (DeskReceipt → World Store → Response × World Store)
      → Option (Option ℕ)
      → World Store
      → Response × World Store
  unfolding after_desk
  mint_desk_asset h wallet go none w = crash w
  mint_desk_asset h wallet go (some counts) w =
      let n = or_zero counts + 1 in after_desk go (desk wallet n) n (h.deliver (desk wallet n)) w

  unfoldable pub drip_desk : Host → String → String → World Store → Response × World Store
  unfolding mint_desk_asset
  drip_desk h wallet x w =
      mint_desk_asset h wallet
        (λ d v. (kit_sent wallet x d, cool h (drip_key wallet) drip_cooldown_seconds v)) h.counts w

  unfoldable pub send_kit : Host → String → Delivery → World Store → Response × World Store
  unfolding drip_desk
  send_kit h wallet (failed landed) w = crash (lands (kit wallet) landed w)
  send_kit h wallet (confirmed x) w = drip_desk h wallet x (lands (kit wallet) true w)

  unfoldable pub kit_checked :
      Host → String → Option (List MintInfo) → World Store → Response × World Store
  unfolding send_kit
  kit_checked h wallet none w = crash w
  kit_checked h wallet (some infos) w =
      challenged (check_mints h.payer infos) w (send_kit h wallet (h.deliver (kit wallet)) w)

  unfoldable pub drip_to :
      Host
      → String
      → Option FaucetConfig
      → Option (Option HubPot)
      → World Store
      → Response × World Store
  unfolding kit_checked
  drip_to h wallet (some cfg) (some (some pot)) w =
      if str_eq cfg.desk_collection h.default_key
      then (error 503 no_collection, w)
      else kit_checked h wallet
          (h.mint_infos
            (cfg.hub_mint ∷ cfg.otc_mint ∷ pot.crclx_mint ∷ pot.nvdax_mint ∷ pot.spcxx_mint ∷ []))
          w
  drip_to h wallet (some cfg) (some none) w = (error 503 no_hub_pot, w)
  drip_to h wallet _ _ w = crash w

  unfoldable pub handle_drip : Host → Body → World Store → Response × World Store
  unfolding guarded drip_to
  handle_drip h body w =
      guarded h drip_key body (parse_wallet h body.wallet)
        (λ wallet. drip_to h wallet h.config h.hub_pot w) w

  unfoldable pub send_sol : Host → String → Delivery → World Store → Response × World Store
  send_sol h wallet (failed landed) w = crash (lands (sol wallet sol_drip_lamports) landed w)
  send_sol h wallet (confirmed x) w = (
    sol_sent wallet x sol_drip_lamports,
    cool h (sol_key wallet) sol_cooldown_seconds (lands (sol wallet sol_drip_lamports) true w),
  )

  unfoldable pub sol_to : Host → String → Option ℕ → World Store → Response × World Store
  unfolding send_sol
  sol_to h wallet none w = crash w
  sol_to h wallet (some balance) w =
      if ltb balance (sol_faucet_reserve_lamports + sol_drip_lamports)
      then (error 503 low_on_sol, w)
      else send_sol h wallet (h.deliver (sol wallet sol_drip_lamports)) w

  unfoldable pub handle_sol_drip : Host → Body → World Store → Response × World Store
  unfolding guarded sol_to
  handle_sol_drip h body w =
      guarded h sol_key body (parse_wallet h body.wallet) (λ wallet. sol_to h wallet h.balance w) w

  unfoldable pub desk_to :
      Host → String → Option FaucetConfig → World Store → Response × World Store
  unfolding mint_desk_asset
  desk_to h wallet none w = crash w
  desk_to h wallet (some cfg) w =
      if str_eq cfg.desk_collection h.default_key
      then (error 503 no_collection, w)
      else mint_desk_asset h wallet
          (λ d v. (desk_sent d, cool h (desk_key wallet) desk_cooldown_seconds v)) h.counts w

  unfoldable pub handle_mint_desk : Host → Body → World Store → Response × World Store
  unfolding guarded desk_to
  handle_mint_desk h body w =
      guarded h desk_key body (parse_wallet h body.wallet) (λ wallet. desk_to h wallet h.config w) w

  unfoldable pub handle_status :
      Host
      → Option FaucetConfig
      → Option (Option HubPot)
      → Option ℕ
      → World Store
      → Response × World Store
  handle_status h (some cfg) (some pot) (some lamports) w = (status h.payer lamports cfg pot, w)
  handle_status h _ _ _ w = crash w
