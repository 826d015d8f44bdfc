-- ===== src/Curve/Worker/Payout.antt =====
-- What an answered trade has paid, and what a payout that threw leaves behind.
use hubconnect.Base.{◌⊎◌, ℕ, ◌+◌, ◌≤◌, ◌≡◌, refl, ◌∙◌, true, false, some, ◌∷◌}
use hubconnect.Base.Int.{ℤ, pos, ◌≤ℤ◌}
use hubconnect.Curve.Config.{curve_wallet_min_lamports}
use hubconnect.Curve.Kv.{Kv}
use hubconnect.Curve.Reserves.{compute_sell}
use hubconnect.Curve.Worker.Host.{Host, Body, error, crashed, Payment, hub_paid, sol_paid, failed}
use hubconnect.Curve.Worker.Monad.{
  World, ok, exit, ◌>>=◌, answer, or_throw, send, try_send, delivered, land,
}
use hubconnect.Curve.Worker.Handlers.{
  Order, parse_wallet, redeemer, buy_order, settle_buy, handle_buy,
}
use hubconnect.Curve.Worker.Inversion.{bind_ok, bind_exit}
use hubconnect.Curve.Worker.Invariant.Laws.{Invariant}
use hubconnect.Curve.Worker.Invariant.Requests.{min_of, IsDeposited}
use hubconnect.Curve.Worker.Stored.{IsStored}

-- No condition on the store: the checks of an order alone.
unconditional : (kv : Kv) (h : Host) → Invariant kv h
unconditional kv h = record {
  Keeps = λ _. Unit;
  Good = λ _. Unit;
  load = λ s c k e. tt;
  start = λ m e. tt;
  save = λ s c g k. tt;
  log = λ s ts k. tt;
  mark = λ s y k. tt;
  pooled = λ c p g. tt;
  bought = λ o g _ p e. tt;
  sold = λ o g _ p e. tt;
}

module _ (kv : Kv) (h : Host) where
  -- What an answered sale is of, and what it pays: the wallet and the signature of the request, the state
  -- in the store, the deposit of the signature's transaction, and the curve's output for them.
  pub record IsPaidSale (body : Body) (s : kv.Store) (o : Order) (paid : Payment) : Type 0 where
    pub redeems :
        redeemer (parse_wallet h body.wallet) body.signature ≡ some (o.wallet, o.signature)
    pub stored : IsStored kv h s o.state
    pub deposited : IsDeposited h o
    pub is_open : o.state.graduated ≡ false
    pub priced : paid ≡ sol_paid o.wallet (compute_sell o.state o.amount).out
    pub enough :
        (m : ℤ) × (min_of h body.min_out ≡ some m) × (m ≤ℤ pos (compute_sell o.state o.amount).out)
    pub kept :
        let out = (compute_sell o.state o.amount).out in
        (b : ℕ) × (h.balance ≡ some b) × ((out ≡ 0) ⊎ (out + curve_wallet_min_lamports ≤ b))

  abbrev Enough : Body → ℕ → Type 0
  Enough body out = (m : ℤ) × (min_of h body.min_out ≡ some m) × (m ≤ℤ pos out)

  abbrev Leaves : ℕ → Type 0
  Leaves out = (b : ℕ) × (h.balance ≡ some b) × ((out ≡ 0) ⊎ (out + curve_wallet_min_lamports ≤ b))

  send_unconfirmed :
      (p : Payment) (w : World kv.Store)
      → h.deliver p ≡ failed true
      → send h p w ≡ (exit (error 500 crashed), record w { ledger = p ∷ w.ledger })
  unfolding send try_send delivered land or_throw answer ◌>>=◌
  send_unconfirmed p w d = rw d refl

  -- If the payout lands and its confirmation throws, a buy answers 500 with the payment made and
  -- with neither the new state nor the replay mark written.
  buy_unconfirmed :
      (body : Body) (w v : World kv.Store) (o : Order)
      → buy_order kv h body w ≡ (ok o, v)
      → h.deliver (hub_paid o.wallet o.fill.out) ≡ failed true
      → handle_buy kv h body w
        ≡ (exit (error 500 crashed), record v { ledger = hub_paid o.wallet o.fill.out ∷ v.ledger })
  unfolding handle_buy settle_buy
  buy_unconfirmed body w v o e d =
      bind_ok _ _ e ∙ bind_exit _ _ (send_unconfirmed (hub_paid o.wallet o.fill.out) v d)
