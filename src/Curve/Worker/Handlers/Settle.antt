-- ===== src/Curve/Worker/Handlers/Settle.antt =====
-- The second half of the trading handlers: the payout, the new reserves, the trade log and the
-- replay mark, in that order.
use hubconnect.Base.{ℕ, zero, Bool, true, Option, none, some, String}
use hubconnect.Base.Int.{pos, leb_ℤ, ◌+ℤ◌, ◌-ℤ◌}
use hubconnect.Curve.Config.{graduation_target_lamports}
use hubconnect.Curve.Kv.{Kv, buy, sell}
use hubconnect.Curve.Reserves.{CurveState, progress_bp}
use hubconnect.Curve.Worker.Host.{Host, Body, hub_paid, sol_paid, Response, bought, sold}
use hubconnect.Curve.Worker.Monad.{Handler, ◌>>=◌, ◌>>◌, pure, send}
use hubconnect.Curve.Worker.Records.{save_state, push_trade, mark_consumed}
use hubconnect.Curve.Worker.Graduation.{maybe_graduate}
use hubconnect.Curve.Worker.Handlers.Orders.{Order, buy_order, sell_order}

-- A time is set once: 0 and absent count as unset.
unfoldable pub stamp : Bool → ℕ → Option ℕ → Option ℕ
stamp true now none = some now
stamp true now (some zero) = some now
stamp _ now t = t

unfoldable pub after_buy : Host → Order → CurveState
unfolding stamp ◌+ℤ◌
after_buy h o =
    let raised = o.state.real_sol_raised +ℤ pos o.amount in
    let graduated = leb_ℤ (pos graduation_target_lamports) raised in
    record (o.state) {
      virtual_sol = o.fill.new_sol;
      virtual_hub = o.fill.new_hub;
      real_sol_raised = raised;
      real_hub_sold = o.state.real_hub_sold +ℤ pos o.fill.out;
      graduated = graduated;
      graduated_at = stamp graduated h.now o.state.graduated_at;
    }

unfoldable pub after_sell : Order → CurveState
unfolding ◌-ℤ◌
after_sell o = record (o.state) {
  virtual_sol = o.fill.new_sol;
  virtual_hub = o.fill.new_hub;
  real_sol_raised = o.state.real_sol_raised -ℤ pos o.fill.out;
  real_hub_sold = o.state.real_hub_sold -ℤ pos o.amount;
}

module _ (kv : Kv) where
  open kv use {Store}

  -- What is written once the payout is confirmed.
  unfoldable pub book_buy : Host → Order → String → Handler Store Response
  book_buy h o payout = do
    save_state kv h (after_buy h o)
    next ← maybe_graduate kv h (after_buy h o)
    push_trade kv h (record {
      ts = h.now;
      side = buy;
      wallet = o.wallet;
      sol_lamports = o.amount;
      hub_units = o.fill.out;
      signature = o.signature;
      payout_signature = payout;
    })
    mark_consumed kv h o.signature
    pure (
        bought (record {
          sol = o.amount;
          hub = o.fill.out;
          signature = payout;
          graduated = next.graduated;
          progress = progress_bp next;
        }))

  unfoldable pub settle_buy : Host → Order → Handler Store Response
  settle_buy h o = do book_buy h o (← send h (hub_paid o.wallet o.fill.out))

  unfoldable pub book_sell : Host → Order → String → Handler Store Response
  book_sell h o payout = do
    save_state kv h (after_sell o)
    push_trade kv h (record {
      ts = h.now;
      side = sell;
      wallet = o.wallet;
      sol_lamports = o.fill.out;
      hub_units = o.amount;
      signature = o.signature;
      payout_signature = payout;
    })
    mark_consumed kv h o.signature
    pure (
        sold (record {
          sol = o.fill.out;
          hub = o.amount;
          signature = payout;
          graduated = (after_sell o).graduated;
          progress = progress_bp (after_sell o);
        }))

  unfoldable pub settle_sell : Host → Order → Handler Store Response
  settle_sell h o = do book_sell h o (← send h (sol_paid o.wallet o.fill.out))

  unfoldable pub handle_buy : Host → Body → Handler Store Response
  handle_buy h body = do settle_buy h (← buy_order kv h body)

  unfoldable pub handle_sell : Host → Body → Handler Store Response
  handle_sell h body = do settle_sell h (← sell_order kv h body)
