-- ===== src/Curve/Worker/Handlers.antt =====
-- The request handlers and the dispatcher `routeCurveRequest`.
mod Orders
mod Settle
unfoldable pub use Orders.*
unfoldable pub use Settle.*
use text.Mathlib.Text.{◌==◌ as str_eq, starts_with}
use hubconnect.Base.{◌&&◌, Option, none, some, String, Bool, true, false, if◌then◌else◌}
use hubconnect.Curve.Kv.{Kv}
use hubconnect.Curve.Worker.Host.{
  Host, Body, Response, error, bought, sold, not_found, state_payload, trades_payload, Receipt,
}
use hubconnect.Curve.Worker.Monad.{Handler, ◌>>=◌, ◌>>◌, pure, answer}
use hubconnect.Curve.Worker.Records.{load_state, load_trades}
use hubconnect.Curve.Config.{graduation_target_lamports}
use hubconnect.Curve.Reserves.{CurveState, progress_bp, spot_price}
use hubconnect.Curve.Worker.Host.{StatePayload}
use hubconnect.Curve.Worker.Monad.{or_throw}
use hubconnect.Curve.Worker.Graduation.{maybe_graduate}

unfoldable pub to_state_payload : CurveState → String → String → String → StatePayload
to_state_payload state curve_wallet curve_hub mint = record {
  state = state;
  progress = progress_bp state;
  target = graduation_target_lamports;
  curve_wallet = curve_wallet;
  curve_hub_ata = curve_hub;
  hub_mint = mint;
  spot_price_lamports_per_hub = spot_price state;
}

module _ (kv : Kv) where
  open kv use {Store}

  -- Reading the state also retries a graduation that is still pending.
  unfoldable pub handle_state : Host → Handler Store Response
  handle_state h = do
    state ← load_state kv h
    mint ← or_throw h.hub_mint
    resolved ← maybe_graduate kv h state
    pure (state_payload (to_state_payload resolved h.curve_key (h.ata h.curve_key mint) mint))

  unfoldable pub handle_trades : Host → Handler Store Response
  handle_trades h = do pure (trades_payload (← load_trades kv h))

  -- `none` is a path that is not the curve's.
  unfoldable pub route_curve_request :
      String → String → Host → Body → Option (Handler Store Response)
  route_curve_request path method h body =
      if str_eq path "/api/curve/state" && str_eq method "GET"
      then some (handle_state h)
      else if str_eq path "/api/curve/trades" && str_eq method "GET"
      then some (handle_trades h)
      else if str_eq path "/api/curve/quote" && str_eq method "POST"
      then some (handle_quote kv h body)
      else if str_eq path "/api/curve/buy" && str_eq method "POST"
      then some (handle_buy kv h body)
      else if str_eq path "/api/curve/sell" && str_eq method "POST"
      then some (handle_sell kv h body)
      else if starts_with path "/api/curve/"
      then some (answer (error 404 not_found))
      else none
