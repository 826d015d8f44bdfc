-- ===== src/Curve/Worker/Handlers/Orders.antt =====
-- The first half of the trading handlers: every check that stands before the payout, in the
-- order in which the code makes them. What passes them is an order.
use text.Mathlib.Text.{◌==◌ as str_eq}
use hubconnect.Base.{ℕ, ◌-◌, Option, none, some, String, leb, ltb, if◌then◌else◌}
use hubconnect.Base.Int.{ℤ, pos, negsuc, ltb_ℤ}
use hubconnect.Curve.Config.{curve_wallet_min_lamports}
use hubconnect.Curve.Kv.{Kv, Side, buy, sell}
use hubconnect.Curve.Reserves.{CurveState, Fill, compute_buy, compute_sell}
use hubconnect.Curve.Worker.Host.{
  Host, Body, Response, error, quoted_buy, quoted_sell, bad_body, already_redeemed, curve_graduated,
  no_deposit, slippage, no_liquidity,
}
use hubconnect.Curve.Worker.Monad.{Handler, ◌>>=◌, ◌>>◌, pure, answer, or_throw, refuse_if}
use hubconnect.Curve.Worker.Deposit.{fetch_confirmed_tx, sol_delta, hub_delta}
use hubconnect.Curve.Worker.Records.{load_state, already_consumed}

-- `BigInt(text)` throws on a text that is no integer; a field that is no string counts as 0.
abbrev pub parse_min : {S : Type 0} → Host → Option String → Handler S ℤ
parse_min h none = pure (pos 0)
parse_min h (some text) = or_throw (h.big_int text)

abbrev pub parse_wallet : Host → Option String → Option String
parse_wallet h none = none
parse_wallet h (some text) = h.parse_pubkey text

-- The wallet and the signature, both present and the signature not empty.
abbrev pub redeemer : Option String → Option String → Option (String × String)
redeemer (some wallet) (some signature) =
    if str_eq signature "" then none else some (wallet, signature)
redeemer _ _ = none

abbrev pub or_refuse : {S A : Type 0} → Option A → Response → Handler S A
or_refuse none r = answer r
or_refuse (some a) r = pure a

-- A deposit of at least one unit.
abbrev pub positive : ℤ → Option ℕ
positive (pos n) = if leb n 0 then none else some n
positive (negsuc n) = none

pub record Order : Type 0 where
  pub wallet : String
  pub signature : String
  pub state : CurveState
  pub amount : ℕ
  pub fill : Fill
  pub mint : String

abbrev pub spendable : ℕ → ℕ
spendable balance =
    if ltb curve_wallet_min_lamports balance then balance - curve_wallet_min_lamports else 0

module _ (kv : Kv) where
  open kv use {Store}

  -- The common beginning: the body, the replay guard and the state of a curve still open.
  unfoldable pub open_redeem : Host → Body → Handler Store (ℤ × String × String × CurveState)
  open_redeem h body = do
    min_out ← parse_min h body.min_out
    (wallet, signature) ←
        or_refuse (redeemer (parse_wallet h body.wallet) body.signature) (error 400 bad_body)
    refuse_if (← already_consumed kv h signature) 409 already_redeemed
    state ← load_state kv h
    refuse_if state.graduated 409 curve_graduated
    pure (min_out, wallet, signature, state)

  unfoldable pub buy_order : Host → Body → Handler Store Order
  unfolding open_redeem
  buy_order h body = do
    (min_out, wallet, signature, state) ← open_redeem h body
    tx ← fetch_confirmed_tx h signature
    sol_in ← or_refuse (positive (← sol_delta tx h.curve_key)) (error 400 no_deposit)
    let fill = compute_buy state sol_in
    refuse_if (ltb_ℤ (pos fill.out) min_out) 409 slippage
    mint ← or_throw h.hub_mint
    pure (record {
      wallet = wallet;
      signature = signature;
      state = state;
      amount = sol_in;
      fill = fill;
      mint = mint;
    })

  unfoldable pub sell_order : Host → Body → Handler Store Order
  unfolding open_redeem
  sell_order h body = do
    (min_out, wallet, signature, state) ← open_redeem h body
    mint ← or_throw h.hub_mint
    tx ← fetch_confirmed_tx h signature
    hub_in ←
        or_refuse (positive (hub_delta tx (h.ata h.curve_key mint) mint)) (error 400 no_deposit)
    let fill = compute_sell state hub_in
    refuse_if (ltb_ℤ (pos fill.out) min_out) 409 slippage
    balance ← or_throw h.balance
    refuse_if (ltb (spendable balance) fill.out) 503 no_liquidity
    pure (record {
      wallet = wallet;
      signature = signature;
      state = state;
      amount = hub_in;
      fill = fill;
      mint = mint;
    })

  abbrev pub side_of : Option String → Option Side
  side_of none = none
  side_of (some text) =
      if str_eq text "sell" then some sell else if str_eq text "buy" then some buy else none

  abbrev pub parse_amount : Host → Option String → Handler Store (Option ℤ)
  parse_amount h none = pure none
  parse_amount h (some text) = do pure (some (← or_throw (h.big_int text)))

  abbrev pub asked : Option Side → Option ℤ → Option (Side × ℕ)
  asked (some side) (some (pos n)) = if leb n 0 then none else some (side, n)
  asked _ _ = none

  unfoldable pub quote : CurveState → Side → ℕ → Response
  quote state buy amount = quoted_buy amount (compute_buy state amount).out
  quote state sell amount = quoted_sell amount (compute_sell state amount).out

  unfoldable pub handle_quote : Host → Body → Handler Store Response
  unfolding quote
  handle_quote h body = do
    amount ← parse_amount h body.amount
    (side, units) ← or_refuse (asked (side_of body.side) amount) (error 400 bad_body)
    state ← load_state kv h
    refuse_if state.graduated 409 curve_graduated
    pure (quote state side units)
