-- ===== src/Curve/Tests.antt =====
-- Runs of the worker, and the theorems at concrete inputs.
use hubconnect.Base.{
  ◌+◌, ◌*◌, ◌-◌, ◌≤◌, ◌<◌, ℕ, ◌≡◌, refl, true, false, Option, none, some, List, [], ◌∷◌, String,
  arith, inl,
}
use hubconnect.Base.Int.{pos, negsuc}
use hubconnect.Curve.Memory.{memory, empty, Cells}
use hubconnect.Curve.Reserves.RoundTrip.{refill, buy_then_sell}
use hubconnect.Curve.Reserves.{CurveState, compute_buy, compute_sell, progress_bp}
use hubconnect.Curve.Worker.Host.{
  Host, Body, Tx, confirmed, failed, Response, error, bought, sold, already_redeemed,
}
use hubconnect.Curve.Worker.Monad.{
  World, Result, ok, exit, ◌>>=◌, pure, answer, or_throw, refuse_if, gets, modify, try_send, send,
}
use hubconnect.Curve.Worker.Deposit.{fetch_confirmed_tx, sol_delta}
use hubconnect.Curve.Worker.Records.{
  genesis, load_state, save_state, push_trade, already_consumed, mark_consumed,
}
use hubconnect.Curve.Worker.Graduation.{maybe_graduate}
use hubconnect.Curve.Worker.Handlers.{
  Order, open_redeem, buy_order, after_buy, book_buy, settle_buy, handle_buy, handle_sell,
}
use hubconnect.Curve.Worker.Serve.{Request, serve_all}
use hubconnect.Curve.Worker.Accounting.{Accounts, serve_all-IsBalanced}
use hubconnect.Curve.Worker.Marks.{MadeBy}
use hubconnect.Curve.Worker.Replay.{redeem_once}

-- A deposit of one SOL under the signature "s".
abbrev deposit : String → Option Tx
deposit x = some (record {
  keys = "payer" ∷ "curve" ∷ [];
  info = some (record {
    err = false;
    pre_balances = 5_000_000_000 ∷ 100_000_000 ∷ [];
    post_balances = 4_000_000_000 ∷ 1_100_000_000 ∷ [];
    pre_token_balances = [];
    post_token_balances = record { account_index = 1; mint = "hub"; amount = 500_000_000_000 } ∷ [];
  });
  block_time = some 1_000;
})

abbrev host_at : ℕ → Host
host_at t = record {
  now = t;
  curve_key = "curve";
  parse_pubkey = λ s. some s;
  big_int = λ s. some (pos 0);
  ata = λ owner mint. owner;
  transaction = deposit;
  hub_mint = some "hub";
  genesis_float = some 1_000_000_000_000_000;
  balance = some 1_100_000_000;
  pool_hub_balance = none;
  pool_sol_balance = none;
  rent_exempt = none;
  pool_key = "pool";
  deliver = λ p. confirmed "paid";
}

abbrev claim : Body
claim = record {
  wallet = some "bob";
  signature = some "s";
  min_out = none;
  side = none;
  amount = none;
}

abbrev start : World Cells
start = record { store = empty; ledger = [] }

abbrev bought_once : Result Response × World Cells
bought_once = handle_buy memory (host_at 1_000_500) claim start

abbrev answer_to_buy : Response
answer_to_buy = bought (record {
  sol = 1_000_000_000;
  hub = 32_258_064_516_130;
  signature = "paid";
  graduated = false;
  progress = pos 1_000;
})

abbrev after_first_buy : World Cells
after_first_buy = bought_once.1

first_buy : bought_once ≡ (ok answer_to_buy, after_first_buy)
unfolding handle_buy settle_buy book_buy buy_order open_redeem after_buy compute_buy progress_bp
    ◌>>=◌ pure answer or_throw refuse_if gets modify try_send send fetch_confirmed_tx sol_delta
    load_state save_state push_trade already_consumed mark_consumed maybe_graduate
first_buy = refl

bought_again :
    (handle_buy memory (host_at 1_000_600) claim after_first_buy).0
    ≡ exit (error 409 already_redeemed)
unfolding handle_buy settle_buy book_buy buy_order open_redeem after_buy compute_buy progress_bp
    ◌>>=◌ pure answer or_throw refuse_if gets modify try_send send fetch_confirmed_tx sol_delta
    load_state save_state push_trade already_consumed mark_consumed maybe_graduate
bought_again = refl

abbrev later_poll : List Request
later_poll =
    record { path = "/api/curve/state"; method = "GET"; body = claim; host = host_at 1_000_700 }
    ∷ []

abbrev told : World Cells
told = serve_all memory later_poll after_first_buy

redeem_once_example :
    ((handle_buy memory (host_at 90_000_000) claim told).1.ledger ≡ told.ledger)
    × ((handle_sell memory (host_at 90_000_000) claim told).1.ledger ≡ told.ledger)
redeem_once_example =
    redeem_once memory (host_at 1_000_500) (host_at 90_000_000) claim claim "s" start
      after_first_buy answer_to_buy later_poll refl (inl first_buy) (omega arith, tt) (omega arith)
      made refl
  where
    made : MadeBy (host_at 90_000_000) "s" 1_000_500
    made tx b e eb = ground arith

abbrev trades_of_a_day : List Request
trades_of_a_day =
    record { path = "/api/curve/buy"; method = "POST"; body = claim; host = host_at 1_000_500 }
    ∷ record {
      path = "/api/curve/sell";
      method = "POST";
      body = record claim { signature = some "s2" };
      host = host_at 1_000_600;
    }
    ∷ []

serve_all-IsBalanced_example :
    Accounts memory 1_000_000_000_000_000 1_000_600 (serve_all memory trades_of_a_day start).store
serve_all-IsBalanced_example =
    serve_all-IsBalanced memory 1_000_000_000_000_000 0 trades_of_a_day start
      (omega arith, (omega arith, tt)) ((λ m e. ground arith), ((λ m e. ground arith), tt))
      (λ u le c e. cc)

abbrev sold_once : Result Response × World Cells
sold_once = handle_sell memory (host_at 1_000_500) claim start

abbrev answer_to_sale : Response
answer_to_sale = sold (record {
  sol = 14_992_504;
  hub = 500_000_000_000;
  signature = "paid";
  graduated = false;
  progress = negsuc 13;
})

-- The same node, but every confirmation throws.
abbrev unsure : Host
unsure = record (host_at 1_000_500) { deliver = λ p. failed true }

abbrev first_order : Order
first_order = record {
  wallet = "bob";
  signature = "s";
  state = genesis 1_000_000_000_000_000 1_000_500;
  amount = 1_000_000_000;
  fill = compute_buy (genesis 1_000_000_000_000_000 1_000_500) 1_000_000_000;
  mint = "hub";
}

abbrev ordered : Result Order × World Cells
ordered = buy_order memory unsure claim start

first_ordered : ordered ≡ (ok first_order, ordered.1)
unfolding buy_order open_redeem ◌>>=◌ pure answer or_throw refuse_if gets modify fetch_confirmed_tx
    sol_delta load_state save_state already_consumed compute_buy
first_ordered = refl

abbrev reserves : CurveState
reserves = genesis 1_000_000_000 0

buy_then_sell_example :
    let f = compute_buy reserves 7_000 in
    let g = compute_sell (refill reserves f) f.out in
    (g.new_hub ≡ reserves.virtual_hub)
    × (7_000 ≤ g.out)
    × ((g.out - 7_000) * reserves.virtual_hub < f.new_sol + reserves.virtual_hub)
buy_then_sell_example = buy_then_sell reserves 7_000 (omega arith) (omega arith)
