-- ===== src/Curve/Worker/Invariant/Requests.antt =====
-- Requests and an invariant of the store; and what an order is known to satisfy.
use hubconnect.Base.{
  ℕ, ◌<◌, ◌≤◌, ◌≡◌, refl, ◌∙◌, List, false, Option, none, some, String, ltb, arith,
}
use hubconnect.Base.Int.{ℤ, pos, negsuc, ◌≤ℤ◌, ltb_ℤ}
use hubconnect.Curve.Kv.{Kv, tx_key}
use hubconnect.Curve.Reserves.{CurveState, Fill, compute_buy, compute_sell}
use hubconnect.Curve.Worker.Host.{Host, Body, Tx, Payment, Response}
use hubconnect.Curve.Worker.Triple.{
  Triple, Any, bind_rule, pure_rule, answer_rule, or_throw_rule, refuse_if_rule,
}
use hubconnect.Curve.Worker.Records.{is_some}
use hubconnect.Curve.Worker.Deposit.{too_old, hub_delta}
use hubconnect.Curve.Worker.Handlers.{
  Order, open_redeem, buy_order, sell_order, settle_buy, settle_sell, book_buy, book_sell,
  handle_buy, handle_sell, handle_quote, handle_state, parse_amount, asked, side_of, handle_trades,
  parse_min, parse_wallet, redeemer, or_refuse, positive, spendable, after_buy, after_sell,
}
use hubconnect.Curve.Worker.Invariant.Laws.{Invariant}
use hubconnect.Curve.Worker.Invariant.Actions.{
  Held, Grows, load_rule, save_rule, push_rule, mark_rule, consumed_rule, send_rule, fetch_rule,
  delta_rule, graduate_rule, trades_rule,
}

-- The least output that a body asks for.
abbrev pub min_of : Host → Option String → Option ℤ
min_of h none = some (pos 0)
min_of h (some text) = h.big_int text

-- An order whose fill is computed by `fill_of`, under an invariant of the store.
pub record IsOrder {kv : Kv} {h : Host} (inv : Invariant kv h) (body : Body)
    (fill_of : CurveState → ℕ → Fill) (o : Order) : Type 0 where
  pub good : inv.Good o.state
  pub is_open : o.state.graduated ≡ false
  pub deposited : 0 < o.amount
  pub filled : o.fill ≡ fill_of o.state o.amount
  pub enough : (m : ℤ) × (min_of h body.min_out ≡ some m) × (m ≤ℤ pos o.fill.out)
  pub signed : body.signature ≡ some o.signature
  pub redeems : redeemer (parse_wallet h body.wallet) body.signature ≡ some (o.wallet, o.signature)
  pub unmarked :
      (s : kv.Store) × inv.Keeps s × (is_some (kv.get s h.now (tx_key o.signature)) ≡ false)
  pub recent :
      (tx : Tx) × (h.transaction o.signature ≡ some tx) × (too_old h.now tx.block_time ≡ false)

-- A sale that the curve wallet can pay and still keep its minimum.
abbrev pub IsCovered : Host → Order → Type 0
IsCovered h o = (b : ℕ) × (h.balance ≡ some b) × (o.fill.out ≤ spendable b)

-- What a sale is of: what the deposit under the signature brought the curve wallet.
abbrev pub IsDeposited : Host → Order → Type 0
IsDeposited h o =
    (tx : Tx) × (h.transaction o.signature ≡ some tx)
    × (h.hub_mint ≡ some o.mint)
    × (positive (hub_delta tx (h.ata h.curve_key o.mint) o.mint) ≡ some o.amount)

redeemer_signed : (a b : Option String) (w s : String) → redeemer a b ≡ some (w, s) → b ≡ some s
redeemer_signed (some a) (some b) w s e = ground arith
redeemer_signed (some a) none w s e = cc
redeemer_signed none b w s e = cc

positive_lt : (d : ℤ) (n : ℕ) → positive d ≡ some n → 0 < n
positive_lt (pos d) n e = ground arith
positive_lt (negsuc d) n e = cc

not_above : (a b : ℕ) → ltb a b ≡ false → b ≤ a
not_above a b e = ground arith

not_below : (a b : ℤ) → ltb_ℤ a b ≡ false → b ≤ℤ a
not_below a b e = ground arith

module _ {kv : Kv} {h : Host} (inv : Invariant kv h) (Paid : List Payment → Type 0) where
  open inv use {Keeps, Good}

  or_refuse_rule :
      {A : Type 0} (o : Option A) (r : Response)
      → Triple (Held inv Paid) (or_refuse o r) (λ a. o ≡ some a)
  or_refuse_rule none r = answer_rule r
  or_refuse_rule (some a) r = pure_rule a refl

  min_rule : (o : Option String) → Triple (Held inv Paid) (parse_min h o) (λ m. min_of h o ≡ some m)
  min_rule none = pure_rule _ refl
  min_rule (some t) = or_throw_rule (h.big_int t)

  -- A store with the invariant in which the signature is not marked.
  abbrev Fresh : String → Type 0
  Fresh x = (s : kv.Store) × Keeps s × (is_some (kv.get s h.now (tx_key x)) ≡ false)

  abbrev IsOpen : Body → ℤ × String × String × CurveState → Type 0
  IsOpen body (m, w, s, c) =
      (min_of h body.min_out ≡ some m)
      × (body.signature ≡ some s)
      × Good c
      × (c.graduated ≡ false)
      × Fresh s
      × (redeemer (parse_wallet h body.wallet) body.signature ≡ some (w, s))

  IsOpen-rule : (body : Body) → Triple (Held inv Paid) (open_redeem kv h body) (IsOpen body)
  unfolding open_redeem
  IsOpen-rule body = bind_rule (min_rule body.min_out) λ m em.
      bind_rule (or_refuse_rule (redeemer (parse_wallet h body.wallet) body.signature) _) λ ws es.
        bind_rule (consumed_rule inv Paid ws.1) λ b (s, k, eb).
          bind_rule (refuse_if_rule b _ _) λ _ nb. bind_rule (load_rule inv Paid) λ c g.
            bind_rule (refuse_if_rule c.graduated _ _)
              λ _ o. pure_rule _ (em, redeemer_signed _ _ ws.0 ws.1 es, g, o, (s, k, eb ∙ nb), es)

  pub buy_order_rule :
      (body : Body) → Triple (Held inv Paid) (buy_order kv h body) (IsOrder inv body compute_buy)
  unfolding buy_order
  buy_order_rule body = bind_rule (IsOpen-rule body) λ q oq.
      bind_rule (fetch_rule inv Paid q.2) λ tx et.
        bind_rule (delta_rule inv Paid tx h.curve_key) λ d _.
          bind_rule (or_refuse_rule (positive d) _) λ n en.
            bind_rule (refuse_if_rule (ltb_ℤ (pos (compute_buy q.3 n).out) q.0) _ _) λ _ es.
              bind_rule (or_throw_rule h.hub_mint) λ mint _. pure_rule _ (record {
                good = oq.2;
                is_open = oq.3;
                deposited = positive_lt d n en;
                filled = refl;
                enough = (q.0, oq.0, not_below (pos (compute_buy q.3 n).out) q.0 es);
                signed = oq.1;
                redeems = oq.5;
                unmarked = oq.4;
                recent = (tx, et.0, et.2);
              })

  pub sell_order_rule :
      (body : Body)
      → Triple
          (Held inv Paid)
          (sell_order kv h body)
          (λ o. IsOrder inv body compute_sell o × IsCovered h o × IsDeposited h o)
  unfolding sell_order
  sell_order_rule body = bind_rule (IsOpen-rule body) λ q oq.
      bind_rule (or_throw_rule h.hub_mint) λ mint minted.
        bind_rule (fetch_rule inv Paid q.2) λ tx et.
          bind_rule (or_refuse_rule (positive (hub_delta tx (h.ata h.curve_key mint) mint)) _)
            λ n en.
              bind_rule (refuse_if_rule (ltb_ℤ (pos (compute_sell q.3 n).out) q.0) _ _) λ _ es.
                bind_rule (or_throw_rule h.balance) λ b eb.
                  bind_rule (refuse_if_rule (ltb (spendable b) _) _ _) λ _ el. pure_rule _ (
                    record {
                      good = oq.2;
                      is_open = oq.3;
                      deposited = positive_lt (hub_delta tx (h.ata h.curve_key mint) mint) n en;
                      filled = refl;
                      enough = (q.0, oq.0, not_below (pos (compute_sell q.3 n).out) q.0 es);
                      signed = oq.1;
                      redeems = oq.5;
                      unmarked = oq.4;
                      recent = (tx, et.0, et.2);
                    },
                    (b, eb, not_above _ _ el),
                    (tx, et.0, minted, en),
                  )

  pub settle_buy_rule :
      Grows Paid
      → (o : Order) → Good (after_buy h o)
      → Triple (Held inv Paid) (settle_buy kv h o) Any
  unfolding settle_buy book_buy
  settle_buy_rule grow o g = bind_rule (send_rule inv Paid grow _) λ s _.
      bind_rule (save_rule inv Paid _ g) λ _ _. bind_rule (graduate_rule inv Paid grow _ g) λ c _.
        bind_rule (push_rule inv Paid _)
          λ _ _. bind_rule (mark_rule inv Paid o.signature) λ _ _. pure_rule _ tt

  pub settle_sell_rule :
      Grows Paid
      → (o : Order) → Good (after_sell o)
      → Triple (Held inv Paid) (settle_sell kv h o) Any
  unfolding settle_sell book_sell
  settle_sell_rule grow o g = bind_rule (send_rule inv Paid grow _) λ s _.
      bind_rule (save_rule inv Paid _ g) λ _ _.
        bind_rule (push_rule inv Paid _)
          λ _ _. bind_rule (mark_rule inv Paid o.signature) λ _ _. pure_rule _ tt

  pub handle_buy_rule :
      Grows Paid → (body : Body) → Triple (Held inv Paid) (handle_buy kv h body) Any
  unfolding handle_buy
  handle_buy_rule grow body =
      bind_rule (buy_order_rule body)
        λ o p. settle_buy_rule grow o (inv.bought o p.good p.is_open p.deposited p.filled)

  pub handle_sell_rule :
      Grows Paid → (body : Body) → Triple (Held inv Paid) (handle_sell kv h body) Any
  unfolding handle_sell
  handle_sell_rule grow body =
      bind_rule (sell_order_rule body)
        λ o (p, _, _). settle_sell_rule grow o (inv.sold o p.good p.is_open p.deposited p.filled)

  amount_rule : (o : Option String) → Triple (Held inv Paid) (parse_amount kv h o) Any
  amount_rule none = pure_rule _ tt
  amount_rule (some t) = bind_rule (or_throw_rule (h.big_int t)) λ _ _. pure_rule _ tt

  pub handle_quote_rule : (body : Body) → Triple (Held inv Paid) (handle_quote kv h body) Any
  unfolding handle_quote
  handle_quote_rule body = bind_rule (amount_rule body.amount) λ a _.
      bind_rule (or_refuse_rule (asked kv (side_of kv body.side) a) _) λ q _.
        bind_rule (load_rule inv Paid)
          λ c _. bind_rule (refuse_if_rule c.graduated _ _) λ _ _. pure_rule _ tt

  pub handle_state_rule : Grows Paid → Triple (Held inv Paid) (handle_state kv h) Any
  unfolding handle_state
  handle_state_rule grow = bind_rule (load_rule inv Paid) λ c g.
      bind_rule (or_throw_rule h.hub_mint)
        λ m _. bind_rule (graduate_rule inv Paid grow c g) λ _ _. pure_rule _ tt

  pub handle_trades_rule : Triple (Held inv Paid) (handle_trades kv h) Any
  unfolding handle_trades
  handle_trades_rule = bind_rule (trades_rule inv Paid) λ _ _. pure_rule _ tt
