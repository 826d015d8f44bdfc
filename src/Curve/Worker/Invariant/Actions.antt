-- ===== src/Curve/Worker/Invariant/Actions.antt =====
-- The actions of the worker and an invariant of the store.
use hubconnect.Base.{
  ℕ, ◌≡◌, refl, Bool, true, false, Option, none, some, List, ◌∷◌, String, if◌then◌else◌,
}
use hubconnect.Curve.Kv.{Kv, Trade, state_key, tx_key}
use hubconnect.Curve.Reserves.{CurveState}
use hubconnect.Curve.Worker.Host.{Host, Tx, Meta, Payment, Delivery, confirmed, failed}
use hubconnect.Curve.Worker.Monad.{
  World, land, delivered, try_send, send, pure, gets, modify, ◌>>=◌,
}
use hubconnect.Curve.Worker.Triple.{
  Triple, Any, bind_rule, pure_rule, answer_rule, or_throw_rule, weaken,
}
use hubconnect.Curve.Worker.Deposit.{
  fetch_confirmed_tx, sol_delta, sol_delta_at, throw_if, failed_on_chain, too_old,
  account_key_index,
}
use hubconnect.Curve.Worker.Records.{
  is_some, init_state, load_state, save_state, load_trades, push_trade, already_consumed,
  mark_consumed,
}
use hubconnect.Curve.Worker.Graduation.{
  attempt_graduation, maybe_graduate, record_pool, graduate_pending, attempt_with, seed_pool,
  or_zero,
}
use hubconnect.Curve.Worker.Invariant.Laws.{Invariant}

abbrev pub Grows : (List Payment → Type 0) → Type 0
Grows Paid = (p : Payment) (l : List Payment) → Paid l → Paid (p ∷ l)

module _ {kv : Kv} {h : Host} (inv : Invariant kv h) (Paid : List Payment → Type 0) where
  open inv use {Keeps, Good}

  abbrev pub Held : World kv.Store → Type 0
  Held w = Keeps w.store × Paid w.ledger

  pub save_rule : (c : CurveState) → Good c → Triple Held (save_state kv h c) Any
  unfolding save_state modify
  save_rule c g = record { run = λ w k. ((inv.save w.store c g k.0, k.1), tt) }

  init_rule :
      (o : Option CurveState)
      → ((c : CurveState) → o ≡ some c → Good c)
      → Triple Held (init_state kv h o) Good
  unfolding init_state
  init_rule (some c) g = pure_rule c (g c refl)
  init_rule none g = bind_rule (or_throw_rule h.hub_mint) λ mint _.
      bind_rule (or_throw_rule h.genesis_float)
        λ n e. bind_rule (save_rule _ (inv.start n e)) λ _ _. pure_rule _ (inv.start n e)

  read_rule :
      Triple Held
        (gets (λ s. kv.get s h.now state_key))
        (λ o. (c : CurveState) → o ≡ some c → Good c)
  unfolding gets
  read_rule = record { run = λ w k. (k, λ c e. inv.load w.store c k.0 e) }

  pub load_rule : Triple Held (load_state kv h) Good
  unfolding load_state
  load_rule = bind_rule read_rule λ o g. init_rule o g

  pub trades_rule : Triple Held (load_trades kv h) Any
  unfolding load_trades gets pure ◌>>=◌
  trades_rule = record { run = λ w k. (k, tt) }

  pub push_rule : (t : Trade) → Triple Held (push_trade kv h t) Any
  unfolding push_trade modify
  push_rule t =
      bind_rule trades_rule λ ts _. record { run = λ w k. ((inv.log w.store _ k.0, k.1), tt) }

  pub mark_rule : (s : String) → Triple Held (mark_consumed kv h s) Any
  unfolding mark_consumed modify
  mark_rule s = record { run = λ w k. ((inv.mark w.store s k.0, k.1), tt) }

  -- What the replay guard answers is read off a store with the invariant.
  pub consumed_rule :
      (x : String)
      → Triple Held
          (already_consumed kv h x)
          (λ b. (s : kv.Store) × Keeps s × (is_some (kv.get s h.now (tx_key x)) ≡ b))
  unfolding already_consumed gets
  consumed_rule x = record { run = λ w k. (k, (w.store, k.0, refl)) }

  land_rule :
      Grows Paid → (p : Payment) (b : Bool) (w : World kv.Store) → Held w → Held (land p b w)
  unfolding land
  land_rule g p true w k = (k.0, g p w.ledger k.1)
  land_rule g p false w k = k

  delivered_rule : Grows Paid → (p : Payment) (d : Delivery) → Triple Held (delivered p d) Any
  unfolding delivered
  delivered_rule g p (confirmed s) = record { run = λ w k. (land_rule g p true w k, tt) }
  delivered_rule g p (failed b) = record { run = λ w k. (land_rule g p b w k, tt) }

  pub send_rule : Grows Paid → (p : Payment) → Triple Held (send h p) Any
  unfolding send try_send
  send_rule g p =
      bind_rule (delivered_rule g p (h.deliver p)) λ s _. weaken (λ _ _. tt) (or_throw_rule s)

  throw_if_rule : (b : Bool) → Triple Held (throw_if b) (λ _. b ≡ false)
  unfolding throw_if
  throw_if_rule true = answer_rule _
  throw_if_rule false = pure_rule tt refl

  -- What a deposit that passes the checks is known to be.
  pub fetch_rule :
      (s : String)
      → Triple Held (fetch_confirmed_tx h s) (λ tx.
        (h.transaction s ≡ some tx)
        × (failed_on_chain tx.info ≡ false)
        × (too_old h.now tx.block_time ≡ false))
  unfolding fetch_confirmed_tx
  fetch_rule s = bind_rule (or_throw_rule (h.transaction s)) λ tx e.
      bind_rule (throw_if_rule (failed_on_chain tx.info))
        λ _ f. bind_rule (throw_if_rule (too_old h.now tx.block_time)) λ _ o. pure_rule tx (e, f, o)

  delta_at_rule : (i : Option ℕ) (m : Option Meta) → Triple Held (sol_delta_at i m) Any
  unfolding sol_delta_at
  delta_at_rule (some i) (some m) = weaken (λ _ _. tt) (or_throw_rule _)
  delta_at_rule (some i) none = pure_rule _ tt
  delta_at_rule none m = pure_rule _ tt

  pub delta_rule : (tx : Tx) (k : String) → Triple Held (sol_delta tx k) Any
  unfolding sol_delta
  delta_rule tx k = delta_at_rule (account_key_index tx k) tx.info

  seed_rule :
      Grows Paid → (b : Bool) (a n : ℕ) → Triple Held (if b then pure none else seed_pool h a n) Any
  unfolding seed_pool try_send
  seed_rule g true a n = pure_rule none tt
  seed_rule g false a n = bind_rule (delivered_rule g _ _) λ s _. pure_rule _ tt

  attempt_with_rule : Grows Paid → (a b : Option ℕ) (n : ℕ) → Triple Held (attempt_with h a b n) Any
  unfolding attempt_with
  attempt_with_rule g (some a) (some b) n = seed_rule g _ _ n
  attempt_with_rule g (some a) none n = pure_rule none tt
  attempt_with_rule g none b n = pure_rule none tt

  attempt_rule : Grows Paid → Triple Held (attempt_graduation h) Any
  unfolding attempt_graduation
  attempt_rule g = attempt_with_rule g h.pool_sol_balance h.rent_exempt (or_zero h.pool_hub_balance)

  record_rule :
      (c : CurveState) (o : Option String) → Good c → Triple Held (record_pool kv h c o) Good
  unfolding record_pool
  record_rule c none g = pure_rule c g
  record_rule c (some p) g =
      bind_rule (save_rule _ (inv.pooled c p g)) λ _ _. pure_rule _ (inv.pooled c p g)

  pending_rule :
      Grows Paid
      → (c : CurveState) (b : Bool) (o : Option String) → Good c
      → Triple Held (graduate_pending kv h c b o) Good
  unfolding graduate_pending
  pending_rule l c true none g = bind_rule (attempt_rule l) λ o _. record_rule c o g
  pending_rule l c true (some p) g = pure_rule c g
  pending_rule l c false o g = pure_rule c g

  pub graduate_rule :
      Grows Paid → (c : CurveState) → Good c → Triple Held (maybe_graduate kv h c) Good
  unfolding maybe_graduate
  graduate_rule l c = pending_rule l c c.graduated c.pool_address
