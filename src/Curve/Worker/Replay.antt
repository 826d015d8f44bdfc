-- ===== src/Curve/Worker/Replay.antt =====
-- Redeeming a deposit again, while its replay mark lives and after.
use mathlib.Core.Option.{some-injective}
use native.Mathlib.Nat.{le_refl, le_trans}
use hubconnect.Base.{
  ℕ, ◌+◌, ◌*◌, ◌≤◌, ◌<◌, ◌≡◌, refl, sym, ap, ◌∙◌, subst, false, some, List, String, arith, inl, inr,
  ◌⊎◌, All, [], ◌∷◌,
}
use hubconnect.Curve.Config.{tx_replay_ttl_seconds}
use hubconnect.Curve.Kv.{Kv, tx_key}
use hubconnect.Curve.Reserves.{CurveState, Fill, compute_buy, compute_sell}
use hubconnect.Curve.Worker.Host.{Host, Body, Response, Payment}
use hubconnect.Curve.Worker.Monad.{World, Handler, ok, ◌>>=◌}
use hubconnect.Curve.Worker.Serve.{Request, serve_all}
use hubconnect.Curve.Worker.Records.{is_some}
use hubconnect.Curve.Worker.Handlers.{Order, handle_buy, handle_sell}
use hubconnect.Curve.Worker.Invariant.Laws.{Invariant}
use hubconnect.Curve.Worker.Invariant.Requests.{IsOrder, buy_order_rule, sell_order_rule}
use hubconnect.Curve.Worker.Invariant.Actions.{Held}
use hubconnect.Curve.Worker.Triple.{Triple, bind_never, weaken, returned}
use hubconnect.Curve.Worker.Inversion.{MarkLast, >>=-eq-ok, settle_buy_marks, settle_sell_marks}
use hubconnect.Curve.Worker.Invariant.Serving.{
  InOrder, end_time, end_time-le, serve_rule, serve_all_rule,
}
use native.Mathlib.Decide.{dec_lt}
use hubconnect.Curve.Worker.Marks.{Marked, marks, MadeBy, too_old-late}

module _ (kv : Kv) (h : Host) (x : String) (t : ℕ) (later : t ≤ h.now) (made : MadeBy h x t) where
  abbrev ending : ℕ
  ending = t + tx_replay_ttl_seconds * 1000

  refused_marked :
      (body : Body) (fill_of : CurveState → ℕ → Fill)
      (le : ending ≤ h.now + tx_replay_ttl_seconds * 1000) (o : Order)
      → body.signature ≡ some x
      → h.now < ending
      → ¬ IsOrder (marks kv h x ending le) body fill_of o
  unfolding marks
  refused_marked body fill_of le o signed live p =
      let (s, k, e) = p.unmarked in
      let same : o.signature ≡ x = some-injective _ _ (sym p.signed ∙ signed) in
      let e' : is_some (kv.get s h.now (tx_key x)) ≡ false = rw same at e in
      let m : kv.get s h.now (tx_key x) ≡ some tt = k h.now (le_refl h.now) live in
      cc (sym e' ∙ ap is_some m)

  refused_late :
      (body : Body) (fill_of : CurveState → ℕ → Fill)
      (le : 0 ≤ h.now + tx_replay_ttl_seconds * 1000) (o : Order)
      → body.signature ≡ some x
      → ending ≤ h.now
      → ¬ IsOrder (marks kv h x 0 le) body fill_of o
  unfolding marks
  refused_late body fill_of le o signed late p =
      let (tx, f, e) = p.recent in
      let same : o.signature ≡ x = some-injective _ _ (sym p.signed ∙ signed) in
      too_old-late h.now t tx.block_time late (λ b eb. made tx b (rw same at f) eb) e

  abbrev Same : World kv.Store → List Payment → Type 0
  Same w l = l ≡ w.ledger

  -- Whatever is ordered from a marked signature is never settled.
  again :
      (body : Body) (fill_of : CurveState → ℕ → Fill) (m : Handler kv.Store Order)
      (f : Order → Handler kv.Store Response)
      → ((inv : Invariant kv h) (Paid : List Payment → Type 0)
          → Triple (Held inv Paid) m (IsOrder inv body fill_of))
      → (w : World kv.Store) → body.signature ≡ some x
      → Marked kv x ending h.now w.store
      → ((m >>= f) w).1.ledger ≡ w.ledger
  unfolding marks
  again body fill_of m f rule w signed k = elim (dec_lt h.now ending) [
    | yes live ↦
        let inv = marks kv h x ending (omega arith) in
        (bind_never (Held inv (Same w)) m f _ (rule inv (Same w))
          (λ o. refused_marked body fill_of (omega arith) o signed live) w (k, refl)).1
    | no late ↦
        let inv = marks kv h x 0 (omega arith) in
        (bind_never (Held inv (Same w)) m f _ (rule inv (Same w))
          (λ o. refused_late body fill_of (omega arith) o signed (omega arith)) w
          ((λ u lo hi. absurd (omega arith)), refl)).1
  ]

  -- A further redemption of a marked signature pays nothing, neither while the mark lives nor after.
  pub handle_again :
      (body : Body) (w : World kv.Store)
      → body.signature ≡ some x
      → Marked kv x ending h.now w.store
      → ((handle_buy kv h body w).1.ledger ≡ w.ledger)
        × ((handle_sell kv h body w).1.ledger ≡ w.ledger)
  unfolding handle_buy handle_sell
  handle_again body w signed k = (
    again body compute_buy _ _ (λ inv Paid. buy_order_rule inv Paid body) w signed k,
    again body compute_sell _ _ (λ inv Paid. weaken (λ _ p. p.0) (sell_order_rule inv Paid body)) w
        signed k,
  )

module _ (kv : Kv) (h : Host) (body : Body) (x : String) (signed : body.signature ≡ some x) where
  -- From the time of the mark until its end.
  Marked-last :
      (w : World kv.Store)
      → MarkLast kv h x w
      → Marked kv x (h.now + tx_replay_ttl_seconds * 1000) h.now w.store
  Marked-last w (s, e) u lo hi =
      rw e (kv.get-put_live s h.now u (tx_key x) tt tx_replay_ttl_seconds lo hi)

  -- An answered trade leaves its signature marked.
  settled_marks :
      (fill_of : CurveState → ℕ → Fill) (m : Handler kv.Store Order)
      (f : Order → Handler kv.Store Response)
      → ((inv : Invariant kv h) (Paid : List Payment → Type 0)
          → Triple (Held inv Paid) m (IsOrder inv body fill_of))
      → ((o : Order) (v : World kv.Store) (r : Response) (w' : World kv.Store)
          → f o v ≡ (ok r, w')
          → MarkLast kv h o.signature w')
      → (w w' : World kv.Store) (r : Response) → (m >>= f) w ≡ (ok r, w')
      → Marked kv x (h.now + tx_replay_ttl_seconds * 1000) h.now w'.store
  unfolding marks
  settled_marks fill_of m f rule last w w' r e =
      let (o, v, eo, es) = >>=-eq-ok m f e in
      let inv = marks kv h x 0 (omega arith) in
      let q = returned (rule inv (λ _. Unit)) ((λ u lo hi. absurd (omega arith)), tt) eo in
      let same : o.signature ≡ x = some-injective _ _ (sym q.1.signed ∙ signed) in
      Marked-last w' (subst (λ z. MarkLast kv h z w') same (last o v r w' es))

  trade_marks :
      (w w' : World kv.Store) (r : Response)
      → (handle_buy kv h body w ≡ (ok r, w')) ⊎ (handle_sell kv h body w ≡ (ok r, w'))
      → Marked kv x (h.now + tx_replay_ttl_seconds * 1000) h.now w'.store
  unfolding handle_buy handle_sell
  trade_marks w w' r (inl e) =
      settled_marks compute_buy _ _ (λ inv Paid. buy_order_rule inv Paid body)
        (λ o v r w' s. settle_buy_marks kv h o v s) w w' r e
  trade_marks w w' r (inr e) =
      settled_marks compute_sell _ _
        (λ inv Paid. weaken (λ _ p. p.0) (sell_order_rule inv Paid body))
        (λ o v r w' s. settle_sell_marks kv h o v s) w w' r e

-- The mark of a signature outlasts any requests that come between.
serve_all-Marked :
    (kv : Kv) (x : String) (t0 t : ℕ) (rs : List Request) (w : World kv.Store)
    → InOrder t rs
    → t0 ≤ t
    → Marked kv x (t0 + tx_replay_ttl_seconds * 1000) t w.store
    → Marked kv x (t0 + tx_replay_ttl_seconds * 1000) (end_time t rs) (serve_all kv rs w).store
unfolding marks
serve_all-Marked kv x t0 t rs w ordered le k =
    let end = t0 + tx_replay_ttl_seconds * 1000 in
    (serve_all_rule kv (λ t w. (t0 ≤ t) × Marked kv x end t w.store) (λ _. Unit {0})
      (λ t u w tu (a, k). (le_trans a tu, λ v lo hi. k v (le_trans tu lo) hi))
      (λ r w _ (a, k). (
        a,
        (serve_rule (λ _. Unit) (λ _ _ _. tt) r (marks kv r.host x end (omega arith)) w (k, tt)).0,
      ))
      t rs w ordered (all_units rs) (le, k)).1
  where
    all_units : (rs : List Request) → All (λ _. Unit {0}) rs
    all_units [] = tt
    all_units (r ∷ rs) = (tt, all_units rs)

-- Once a buy or a sale of a deposit was answered, a later redemption of the same signature pays
-- nothing: whatever requests come between, and however late it comes, if the deposit's block is
-- not younger than the first answer.
pub redeem_once :
    (kv : Kv) (h h2 : Host) (body body2 : Body) (x : String) (w w' : World kv.Store) (r : Response)
    (rs : List Request)
    → body.signature ≡ some x
    → (handle_buy kv h body w ≡ (ok r, w')) ⊎ (handle_sell kv h body w ≡ (ok r, w'))
    → InOrder h.now rs
    → end_time h.now rs ≤ h2.now
    → MadeBy h2 x h.now
    → body2.signature ≡ some x
    → let w2 = serve_all kv rs w' in
      ((handle_buy kv h2 body2 w2).1.ledger ≡ w2.ledger)
      × ((handle_sell kv h2 body2 w2).1.ledger ≡ w2.ledger)
redeem_once kv h h2 body body2 x w w' r rs signed traded ordered le made signed2 =
    handle_again kv h2 x h.now (le_trans (end_time-le h.now rs ordered) le) made body2
      (serve_all kv rs w') signed2
      (λ u lo hi.
        serve_all-Marked kv x h.now h.now rs w' ordered (le_refl h.now)
          (trade_marks kv h body x signed w w' r traded) u (le_trans le lo) hi)
