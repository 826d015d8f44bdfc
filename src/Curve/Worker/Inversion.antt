-- ===== src/Curve/Worker/Inversion.antt =====
-- Taking a handler that returned apart into its steps, and what a settled trade leaves behind.
use hubconnect.Base.{◌≡◌, refl, ap, some, String}
use hubconnect.Curve.Kv.{Kv, tx_key}
use hubconnect.Curve.Config.{tx_replay_ttl_seconds}
use hubconnect.Curve.Worker.Host.{Host, Response}
use hubconnect.Curve.Worker.Monad.{World, Result, ok, exit, Handler, ◌>>=◌, pure, modify}
use hubconnect.Curve.Worker.Records.{mark_consumed}
use hubconnect.Curve.Worker.Handlers.{Order, settle_buy, settle_sell, book_buy, book_sell}

module _ {S A B : Type 0} where
  step_ok :
      (x : Result A × World S) (f : A → Handler S B) (b : B) (w' : World S)
      → (let (r, v) = x in
          elim r as (λ _. Result B × World S) [ ok a ↦ f a v | exit e ↦ (exit e, v) ])
        ≡ (ok b, w')
      → (a : A) × (v : World S) × (x ≡ (ok a, v)) × (f a v ≡ (ok b, w'))
  step_ok (ok a, v) f b w' e = (a, v, refl, e)
  step_ok (exit r, v) f b w' e = cc

  pub >>=-eq-ok :
      (m : Handler S A) (f : A → Handler S B) {b : B} {w w' : World S}
      → (m >>= f) w ≡ (ok b, w')
      → (a : A) × (v : World S) × (m w ≡ (ok a, v)) × (f a v ≡ (ok b, w'))
  unfolding ◌>>=◌
  >>=-eq-ok m f {b} {w} {w'} e = step_ok (m w) f b w' e

module _ {S A B : Type 0} (m : Handler S A) (f : A → Handler S B) where
  abbrev ran : Result A × World S → Result B × World S
  ran x =
      let (r, v) = x in elim r as (λ _. Result B × World S) [ ok a ↦ f a v | exit e ↦ (exit e, v) ]

  pub bind_ok : {w v : World S} {a : A} → m w ≡ (ok a, v) → (m >>= f) w ≡ f a v
  unfolding ◌>>=◌
  bind_ok e = ap ran e

  pub bind_exit : {w v : World S} {r : Response} → m w ≡ (exit r, v) → (m >>= f) w ≡ (exit r, v)
  unfolding ◌>>=◌
  bind_exit e = ap ran e

-- A settled trade ends by writing its replay mark.
abbrev pub MarkLast : (kv : Kv) → Host → String → World kv.Store → Type 0
MarkLast kv h x w =
    (s : kv.Store) × (w.store ≡ kv.put s h.now (tx_key x) tt (some tx_replay_ttl_seconds))

module _ (kv : Kv) (h : Host) where
  mark_last :
      (o : Order) (r : Response) (v : World kv.Store) {b : Response} {w : World kv.Store}
      → (mark_consumed kv h o.signature >>= λ _. pure r) v ≡ (ok b, w)
      → MarkLast kv h o.signature w
  unfolding mark_consumed modify pure ◌>>=◌
  mark_last o r v e = (v.store, cc)

  pub settle_buy_marks :
      (o : Order) (v : World kv.Store) {b : Response} {w : World kv.Store}
      → settle_buy kv h o v ≡ (ok b, w)
      → MarkLast kv h o.signature w
  unfolding settle_buy book_buy
  settle_buy_marks o v e =
      let (_, _, _, e1) = >>=-eq-ok _ _ e in
      let (_, _, _, e2) = >>=-eq-ok _ _ e1 in
      let (_, _, _, e3) = >>=-eq-ok _ _ e2 in
      let (_, _, _, e4) = >>=-eq-ok _ _ e3 in mark_last o _ _ e4

  pub settle_sell_marks :
      (o : Order) (v : World kv.Store) {b : Response} {w : World kv.Store}
      → settle_sell kv h o v ≡ (ok b, w)
      → MarkLast kv h o.signature w
  unfolding settle_sell book_sell
  settle_sell_marks o v e =
      let (_, _, _, e1) = >>=-eq-ok _ _ e in
      let (_, _, _, e2) = >>=-eq-ok _ _ e1 in
      let (_, _, _, e3) = >>=-eq-ok _ _ e2 in mark_last o _ _ e3
