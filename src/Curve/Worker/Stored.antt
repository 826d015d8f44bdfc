-- ===== src/Curve/Worker/Stored.antt =====
-- The state that an order is computed on, in the store from which the request starts.
use hubconnect.Base.{◌≡◌, ◌⊎◌, inl, inr, refl, subst, ap, sym, ◌∙◌, ℕ, Option, none, some, String}
use hubconnect.Base.Int.{ℤ}
use hubconnect.Curve.Kv.{Kv, state_key}
use hubconnect.Curve.Reserves.{CurveState}
use hubconnect.Curve.Worker.Host.{Host, Body, Response}
use hubconnect.Curve.Worker.Monad.{World, Result, ok, ◌>>=◌, pure, gets}
use hubconnect.Curve.Worker.Triple.{
  Triple, Any, pure_rule, answer_rule, or_throw_rule, refuse_if_rule, returned, weaken,
}
use hubconnect.Curve.Worker.Records.{genesis, init_state, load_state, already_consumed}
use hubconnect.Curve.Worker.Handlers.{Order, open_redeem, sell_order, parse_min, or_refuse}
use hubconnect.Curve.Worker.Inversion.{>>=-eq-ok}

-- The stored state; without one, the first state with the float that is read.
abbrev pub IsStored : (kv : Kv) → Host → kv.Store → CurveState → Type 0
IsStored kv h s c =
    (kv.get s h.now state_key ≡ some c)
    ⊎ ((kv.get s h.now state_key ≡ none)
        × (n : ℕ) × (h.genesis_float ≡ some n)
        × (c ≡ genesis n h.now))

module _ {S : Type 0} {P : World S → Type 0} where
  kept_min : (h : Host) (o : Option String) → Triple P (parse_min h o) Any
  kept_min h none = pure_rule _ tt
  kept_min h (some t) = weaken (λ _ _. tt) (or_throw_rule (h.big_int t))

  kept_or_refuse : {A : Type 0} (o : Option A) (r : Response) → Triple P (or_refuse o r) Any
  kept_or_refuse none r = answer_rule r
  kept_or_refuse (some a) r = pure_rule a tt

  kept_gets : {A : Type 0} (f : S → A) → Triple P (gets f) Any
  unfolding gets
  kept_gets f = record { run = λ w p. (p, tt) }

pure_value : {S A : Type 0} (a b : A) (w v : World S) → pure a w ≡ (ok b, v) → a ≡ b
unfolding pure
pure_value {S} {A} a b w v e = let t = ap (λ (x : Result A × World S). x.0) e in cc t

module _ (kv : Kv) (h : Host) where
  init_state-IsStored :
      (o : Option CurveState) (w v : World kv.Store) (c : CurveState)
      → kv.get w.store h.now state_key ≡ o
      → init_state kv h o w ≡ (ok c, v)
      → IsStored kv h w.store c
  unfolding init_state
  init_state-IsStored (some d) w v c g e = inl (g ∙ ap some (pure_value d c w v e))
  init_state-IsStored none w v c g e =
      let (_, v1, _, r1) = >>=-eq-ok _ _ e in
      let (n, v2, e2, r2) = >>=-eq-ok _ _ r1 in
      let (_, v3, _, r3) = >>=-eq-ok _ _ r2 in
      inr (
        g,
        n,
        (returned {P = λ _. Unit} (or_throw_rule h.genesis_float) tt e2).1,
        sym (pure_value _ c v3 v r3),
      )

  load_state-IsStored :
      (w v : World kv.Store) (c : CurveState)
      → load_state kv h w ≡ (ok c, v)
      → IsStored kv h w.store c
  unfolding load_state gets ◌>>=◌
  load_state-IsStored w v c e = init_state-IsStored (kv.get w.store h.now state_key) w v c refl e

  open_redeem-IsStored :
      (body : Body) (w v : World kv.Store) (q : ℤ × String × String × CurveState)
      → open_redeem kv h body w ≡ (ok q, v)
      → IsStored kv h w.store q.3
  unfolding open_redeem already_consumed
  open_redeem-IsStored body w v q e =
      let (m, v1, e1, r1) = >>=-eq-ok _ _ e in
      let (ws, v2, e2, r2) = >>=-eq-ok _ _ r1 in
      let (b, v3, e3, r3) = >>=-eq-ok _ _ r2 in
      let (_, v4, e4, r4) = >>=-eq-ok _ _ r3 in
      let (c, v5, e5, r5) = >>=-eq-ok _ _ r4 in
      let (_, v6, e6, r6) = >>=-eq-ok _ _ r5 in
      let Same : World kv.Store → Type 0 = λ x. x ≡ w in
      let (s1, _) = returned {P = Same} (kept_min h body.min_out) refl e1 in
      let (s2, _) = returned {P = Same} (kept_or_refuse _ _) s1 e2 in
      let (s3, _) = returned {P = Same} (kept_gets _) s2 e3 in
      let (s4, _) = returned {P = Same} (refuse_if_rule b _ _) s3 e4 in
      subst (λ (x : World kv.Store). IsStored kv h x.store q.3) s4
        (subst (IsStored kv h v4.store)
          (ap (λ (x : ℤ × String × String × CurveState). x.3) (pure_value _ q v6 v r6))
          (load_state-IsStored v4 v5 c e5))

  pub sell_order-IsStored :
      (body : Body) (w v : World kv.Store) (o : Order)
      → sell_order kv h body w ≡ (ok o, v)
      → IsStored kv h w.store o.state
  unfolding sell_order
  sell_order-IsStored body w v o e =
      let (q, v1, e1, r1) = >>=-eq-ok _ _ e in
      let (_, v2, _, r2) = >>=-eq-ok _ _ r1 in
      let (_, v3, _, r3) = >>=-eq-ok _ _ r2 in
      let (_, v4, _, r4) = >>=-eq-ok _ _ r3 in
      let (_, v5, _, r5) = >>=-eq-ok _ _ r4 in
      let (_, v6, _, r6) = >>=-eq-ok _ _ r5 in
      let (_, v7, _, r7) = >>=-eq-ok _ _ r6 in
      subst (IsStored kv h w.store) (ap (λ (x : Order). x.state) (pure_value _ o v7 v r7))
        (open_redeem-IsStored body w v1 q e1)
