-- ===== src/Web/Candles/Count.antt =====
-- The loop that widens the bucket, and how many candles the whole history makes.
use hubconnect.Base.{
  ℕ, zero, suc, ◌+◌, ◌-◌, ◌*◌, ◌/◌, ◌≤◌, ◌<◌, ◌≡◌, refl, ap, subst, ◌∙◌, false, ltb, leb, ◌==◌,
  ==_iff, ltb→ge, leb→le, leb→ge, pick, Option, none, some, List, [], ◌∷◌, length, arith, inl, inr,
  ◌⊎◌,
}
use native.Mathlib.Nat.{add-mul-div_right}
use native.Mathlib.Decide.{ℕ_discrete}
use hubconnect.Base.Division.{div_bounds}
use hubconnect.Web.Candles.{
  Prices, CurveTrade, PriceUnit, all_time, Point, Candle, minute_ms, most_candles, widen, insert_by,
  sort_by, last_t, upsert, bucket_of, fill, bucket_points, points_of, in_timeframe, widened,
  build_curve_candles, extend,
}

abbrev Widens : ℕ → ℕ → Option ℕ → Type 0
Widens span ms o = (wide : ℕ) × (o ≡ some wide) × (ms ≤ wide) × (span ≤ most_candles * wide)

-- Each round widens the bucket, so that a span's worth of fuel is enough; the bucket is a doubling
-- of the first, and the span fits.
widen-total :
    (fuel span ms : ℕ)
    → 0 < ms
    → span ≤ most_candles * ms + fuel
    → Widens span ms (widen (suc fuel) span ms)
unfolding widen
widen-total zero span ms h b =
    let fits : ltb (most_candles * ms) span ≡ false = ground arith in
    (ms, rw fits refl, omega arith, omega arith)
widen-total (suc fuel) span ms h b =
    pick (Widens span ms) (ltb (most_candles * ms) span)
      (λ e.
        let (wide, r, above, fits) = widen-total fuel span (ms * 2) (omega arith) (omega arith) in
        (wide, r, omega arith, fits))
      (λ e. (ms, refl, omega arith, omega (arith, ltb→ge _ _ e)))

length-insert_by :
    {A : Type 0} (key : A → ℕ) (a : A) (as_ : List A)
    → length (insert_by key a as_) ≡ suc (length as_)
length-insert_by key a [] = refl
length-insert_by key a (b ∷ bs) =
    pick (λ l. length l ≡ suc (suc (length bs))) (leb (key a) (key b)) (λ e. refl)
      (λ e. ap suc (length-insert_by key a bs))

length-sort_by : {A : Type 0} (key : A → ℕ) (as_ : List A) → length (sort_by key as_) ≡ length as_
unfolding sort_by
length-sort_by key [] = refl
length-sort_by key (a ∷ as_) =
    length-insert_by key a (sort_by key as_) ∙ ap suc (length-sort_by key as_)

div_mono : (x y m : ℕ) → 0 < m → x ≤ y → x / m ≤ y / m
div_mono x y m h l = grind (arith, div_bounds x m h, div_bounds y m h)

div_near : (x y m : ℕ) → 0 < m → y - x ≤ most_candles * m → y / m ≤ x / m + 96
div_near x y m h l =
    let shifted = add-mul-div_right x 96 {z = m} h in
    omega (arith, div_mono y (x + 96 * m) m h (omega arith))

module _ {F : Type 0} where
  abbrev From : ℕ → List (Point F) → Type 0
  From x [] = Unit {0}
  From x (p ∷ ps) = (x ≤ p.t) × From p.t ps

  abbrev by_time : Point F → ℕ
  by_time p = p.t

  From-weaken : (x y : ℕ) (ps : List (Point F)) → x ≤ y → From y ps → From x ps
  From-weaken x y [] h f = tt
  From-weaken x y (p ∷ ps) h f = (omega arith, f.1)

  insert-From :
      (x : ℕ) (p : Point F) (ps : List (Point F))
      → x ≤ p.t
      → From x ps
      → From x (insert_by by_time p ps)
  insert-From x p [] h f = (h, tt)
  insert-From x p (q ∷ qs) h f =
      pick (From x) (leb p.t q.t) (λ e. (h, (leb→le _ _ e, f.1)))
        (λ e. (f.0, insert-From q.t p qs (leb→ge _ _ e) f.1))

  sort-From : (ps : List (Point F)) → From 0 (sort_by by_time ps)
  unfolding sort_by
  sort-From [] = tt
  sort-From (p ∷ ps) = insert-From 0 p (sort_by by_time ps) (omega arith) (sort-From ps)

module _ (n : Prices) where
  open n use {F}

  abbrev HasStart : ℕ → List (Candle F) → Type 0
  HasStart b [] = ⊥
  HasStart b (k ∷ ks) = (k.start ≡ b) ⊎ HasStart b ks

  upsert-HasStart : (b : ℕ) (v : F) (ks : List (Candle F)) → HasStart b (upsert n b v ks)
  unfolding upsert extend
  upsert-HasStart b v [] = inl refl
  upsert-HasStart b v (k ∷ ks) =
      pick (HasStart b) (k.start == b) (λ e. inl ((==_iff k.start b).0 e))
        (λ e. inr (upsert-HasStart b v ks))

  length-upsert :
      (b : ℕ) (v : F) (ks : List (Candle F)) → length (upsert n b v ks) ≤ suc (length ks)
  unfolding upsert
  length-upsert b v [] = omega arith
  length-upsert b v (k ∷ ks) = ground (arith, length-upsert b v ks)

  length-upsert_again :
      (b : ℕ) (v : F) (ks : List (Candle F)) → HasStart b ks → length (upsert n b v ks) ≡ length ks
  unfolding upsert
  length-upsert_again b v [] h = absurd h
  length-upsert_again b v (k ∷ ks) (inl e) = rw ((==_iff k.start b).1 e) refl
  length-upsert_again b v (k ∷ ks) (inr h) =
      pick (λ (l : List (Candle F)). length l ≡ suc (length ks)) (k.start == b) (λ e. refl)
        (λ e. ap suc (length-upsert_again b v ks h))

  length-fill :
      (ms x : ℕ) (ps : List (Point F)) (ks : List (Candle F))
      → 0 < ms
      → HasStart (x / ms * ms) ks
      → From x ps
      → length (fill n ms ps ks) + x / ms ≤ length ks + last_t x ps / ms
  unfolding fill
  length-fill ms x [] ks h k f = omega arith
  length-fill ms x (p ∷ ps) ks h k f =
      let next = upsert n (bucket_of n ms p) p.v ks in
      let ih = length-fill ms p.t ps next h (upsert-HasStart (p.t / ms * ms) p.v ks) f.1 in
      elim (ℕ_discrete (x / ms) (p.t / ms)) [
        | yes same ↦
            let again =
              length-upsert_again (p.t / ms * ms) p.v ks
                (subst (λ d. HasStart (d * ms) ks) same k) in
            omega arith
        | no moved ↦ omega (arith, length-upsert (p.t / ms * ms) p.v ks, div_mono x p.t ms h f.0)
      ]

  history :
      (ps : List (Point F))
      → From 0 ps
      → (ks : List (Candle F)) × (in_timeframe n ps none ≡ some ks) × (length ks ≤ 97)
  unfolding bucket_points fill
  history [] f = ([], refl, omega arith)
  history (p ∷ ps) f =
      let last = last_t p.t ps in
      let (ms, found, above, fits) =
        widen-total (last - p.t) (last - p.t) minute_ms (omega arith) (omega arith) in
      let first = upsert n (bucket_of n ms p) p.v [] in
      let filled =
        length-fill ms p.t ps first (omega arith) (upsert-HasStart (p.t / ms * ms) p.v []) f.1 in
      let one = length-upsert (p.t / ms * ms) p.v [] in
      let near = div_near p.t last ms (omega arith) (omega arith) in
      (
        bucket_points n (p ∷ ps) ms,
        ap (widened n (p ∷ ps)) found,
        omega (arith, length-sort_by (λ (k : Candle F). k.start) (fill n ms ps first)),
      )

  -- Whatever the trades, building the candles of the whole history ends, and they are at most 97.
  pub all_time_candles :
      (trades : List CurveTrade) (dec : ℕ) (price_unit : PriceUnit) (sol_usd : Option F)
      → (ks : List (Candle F)) × (build_curve_candles n trades dec all_time price_unit sol_usd
          ≡ some ks)
        × (length ks ≤ 97)
  unfolding build_curve_candles points_of
  all_time_candles trades dec price_unit sol_usd = history _ (sort-From _)
