-- ===== src/Web/Candles.antt =====
-- web/src/hub/lib/curveCandles.ts: the candles of a curve's trades.
pub mod Count
use hubconnect.Base.{
  ℕ, zero, suc, ◌+◌, ◌-◌, ◌*◌, ◌/◌, ◌^◌, ◌≡◌, Bool, true, false, ltb, leb, ◌==◌, if◌then◌else◌,
  Option, none, some, List, [], ◌∷◌,
}

-- JavaScript's numbers as prices. The two laws hold of `>` on all of them, NaN and infinities too.
pub record Prices : Type 1 where
  pub F : Type 0
  pub of_ℕ : ℕ → F
  pub mul : F → F → F
  pub div : F → F → F
  pub gt : F → F → Bool
  pub gt_irreflexive : (a : F) → gt a a ≡ false
  pub gt_trans : (a b c : F) → gt a b ≡ true → gt b c ≡ true → gt a c ≡ true

-- What the candles read of a trade; the amounts are those that its texts stand for.
pub record CurveTrade : Type 0 where
  pub ts : ℕ
  pub sol_lamports : ℕ
  pub hub_units : ℕ

pub data CandleTf : Type 0 where
  minute five_minutes quarter hour all_time : CandleTf

pub data PriceUnit : Type 0 where
  sol usd : PriceUnit

abbrev pub minute_ms : ℕ
minute_ms = 60_000

abbrev pub most_candles : ℕ
most_candles = 96

-- `while (span / ms > 96) ms *= 2`, on fuel; `none` means that the fuel ran out.
unfoldable pub widen : ℕ → ℕ → ℕ → Option ℕ
widen zero span ms = none
widen (suc fuel) span ms =
    let rest = widen fuel span (ms * 2) in if ltb (most_candles * ms) span then rest else some ms

pub record Point (F : Type 0) : Type 0 where
  pub t : ℕ
  pub v : F

pub record Candle (F : Type 0) : Type 0 where
  pub start : ℕ
  pub o : F
  pub h : F
  pub l : F
  pub c : F

-- `Array.sort` is stable: what is inserted stands before its equals.
abbrev pub insert_by : {A : Type 0} → (A → ℕ) → A → List A → List A
insert_by key a [] = a ∷ []
insert_by key a (b ∷ bs) = if leb (key a) (key b) then a ∷ b ∷ bs else b ∷ insert_by key a bs

unfoldable pub sort_by : {A : Type 0} → (A → ℕ) → List A → List A
sort_by key [] = []
sort_by key (a ∷ as_) = insert_by key a (sort_by key as_)

abbrev pub timeframe : CandleTf → Option ℕ
timeframe minute = some minute_ms
timeframe five_minutes = some (5 * minute_ms)
timeframe quarter = some (15 * minute_ms)
timeframe hour = some 3_600_000
timeframe all_time = none

abbrev pub last_t : {F : Type 0} → ℕ → List (Point F) → ℕ
last_t x [] = x
last_t x (p ∷ ps) = last_t p.t ps

module _ (n : Prices) where
  open n use {F, of_ℕ, mul, div, gt}

  unfoldable pub trade_price_sol : CurveTrade → ℕ → F
  trade_price_sol trade dec =
      let sol_part = div (of_ℕ trade.sol_lamports) (of_ℕ 1_000_000_000) in
      let hub_part = div (of_ℕ trade.hub_units) (of_ℕ (10 ^ dec)) in
      if gt hub_part (of_ℕ 0) then div sol_part hub_part else of_ℕ 0

  unfoldable pub extend : F → Candle F → Candle F
  extend v k = record {
    start = k.start;
    o = k.o;
    h = if gt v k.h then v else k.h;
    l = if gt k.l v then v else k.l;
    c = v;
  }

  abbrev pub fresh : ℕ → F → Candle F
  fresh b v = record { start = b; o = v; h = v; l = v; c = v }

  -- The map of buckets, in the order in which they were first set.
  unfoldable pub upsert : ℕ → F → List (Candle F) → List (Candle F)
  upsert b v [] = fresh b v ∷ []
  upsert b v (k ∷ ks) = if k.start == b then extend v k ∷ ks else k ∷ upsert b v ks

  abbrev pub bucket_of : ℕ → Point F → ℕ
  bucket_of ms p = p.t / ms * ms

  unfoldable pub fill : ℕ → List (Point F) → List (Candle F) → List (Candle F)
  fill ms [] ks = ks
  fill ms (p ∷ ps) ks = fill ms ps (upsert (bucket_of ms p) p.v ks)

  unfoldable pub bucket_points : List (Point F) → ℕ → List (Candle F)
  bucket_points ps ms = sort_by (λ k. k.start) (fill ms ps [])

  abbrev pub scale_of : PriceUnit → Option F → F
  scale_of usd (some rate) = rate
  scale_of usd none = of_ℕ 1
  scale_of sol _ = of_ℕ 1

  abbrev pub priced : F → ℕ → List CurveTrade → List (Point F)
  priced scale dec [] = []
  priced scale dec (trade ∷ ts) =
      let p : Point F = record { t = trade.ts; v = mul (trade_price_sol trade dec) scale } in
      let rest = priced scale dec ts in if gt p.v (of_ℕ 0) then p ∷ rest else rest

  -- The points of the trades, the earliest first.
  unfoldable pub points_of : List CurveTrade → ℕ → PriceUnit → Option F → List (Point F)
  points_of trades dec price_unit sol_usd =
      sort_by (λ p. p.t) (priced (scale_of price_unit sol_usd) dec trades)

  abbrev pub widened : List (Point F) → Option ℕ → Option (List (Candle F))
  widened ps none = none
  widened ps (some ms) = some (bucket_points ps ms)

  abbrev pub in_timeframe : List (Point F) → Option ℕ → Option (List (Candle F))
  in_timeframe [] tf = some []
  in_timeframe (p ∷ ps) (some ms) = some (bucket_points (p ∷ ps) ms)
  in_timeframe (p ∷ ps) none =
      let span = last_t p.t ps - p.t in widened (p ∷ ps) (widen (suc span) span minute_ms)

  -- The whole function; `none` is a loop that ran out of its fuel, the span of the trades.
  unfoldable pub build_curve_candles :
      List CurveTrade → ℕ → CandleTf → PriceUnit → Option F → Option (List (Candle F))
  build_curve_candles trades dec tf price_unit sol_usd =
      in_timeframe (points_of trades dec price_unit sol_usd) (timeframe tf)
