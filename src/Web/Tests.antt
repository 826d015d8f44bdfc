-- ===== src/Web/Tests.antt =====
-- Candles of trades whose prices are natural numbers, and trades with a pool.
use text.Mathlib.Text.{◌==◌ as str_eq}
use hubconnect.Base.{
  ℕ, ◌*◌, ◌/◌, ◌≤◌, ◌≡◌, refl, true, false, ltb, none, some, List, [], ◌∷◌, length, arith, Option,
  String, if◌then◌else◌,
}
use hubconnect.Web.CpSwap.{
  buy, CpSwapReserves, quote_cp_swap, fetch_cp_swap_reserves, reserve_out, derive_cp_swap_pool_keys,
}
use hubconnect.Web.CpSwap.Loss.{round_trip_bounded, traded, reverse}
use hubconnect.Web.Candles.{
  Prices, CurveTrade, all_time, sol, Point, Candle, bucket_points, build_curve_candles, sort_by,
  fill, upsert, extend,
}
use hubconnect.Web.Candles.Count.{all_time_candles}

above_irreflexive : (a : ℕ) → ltb a a ≡ false
above_irreflexive a = ground arith

above_trans : (a b c : ℕ) → ltb b a ≡ true → ltb c b ≡ true → ltb c a ≡ true
above_trans a b c p q = ground arith

abbrev naturals : Prices
naturals = record {
  F = ℕ;
  of_ℕ = λ n. n;
  mul = λ a b. a * b;
  div = λ a b. a / b;
  gt = λ a b. ltb b a;
  gt_irreflexive = above_irreflexive;
  gt_trans = above_trans;
}

abbrev points : List (Point ℕ)
points =
    record { t = 1_000; v = 5 }
    ∷ record { t = 2_000; v = 9 }
    ∷ record { t = 61_000; v = 3 }
    ∷ record { t = 3_000; v = 4 }
    ∷ []

two_candles :
    bucket_points naturals points 60_000
    ≡ record { start = 0; o = 5; h = 9; l = 4; c = 4 }
      ∷ record { start = 60_000; o = 3; h = 3; l = 3; c = 3 }
      ∷ []
unfolding bucket_points sort_by fill upsert extend
two_candles = refl

abbrev trades : List CurveTrade
trades =
    record { ts = 50_000_000; sol_lamports = 4_000_000_000; hub_units = 2 }
    ∷ record { ts = 1_000; sol_lamports = 6_000_000_000; hub_units = 2 }
    ∷ []

all_time_candles_example :
    (ks : List (Candle ℕ)) × (build_curve_candles naturals trades 0 all_time sol none ≡ some ks)
    × (length ks ≤ 97)
all_time_candles_example = all_time_candles naturals trades 0 sol none

abbrev pool : CpSwapReserves
pool = record { hub_reserve = 1_000_000; sol_reserve = 50_000 }

bought_from_pool : quote_cp_swap buy 10_000 pool ≡ 166_319
unfolding quote_cp_swap
bought_from_pool = refl

empty_pool : quote_cp_swap buy 10_000 (record { hub_reserve = 0; sol_reserve = 50_000 }) ≡ 0
unfolding quote_cp_swap
empty_pool = refl

-- Addresses that are the last key they are derived from.
abbrev last_key : String → List String → String
last_key s [] = s
last_key s (k ∷ ks) = last_key k ks

abbrev balance : String → Option ℕ
balance v = if str_eq v "hub" then some 7 else some 3

-- The key of wrapped SOL is the first.
sol_first :
    fetch_cp_swap_reserves balance (derive_cp_swap_pool_keys (λ a b. false) last_key "hub") "hub"
    ≡ record { hub_reserve = 7; sol_reserve = 3 }
unfolding fetch_cp_swap_reserves derive_cp_swap_pool_keys
sol_first = refl

round_trip_bounded_example :
    (166_319 ≤ reserve_out buy pool)
    × (quote_cp_swap (reverse buy) 166_319 (traded buy 10_000 166_319 pool) ≤ 10_000)
unfolding quote_cp_swap
round_trip_bounded_example = round_trip_bounded buy 10_000 pool
