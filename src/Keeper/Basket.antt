-- ===== src/Keeper/Basket.antt =====
-- keeper/sweeper/src/basketConsolidation.ts: one round of claims turned into the four basket tokens.
use hubconnect.Base.{
  ℕ, zero, suc, sym, ◌∙◌, ◌+◌, ◌/◌, ◌≤◌, ◌<◌, ◌≡◌, refl, ap, Bool, true, false, ◌||◌, Option, none,
  some, List, [], ◌∷◌, ◌++◌, ltb, ◌==◌, All, arith, if◌then◌else◌, Bool-cases, inl, inr,
}
use mathlib.Core.List.{append-nil, append_assoc}
use hubconnect.Base.Int.{ℤ, pos, negsuc}
use hubconnect.Keeper.Numbers.{Floats}

pub data Bucket : Type 0 where
  otc crclx nvdax spcxx : Bucket

pub data RotationStock : Type 0 where
  stock_aapl stock_msft stock_nvda stock_amzn stock_crcl stock_spcx stock_anthropic stock_polymarket
        stock_kalshi stock_neuralink stock_otc stock_anduril stock_openai :
      RotationStock

abbrev pub rotation_stocks : List RotationStock
rotation_stocks =
    stock_aapl ∷ stock_msft ∷ stock_nvda ∷ stock_amzn ∷ stock_crcl ∷ stock_spcx ∷ stock_anthropic
    ∷ stock_polymarket ∷ stock_kalshi ∷ stock_neuralink ∷ stock_otc ∷ stock_anduril ∷ stock_openai
    ∷ []

abbrev pub native_bucket_stock : Bucket → RotationStock
native_bucket_stock otc = stock_otc
native_bucket_stock crclx = stock_crcl
native_bucket_stock nvdax = stock_nvda
native_bucket_stock spcxx = stock_spcx

-- The stocks that `native_bucket_stock` names.
abbrev pub is_native : RotationStock → Bool
is_native stock_otc = true
is_native stock_crcl = true
is_native stock_nvda = true
is_native stock_spcx = true
is_native _ = false

abbrev pub without_native : List RotationStock → List RotationStock
without_native [] = []
without_native (s ∷ ss) = let rest = without_native ss in if is_native s then rest else s ∷ rest

abbrev pub swap_stocks : List RotationStock
swap_stocks = without_native rotation_stocks

without_native-All : (ss : List RotationStock) → All (λ s. is_native s ≡ false) (without_native ss)
without_native-All [] = tt
without_native-All (s ∷ ss) = elim (Bool-cases (is_native s)) [
  | inl e ↦ rw e (without_native-All ss)
  | inr e ↦ rw e (e, without_native-All ss)
]

-- A swap of a stock for SOL.
pub record StockSwap : Type 0 where
  pub stock : RotationStock
  pub units_in : ℕ
  pub sol_out : ℕ

pub record Tally : Type 0 where
  pub swaps : List StockSwap
  pub total_sol : ℕ

pub record ConsolidationPlan : Type 0 where
  pub pass_through : Bucket → ℕ
  pub stock_to_sol : List StockSwap
  pub total : ℕ
  pub bucket_sol : Bucket → ℕ

abbrev pub sum_sol : List StockSwap → ℕ
sum_sol [] = 0
sum_sol (x ∷ xs) = x.sol_out + sum_sol xs

sum_sol-append :
    (xs : List StockSwap) (x : StockSwap) → sum_sol (xs ++ x ∷ []) ≡ sum_sol xs + x.sol_out
sum_sol-append [] x = omega arith
sum_sol-append (y ∷ ys) x = omega (arith, sum_sol-append ys x)

All-append :
    (P : StockSwap → Type 0) (xs : List StockSwap) (x : StockSwap)
    → All P xs
    → P x
    → All P (xs ++ x ∷ [])
All-append P [] x a p = (p, tt)
All-append P (y ∷ ys) x (q, a) p = (q, All-append P ys x a p)

module _ (floats : Floats) where
  open floats use {F, of_ℕ, mul, floor}

  pub record StockBalance : Type 0 where
    pub units : ℕ
    pub lamports_per_unit : F

  -- The SOL for a stock is added up if there is any.
  unfoldable pub add_swap : RotationStock → ℕ → ℤ → Tally → Tally
  add_swap s units (pos sol) t = if sol == 0 then t else record {
    swaps = t.swaps ++ record { stock = s; units_in = units; sol_out = sol } ∷ [];
    total_sol = t.total_sol + sol;
  }
  add_swap s units (negsuc sol) t = t

  unfoldable pub tally_stock : RotationStock → Option StockBalance → Tally → Tally
  unfolding add_swap
  tally_stock s none t = t
  tally_stock s (some b) t =
      if b.units == 0
      then t
      else add_swap s b.units (floor (mul (of_ℕ b.units) b.lamports_per_unit)) t

  unfoldable pub tally_stocks :
      (RotationStock → Option StockBalance) → List RotationStock → Tally → Tally
  unfolding tally_stock
  tally_stocks balances [] t = t
  tally_stocks balances (s ∷ ss) t = tally_stocks balances ss (tally_stock s (balances s) t)

  abbrev pub units_of : Option StockBalance → ℕ
  units_of none = 0
  units_of (some b) = b.units

  unfoldable pub plan_basket_consolidation :
      (RotationStock → Option StockBalance) → ConsolidationPlan
  unfolding tally_stocks
  plan_basket_consolidation balances =
      let t : Tally = tally_stocks balances swap_stocks (record { swaps = []; total_sol = 0 }) in
      record {
        pass_through = λ b. units_of (balances (native_bucket_stock b));
        stock_to_sol = t.swaps;
        total = t.total_sol;
        bucket_sol = λ b. t.total_sol / 4;
      }

  -- What a balance is worth at its price, rounded down, and the sale of it if that is anything.
  abbrev pub worth : StockBalance → ℤ
  worth b = floor (mul (of_ℕ b.units) b.lamports_per_unit)

  abbrev pub sale : RotationStock → ℕ → ℤ → List StockSwap
  sale s units (negsuc sol) = []
  sale s units (pos zero) = []
  sale s units (pos (suc k)) = record { stock = s; units_in = units; sol_out = suc k } ∷ []

  abbrev pub sale_of : RotationStock → Option StockBalance → List StockSwap
  sale_of s none = []
  sale_of s (some b) = if b.units == 0 then [] else sale s b.units (worth b)

  abbrev pub sales : (RotationStock → Option StockBalance) → List RotationStock → List StockSwap
  sales balances [] = []
  sales balances (s ∷ ss) = sale_of s (balances s) ++ sales balances ss

  -- A swap of a claimed stock that is not in the basket, in full and for some SOL.
  pub record IsSwap (balances : RotationStock → Option StockBalance) (x : StockSwap) : Type 0 where
    pub foreign : is_native x.stock ≡ false
    pub in_full : units_of (balances x.stock) ≡ x.units_in
    pub some_units : 0 < x.units_in
    pub some_sol : 0 < x.sol_out

  module _ (balances : RotationStock → Option StockBalance) where
    abbrev IsTallied : Tally → Type 0
    IsTallied t = (t.total_sol ≡ sum_sol t.swaps) × All (IsSwap balances) t.swaps

    add_swap-IsTallied :
        (s : RotationStock) (units : ℕ) (sol : ℤ) (t : Tally)
        → is_native s ≡ false
        → units_of (balances s) ≡ units
        → 0 < units
        → IsTallied t
        → IsTallied (add_swap s units sol t)
    unfolding add_swap
    add_swap-IsTallied s units (negsuc sol) t f e p k = k
    add_swap-IsTallied s units (pos sol) t f e p (k, a) = elim (Bool-cases (sol == 0)) [
      | inl z ↦ rw z (k, a)
      | inr z ↦ rw z (
        rw (sum_sol-append t.swaps (record { stock = s; units_in = units; sol_out = sol }))
            (omega arith),
        All-append (IsSwap balances) t.swaps _ a
            (record { foreign = f; in_full = e; some_units = p; some_sol = ground arith }),
      )
    ]

    tally_stock-IsTallied :
        (s : RotationStock) (o : Option StockBalance) (t : Tally)
        → is_native s ≡ false
        → balances s ≡ o
        → IsTallied t
        → IsTallied (tally_stock s o t)
    unfolding tally_stock
    tally_stock-IsTallied s none t f e k = k
    tally_stock-IsTallied s (some b) t f e k = elim (Bool-cases (b.units == 0)) [
      | inl z ↦ rw z k
      | inr z ↦ rw z (
          add_swap-IsTallied s b.units (floor (mul (of_ℕ b.units) b.lamports_per_unit)) t f
            (ap units_of e) (ground arith) k)
    ]

    tally_stocks-IsTallied :
        (ss : List RotationStock) (t : Tally)
        → All (λ s. is_native s ≡ false) ss
        → IsTallied t
        → IsTallied (tally_stocks balances ss t)
    unfolding tally_stocks
    tally_stocks-IsTallied [] t a k = k
    tally_stocks-IsTallied (s ∷ ss) t (f, a) k =
        tally_stocks-IsTallied ss (tally_stock s (balances s) t) a
          (tally_stock-IsTallied s (balances s) t f refl k)

    add_swap-sale :
        (s : RotationStock) (units : ℕ) (sol : ℤ) (t : Tally)
        → (add_swap s units sol t).swaps ≡ t.swaps ++ sale s units sol
    unfolding add_swap
    add_swap-sale s units (negsuc sol) t = sym (append-nil t.swaps)
    add_swap-sale s units (pos zero) t = sym (append-nil t.swaps)
    add_swap-sale s units (pos (suc k)) t = let z : (suc k == 0) ≡ false = ground arith in rw z refl

    tally_stock-sale :
        (s : RotationStock) (o : Option StockBalance) (t : Tally)
        → (tally_stock s o t).swaps ≡ t.swaps ++ sale_of s o
    unfolding tally_stock
    tally_stock-sale s none t = sym (append-nil t.swaps)
    tally_stock-sale s (some b) t = elim (Bool-cases (b.units == 0)) [
      | inl z ↦ rw z (sym (append-nil t.swaps))
      | inr z ↦ rw z (add_swap-sale s b.units (worth b) t)
    ]

    tally_stocks-sales :
        (ss : List RotationStock) (t : Tally)
        → (tally_stocks balances ss t).swaps ≡ t.swaps ++ sales balances ss
    unfolding tally_stocks
    tally_stocks-sales [] t = sym (append-nil t.swaps)
    tally_stocks-sales (s ∷ ss) t =
        tally_stocks-sales ss (tally_stock s (balances s) t)
        ∙ ap (λ xs. xs ++ sales balances ss) (tally_stock-sale s (balances s) t)
        ∙ append_assoc t.swaps (sale_of s (balances s)) (sales balances ss)

    -- The plan's swaps are exactly the sales of the stocks outside the basket: of each that is claimed and
    -- worth at least one lamport, in the order of the list, in full and for what it is worth, rounded
    -- down. Its total is the sum of what they bring; the four buckets get the same share of it, and
    -- together leave less than four lamports.
    pub plan_basket_consolidation-IsSwap :
        let plan = plan_basket_consolidation balances in
        let share = plan.bucket_sol otc in
        (plan.stock_to_sol ≡ sales balances swap_stocks)
        × All (IsSwap balances) plan.stock_to_sol
        × (plan.total ≡ sum_sol plan.stock_to_sol)
        × (plan.bucket_sol crclx ≡ share)
        × (plan.bucket_sol nvdax ≡ share)
        × (plan.bucket_sol spcxx ≡ share)
        × (share + share + share + share ≤ plan.total)
        × (plan.total < share + share + share + share + 4)
    unfolding plan_basket_consolidation
    plan_basket_consolidation-IsSwap =
        let (k, a) =
          tally_stocks-IsTallied swap_stocks (record { swaps = []; total_sol = 0 })
            (without_native-All rotation_stocks) (refl, tt) in
        (
          tally_stocks-sales swap_stocks (record { swaps = []; total_sol = 0 }),
          a,
          k,
          refl,
          refl,
          refl,
          omega arith,
          omega arith,
        )

  unfoldable pub has_anything_to_fund : ConsolidationPlan → Bool
  has_anything_to_fund plan =
      ltb 0 (plan.pass_through otc)
      || ltb 0 (plan.pass_through crclx)
      || ltb 0 (plan.pass_through nvdax)
      || ltb 0 (plan.pass_through spcxx)
      || ltb 0 plan.total
