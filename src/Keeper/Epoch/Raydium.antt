-- ===== src/Keeper/Epoch/Raydium.antt =====
-- keeper/keeper/src/raydium.ts: the second hop of the buyback, USDC to $HUB. Keys are their base-58
-- text.
use native.Mathlib.Nat.{mul-add, mul-le-mul_left, mul-le-mul_right, div-lt_iff_lt-mul}
use hubconnect.Base.{
  sym, ap, ◌∙◌, eq-false, le→leb, ℕ, ◌+◌, ◌-◌, ◌*◌, ◌/◌, ◌≤◌, ◌<◌, ◌≡◌, refl, Bool, true, false,
  ◌==◌, ◌||◌, if◌then◌else◌, Option, none, some, List, [], ◌∷◌, String, arith,
}
use hubconnect.Base.Int.{ℤ, pos, pos_part, neg_part, sub_ℕ, ◌≤ℤ◌}
use hubconnect.Base.Division.{div_bounds, div-le_of_le_mul}

pub record AccountMeta : Type 0 where
  pub pubkey : String
  pub is_signer : Bool
  pub is_writable : Bool

abbrev ro : String → AccountMeta
ro key = record { pubkey = key; is_signer = false; is_writable = false }

abbrev rw_meta : String → AccountMeta
rw_meta key = record { pubkey = key; is_signer = false; is_writable = true }

abbrev pub usdc_mint : String
usdc_mint = "EPjFWdd5AufqSSqeM2qN1xzybapC8G4wEGGkZwyTDt1v"

abbrev token_program_id : String
token_program_id = "TokenkegQfeZyiNwAJbNbGKPFXCWuBvf9Ss623VQ5DA"

abbrev token_2022_program_id : String
token_2022_program_id = "TokenzQdBNbLqP5VEhdkAS6EPFLC1PHnBqCXEpPxuEb"

abbrev pool_state : String
pool_state = "BrconjFBxBxTHSJcE93tNteY7usiJQfYDt65SCyEbZmX"

abbrev amm_config : String
amm_config = "G95xxie3XbkCqtE39GgQ9Ggc7xBC8Uceve7HFDEFApkc"

abbrev pool_authority : String
pool_authority = "GpMZbSM2GgvTKHJirzeGfMFoaZ8UR2X7F4v8vHTvxFbL"

abbrev hub_vault : String
hub_vault = "3oJ1N54kT255VGDsjbXKcoutxi6ox1KLkdxcQjsSPRgb"

abbrev usdc_vault : String
usdc_vault = "CQQgaqqSRk15QZgY78SWaJWNzcMRkzeZB5EvLvkFmsdE"

abbrev observation_state : String
observation_state = "6s67NAWCGhpzQDsNizxvReo8nVyarM259FTDxb1Ft8Nu"

unfoldable pub hop2_swap_accounts : String → String → String → String → List AccountMeta
hop2_swap_accounts vault vault_usdc vault_hub hub_mint =
    ro vault
    ∷ ro pool_authority
    ∷ ro amm_config
    ∷ rw_meta pool_state
    ∷ rw_meta vault_usdc
    ∷ rw_meta vault_hub
    ∷ rw_meta usdc_vault
    ∷ rw_meta hub_vault
    ∷ ro token_program_id
    ∷ ro token_2022_program_id
    ∷ ro usdc_mint
    ∷ ro hub_mint
    ∷ rw_meta observation_state
    ∷ []

abbrev pub trade_fee_rate : ℕ
trade_fee_rate = 10_000

abbrev pub trade_fee_rate_denominator : ℕ
trade_fee_rate_denominator = 1_000_000

-- Division of a `bigint`, which drops the fraction on both sides of 0.
abbrev pub trunc_div : ℤ → ℕ → ℤ
trunc_div a d = sub_ℕ (pos_part a / d) (neg_part a / d)

abbrev pub scale : ℕ → ℤ → ℤ
scale k a = sub_ℕ (k * pos_part a) (k * neg_part a)

pub record HopQuote : Type 0 where
  pub out_amount : ℕ
  pub min_out : ℤ

unfoldable pub quote_of : ℕ → ℕ → ℕ → ℕ → HopQuote
quote_of reserve_in reserve_out amount_in slippage_bps =
    let after_fee =
      amount_in * (trade_fee_rate_denominator - trade_fee_rate) / trade_fee_rate_denominator in
    let out = reserve_out * after_fee / (reserve_in + after_fee) in
    record { out_amount = out; min_out = trunc_div (scale out (sub_ℕ 10_000 slippage_bps)) 10_000 }

abbrev checked_quote : Option ℕ → Option ℕ → ℕ → ℕ → Option HopQuote
checked_quote none out amount slip = none
checked_quote (some i) none amount slip = none
checked_quote (some i) (some o) amount slip =
    if i == 0 || o == 0 then none else some (quote_of i o amount slip)

-- `none` where `quoteHop2` throws. The reserves are the balances of the pool's vaults, `none` for a
-- read that throws.
unfoldable pub quote_hop2 : Option ℕ → Option ℕ → ℕ → ℕ → Option HopQuote
quote_hop2 reserve_in reserve_out amount_in slippage_bps =
    if amount_in == 0 then none else checked_quote reserve_in reserve_out amount_in slippage_bps

pub record RaydiumHop2Route : Type 0 where
  pub hop2_min_out : ℤ
  pub hop2_accounts : List AccountMeta
  pub hop2_out_amount : ℕ
  pub hop2_labels : List String

abbrev hop2_of : List AccountMeta → Option HopQuote → Option RaydiumHop2Route
hop2_of accounts none = none
hop2_of accounts (some q) = some (record {
  hop2_min_out = q.min_out;
  hop2_accounts = accounts;
  hop2_out_amount = q.out_amount;
  hop2_labels = "Raydium CP" ∷ [];
})

unfoldable pub fetch_hop2_route :
    Option ℕ → Option ℕ → String → String → String → String → ℕ → ℕ → Option RaydiumHop2Route
fetch_hop2_route reserve_in reserve_out vault vault_usdc vault_hub hub_mint amount_in slippage =
    hop2_of (hop2_swap_accounts vault vault_usdc vault_hub hub_mint)
      (quote_hop2 reserve_in reserve_out amount_in slippage)

product_kept :
    (i o f : ℕ)
    → 0 < i
    → 0 < o
    → let out = o * f / (i + f) in (out < o) × (i * o ≤ (i + f) * (o - out))
product_kept i o f hi ho =
    let out = o * f / (i + f) in
    let b = div_bounds (o * f) (i + f) (omega arith) in
    let under : out < o = (div-lt_iff_lt-mul {k = i + f} (omega arith)).1 (grind arith) in
    let rest : (i + f) * (o - out) + (i + f) * out ≡ (i + f) * o =
      sym (mul-add (i + f) (o - out) out) ∙ ap (λ n. (i + f) * n) (omega arith) in
    (under, grind arith)

kept_part : (out s : ℕ) → s ≤ 10_000 → out * (10_000 - s) / 10_000 ≤ out
kept_part out s h =
    div-le_of_le_mul (out * (10_000 - s)) 10_000 out (omega arith)
      (mul-le-mul_left out (omega arith))

min_out_of :
    (out s : ℕ)
    → s ≤ 10_000
    → trunc_div (scale out (sub_ℕ 10_000 s)) 10_000 ≡ pos (out * (10_000 - s) / 10_000)
min_out_of out s h = rw (le→leb s 10_000 h) (ground arith)

-- Against non-empty reserves a positive amount is always quoted. The quote leaves some of the
-- reserve, the product of the reserves does not fall by it, and with a slippage of at most 100% the
-- least output lies between 0 and the expected one.
quote_hop2-IsFair :
    (reserve_in reserve_out amount_in slippage : ℕ)
    → 0 < reserve_in
    → 0 < reserve_out
    → 0 < amount_in
    → slippage ≤ 10_000
    → (q : HopQuote) × (quote_hop2 (some reserve_in) (some reserve_out) amount_in slippage ≡ some q)
      × (q.out_amount < reserve_out)
      × (reserve_in * reserve_out ≤ (reserve_in + amount_in) * (reserve_out - q.out_amount))
      × (pos 0 ≤ℤ q.min_out)
      × (q.min_out ≤ℤ pos q.out_amount)
unfolding quote_hop2 quote_of
quote_hop2-IsFair i o a s hi ho ha hs =
    let f = a * 990_000 / 1_000_000 in
    let out = o * f / (i + f) in
    let less : f ≤ a = omega arith in
    let kept = product_kept i o f hi ho in
    let wider = mul-le-mul_right {m = i + f} {n = i + a} (o - out) (omega arith) in
    (
      quote_of i o a s,
      rw (eq-false a 0 (omega arith), eq-false i 0 (omega arith), eq-false o 0 (omega arith)) refl,
      kept.0,
      omega arith,
      rw (min_out_of out s hs) (omega arith),
      rw (min_out_of out s hs) (omega (arith, kept_part out s hs)),
    )
