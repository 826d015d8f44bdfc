-- ===== src/Swap/Decimal.antt =====
-- `parseAmountToRaw`, `formatRawAmount` and `parseSlippageBps`: decimal texts and raw amounts. A text
-- is the list of its code points.
use hubconnect.Base.{
  ℕ, zero, suc, ◌+◌, ◌-◌, ◌/◌, ◌%◌, Bool, false, ◌&&◌, ◌||◌, Option, none, some, List, [], ◌∷◌,
  ◌++◌, leb, ltb, ◌==◌, length, take, drop, replicate, if◌then◌else◌,
}
use hubconnect.Swap.Amount.{all_digits, validate_digits}

-- The two parts of a text at its first dot, the second up to the next dot.
abbrev pub before_dot : List ℕ → List ℕ
before_dot [] = []
before_dot (c ∷ cs) = if c == 46 then [] else c ∷ before_dot cs

abbrev pub rest_after_dot : List ℕ → List ℕ
rest_after_dot [] = []
rest_after_dot (c ∷ cs) = if c == 46 then cs else rest_after_dot cs

-- /^(?:[0-9]+(?:\.[0-9]*)?|\.[0-9]+)$/
abbrev pub is_plain : List ℕ → Bool
is_plain cs =
    all_digits (before_dot cs)
    && all_digits (rest_after_dot cs)
    && (leb 1 (length (before_dot cs)) || leb 1 (length (rest_after_dot cs)))

abbrev pub end_with : ℕ → List ℕ → List ℕ
end_with c [] = if c == 48 then [] else c ∷ []
end_with c (d ∷ ds) = c ∷ d ∷ ds

-- `replace(/0+$/, "")` and `replace(/^0+/, "")`
abbrev pub strip_end : List ℕ → List ℕ
strip_end [] = []
strip_end (c ∷ cs) = end_with c (strip_end cs)

abbrev pub strip_start : List ℕ → List ℕ
strip_start [] = []
strip_start (c ∷ cs) = if c == 48 then strip_start cs else c ∷ cs

abbrev pub pad_end : List ℕ → ℕ → List ℕ
pad_end cs n = cs ++ replicate (n - length cs) 48

abbrev pub pad_start : List ℕ → ℕ → List ℕ
pad_start cs n = replicate (n - length cs) 48 ++ cs

abbrev pub or_zero_text : List ℕ → List ℕ
or_zero_text [] = 48 ∷ []
or_zero_text (c ∷ cs) = c ∷ cs

-- `none` is the error.
unfoldable pub parse_amount_to_raw : List ℕ → ℕ → Option ℕ
parse_amount_to_raw value decimals =
    let sig = strip_end (before_dot (rest_after_dot value)) in
    if is_plain value
    then (if ltb decimals (length sig)
        then none
        else validate_digits
            (or_zero_text (strip_start (or_zero_text (before_dot value) ++ pad_end sig decimals)))
            false)
    else none

-- `toString` of a `bigint` that is not negative, on fuel: the digits of `v` before those of `acc`.
abbrev pub digits_from : ℕ → ℕ → List ℕ → List ℕ
digits_from zero v acc = acc
digits_from (suc fuel) v acc =
    let rest = digits_from fuel (v / 10) ((48 + v % 10) ∷ acc) in
    if ltb v 10 then (48 + v % 10) ∷ acc else rest

unfoldable pub decimal_text : ℕ → List ℕ
decimal_text v = digits_from (suc v) v []

abbrev pub with_fraction : List ℕ → List ℕ → List ℕ
with_fraction whole [] = whole
with_fraction whole (c ∷ cs) = whole ++ 46 ∷ c ∷ cs

unfoldable pub format_raw_amount : ℕ → ℕ → List ℕ
format_raw_amount v decimals =
    let digits = pad_start (decimal_text v) (decimals + 1) in
    let cut = length digits - decimals in
    if decimals == 0 then digits else with_fraction (take cut digits) (strip_end (drop cut digits))

abbrev up_to_half : Option ℕ → Option ℕ
up_to_half none = none
up_to_half (some b) = if ltb 5_000 b then none else some b

unfoldable pub parse_slippage_bps : List ℕ → Option ℕ
parse_slippage_bps pct = up_to_half (parse_amount_to_raw pct 2)
