-- ===== src/Swap/RoundTrip.antt =====
-- Formatting an amount and parsing it.
use native.Mathlib.Nat.{mul_assoc, mul-le-mul_right}
use mathlib.Core.List.{append-nil}
use native.Mathlib.Omega.{pow_step}
use hubconnect.Base.{
  ℕ, zero, suc, ◌+◌, ◌-◌, ◌*◌, ◌^◌, ◌≤◌, ◌≡◌, refl, ap, sym, subst, ◌∙◌, inl, inr, true, false,
  some, List, [], ◌∷◌, ◌++◌, ltb, ltb→lt, ltb→ge, le→leb, ◌==◌, ==_iff, length, take, drop,
  replicate, length-append, length-replicate, length-drop, length-take, take-append-drop, arith,
  pick, Bool-cases,
}
use hubconnect.Swap.Amount.{is_digit, all_digits, value_from, u64_max, validate_digits}
use hubconnect.Swap.Decimal.{
  before_dot, rest_after_dot, strip_end, strip_start, pad_end, pad_start, or_zero_text,
  decimal_text, with_fraction, parse_amount_to_raw, format_raw_amount,
}
use hubconnect.Swap.Digits.{
  and_parts, and_both, value_from-append, all_digits-append, all_digits-zeros, value_from-zeros,
  value_from-strip_start, digits_from-value, digits_from-digits, strip_end-pad, length-strip_end,
  strip_end_twice, all_digits-strip_end, before_dot-digits, rest_after_dot-digits,
  before_dot-append, rest_after_dot-append,
}

all_digits-take : (n : ℕ) (xs : List ℕ) → all_digits xs ≡ true → all_digits (take n xs) ≡ true
all_digits-take zero xs h = refl
all_digits-take (suc n) [] h = refl
all_digits-take (suc n) (x ∷ xs) h =
    let parts = and_parts (is_digit x) (all_digits xs) h in
    and_both (is_digit x) (all_digits (take n xs)) parts.0 (all_digits-take n xs parts.1)

all_digits-drop : (n : ℕ) (xs : List ℕ) → all_digits xs ≡ true → all_digits (drop n xs) ≡ true
all_digits-drop zero xs h = h
all_digits-drop (suc n) [] h = refl
all_digits-drop (suc n) (x ∷ xs) h =
    all_digits-drop n xs (and_parts (is_digit x) (all_digits xs) h).1

all_digits-strip_start : (xs : List ℕ) → all_digits xs ≡ true → all_digits (strip_start xs) ≡ true
all_digits-strip_start [] h = refl
all_digits-strip_start (x ∷ xs) h =
    pick (λ l. all_digits l ≡ true) (x == 48)
      (λ e. all_digits-strip_start xs (and_parts (is_digit x) (all_digits xs) h).1) (λ e. h)

-- Each digit multiplies what stands before it by ten.
value_from-grows : (k n : ℕ) (xs : List ℕ) → k ≤ length xs → n * 10 ^ k ≤ value_from n xs
value_from-grows zero n [] h = omega arith
value_from-grows zero n (x ∷ xs) h =
    omega (arith, value_from-grows zero (n * 10 + (x - 48)) xs (omega arith))
value_from-grows (suc k) n [] h = absurd (omega arith)
value_from-grows (suc k) n (x ∷ xs) h =
    let ih = value_from-grows k (n * 10 + (x - 48)) xs (omega arith) in
    let step : n * 10 ^ suc k ≡ n * 10 * 10 ^ k =
      rw (pow_step 10 k) (sym (mul_assoc n 10 (10 ^ k))) in
    let more = mul-le-mul_right {m = n * 10} {n = n * 10 + (x - 48)} (10 ^ k) (omega arith) in
    omega arith

leading :
    (x : ℕ) (xs : List ℕ)
    → is_digit x ≡ true
    → (x == 48) ≡ false
    → value_from (0 * 10 + (x - 48)) xs ≤ u64_max
    → length (x ∷ xs) ≤ 20
leading x xs d e v = elim (Bool-cases (ltb 20 (length (x ∷ xs)))) [
  | inl long ↦
      let more = ltb→lt 20 (length (x ∷ xs)) long in
      let grown = value_from-grows 20 (0 * 10 + (x - 48)) xs (omega arith) in
      let positive : 1 ≤ x - 48 = ground arith in absurd (omega arith)
  | inr short ↦ ltb→ge 20 (length (x ∷ xs)) short
]

-- Without leading zeros a number of 64 bits has at most 20 digits.
strip_start-short :
    (xs : List ℕ) → all_digits xs ≡ true → value_from 0 xs ≤ u64_max → length (strip_start xs) ≤ 20
strip_start-short [] h v = omega arith
strip_start-short (x ∷ xs) h v = elim (Bool-cases (x == 48)) [
  | inl e ↦ rw e (
      strip_start-short xs (and_parts (is_digit x) (all_digits xs) h).1
        (subst (λ c. value_from (0 * 10 + (c - 48)) xs ≤ u64_max) ((==_iff x 48).0 e) v))
  | inr e ↦ rw e (leading x xs (and_parts (is_digit x) (all_digits xs) h).0 e v)
]

below : (n : ℕ) → n ≤ u64_max → ltb u64_max n ≡ false
below n h = ground arith

validate_digits_ok :
    (cs : List ℕ)
    → all_digits cs ≡ true
    → 1 ≤ length cs
    → length cs ≤ 20
    → value_from 0 cs ≤ u64_max
    → validate_digits cs false ≡ some (value_from 0 cs)
unfolding validate_digits
validate_digits_ok cs h l m v =
    rw (h, le→leb _ _ l, le→leb _ _ m) (rw (below (value_from 0 cs) v) refl)

put_back :
    (cs : List ℕ) (n : ℕ)
    → all_digits cs ≡ true
    → value_from 0 cs ≡ n
    → length cs ≤ 20
    → n ≤ u64_max
    → validate_digits (or_zero_text cs) false ≡ some n
unfolding validate_digits
put_back [] n h e l v = ap some e
put_back (c ∷ cs) n h e l v =
    validate_digits_ok (c ∷ cs) h (omega arith) l (omega arith) ∙ ap some e

not_above : (d n : ℕ) → n ≤ d → ltb d n ≡ false
not_above d n h = ground arith

or_zero_text_long : (cs : List ℕ) → 1 ≤ length cs → or_zero_text cs ≡ cs
or_zero_text_long [] h = absurd (omega arith)
or_zero_text_long (c ∷ cs) h = refl

-- What is checked of the digits without their leading zeros, a lone zero put back, is their value.
stripped_ok :
    (cs : List ℕ)
    → all_digits cs ≡ true
    → value_from 0 cs ≤ u64_max
    → validate_digits (or_zero_text (strip_start cs)) false ≡ some (value_from 0 cs)
stripped_ok cs h v =
    put_back (strip_start cs) (value_from 0 cs) (all_digits-strip_start cs h)
      (value_from-strip_start cs) (strip_start-short cs h v) v

-- A text in two parts of digits, the second without its last zeros, is parsed as all the digits.
parse_parts :
    (value w f : List ℕ) (d : ℕ)
    → before_dot value ≡ w
    → rest_after_dot value ≡ strip_end f
    → all_digits w ≡ true
    → 1 ≤ length w
    → all_digits f ≡ true
    → length f ≡ d
    → value_from 0 (w ++ f) ≤ u64_max
    → parse_amount_to_raw value d ≡ some (value_from 0 (w ++ f))
unfolding parse_amount_to_raw
parse_parts value w f d bw rf hw lw hf lf v =
    let hs = all_digits-strip_end f hf in
    let sig : strip_end (before_dot (strip_end f)) ≡ strip_end f =
      ap strip_end (before_dot-digits (strip_end f) hs) ∙ strip_end_twice f in
    let fits : ltb d (length (strip_end f)) ≡ false =
      not_above d _ (omega (arith, length-strip_end f)) in
    let padded : pad_end (strip_end f) d ≡ f =
      ap (pad_end (strip_end f)) (sym lf) ∙ strip_end-pad f in
    rw (bw, rf, sig, hw, hs, le→leb _ _ lw, fits, padded, or_zero_text_long w lw)
      (stripped_ok (w ++ f) (all_digits-append w f hw hf) v)

before_dot-with_fraction : (w s : List ℕ) → all_digits w ≡ true → before_dot (with_fraction w s) ≡ w
before_dot-with_fraction w [] h = before_dot-digits w h
before_dot-with_fraction w (c ∷ cs) h = before_dot-append w (c ∷ cs) h

rest_after_dot-with_fraction :
    (w s : List ℕ) → all_digits w ≡ true → rest_after_dot (with_fraction w s) ≡ s
rest_after_dot-with_fraction w [] h = rest_after_dot-digits w h
rest_after_dot-with_fraction w (c ∷ cs) h = rest_after_dot-append w (c ∷ cs) h

module _ (cs : List ℕ) (d v : ℕ) (h : all_digits cs ≡ true) (long : d + 1 ≤ length cs)
    (is_v : value_from 0 cs ≡ v) (small : v ≤ u64_max) where
  abbrev cut : ℕ
  cut = length cs - d

  parse_split :
      parse_amount_to_raw (with_fraction (take cut cs) (strip_end (drop cut cs))) d ≡ some v
  parse_split =
      let w = take cut cs in
      let f = drop cut cs in
      let hw = all_digits-take cut cs h in
      let whole : value_from 0 (w ++ f) ≡ v = ap (value_from 0) (take-append-drop cut cs) ∙ is_v in
      parse_parts (with_fraction w (strip_end f)) w f d
        (before_dot-with_fraction w (strip_end f) hw)
        (rest_after_dot-with_fraction w (strip_end f) hw) hw (omega (arith, length-take cut cs))
        (all_digits-drop cut cs h) (omega (arith, length-drop cut cs)) (omega arith)
      ∙ ap some whole

  parse_whole : d ≡ 0 → parse_amount_to_raw cs d ≡ some v
  parse_whole none_left =
      let whole : value_from 0 (cs ++ []) ≡ v = ap (value_from 0) (append-nil cs) ∙ is_v in
      parse_parts cs cs [] d (before_dot-digits cs h) (rest_after_dot-digits cs h) h (omega arith)
        refl (sym none_left) (omega arith)
      ∙ ap some whole

module _ (v d : ℕ) where
  abbrev padded_digits : List ℕ
  padded_digits = pad_start (decimal_text v) (d + 1)

  decimal_text-value : value_from 0 (decimal_text v) ≡ v
  unfolding decimal_text
  decimal_text-value = digits_from-value (suc v) v [] (omega arith)

  padded-value : value_from 0 padded_digits ≡ v
  padded-value =
      value_from-append 0 (replicate (d + 1 - length (decimal_text v)) 48) (decimal_text v)
      ∙ ap (λ n. value_from n (decimal_text v)) (value_from-zeros (d + 1 - length (decimal_text v)))
      ∙ decimal_text-value

  padded-digits : all_digits padded_digits ≡ true
  unfolding decimal_text
  padded-digits =
      all_digits-append (replicate (d + 1 - length (decimal_text v)) 48) (decimal_text v)
        (all_digits-zeros (d + 1 - length (decimal_text v))) (digits_from-digits (suc v) v [] refl)

  padded-length : d + 1 ≤ length padded_digits
  padded-length =
      let n = d + 1 - length (decimal_text v) in
      omega (arith, length-append (replicate n 48) (decimal_text v), length-replicate {A = ℕ} n 48)

  -- Whatever amount of 64 bits is formatted with some decimals is parsed back with as many.
  pub parse_amount_to_raw-format_raw_amount :
      v ≤ u64_max → parse_amount_to_raw (format_raw_amount v d) d ≡ some v
  unfolding format_raw_amount
  parse_amount_to_raw-format_raw_amount h =
      pick (λ l. parse_amount_to_raw l d ≡ some v) (d == 0)
        (λ e.
          parse_whole padded_digits d v padded-digits padded-length padded-value h
            ((==_iff d 0).0 e))
        (λ e. parse_split padded_digits d v padded-digits padded-length padded-value h)
