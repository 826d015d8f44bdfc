-- ===== src/Swap/Amount.antt =====
-- `validateRawAmount`: amounts as decimal texts, never through floating point.
use Prim.Native.Char.{code}
use Prim.Native.String.{String}
use hubconnect.Base.{
  ℕ, ◌+◌, ◌-◌, ◌*◌, ◌^◌, ◌≤◌, ◌<◌, ◌≡◌, Bool, true, ◌&&◌, ◌||◌, Option, none, some, List, [], ◌∷◌,
  leb, ltb, ◌==◌, length, arith, if◌then◌else◌,
}

-- The code points of a text.
abbrev pub codes : String → List ℕ
codes String.[] = []
codes (String.◌∷◌ c s) = code c ∷ codes s

abbrev pub is_digit : ℕ → Bool
is_digit c = leb 48 c && leb c 57

abbrev pub all_digits : List ℕ → Bool
all_digits [] = true
all_digits (c ∷ cs) = is_digit c && all_digits cs

-- The number that digits denote, after those that denote `n`.
abbrev pub value_from : ℕ → List ℕ → ℕ
value_from n [] = n
value_from n (c ∷ cs) = value_from (n * 10 + (c - 48)) cs

abbrev pub u64_max : ℕ
u64_max = 2 ^ 64 - 1

-- `none` is the error. Between 1 and 20 digits, within 64 bits, and positive if that is asked for.
unfoldable pub validate_digits : List ℕ → Bool → Option ℕ
validate_digits cs positive =
    if all_digits cs && leb 1 (length cs) && leb (length cs) 20
    then (if ltb u64_max (value_from 0 cs) || (positive && value_from 0 cs == 0)
        then none
        else some (value_from 0 cs))
    else none

unfoldable pub validate_raw_amount : String → Bool → Option ℕ
unfolding validate_digits
validate_raw_amount v positive = validate_digits (codes v) positive

validate_digits_bounds :
    (cs : List ℕ) (positive : Bool) (n : ℕ)
    → validate_digits cs positive ≡ some n
    → (n ≤ u64_max) × (n ≡ value_from 0 cs)
unfolding validate_digits
validate_digits_bounds cs positive n e = ground (arith, e)

-- What passes fits in 64 bits and is the number that its digits denote.
validate_raw_amount_bounds :
    (v : String) (positive : Bool) (n : ℕ)
    → validate_raw_amount v positive ≡ some n
    → (n ≤ u64_max) × (n ≡ value_from 0 (codes v))
unfolding validate_raw_amount
validate_raw_amount_bounds v positive n e = validate_digits_bounds (codes v) positive n e

pub validate_raw_amount_positive :
    (v : String) (n : ℕ) → validate_raw_amount v true ≡ some n → 0 < n
unfolding validate_raw_amount validate_digits
validate_raw_amount_positive v n e = ground (arith, e)
