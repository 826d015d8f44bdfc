-- ===== src/Swap/Digits.antt =====
-- Digits, their value, and the zeros that are stripped and padded.
use hubconnect.Base.{
  ℕ, zero, suc, ◌+◌, ◌-◌, ◌*◌, ◌/◌, ◌%◌, ◌≤◌, ◌<◌, ◌≡◌, refl, ap, sym, ◌∙◌, inl, inr, Bool, true,
  false, ◌&&◌, List, [], ◌∷◌, ◌++◌, ltb, ltb→lt, ltb→ge, ◌==◌, ==_iff, length, replicate, arith,
  pick, Bool-cases,
}
use hubconnect.Swap.Amount.{is_digit, all_digits, value_from}
use hubconnect.Swap.Decimal.{
  before_dot, rest_after_dot, end_with, strip_end, strip_start, pad_end, digits_from,
}

pub and_parts : (a b : Bool) → (a && b) ≡ true → (a ≡ true) × (b ≡ true)
and_parts true true h = (refl, refl)
and_parts true false h = cc
and_parts false b h = cc

pub and_both : (a b : Bool) → a ≡ true → b ≡ true → (a && b) ≡ true
and_both a b p q = ground arith

zero_less : (n : ℕ) → n ≡ n - 0
zero_less n = omega arith

one_less : (n m : ℕ) → suc n - suc m ≡ n - m
one_less n m = omega arith

no_dot : (x : ℕ) → is_digit x ≡ true → (x == 46) ≡ false
no_dot x h = ground arith

last_digit : (v : ℕ) → v < 10 → 0 * 10 + (48 + v % 10 - 48) ≡ v
last_digit v h = omega arith

joined : (v : ℕ) → v / 10 * 10 + (48 + v % 10 - 48) ≡ v
joined v = omega arith

smaller : (v fuel : ℕ) → v < suc fuel → 10 ≤ v → v / 10 < fuel
smaller v fuel h t = omega arith

pub value_from-append :
    (n : ℕ) (xs ys : List ℕ) → value_from n (xs ++ ys) ≡ value_from (value_from n xs) ys
value_from-append n [] ys = refl
value_from-append n (x ∷ xs) ys = value_from-append (n * 10 + (x - 48)) xs ys

pub all_digits-append :
    (xs ys : List ℕ) → all_digits xs ≡ true → all_digits ys ≡ true → all_digits (xs ++ ys) ≡ true
all_digits-append [] ys p q = q
all_digits-append (x ∷ xs) ys p q =
    let parts = and_parts (is_digit x) (all_digits xs) p in
    and_both (is_digit x) _ parts.0 (all_digits-append xs ys parts.1 q)

pub all_digits-zeros : (n : ℕ) → all_digits (replicate n 48) ≡ true
all_digits-zeros zero = refl
all_digits-zeros (suc n) = all_digits-zeros n

pub value_from-zeros : (n : ℕ) → value_from 0 (replicate n 48) ≡ 0
value_from-zeros zero = refl
value_from-zeros (suc n) = value_from-zeros n

pub value_from-strip_start : (xs : List ℕ) → value_from 0 (strip_start xs) ≡ value_from 0 xs
value_from-strip_start [] = refl
value_from-strip_start (x ∷ xs) =
    pick (λ l. value_from 0 l ≡ value_from (0 * 10 + (x - 48)) xs) (x == 48)
      (λ e. rw ((==_iff x 48).0 e) (value_from-strip_start xs)) (λ e. refl)

-- The digits of a number denote it, before any others.
pub digits_from-value :
    (fuel v : ℕ) (acc : List ℕ)
    → v < fuel
    → value_from 0 (digits_from fuel v acc) ≡ value_from v acc
digits_from-value zero v acc h = absurd (omega arith)
digits_from-value (suc fuel) v acc h =
    pick (λ l. value_from 0 l ≡ value_from v acc) (ltb v 10)
      (λ e. ap (λ n. value_from n acc) (last_digit v (ltb→lt v 10 e)))
      (λ e.
        digits_from-value fuel (v / 10) _ (smaller v fuel h (ltb→ge v 10 e))
        ∙ ap (λ n. value_from n acc) (joined v))

pub digits_from-digits :
    (fuel v : ℕ) (acc : List ℕ) → all_digits acc ≡ true → all_digits (digits_from fuel v acc) ≡ true
digits_from-digits zero v acc h = h
digits_from-digits (suc fuel) v acc h =
    let next = and_both (is_digit (48 + v % 10)) (all_digits acc) (ground arith) h in
    pick (λ l. all_digits l ≡ true) (ltb v 10) (λ e. next)
      (λ e. digits_from-digits fuel (v / 10) _ next)

end_with-pad :
    (x : ℕ) (s xs : List ℕ)
    → pad_end s (length xs) ≡ xs
    → pad_end (end_with x s) (suc (length xs)) ≡ x ∷ xs
end_with-pad x [] xs h =
    let filled : replicate (length xs) 48 ≡ xs =
      ap (λ n. replicate n 48) (zero_less (length xs)) ∙ h in
    pick (λ l. pad_end l (suc (length xs)) ≡ x ∷ xs) (x == 48)
      (λ e.
        ap (λ n. replicate n 48) (sym (zero_less (suc (length xs))))
        ∙ ap (λ l. 48 ∷ l) filled
        ∙ ap (λ c. c ∷ xs) (sym ((==_iff x 48).0 e)))
      (λ e. ap (λ n. x ∷ replicate n 48) (one_less (length xs) 0) ∙ ap (λ l. x ∷ l) h)
end_with-pad x (d ∷ ds) xs h =
    ap (λ n. x ∷ d ∷ ds ++ replicate n 48) (one_less (length xs) (length (d ∷ ds)))
    ∙ ap (λ l. x ∷ l) h

-- What is stripped of a text are zeros: padded to its length it is the text again.
pub strip_end-pad : (xs : List ℕ) → pad_end (strip_end xs) (length xs) ≡ xs
strip_end-pad [] = refl
strip_end-pad (x ∷ xs) = end_with-pad x (strip_end xs) xs (strip_end-pad xs)

length-end_with : (x : ℕ) (s : List ℕ) → length (end_with x s) ≤ suc (length s)
length-end_with x [] =
    pick (λ l. length {A = ℕ} l ≤ 1) (x == 48) (λ e. omega arith) (λ e. omega arith)
length-end_with x (d ∷ ds) = omega arith

pub length-strip_end : (xs : List ℕ) → length (strip_end xs) ≤ length xs
length-strip_end [] = omega arith
length-strip_end (x ∷ xs) = omega (arith, length-end_with x (strip_end xs), length-strip_end xs)

end_with_twice : (x : ℕ) (s : List ℕ) → strip_end s ≡ s → strip_end (end_with x s) ≡ end_with x s
end_with_twice x [] h = elim (Bool-cases (x == 48)) [ inl e ↦ rw e refl | inr e ↦ rw e (rw e refl) ]
end_with_twice x (d ∷ ds) h = ap (end_with x) h

pub strip_end_twice : (xs : List ℕ) → strip_end (strip_end xs) ≡ strip_end xs
strip_end_twice [] = refl
strip_end_twice (x ∷ xs) = end_with_twice x (strip_end xs) (strip_end_twice xs)

all_digits-end_with :
    (x : ℕ) (s : List ℕ)
    → is_digit x ≡ true
    → all_digits s ≡ true
    → all_digits (end_with x s) ≡ true
all_digits-end_with x [] h k =
    pick (λ l. all_digits l ≡ true) (x == 48) (λ e. refl) (λ e. and_both (is_digit x) true h refl)
all_digits-end_with x (d ∷ ds) h k = and_both (is_digit x) (all_digits (d ∷ ds)) h k

pub all_digits-strip_end : (xs : List ℕ) → all_digits xs ≡ true → all_digits (strip_end xs) ≡ true
all_digits-strip_end [] h = refl
all_digits-strip_end (x ∷ xs) h =
    let parts = and_parts (is_digit x) (all_digits xs) h in
    all_digits-end_with x (strip_end xs) parts.0 (all_digits-strip_end xs parts.1)

-- Digits hold no dot.
pub before_dot-digits : (xs : List ℕ) → all_digits xs ≡ true → before_dot xs ≡ xs
before_dot-digits [] h = refl
before_dot-digits (x ∷ xs) h =
    let parts = and_parts (is_digit x) (all_digits xs) h in
    rw (no_dot x parts.0) (ap (λ l. x ∷ l) (before_dot-digits xs parts.1))

pub rest_after_dot-digits : (xs : List ℕ) → all_digits xs ≡ true → rest_after_dot xs ≡ []
rest_after_dot-digits [] h = refl
rest_after_dot-digits (x ∷ xs) h =
    let parts = and_parts (is_digit x) (all_digits xs) h in
    rw (no_dot x parts.0) (rest_after_dot-digits xs parts.1)

pub before_dot-append : (xs ys : List ℕ) → all_digits xs ≡ true → before_dot (xs ++ 46 ∷ ys) ≡ xs
before_dot-append [] ys h = refl
before_dot-append (x ∷ xs) ys h =
    let parts = and_parts (is_digit x) (all_digits xs) h in
    rw (no_dot x parts.0) (ap (λ l. x ∷ l) (before_dot-append xs ys parts.1))

pub rest_after_dot-append :
    (xs ys : List ℕ) → all_digits xs ≡ true → rest_after_dot (xs ++ 46 ∷ ys) ≡ ys
rest_after_dot-append [] ys h = refl
rest_after_dot-append (x ∷ xs) ys h =
    let parts = and_parts (is_digit x) (all_digits xs) h in
    rw (no_dot x parts.0) (rest_after_dot-append xs ys parts.1)
