-- ===== src/Swap/Quote.antt =====
-- `validateQuote` and `getQuote`: a quote must be for exactly what was asked.
use text.Mathlib.Text.{◌==◌ as str_eq}
use text.Mathlib.TextEquality.{eq_iff}
use mathlib.Core.Option.{some-injective}
use hubconnect.Base.{
  ℕ, ◌≤◌, ◌<◌, ◌≡◌, refl, subst, Bool, true, false, not, ◌&&◌, Option, none, some, List, [], ◌∷◌,
  String, ltb, leb, ◌==◌, arith, ==_iff, if◌then◌else◌, Bool-cases, inl, inr,
}
use hubconnect.Swap.Amount.{validate_raw_amount, validate_raw_amount_positive}

pub record QuoteParams : Type 0 where
  pub input_mint : String
  pub output_mint : String
  pub amount : String
  pub slippage_bps : ℕ

-- A leg of the route is a Boolean: whether it says how it swaps. The slippage is a whole number, as the
-- client parses it.
pub record JupiterQuote : Type 0 where
  pub input_mint : String
  pub output_mint : String
  pub in_amount : String
  pub out_amount : String
  pub other_amount_threshold : String
  pub swap_mode : String
  pub slippage_bps : ℕ
  pub route_plan : List Bool
  pub has_error : Bool

abbrev pub all_true : List Bool → Bool
all_true [] = true
all_true (b ∷ bs) = b && all_true bs

abbrev pub routable : List Bool → Bool
routable [] = false
routable (b ∷ bs) = all_true (b ∷ bs)

abbrev pub matches : JupiterQuote → QuoteParams → Bool
matches q p =
    str_eq q.input_mint p.input_mint
    && str_eq q.output_mint p.output_mint
    && str_eq q.in_amount p.amount
    && q.slippage_bps == p.slippage_bps
    && str_eq q.swap_mode "ExactIn"

-- The minimum received is no more than the output.
unfoldable pub check_threshold : JupiterQuote → Option ℕ → Option ℕ → Option JupiterQuote
check_threshold q (some out) (some threshold) = if ltb out threshold then none else some q
check_threshold q _ _ = none

module _ (is_pubkey : String → Bool) where
  -- `none` is an exception.
  unfoldable pub validate_quote : JupiterQuote → QuoteParams → Option JupiterQuote
  unfolding check_threshold
  validate_quote q p =
      if is_pubkey p.input_mint
        && is_pubkey p.output_mint
        && not (str_eq p.input_mint p.output_mint)
      then (if not q.has_error && matches q p && routable q.route_plan
          then check_threshold q (validate_raw_amount q.out_amount true)
              (validate_raw_amount q.other_amount_threshold false)
          else none)
      else none

  unfoldable pub validated : Option JupiterQuote → QuoteParams → Option JupiterQuote
  unfolding validate_quote
  validated none p = none
  validated (some q) p = validate_quote q p

  unfoldable pub checked_quote :
      (QuoteParams → Option JupiterQuote) → QuoteParams → Option ℕ → Option JupiterQuote
  unfolding validated
  checked_quote transport p none = none
  checked_quote transport p (some n) =
      if leb p.slippage_bps 5_000 then validated (transport p) p else none

  unfoldable pub get_quote : (QuoteParams → Option JupiterQuote) → QuoteParams → Option JupiterQuote
  unfolding checked_quote
  get_quote transport p = checked_quote transport p (validate_raw_amount p.amount true)

-- A quote for exactly what was asked, with a positive output and a minimum received below it.
pub record IsQuoteFor (q : JupiterQuote) (p : QuoteParams) : Type 0 where
  pub same_input : q.input_mint ≡ p.input_mint
  pub same_output : q.output_mint ≡ p.output_mint
  pub same_amount : q.in_amount ≡ p.amount
  pub same_slippage : q.slippage_bps ≡ p.slippage_bps
  pub exact_in : q.swap_mode ≡ "ExactIn"
  pub amounts :
      (out : ℕ) × (threshold : ℕ) × (validate_raw_amount q.out_amount true ≡ some out)
      × (validate_raw_amount q.other_amount_threshold false ≡ some threshold)
      × (0 < out)
      × (threshold ≤ out)

and_split : (a b : Bool) → (a && b) ≡ true → (a ≡ true) × (b ≡ true)
and_split true true e = (refl, refl)
and_split true false e = cc
and_split false b e = cc

if_some :
    {A : Type 0} (c : Bool) (x : Option A) (a : A)
    → (if c then x else none) ≡ some a
    → (c ≡ true) × (x ≡ some a)
if_some true x a e = (refl, e)
if_some false x a e = cc

check_threshold-some :
    (q q2 : JupiterQuote) (o t : Option ℕ)
    → check_threshold q o t ≡ some q2
    → (out : ℕ) × (threshold : ℕ) × (o ≡ some out)
      × (t ≡ some threshold)
      × (threshold ≤ out)
      × (q ≡ q2)
unfolding check_threshold
check_threshold-some q q2 none t e = cc
check_threshold-some q q2 (some out) none e = cc
check_threshold-some q q2 (some out) (some threshold) e = elim (Bool-cases (ltb out threshold)) [
  | inl f ↦ cc (rw f at e)
  | inr f ↦ (out, threshold, refl, refl, ground arith, some-injective _ _ (rw f at e))
]

module _ (is_pubkey : String → Bool) where
  validate_quote-IsQuoteFor :
      (q q2 : JupiterQuote) (p : QuoteParams)
      → validate_quote is_pubkey q p ≡ some q2
      → (q ≡ q2) × IsQuoteFor q p
  unfolding validate_quote
  validate_quote-IsQuoteFor q q2 p e =
      let (_, e1) = if_some _ _ _ e in
      let (c, e2) = if_some _ _ _ e1 in
      let (c1, _) = and_split _ _ c in
      let (_, m) = and_split _ _ c1 in
      let (m4, exact) = and_split _ _ m in
      let (m3, slippage) = and_split _ _ m4 in
      let (m2, amount) = and_split _ _ m3 in
      let (input, output) = and_split _ _ m2 in
      let (out, threshold, eo, et, le, same) = check_threshold-some q q2 _ _ e2 in
      (
        same,
        record {
          same_input = (eq_iff _ _).0 input;
          same_output = (eq_iff _ _).0 output;
          same_amount = (eq_iff _ _).0 amount;
          same_slippage = (==_iff _ _).0 slippage;
          exact_in = (eq_iff _ _).0 exact;
          amounts = (out, threshold, eo, et, validate_raw_amount_positive q.out_amount out eo, le);
        },
      )

  -- A quote that is accepted is for exactly what was asked, its minimum received no more than its
  -- output, which is positive; the slippage asked for was at most half.
  get_quote-IsQuoteFor :
      (transport : QuoteParams → Option JupiterQuote) (p : QuoteParams) (q : JupiterQuote)
      → get_quote is_pubkey transport p ≡ some q
      → IsQuoteFor q p × (p.slippage_bps ≤ 5_000)
  unfolding get_quote checked_quote validated
  get_quote-IsQuoteFor transport p q e = checked (validate_raw_amount p.amount true) e
    where
      of_quote : (o : Option JupiterQuote) → validated is_pubkey o p ≡ some q → IsQuoteFor q p
      of_quote none e = cc
      of_quote (some r) e =
          let (same, k) = validate_quote-IsQuoteFor r q p e in subst (λ z. IsQuoteFor z p) same k

      checked :
          (a : Option ℕ)
          → checked_quote is_pubkey transport p a ≡ some q
          → IsQuoteFor q p × (p.slippage_bps ≤ 5_000)
      checked none e = cc
      checked (some n) e =
          let (small, e2) = if_some (leb p.slippage_bps 5_000) _ _ e in
          (of_quote (transport p) e2, ground arith)
