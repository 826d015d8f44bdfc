-- ===== src/Swap/Tests.antt =====
-- A swap at a concrete input.
use hubconnect.Base.{arith, ◌≡◌, refl, true, false, none, some, [], ◌∷◌}
use hubconnect.Swap.Amount.{codes, validate_raw_amount, validate_digits}
use hubconnect.Swap.Decimal.{
  parse_amount_to_raw, format_raw_amount, parse_slippage_bps, decimal_text,
}
use hubconnect.Swap.RoundTrip.{parse_amount_to_raw-format_raw_amount}
use hubconnect.Swap.Quote.{
  QuoteParams, JupiterQuote, get_quote, checked_quote, validated, validate_quote, check_threshold,
}
use hubconnect.Swap.Execute.{
  Node, done, confirm_threw, execute_swap, quote_step, build_step, sim_step, sign_step, send_step,
  confirm_step, settle,
}
use hubconnect.Swap.Sent.{IsSound, execute_swap-IsSound}

abbrev params : QuoteParams
params = record { input_mint = "sol"; output_mint = "hub"; amount = "1500"; slippage_bps = 50 }

abbrev quoted : JupiterQuote
quoted = record {
  input_mint = "sol";
  output_mint = "hub";
  in_amount = "1500";
  out_amount = "900";
  other_amount_threshold = "890";
  swap_mode = "ExactIn";
  slippage_bps = 50;
  route_plan = true ∷ [];
  has_error = false;
}

-- Confirming throws, and the swap is found to have landed.
abbrev node : Node
node = record {
  user = "bob";
  is_pubkey = λ s. true;
  transport = λ p. some quoted;
  live = λ i. true;
  build = λ q u. some (record { message = "m"; fee_payer = some "bob" });
  simulate = λ t. some none;
  wallet = λ t. some (some (record { bytes = "b"; message = "m"; is_signed = true }));
  send = λ b. some "x";
  blockhash = true;
  confirm = λ x. confirm_threw;
  landed = λ x. some true;
}

formatted : format_raw_amount 1_500_000 6 ≡ codes "1.5"
unfolding format_raw_amount decimal_text
formatted = refl

half_percent : parse_slippage_bps (codes "0.5") ≡ some 50
unfolding parse_slippage_bps parse_amount_to_raw validate_digits
half_percent = refl

no_exponent : parse_amount_to_raw (codes "1e3") 6 ≡ none
unfolding parse_amount_to_raw
no_exponent = refl

parse_amount_to_raw-format_raw_amount_example :
    parse_amount_to_raw (format_raw_amount 1_500_000 6) 6 ≡ some 1_500_000
parse_amount_to_raw-format_raw_amount_example =
    parse_amount_to_raw-format_raw_amount 1_500_000 6 (omega arith)

landed_after_all : execute_swap node params ≡ (done "x", some "b")
unfolding execute_swap quote_step build_step sim_step sign_step send_step confirm_step settle
    get_quote checked_quote validated validate_quote check_threshold validate_raw_amount
    validate_digits
landed_after_all = refl

execute_swap-IsSound_example : IsSound node params (execute_swap node params)
execute_swap-IsSound_example = execute_swap-IsSound node params
