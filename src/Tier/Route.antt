-- ===== src/Tier/Route.antt =====
-- `fetchOtcToHubRoute`: how much $OTC to swap so that enough $HUB comes out, and the route of it.
use text.Mathlib.Text.{◌==◌ as str_eq}
use hubconnect.Base.{
  ℕ, zero, suc, ◌+◌, ◌-◌, ◌*◌, ◌/◌, Bool, true, false, Option, none, some, List, [], ◌∷◌, String,
  leb, ltb, ◌==◌, if◌then◌else◌,
}
use hubconnect.Base.Int.{ℤ, pos, negsuc}
use hubconnect.Sdk.Constants.{bps}
use hubconnect.Keeper.Epoch.Raydium.{AccountMeta}
use hubconnect.Keeper.Epoch.Jupiter.{ApiInstruction, jupiter_program_id, plan_labels}

abbrev pub otc_swap_input_buffer_bp : ℕ
otc_swap_input_buffer_bp = 150

abbrev pub otc_swap_slippage_bps : ℕ
otc_swap_slippage_bps = 100

abbrev pub otc_probe_seed : ℕ
otc_probe_seed = 1_000

abbrev pub max_otc_probes : ℕ
max_otc_probes = 6

pub record OtcSwapRoute : Type 0 where
  pub otc_swap_amount : ℕ
  pub jupiter_data : List ℕ
  pub remaining_accounts : List AccountMeta
  pub out_amount : ℤ
  pub route_labels : List String

pub record QuoteQuery : Type 0 where
  pub input_mint : String
  pub output_mint : String
  pub amount : ℕ
  pub swap_mode : String
  pub slippage_bps : ℕ

-- The answer of `/quote`; a body that cannot be read has no fields.
pub record QuoteBody : Type 0 where
  pub is_ok : Bool
  pub in_amount : Option String
  pub out_amount : Option String

pub record BuildQuery : Type 0 where
  pub input_mint : String
  pub output_mint : String
  pub amount : ℕ
  pub taker : String
  pub slippage_bps : ℕ
  pub wrap_and_unwrap_sol : Bool
  pub destination : String

pub record BuildBody : Type 0 where
  pub is_ok : Bool
  pub out_amount : Option String
  pub other_amount_threshold : Option String
  pub route_plan : Option (List (Option String))
  pub swap_instruction : Option ApiInstruction

-- Jupiter's API; the quotes are numbered by their calls, since the market moves between them. `none`
-- is a fetch that throws. `big_int` reads an amount, `none` where it throws; `is_key` is what the
-- constructor of a public key accepts.
pub record Api : Type 0 where
  pub quote : ℕ → QuoteQuery → Option QuoteBody
  pub build : BuildQuery → Option BuildBody
  pub big_int : String → Option ℤ
  pub is_key : String → Bool

-- A quote by its amounts. `none` is an error.
abbrev out_of : Option ℤ → Option ℤ → Option ℤ
out_of none out = none
out_of (some given) out = out

abbrev read_quote : Api → Bool → Option String → Option String → Option ℤ
read_quote a false given out = none
read_quote a true given none = none
read_quote a true none (some out) = if str_eq out "" then none else a.big_int out
read_quote a true (some given) (some out) =
    if str_eq out "" then none else out_of (a.big_int given) (a.big_int out)

abbrev read_body : Api → Option QuoteBody → Option ℤ
read_body a none = none
read_body a (some b) = read_quote a b.is_ok b.in_amount b.out_amount

-- The amount that comes out, as quoted at the given call.
unfoldable pub exact_in_quote : Api → String → String → ℕ → ℕ → Option ℤ
exact_in_quote a otc_mint hub_mint call amount = read_body a (
    a.quote call (record {
      input_mint = otc_mint;
      output_mint = hub_mint;
      amount = amount;
      swap_mode = "ExactIn";
      slippage_bps = otc_swap_slippage_bps;
    }))

-- The input to try next: the rate of the last quote scaled to the least output, rounded up, and half
-- a percent more.
unfoldable pub next_input : ℕ → ℕ → ℕ → ℕ
next_input input least out = (input * least + out - 1) / out * (bps + 50) / bps

-- What follows a quote: an output that is not positive says that the token cannot be traded.
unfoldable pub after_probe : ℕ → ℕ → (ℕ → Option (ℕ × ℕ)) → Option ℤ → Option (ℕ × ℕ)
after_probe least input again none = none
after_probe least input again (some (negsuc n)) = none
after_probe least input again (some (pos out)) =
    if out == 0 then none else if leb least out then some (input, out) else again out

-- The probes that are left, from the given call on: the last input with its output, `none` for an
-- error.
unfoldable pub probe_from : (ℕ → ℕ → Option ℤ) → ℕ → ℕ → ℕ → ℕ → ℕ → Option (ℕ × ℕ)
unfolding after_probe
probe_from quotes least zero call input out = some (input, out)
probe_from quotes least (suc left) call input last =
    after_probe least input
      (λ out. probe_from quotes least left (suc call) (next_input input least out) out)
      (quotes call input)

abbrev cleared : ℕ → Option (ℕ × ℕ) → Option ℕ
cleared least none = none
cleared least (some (input, out)) =
    if ltb out least then none else some (input * (bps + otc_swap_input_buffer_bp) / bps)

-- The $OTC to swap for at least so much $HUB.
unfoldable pub size_input : (ℕ → ℕ → Option ℤ) → ℕ → Option ℕ
unfolding probe_from
size_input quotes least = cleared least (probe_from quotes least max_otc_probes 0 otc_probe_seed 0)

abbrev pub text_or_zero : Option String → String
text_or_zero none = "0"
text_or_zero (some t) = t

abbrev pub below : ℕ → ℤ → Bool
below least (negsuc n) = true
below least (pos n) = ltb n least

abbrev pub all_keys : Api → List AccountMeta → Bool
all_keys a [] = true
all_keys a (k ∷ ks) = let rest = all_keys a ks in if a.is_key k.pubkey then rest else false

abbrev pub route_with : Api → ℕ → List String → Option ℤ → ApiInstruction → Option OtcSwapRoute
route_with a amount labels none ix = none
route_with a amount labels (some out) ix =
    if all_keys a ix.accounts
    then some (record {
      otc_swap_amount = amount;
      jupiter_data = ix.bytes;
      remaining_accounts = ix.accounts;
      out_amount = out;
      route_labels = labels;
    })
    else none

abbrev pub checked : Api → ℕ → ℕ → BuildBody → Option ℤ → ApiInstruction → Option OtcSwapRoute
checked a least amount b none ix = none
checked a least amount b (some min_out) ix =
    if below least min_out
    then none
    else route_with a amount (plan_labels b.route_plan) (a.big_int (text_or_zero b.out_amount)) ix

abbrev pub read_instruction :
    Api → ℕ → ℕ → BuildBody → Bool → Option ApiInstruction → Option OtcSwapRoute
read_instruction a least amount b false ix = none
read_instruction a least amount b true none = none
read_instruction a least amount b true (some ix) =
    if str_eq ix.program_id jupiter_program_id
    then checked a least amount b (a.big_int (text_or_zero b.other_amount_threshold)) ix
    else none

-- What is made of the answer of `/build`.
unfoldable pub read_build : Api → ℕ → ℕ → Option BuildBody → Option OtcSwapRoute
read_build a least amount none = none
read_build a least amount (some b) = read_instruction a least amount b b.is_ok b.swap_instruction

unfoldable pub build_query : String → String → String → String → ℕ → BuildQuery
build_query taker otc_mint hub_mint destination amount = record {
  input_mint = otc_mint;
  output_mint = hub_mint;
  amount = amount;
  taker = taker;
  slippage_bps = otc_swap_slippage_bps;
  wrap_and_unwrap_sol = false;
  destination = destination;
}

abbrev pub build_sized :
    Api → String → String → String → String → ℕ → Option ℕ → Option OtcSwapRoute
build_sized a taker otc_mint hub_mint destination least none = none
build_sized a taker otc_mint hub_mint destination least (some amount) =
    read_build a least amount (a.build (build_query taker otc_mint hub_mint destination amount))

-- `none` is an error, as for a least output that is not positive.
unfoldable pub fetch_otc_to_hub_route :
    Api → String → String → String → String → ℤ → Option OtcSwapRoute
unfolding size_input exact_in_quote read_build build_query
fetch_otc_to_hub_route a taker otc_mint hub_mint destination (negsuc n) = none
fetch_otc_to_hub_route a taker otc_mint hub_mint destination (pos least) =
    if least == 0
    then none
    else build_sized a taker otc_mint hub_mint destination least
        (size_input (exact_in_quote a otc_mint hub_mint) least)
