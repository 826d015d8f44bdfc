-- ===== src/Swap/Execute.antt =====
-- `executeSwap`: quote, build, simulate, sign, send and confirm, with every early return.
use text.Mathlib.Text.{◌==◌ as str_eq}
use hubconnect.Base.{ℕ, Bool, true, false, not, ◌||◌, Option, none, some, String, if◌then◌else◌}
use hubconnect.Swap.Quote.{QuoteParams, JupiterQuote, get_quote}

-- A transaction as far as it is looked at: the bytes of its message, and the key that pays the fee.
pub record Unsigned : Type 0 where
  pub message : String
  pub fee_payer : Option String

-- What the wallet returns: its bytes, their message, and whether the first signature is not empty.
pub record Signed : Type 0 where
  pub bytes : String
  pub message : String
  pub is_signed : Bool

-- How confirming ended: no error, an error on chain, or a call that threw.
pub data Confirmation : Type 0 where
  confirmed failed_on_chain confirm_threw : Confirmation

-- What surrounds one swap. `none` is a call that throws; `live` answers `shouldContinue` at its calls
-- in order; `wallet` is `none` if the wallet rejects and `some none` if its bytes are unreadable.
-- `landed` is what the signature's own status says.
pub record Node : Type 0 where
  pub user : String
  pub is_pubkey : String → Bool
  pub transport : QuoteParams → Option JupiterQuote
  pub live : ℕ → Bool
  pub build : JupiterQuote → String → Option Unsigned
  pub simulate : Unsigned → Option (Option String)
  pub wallet : Unsigned → Option (Option Signed)
  pub send : String → Option String
  pub blockhash : Bool
  pub confirm : String → Confirmation
  pub landed : String → Option Bool

pub data SwapResult : Type 0 where
  done : String → SwapResult
  context_changed fee_payer_mismatch simulation_failed rejected not_landed thrown : SwapResult

-- The result, and the bytes that were sent.
abbrev pub Run : Type 0
Run = SwapResult × Option String

abbrev pub stopped : SwapResult → Run
stopped r = (r, none)

unfoldable pub settle : String → String → Option Bool → Run
settle bytes x none = (thrown, some bytes)
settle bytes x (some true) = (done x, some bytes)
settle bytes x (some false) = (not_landed, some bytes)

-- An error while confirming does not decide: the signature's status does.
unfoldable pub confirm_step : Node → String → String → Confirmation → Run
unfolding settle
confirm_step n bytes x confirmed = (done x, some bytes)
confirm_step n bytes x failed_on_chain = settle bytes x (n.landed x)
confirm_step n bytes x confirm_threw = settle bytes x (n.landed x)

unfoldable pub send_step : Node → String → Option String → Run
unfolding confirm_step
send_step n bytes none = (thrown, some bytes)
send_step n bytes (some x) =
    if n.blockhash then confirm_step n bytes x (n.confirm x) else (thrown, some bytes)

-- The signed message must be the one that was simulated, and be signed.
unfoldable pub sign_step : Node → Unsigned → Option (Option Signed) → Run
unfolding send_step
sign_step n tx none = stopped rejected
sign_step n tx (some none) = stopped thrown
sign_step n tx (some (some s)) =
    if not (str_eq s.message tx.message) || not s.is_signed
    then stopped thrown
    else send_step n s.bytes (n.send s.bytes)

unfoldable pub sim_step : Node → Unsigned → Option (Option String) → Run
unfolding sign_step
sim_step n tx none = stopped thrown
sim_step n tx (some none) =
    if not (n.live 2) || not (n.live 3)
    then stopped context_changed
    else sign_step n tx (n.wallet tx)
sim_step n tx (some (some err)) =
    if not (n.live 2) then stopped context_changed else stopped simulation_failed

abbrev pub pays : Option String → String → Bool
pays none user = false
pays (some k) user = str_eq k user

unfoldable pub build_step : Node → Option Unsigned → Run
unfolding sim_step
build_step n none = stopped thrown
build_step n (some tx) =
    if not (n.live 1)
    then stopped context_changed
    else if pays tx.fee_payer n.user
    then sim_step n tx (n.simulate tx)
    else stopped fee_payer_mismatch

unfoldable pub quote_step : Node → Option JupiterQuote → Run
unfolding build_step
quote_step n none = stopped thrown
quote_step n (some q) =
    if not (n.live 0) then stopped context_changed else build_step n (n.build q n.user)

unfoldable pub execute_swap : Node → QuoteParams → Run
unfolding quote_step
execute_swap n p = quote_step n (get_quote n.is_pubkey n.transport p)
