-- ===== src/Curve/Worker/Deposit.antt =====
-- Reading a deposit off a confirmed transaction (`fetchConfirmedTx`, `accountKeyIndex`, `solDelta`
-- and `hubDelta`): the amount is always the difference of two balances.
use text.Mathlib.Text.{◌==◌ as str_eq}
use hubconnect.Base.{
  ℕ, ◌+◌, ◌*◌, Bool, true, false, ◌&&◌, ◌||◌, Option, none, some, List, [], ◌∷◌, String, ltb, ◌==◌,
  get_elem?, if◌then◌else◌,
}
use hubconnect.Base.Int.{ℤ, pos, sub_ℕ}
use hubconnect.Curve.Config.{deposit_max_age_seconds}
use hubconnect.Curve.Worker.Host.{TokenBalance, Meta, Tx, Host}
use hubconnect.Curve.Worker.Monad.{Handler, ◌>>=◌, ◌>>◌, pure, throw, or_throw}

unfoldable pub failed_on_chain : Option Meta → Bool
failed_on_chain none = false
failed_on_chain (some m) = m.err

-- A missing or zero block time counts as too old; `now` is in milliseconds.
unfoldable pub too_old : ℕ → Option ℕ → Bool
too_old now none = true
too_old now (some t) = t == 0 || ltb (t * 1000 + deposit_max_age_seconds * 1000) now

module _ {S : Type 0} where
  unfoldable pub throw_if : Bool → Handler S (Unit {0})
  throw_if true = throw
  throw_if false = pure tt

  unfoldable pub fetch_confirmed_tx : Host → String → Handler S Tx
  unfolding throw_if failed_on_chain too_old
  fetch_confirmed_tx h signature = do
    tx ← or_throw (h.transaction signature)
    throw_if (failed_on_chain tx.info)
    throw_if (too_old h.now tx.block_time)
    pure tx

-- The index of a key, counted from `i`; `none` stands for -1.
unfoldable pub key_index_from : ℕ → List String → String → Option ℕ
key_index_from i [] pk = none
key_index_from i (k ∷ keys) pk = if str_eq k pk then some i else key_index_from (i + 1) keys pk

unfoldable pub account_key_index : Tx → String → Option ℕ
unfolding key_index_from
account_key_index tx pk = key_index_from 0 tx.keys pk

-- The difference of two reads; a read out of range is an exception.
unfoldable pub balance_change : Option ℕ → Option ℕ → Option ℤ
balance_change (some after) (some before) = some (sub_ℕ after before)
balance_change _ _ = none

module _ {S : Type 0} where
  unfoldable pub sol_delta_at : Option ℕ → Option Meta → Handler S ℤ
  unfolding balance_change
  sol_delta_at (some i) (some m) =
      or_throw (balance_change (get_elem? m.post_balances i) (get_elem? m.pre_balances i))
  sol_delta_at _ _ = pure (pos 0)

  unfoldable pub sol_delta : Tx → String → Handler S ℤ
  unfolding sol_delta_at account_key_index
  sol_delta tx pk = sol_delta_at (account_key_index tx pk) tx.info

-- The first balance of that account and mint, or 0.
unfoldable pub token_amount : ℕ → String → List TokenBalance → ℕ
token_amount i mint [] = 0
token_amount i mint (b ∷ bs) =
    if b.account_index == i && str_eq b.mint mint then b.amount else token_amount i mint bs

unfoldable pub hub_delta_at : Option ℕ → Option Meta → String → ℤ
unfolding token_amount
hub_delta_at (some i) (some m) mint =
    sub_ℕ (token_amount i mint m.post_token_balances) (token_amount i mint m.pre_token_balances)
hub_delta_at _ _ mint = pos 0

unfoldable pub hub_delta : Tx → String → String → ℤ
unfolding hub_delta_at account_key_index
hub_delta tx account mint = hub_delta_at (account_key_index tx account) tx.info mint
