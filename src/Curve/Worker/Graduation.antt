-- ===== src/Curve/Worker/Graduation.antt =====
-- `attemptGraduation` and `maybeGraduate`: seeding the pool once the curve has graduated.
use hubconnect.Base.{
  ℕ, ◌+◌, ◌-◌, Bool, true, ◌||◌, Option, none, some, String, leb, ◌==◌, if◌then◌else◌,
}
use hubconnect.Curve.Config.{
  curve_wallet_min_lamports, graduation_rent_buffer_lamports, cpmm_create_pool_fee_lamports,
}
use hubconnect.Curve.Kv.{Kv}
use hubconnect.Curve.Reserves.{CurveState}
use hubconnect.Curve.Worker.Host.{Host, pool_seeded}
use hubconnect.Curve.Worker.Monad.{Handler, ◌>>=◌, ◌>>◌, pure, try_send}
use hubconnect.Curve.Worker.Records.{save_state}

abbrev pub or_zero : Option ℕ → ℕ
or_zero none = 0
or_zero (some n) = n

abbrev pub pool_reserve : ℕ
pool_reserve =
    curve_wallet_min_lamports + cpmm_create_pool_fee_lamports + graduation_rent_buffer_lamports

unfoldable pub pool_address_of : Host → Option String → Option String
pool_address_of h none = none
pool_address_of h (some signature) = some h.pool_key

module _ {S : Type 0} where
  unfoldable pub seed_pool : Host → ℕ → ℕ → Handler S (Option String)
  unfolding try_send pool_address_of
  seed_pool h sol hub = do pure (pool_address_of h (← try_send h (pool_seeded sol hub)))

  -- Nothing is sent when no SOL is left above the reserve and the rent, or no $HUB.
  unfoldable pub attempt_with : Host → Option ℕ → Option ℕ → ℕ → Handler S (Option String)
  unfolding seed_pool
  attempt_with h (some sol_balance) (some rent) hub_balance =
      if leb sol_balance (pool_reserve + rent) || hub_balance == 0
      then pure none
      else seed_pool h (sol_balance - (pool_reserve + rent)) hub_balance
  attempt_with h _ _ hub_balance = pure none

  unfoldable pub attempt_graduation : Host → Handler S (Option String)
  unfolding attempt_with
  attempt_graduation h =
      attempt_with h h.pool_sol_balance h.rent_exempt (or_zero h.pool_hub_balance)

module _ (kv : Kv) where
  open kv use {Store}

  unfoldable pub record_pool : Host → CurveState → Option String → Handler Store CurveState
  unfolding save_state
  record_pool h state none = pure state
  record_pool h state (some pool) = do
    let next = record state { pool_address = some pool }
    save_state kv h next
    pure next

  unfoldable pub graduate_pending :
      Host → CurveState → Bool → Option String → Handler Store CurveState
  unfolding attempt_graduation record_pool
  graduate_pending h state true none = do record_pool h state (← attempt_graduation h)
  graduate_pending h state _ _ = pure state

  unfoldable pub maybe_graduate : Host → CurveState → Handler Store CurveState
  unfolding graduate_pending
  maybe_graduate h state = graduate_pending h state state.graduated state.pool_address
