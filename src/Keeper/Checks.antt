-- ===== src/Keeper/Checks.antt =====
-- keeper/shared/src/gas.ts and gate.ts: what every keeper checks before a cycle.
use hubconnect.Base.{
  ℕ, ◌+◌, ◌-◌, ◌≤◌, ◌<◌, ◌≡◌, refl, Bool, true, false, ltb, if◌then◌else◌, arith, Bool-cases, inl,
  inr, ◌⊎◌,
}

abbrev pub keeper_hard_min_lamports : ℕ
keeper_hard_min_lamports = 20_000_000

abbrev pub keeper_drip_trigger_lamports : ℕ
keeper_drip_trigger_lamports = 50_000_000

abbrev pub keeper_target_ceiling_lamports : ℕ
keeper_target_ceiling_lamports = 300_000_000

pub data GasFloatCheck : Type 0 where
  gas_ok : ℕ → GasFloatCheck
  gas_refused : GasFloatCheck

-- The subtraction stops at 0, which is what `Math.max(0, …)` does.
unfoldable pub check_gas_float : ℕ → ℕ → ℕ → ℕ → GasFloatCheck
check_gas_float balance hard_min drip_trigger target_ceiling =
    if ltb balance hard_min
    then gas_refused
    else gas_ok (if ltb balance drip_trigger then target_ceiling - balance else 0)

pub data OperationalGate : Type 0 where
  gate_ok gate_paused gate_unsealed : OperationalGate

unfoldable pub check_operational_gate : Bool → Bool → OperationalGate
check_operational_gate true sealed = gate_paused
check_operational_gate false false = gate_unsealed
check_operational_gate false true = gate_ok

-- Refused below the hard minimum; let through with a drip up to the ceiling below the trigger; let
-- through with none from the trigger on.
check_gas_float-cases :
    (balance hard trigger ceiling : ℕ)
    → hard ≤ trigger
    → trigger ≤ ceiling
    → let c = check_gas_float balance hard trigger ceiling in
      ((balance < hard) × (c ≡ gas_refused))
      ⊎ ((d : ℕ) × (hard ≤ balance)
          × (balance < trigger)
          × (balance + d ≡ ceiling)
          × (c ≡ gas_ok d))
      ⊎ ((trigger ≤ balance) × (c ≡ gas_ok 0))
unfolding check_gas_float
check_gas_float-cases balance hard trigger ceiling ht tc = elim (Bool-cases (ltb balance hard)) [
  | inl e ↦ inl (ground arith, rw e refl)
  | inr e ↦ elim (Bool-cases (ltb balance trigger)) [
    | inl f ↦
        inr (inl (ceiling - balance, ground arith, ground arith, ground arith, rw (e, f) refl))
    | inr f ↦ inr (inr (ground arith, rw (e, f) refl))
  ]
]
