-- ===== src/Keeper/CreatorFee.antt =====
-- keeper/creator-fee/src/clear_cycle.ts: what one cycle of the creator-fee keeper clears and draws.
use hubconnect.Base.{
  ℕ, ◌+◌, ◌-◌, ◌/◌, ◌≤◌, ◌<◌, ◌≡◌, refl, Bool, true, false, Option, none, some, List, [], ◌∷◌, leb,
  ◌==◌, arith, All, if◌then◌else◌, Bool-cases, inl, inr,
}

pub data SwapLeg : Type 0 where
  burn lp stack ops : SwapLeg

pub record FeeState : Type 0 where
  pub pending_otc : ℕ
  pub clear_threshold : ℕ
  pub burn_pending : ℕ
  pub lp_pending : ℕ
  pub stack_pending : ℕ
  pub ops_pending : ℕ

pub data ClearDecision : Type 0 where
  clear wait : ClearDecision

unfoldable pub plan_clear : FeeState → ClearDecision
plan_clear state = if leb state.clear_threshold state.pending_otc then clear else wait

-- A leg that is one swap, or the LP leg with its two halves.
pub data LegPlan : Type 0 where
  simple_leg : SwapLeg → ℕ → LegPlan
  lp_leg : ℕ → ℕ → ℕ → LegPlan

unfoldable pub plan_simple_leg : SwapLeg → ℕ → Option LegPlan
plan_simple_leg leg pending = if pending == 0 then none else some (simple_leg leg pending)

unfoldable pub plan_lp_leg : ℕ → Option LegPlan
plan_lp_leg pending =
    if pending == 0 then none else some (lp_leg pending (pending / 2) (pending - pending / 2))

unfoldable pub keep_some : List (Option LegPlan) → List LegPlan
keep_some [] = []
keep_some (none ∷ ps) = keep_some ps
keep_some (some p ∷ ps) = p ∷ keep_some ps

unfoldable pub plan_leg_draws : FeeState → List LegPlan
unfolding plan_simple_leg plan_lp_leg keep_some
plan_leg_draws state = keep_some (
    plan_simple_leg burn state.burn_pending
    ∷ plan_lp_leg state.lp_pending
    ∷ plan_simple_leg stack state.stack_pending
    ∷ plan_simple_leg ops state.ops_pending
    ∷ [])

unfoldable pub is_lp_leg : LegPlan → Bool
is_lp_leg (simple_leg leg n) = false
is_lp_leg (lp_leg n a b) = true

abbrev pub drawn : LegPlan → ℕ
drawn (simple_leg leg n) = n
drawn (lp_leg n a b) = n

abbrev pub total_drawn : List LegPlan → ℕ
total_drawn [] = 0
total_drawn (p ∷ ps) = drawn p + total_drawn ps

-- A plan draws something, and an LP plan is split in halves of which the raw deposit takes an odd unit.
abbrev pub IsDraw : LegPlan → Type 0
IsDraw (simple_leg leg n) = 0 < n
IsDraw (lp_leg n a b) = (0 < n) × (a + b ≡ n) × (a ≤ b) × (b ≤ a + 1)

abbrev amount_of : Option LegPlan → ℕ
amount_of none = 0
amount_of (some p) = drawn p

abbrev IsPlanned : ℕ → Option LegPlan → Type 0
IsPlanned n none = n ≡ 0
IsPlanned n (some p) = (drawn p ≡ n) × IsDraw p

simple-IsPlanned : (leg : SwapLeg) (n : ℕ) → IsPlanned n (plan_simple_leg leg n)
unfolding plan_simple_leg
simple-IsPlanned leg n = elim (Bool-cases (n == 0)) [
  | inl e ↦ rw e (ground arith)
  | inr e ↦ rw e (refl, ground arith)
]

lp-IsPlanned : (n : ℕ) → IsPlanned n (plan_lp_leg n)
unfolding plan_lp_leg
lp-IsPlanned n = elim (Bool-cases (n == 0)) [
  | inl e ↦ rw e (ground arith)
  | inr e ↦ rw e (refl, (ground arith, omega arith, omega arith, omega arith))
]

cons-IsPlanned :
    (n t : ℕ) (p : Option LegPlan) (ps : List (Option LegPlan))
    → IsPlanned n p
    → (total_drawn (keep_some ps) ≡ t) × All IsDraw (keep_some ps)
    → (total_drawn (keep_some (p ∷ ps)) ≡ n + t) × All IsDraw (keep_some (p ∷ ps))
unfolding keep_some
cons-IsPlanned n t none ps k (e, a) = (omega arith, a)
cons-IsPlanned n t (some p) ps (d, k) (e, a) = (omega arith, (k, a))

-- A cycle draws exactly what is pending over the four legs, nothing for an empty leg, and each half
-- of the LP leg at most one unit apart with both together the whole leg.
plan_leg_draws-IsDraw :
    (state : FeeState)
    → (total_drawn (plan_leg_draws state)
        ≡ state.burn_pending + (state.lp_pending + (state.stack_pending + (state.ops_pending + 0))))
      × All IsDraw (plan_leg_draws state)
unfolding plan_leg_draws keep_some
plan_leg_draws-IsDraw state = cons-IsPlanned _ _ _ _ (simple-IsPlanned burn state.burn_pending) (
    cons-IsPlanned _ _ _ _ (lp-IsPlanned state.lp_pending) (
      cons-IsPlanned _ _ _ _ (simple-IsPlanned stack state.stack_pending)
        (cons-IsPlanned _ _ _ _ (simple-IsPlanned ops state.ops_pending) (refl, tt))))
