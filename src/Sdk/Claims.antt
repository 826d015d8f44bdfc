-- ===== src/Sdk/Claims.antt =====
-- sdk/src/reader.ts: what a desk can take of the rounds that were closed, and what that is in $OTC.
use native.Mathlib.Nat.{add-mul}
use hubconnect.Base.{
  ℕ, ◌+◌, ◌-◌, ◌*◌, ◌/◌, ◌≤◌, ◌≡◌, refl, Bool, true, false, not, ◌||◌, leb, ◌==◌, if◌then◌else◌,
  Option, none, some, ==_iff, List, [], ◌∷◌, length, arith, Bool-cases, inl, inr,
}
use hubconnect.Sdk.Constants.{acc_scale}
use hubconnect.Sdk.Tiers.{weight_bp}
use hubconnect.Sdk.Views.{ConfigView, EpochView, DeskTierView, OtcPotView}

unfoldable pub owed_for_epoch : EpochView → ℕ → ℕ
owed_for_epoch e tier =
    if not e.finalized || weight_bp tier == 0
    then 0
    else e.per_weight_scaled * weight_bp tier / acc_scale

-- The body of `pendingYieldLamports`, for a weight, a stamp and the accumulator.
unfoldable pub pending_of : Bool → ℕ → ℕ → ℕ → ℕ
pending_of voided w stamp acc =
    if voided || w == 0 || leb acc stamp then 0 else (acc - stamp) * w / acc_scale

unfoldable pub pending_yield_lamports : DeskTierView → ConfigView → ℕ
pending_yield_lamports t c =
    pending_of t.voided (weight_bp t.tier) t.stamp_acc_per_weight c.acc_per_weight

abbrev due_at : ℕ → OtcPotView → Option ℕ
due_at owed p =
    if p.total_lamports_spent == 0 || owed == 0
    then none
    else some (owed * p.total_otc_bought_units / p.total_lamports_spent)

-- `none` where there is no pot, it has bought nothing yet, or nothing is owed.
unfoldable pub otc_due_for_lamports : ℕ → Option OtcPotView → Option ℕ
otc_due_for_lamports owed none = none
otc_due_for_lamports owed (some p) = due_at owed p

-- The desk, its stamp moved to where the accumulator stood when it claimed.
abbrev pub restamped : DeskTierView → ConfigView → DeskTierView
restamped t c = record t { stamp_acc_per_weight = c.acc_per_weight }

zero_of_le : (a b w : ℕ) → a ≤ b → (a - b) * w / acc_scale ≡ 0
zero_of_le a b w h = let z : a - b ≡ 0 = omega arith in rw z (omega arith)

-- The tests of `pendingYieldLamports` only spare a division that gives 0.
pending_of-active : (w stamp acc : ℕ) → pending_of false w stamp acc ≡ (acc - stamp) * w / acc_scale
unfolding pending_of
pending_of-active w stamp acc = elim (Bool-cases (w == 0)) [
  | inl none_active ↦ rw ((==_iff w 0).0 none_active) (ground arith)
  | inr active ↦ rw active (ground (arith, zero_of_le acc stamp w))
]

claims_of :
    (v : Bool) (w stamp mid late : ℕ)
    → stamp ≤ mid
    → mid ≤ late
    → let twice = pending_of v w stamp mid + pending_of v w mid late in
      (twice ≤ pending_of v w stamp late) × (pending_of v w stamp late ≤ twice + 1)
unfolding pending_of
claims_of true w stamp mid late h k = (omega arith, omega arith)
claims_of false w stamp mid late h k =
    rw (pending_of-active w stamp mid, pending_of-active w mid late, pending_of-active w stamp late)
      (let whole : (late - stamp) * w ≡ (mid - stamp) * w + (late - mid) * w =
          let d : late - stamp ≡ (mid - stamp) + (late - mid) = omega arith in
          rw d (add-mul (mid - stamp) (late - mid) w) in
        (omega arith, omega arith))

-- A desk that claims at `mid` and again at `late` gets, together, what one claim at `late` would have
-- paid, or one lamport less.
pub claims_add_up :
    (t : DeskTierView) (mid late : ConfigView)
    → t.stamp_acc_per_weight ≤ mid.acc_per_weight
    → mid.acc_per_weight ≤ late.acc_per_weight
    → let twice = pending_yield_lamports t mid + pending_yield_lamports (restamped t mid) late in
      let once = pending_yield_lamports t late in (twice ≤ once) × (once ≤ twice + 1)
unfolding pending_yield_lamports
claims_add_up t mid late h k =
    claims_of t.voided (weight_bp t.tier) t.stamp_acc_per_weight mid.acc_per_weight
      late.acc_per_weight h k

-- The closed rounds from one value of the accumulator to another.
abbrev pub LeadsTo : ℕ → List EpochView → ℕ → Type 0
LeadsTo from [] to = from ≡ to
LeadsTo from (e ∷ es) to =
    (e.finalized ≡ true)
    × (e.acc_per_weight_after ≡ from + e.per_weight_scaled)
    × LeadsTo e.acc_per_weight_after es to

abbrev pub owed_for_epochs : List EpochView → ℕ → ℕ
owed_for_epochs [] tier = 0
owed_for_epochs (e ∷ es) tier = owed_for_epoch e tier + owed_for_epochs es tier

LeadsTo-le : (from to : ℕ) (es : List EpochView) → LeadsTo from es to → from ≤ to
LeadsTo-le from to [] r = omega arith
LeadsTo-le from to (e ∷ es) r = omega (arith, LeadsTo-le e.acc_per_weight_after to es r.2)

unguarded :
    (w n : ℕ) (finalized : Bool)
    → finalized ≡ true
    → (if not finalized || w == 0 then 0 else n * w / acc_scale) ≡ n * w / acc_scale
unguarded w n finalized f =
    rw f (elim (Bool-cases (w == 0)) [
      | inl e ↦ rw ((==_iff w 0).0 e) (omega arith)
      | inr e ↦ rw e refl
    ])

owed-pending :
    (e : EpochView) (tier from : ℕ)
    → e.finalized ≡ true
    → e.acc_per_weight_after ≡ from + e.per_weight_scaled
    → owed_for_epoch e tier ≡ pending_of false (weight_bp tier) from e.acc_per_weight_after
unfolding owed_for_epoch
owed-pending e tier from f a = rw (pending_of-active (weight_bp tier) from e.acc_per_weight_after) (
    let d : e.acc_per_weight_after - from ≡ e.per_weight_scaled = omega arith in
    rw d (unguarded (weight_bp tier) e.per_weight_scaled e.finalized f))

rounds_of :
    (tier from to : ℕ) (es : List EpochView)
    → LeadsTo from es to
    → let pending = pending_of false (weight_bp tier) from to in
      (owed_for_epochs es tier ≤ pending) × (pending ≤ owed_for_epochs es tier + length es)
rounds_of tier from to [] r =
    rw (pending_of-active (weight_bp tier) from to)
      (let z = zero_of_le to from (weight_bp tier) (omega arith) in (omega arith, omega arith))
rounds_of tier from to (e ∷ es) r =
    let mid = e.acc_per_weight_after in
    omega (
      arith,
      owed-pending e tier from r.0 r.1,
      rounds_of tier mid to es r.2,
      claims_of false (weight_bp tier) from mid to (omega arith) (LeadsTo-le mid to es r.2),
    )

-- For a desk that is not voided, and closed rounds that lead from its stamp to the accumulator of the
-- config: what the rounds owe it, each by itself, is what the accumulator says that it can take, or less
-- by at most one lamport for each round.
pub rounds_add_up :
    (t : DeskTierView) (c : ConfigView) (es : List EpochView)
    → t.voided ≡ false
    → LeadsTo t.stamp_acc_per_weight es c.acc_per_weight
    → (owed_for_epochs es t.tier ≤ pending_yield_lamports t c)
      × (pending_yield_lamports t c ≤ owed_for_epochs es t.tier + length es)
unfolding pending_yield_lamports
rounds_add_up t c es v r = rw v (rounds_of t.tier t.stamp_acc_per_weight c.acc_per_weight es r)
