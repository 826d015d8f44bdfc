-- ===== src/Payouts/Ends.antt =====
-- How the loop that pays ends, and what it counts.
use hubconnect.Base.{
  ℕ, zero, suc, ◌+◌, ◌≤◌, ◌<◌, ◌≡◌, refl, false, some, List, [], ◌∷◌, length, length-drop, take,
  drop, arith,
}
use hubconnect.Payouts.Pay.{Payee, Host, Payment, Run, pay_all, pay_group, started}
use hubconnect.Payouts.Counts.{pay_all-Within}

pay_all-ends :
    (fuel : ℕ) (h : Host) (batch : ℕ) (ps : List Payee) (r : Run)
    → 0 < batch
    → length ps ≤ fuel
    → (after : Run) × (pay_all fuel h batch ps r ≡ some after)
unfolding pay_all
pay_all-ends fuel h batch [] r b le = (r, refl)
pay_all-ends zero h batch (p ∷ ps) r b le = absurd (omega arith)
pay_all-ends (suc fuel) h batch (p ∷ ps) r b le =
    pay_all-ends fuel h batch (drop batch (p ∷ ps)) (pay_group h (take batch (p ∷ ps)) r) b
      (omega (arith, length-drop batch (p ∷ ps)))

-- With a positive batch the loop that pays ends, and unless a call threw, what it paid and what it
-- failed to pay add up to the desks it was given.
pub pay_all-AddsUp :
    (fuel : ℕ) (h : Host) (batch : ℕ) (ps : List Payee) (ledger : List Payment)
    → 0 < batch
    → length ps ≤ fuel
    → (after : Run) × (pay_all fuel h batch ps (started ledger) ≡ some after)
      × (after.crashed ≡ false → after.paid + after.failures ≡ length ps)
pay_all-AddsUp fuel h batch ps ledger b le =
    let (after, e) = pay_all-ends fuel h batch ps (started ledger) b le in
    (
      after,
      e,
      λ c. omega (arith, ((pay_all-Within h "" fuel batch ps (started ledger) after e).1 c).1),
    )
