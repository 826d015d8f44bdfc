-- ===== src/Keeper/OtcBuy/Resume.antt =====
-- What a cycle fronts and records, and what the next one resumes.
use text.Mathlib.Text.{◌==◌ as str_eq}
use hubconnect.Base.{
  ℕ, ◌+◌, ◌≤◌, ◌<◌, ◌≡◌, inl, inr, refl, Bool, true, false, Option, none, some, List, ◌∷◌, ◌==◌,
  arith, Bool-cases, if◌then◌else◌,
}
use hubconnect.Keeper.Checks.{
  keeper_hard_min_lamports, GasFloatCheck, check_operational_gate, gas_ok, gas_refused,
}
use hubconnect.Keeper.OtcBuy.Record.{UnresolvedSwap, find_unresolved_swap, blocked, Status}
use hubconnect.Keeper.OtcBuy.Cycle.{
  World, Node, OtcPot, End, threw, SwapOutcome, swapped, swap_threw, RecordOutcome, recorded,
  record_threw, reserve_lamports, run_cycle, with_balance, gated, with_pot, resume_or_buy, buy_step,
  amount_to_swap, after_swap, record_step, book_record, clamp, held, stop,
}

-- What one cycle may do to the fronted lamports: nothing, or one amount within all bounds.
pub data Fronts (n : Node) : List ℕ → List ℕ → Type 0 where
  fronts_none : (xs : List ℕ) → Fronts n xs xs
  fronts_one :
      (xs : List ℕ) (a b : ℕ) (pot : OtcPot)
      → n.balance ≡ some b
      → n.otc_pot ≡ some (some pot)
      → 0 < a
      → a ≤ pot.otc_pending_lamports
      → a ≤ n.max_swap
      → a + keeper_hard_min_lamports + reserve_lamports ≤ b
      → Fronts n xs (a ∷ xs)

book_record-fronted :
    (p : UnresolvedSwap) (r : RecordOutcome) (w : World) → (book_record p r w).1.fronted ≡ w.fronted
unfolding book_record
book_record-fronted p (recorded x) w = refl
book_record-fronted p (record_threw b) w = refl

pub record_step-fronted :
    (n : Node) (p : UnresolvedSwap) (w : World) → (record_step n p w).1.fronted ≡ w.fronted
unfolding record_step
record_step-fronted n p w = elim (Bool-cases ((clamp (held n.otc_balance) p).bought == 0)) [
  | inl e ↦ rw e refl
  | inr e ↦ rw e (book_record-fronted _ _ w)
]

-- What holds of a choice if it holds of both sides.
if_rule :
    (P : End × World → Type 0) (c : Bool) (x y : End × World)
    → (c ≡ true → P x)
    → (c ≡ false → P y)
    → P (if c then x else y)
if_rule P true x y f g = f refl
if_rule P false x y f g = g refl

-- The checks before a cycle: what holds when it throws or stops, and when it resumes or buys, holds.
module _ (n : Node) (w : World) (P : End × World → Type 0) (threw_rule : P (threw, w)) where
  module _ (stop_rule : (s : Status) → P (stop s w)) where
    -- What holds of the rest for the pot that is read, holds.
    abbrev Pending : ℕ → Type 0
    Pending b =
        (pot : OtcPot)
        → n.otc_pot ≡ some (some pot)
        → P (resume_or_buy n b pot.otc_pending_lamports (find_unresolved_swap w.journal) w)

    with_pot_rule :
        (b : ℕ) (pot : Option (Option OtcPot))
        → n.otc_pot ≡ pot
        → Pending b
        → P (with_pot n b pot w)
    unfolding with_pot
    with_pot_rule b none e f = threw_rule
    with_pot_rule b (some none) e f = stop_rule _
    with_pot_rule b (some (some pot)) e f =
        if_rule P (str_eq pot.authority n.keeper_key) _ _ (λ _. f pot e) (λ _. stop_rule _)

    gated_rule : (b : ℕ) (paused sealed : Option Bool) → Pending b → P (gated n b paused sealed w)
    unfolding gated check_operational_gate
    gated_rule b (some false) (some true) f = with_pot_rule b n.otc_pot refl f
    gated_rule b (some true) (some sealed) f = stop_rule _
    gated_rule b (some false) (some false) f = stop_rule _
    gated_rule b none sealed f = threw_rule
    gated_rule b (some paused) none f = threw_rule

    checked_rule :
        (b : ℕ) (c : GasFloatCheck)
        → Pending b
        → P (elim c as (λ _. End × World) [
          | gas_ok d ↦ gated n b n.paused n.sealed w
          | gas_refused ↦ stop blocked w
        ])
    checked_rule b (gas_ok d) f = gated_rule b n.paused n.sealed f
    checked_rule b gas_refused f = stop_rule _

    with_balance_rule :
        (balance : Option ℕ)
        → ((b : ℕ) → balance ≡ some b → Pending b)
        → P (with_balance n balance w)
    unfolding with_balance
    with_balance_rule none f = threw_rule
    with_balance_rule (some b) f = checked_rule b _ (f b refl)

    run_cycle_rule : ((b : ℕ) → n.balance ≡ some b → Pending b) → P (run_cycle n w)
    unfolding run_cycle
    run_cycle_rule f = with_balance_rule n.balance f

module _ (n : Node) (b : ℕ) (funded : n.balance ≡ some b) (pot : OtcPot)
    (owed : n.otc_pot ≡ some (some pot)) (w : World) where
  abbrev pending : ℕ
  pending = pot.otc_pending_lamports

  abbrev Kept : End × World → Type 0
  Kept x = Fronts n w.fronted x.1.fronted

  after_swap-Fronts :
      0 < amount_to_swap n b pending
      → (r : SwapOutcome) → Kept (after_swap n (amount_to_swap n b pending) r w)
  unfolding after_swap amount_to_swap
  after_swap-Fronts p (swapped x out) =
      rw
        (record_step-fronted n
          (record { bought = out; spent = amount_to_swap n b pending; swap_tx = x }) _)
        (fronts_one _ _ b pot funded owed p (omega arith) (omega arith) (omega arith))
  after_swap-Fronts p (swap_threw true) =
      fronts_one _ _ b pot funded owed p (omega arith) (omega arith) (omega arith)
  after_swap-Fronts p (swap_threw false) = fronts_none _

  buy_step-Fronts : Kept (buy_step n b pending w)
  unfolding buy_step
  buy_step-Fronts =
      if_rule Kept (pending == 0) _ _ (λ _. fronts_none _)
        λ _.
          if_rule Kept (amount_to_swap n b pending == 0) _ _ (λ _. fronts_none _)
            λ f.
              if_rule Kept n.is_dry_run _ _ (λ _. fronts_none _)
                λ _. after_swap-Fronts (ground arith) _

  resume_or_buy-Fronts : (u : Option UnresolvedSwap) → Kept (resume_or_buy n b pending u w)
  unfolding resume_or_buy
  resume_or_buy-Fronts none = buy_step-Fronts
  resume_or_buy-Fronts (some p) = rw (record_step-fronted n p w) (fronts_none _)

-- One cycle fronts nothing or exactly one amount: positive, no more than the pot is owed, no more
-- than the ceiling for a cycle, and so that the wallet keeps the hard minimum and the reserve.
pub run_cycle-Fronts : (n : Node) (w : World) → Fronts n w.fronted (run_cycle n w).1.fronted
run_cycle-Fronts n w =
    run_cycle_rule n w (λ x. Fronts n w.fronted x.1.fronted) (fronts_none _) (λ s. fronts_none _)
      (λ b e pot o. resume_or_buy-Fronts n b e pot o w (find_unresolved_swap w.journal))

-- As long as findUnresolvedSwap finds a swap in the journal, no cycle fronts any lamports.
pub run_cycle_resumes :
    (n : Node) (w : World) (p : UnresolvedSwap)
    → find_unresolved_swap w.journal ≡ some p
    → (run_cycle n w).1.fronted ≡ w.fronted
unfolding resume_or_buy
run_cycle_resumes n w p e =
    run_cycle_rule n w (λ x. x.1.fronted ≡ w.fronted) refl (λ s. refl)
      (λ b _ pot _. rw e (record_step-fronted n p w))
