-- ===== src/Keeper/OtcBuy/Cycle.antt =====
-- `runCycle` of keeper/otc-buy/src/index.ts, on the journal and on what landed on chain.
use text.Mathlib.Text.{◌==◌ as str_eq}
use Prim.Native.Nat.{min}
use hubconnect.Base.{
  ℕ, ◌-◌, Bool, true, false, Option, none, some, List, ◌∷◌, String, ltb, ◌==◌, if◌then◌else◌,
}
use hubconnect.Keeper.Checks.{
  keeper_hard_min_lamports, keeper_drip_trigger_lamports, keeper_target_ceiling_lamports, gas_ok,
  gas_refused, check_gas_float, gate_ok, check_operational_gate,
}
use hubconnect.Keeper.OtcBuy.Record.{
  otc_buy, Status, waited, blocked, dry_run, swap_sent, sent, confirm_error, failed, Meta,
  JournalEntry, no_meta, append_journal, UnresolvedSwap, find_unresolved_swap,
}

abbrev pub reserve_lamports : ℕ
reserve_lamports = 20_000_000

-- How `swapExactIn` ended; `swap_threw true` is a call that threw although the swap landed.
pub data SwapOutcome : Type 0 where
  swapped : String → ℕ → SwapOutcome
  swap_threw : Bool → SwapOutcome

-- The same for `recordBuy`.
pub data RecordOutcome : Type 0 where
  recorded : String → RecordOutcome
  record_threw : Bool → RecordOutcome

pub record OtcPot : Type 0 where
  pub authority : String
  pub otc_pending_lamports : ℕ

-- What one cycle reads; `none` is a read that throws. `otc_pot` holds `none` if the account is not
-- there. `max_swap` is a number of lamports that the environment may set.
pub record Node : Type 0 where
  pub keeper_key : String
  pub is_dry_run : Bool
  pub max_swap : ℕ
  pub balance : Option ℕ
  pub paused : Option Bool
  pub sealed : Option Bool
  pub otc_pot : Option (Option OtcPot)
  pub otc_balance : Option ℕ
  pub swap : ℕ → SwapOutcome
  pub record_buy : UnresolvedSwap → RecordOutcome

-- The journal, the lamports that each landed swap took, and the purchases recorded on chain.
pub record World : Type 0 where
  pub journal : List JournalEntry
  pub fronted : List ℕ
  pub booked : List UnresolvedSwap

pub data End : Type 0 where
  returned threw : End

abbrev pub note : Status → Option String → Meta → World → World
note status signature info w = record w {
  journal =
      append_journal
        (record { service = otc_buy; status = status; signature = signature; info = info })
        w.journal;
}

abbrev pub stop : Status → World → End × World
stop status w = (returned, note status none no_meta w)

abbrev pub meta_of : UnresolvedSwap → Option String → Meta
meta_of p signature = record {
  otc_bought = some p.bought;
  lamports_spent = some p.spent;
  swap_signature = signature;
}

abbrev pub lands : {A : Type 0} → Bool → A → List A → List A
lands true a xs = a ∷ xs
lands false a xs = xs

unfoldable pub book_record : UnresolvedSwap → RecordOutcome → World → End × World
book_record p (recorded x) w =
    (returned, note sent (some x) (meta_of p (some p.swap_tx)) (record w { booked = p ∷ w.booked }))
book_record p (record_threw landed) w = (
  threw,
  note confirm_error none (meta_of p (some p.swap_tx))
      (record w { booked = lands landed p w.booked }),
)

-- The $OTC that the keeper holds; a read that throws counts as none.
abbrev pub held : Option ℕ → ℕ
held none = 0
held (some n) = n

abbrev pub clamp : ℕ → UnresolvedSwap → UnresolvedSwap
clamp have p = if ltb have p.bought then record p { bought = have } else p

unfoldable pub record_step : Node → UnresolvedSwap → World → End × World
unfolding book_record
record_step n p w =
    let q = clamp (held n.otc_balance) p in
    if q.bought == 0 then stop failed w else book_record q (n.record_buy q) w

abbrev pub note_swap : UnresolvedSwap → World → World
note_swap p w =
    note swap_sent (some p.swap_tx) (meta_of p none) (record w { fronted = p.spent ∷ w.fronted })

unfoldable pub after_swap : Node → ℕ → SwapOutcome → World → End × World
unfolding record_step
after_swap n amount (swapped x out) w =
    let p : UnresolvedSwap = record { bought = out; spent = amount; swap_tx = x } in
    record_step n p (note_swap p w)
after_swap n amount (swap_threw landed) w =
    (threw, note failed none no_meta (record w { fronted = lands landed amount w.fronted }))

unfoldable pub amount_to_swap : Node → ℕ → ℕ → ℕ
amount_to_swap n balance pending =
    min pending (min n.max_swap (balance - keeper_hard_min_lamports - reserve_lamports))

unfoldable pub buy_step : Node → ℕ → ℕ → World → End × World
unfolding amount_to_swap after_swap
buy_step n balance pending w =
    if pending == 0
    then stop waited w
    else if amount_to_swap n balance pending == 0
    then stop blocked w
    else if n.is_dry_run
    then stop dry_run w
    else after_swap n (amount_to_swap n balance pending) (n.swap (amount_to_swap n balance pending))
        w

unfoldable pub resume_or_buy : Node → ℕ → ℕ → Option UnresolvedSwap → World → End × World
unfolding buy_step record_step
resume_or_buy n balance pending (some p) w = record_step n p w
resume_or_buy n balance pending none w = buy_step n balance pending w

unfoldable pub with_pot : Node → ℕ → Option (Option OtcPot) → World → End × World
unfolding resume_or_buy
with_pot n balance none w = (threw, w)
with_pot n balance (some none) w = stop waited w
with_pot n balance (some (some pot)) w =
    if str_eq pot.authority n.keeper_key
    then resume_or_buy n balance pot.otc_pending_lamports (find_unresolved_swap w.journal) w
    else stop blocked w

unfoldable pub gated : Node → ℕ → Option Bool → Option Bool → World → End × World
unfolding with_pot
gated n balance (some paused) (some sealed) w = elim (check_operational_gate paused sealed) [
  | gate_ok ↦ with_pot n balance n.otc_pot w
  | _ ↦ stop blocked w
]
gated n balance _ _ w = (threw, w)

unfoldable pub with_balance : Node → Option ℕ → World → End × World
unfolding gated
with_balance n none w = (threw, w)
with_balance n (some balance) w =
    elim (check_gas_float balance keeper_hard_min_lamports keeper_drip_trigger_lamports
      keeper_target_ceiling_lamports) [
        | gas_ok d ↦ gated n balance n.paused n.sealed w
        | gas_refused ↦ stop blocked w
      ]

unfoldable pub run_cycle : Node → World → End × World
unfolding with_balance
run_cycle n w = with_balance n n.balance w
