-- ===== src/Keeper/OtcBuy/Recovery.antt =====
-- What the journal says of a swap after the next cycles: recorded, still unresolved, or lost.
use text.Mathlib.Text.{◌==◌ as str_eq}
use text.Mathlib.TextPositions.{eq_refl}
use hubconnect.Base.{
  ℕ, ◌≤◌, ◌<◌, ◌≡◌, refl, ap, ◌∙◌, Bool, true, false, none, some, List, ◌∷◌, String, ltb, ◌==◌,
  arith, if◌then◌else◌,
}
use hubconnect.Keeper.Checks.{keeper_hard_min_lamports, check_gas_float, check_operational_gate}
use hubconnect.Keeper.OtcBuy.Record.{
  UnresolvedSwap, find_unresolved_swap, find-append, walk_back, unresolved_of, blocked,
}
use hubconnect.Keeper.OtcBuy.Cycle.{
  World, Node, End, swapped, RecordOutcome, recorded, record_threw, run_cycle, with_balance, gated,
  with_pot, resume_or_buy, buy_step, amount_to_swap, after_swap, record_step, book_record, held,
  note_swap, stop,
}
use hubconnect.Keeper.OtcBuy.Resume.{record_step-fronted}

-- A cycle that passes every check, with the lamports that the pot is owed.
pub record Ready (n : Node) (b pending : ℕ) : Type 0 where
  pub funded : n.balance ≡ some b
  pub enough : keeper_hard_min_lamports ≤ b
  pub running : n.paused ≡ some false
  pub sealed : n.sealed ≡ some true
  pub pot :
      n.otc_pot ≡ some (some (record { authority = n.keeper_key; otc_pending_lamports = pending }))

not_below : (a b : ℕ) → b ≤ a → ltb a b ≡ false
not_below a b le = ground arith

is_below : (a b : ℕ) → a < b → ltb a b ≡ true
is_below a b lt = ground arith

nonzero : (a : ℕ) → 0 < a → (a == 0) ≡ false
nonzero a p = ground arith

passes_gas :
    (n : Node) (b : ℕ) (w : World)
    → keeper_hard_min_lamports ≤ b
    → with_balance n (some b) w ≡ gated n b n.paused n.sealed w
unfolding with_balance check_gas_float
passes_gas n b w le =
    rw (with_balance, check_gas_float, not_below b keeper_hard_min_lamports le) refl

passes_pot :
    (n : Node) (b pending : ℕ) (w : World)
    → with_pot n b
        (some (some (record { authority = n.keeper_key; otc_pending_lamports = pending })))
        w
      ≡ resume_or_buy n b pending (find_unresolved_swap w.journal) w
unfolding with_pot
passes_pot n b pending w = rw (eq_refl n.keeper_key) refl

pub run_cycle-Ready :
    (n : Node) (b pending : ℕ) (w : World)
    → Ready n b pending
    → run_cycle n w ≡ resume_or_buy n b pending (find_unresolved_swap w.journal) w
unfolding run_cycle gated check_operational_gate
run_cycle-Ready n b pending w r =
    ap (λ x. with_balance n x w) r.funded
    ∙ passes_gas n b w r.enough
    ∙ ap (λ x. gated n b x n.sealed w) r.running
    ∙ ap (λ x. gated n b (some false) x w) r.sealed
    ∙ ap (λ x. with_pot n b x w) r.pot
    ∙ passes_pot n b pending w

-- The attempt to record `p` when the keeper holds what it bought.
record_step-held :
    (n : Node) (p : UnresolvedSwap) (w : World)
    → 0 < p.bought
    → p.bought ≤ held n.otc_balance
    → record_step n p w ≡ book_record p (n.record_buy p) w
unfolding record_step
record_step-held n p w pos le =
    rw (not_below (held n.otc_balance) p.bought le, nonzero p.bought pos) refl

book_record-recorded :
    (p : UnresolvedSwap) (x : String) (w : World)
    → (find_unresolved_swap (book_record p (recorded x) w).1.journal ≡ none)
      × ((book_record p (recorded x) w).1.booked ≡ p ∷ w.booked)
unfolding book_record walk_back
book_record-recorded p x w = (find-append _ _, refl)

book_record-threw :
    (p : UnresolvedSwap) (landed : Bool) (w : World)
    → find_unresolved_swap (book_record p (record_threw landed) w).1.journal ≡ some p
unfolding book_record walk_back
book_record-threw p landed w = find-append _ _

owed : (n : Node) (b pending : ℕ) → 0 < amount_to_swap n b pending → 0 < pending
unfolding amount_to_swap
owed n b pending p = omega arith

if_not : (c : Bool) (x y : End × World) → c ≡ false → (if c then x else y) ≡ y
if_not c x y e = rw e refl

buys :
    (n : Node) (b pending : ℕ) (w : World)
    → 0 < amount_to_swap n b pending
    → n.is_dry_run ≡ false
    → buy_step n b pending w
      ≡ after_swap n (amount_to_swap n b pending) (n.swap (amount_to_swap n b pending)) w
unfolding buy_step
buys n b pending w some_amount live =
    if_not (pending == 0) _ _ (nonzero pending (owed n b pending some_amount))
    ∙ if_not (amount_to_swap n b pending == 0) _ _ (nonzero _ some_amount)
    ∙ if_not n.is_dry_run _ _ live

-- What an attempt to record leaves: the swap on record and nothing unresolved, or the swap as before.
abbrev pub AfterRecord : UnresolvedSwap → List UnresolvedSwap → RecordOutcome → World → Type 0
AfterRecord p booked (recorded x) w =
    (find_unresolved_swap w.journal ≡ none) × (w.booked ≡ p ∷ booked)
AfterRecord p booked (record_threw landed) w = find_unresolved_swap w.journal ≡ some p

book_record-AfterRecord :
    (p : UnresolvedSwap) (w : World) (r : RecordOutcome)
    → AfterRecord p w.booked r (book_record p r w).1
book_record-AfterRecord p w (recorded x) = book_record-recorded p x w
book_record-AfterRecord p w (record_threw landed) = book_record-threw p landed w

-- A swap that findUnresolvedSwap finds, that bought something, and of which the keeper holds what it
-- bought, is resumed by a cycle that passes the checks: if recording it succeeds, it is on record and resolved; if that throws, it stays unresolved.
pub resumed_until_recorded :
    (n : Node) (b pending : ℕ) (w : World) (p : UnresolvedSwap)
    → Ready n b pending
    → find_unresolved_swap w.journal ≡ some p
    → 0 < p.bought
    → p.bought ≤ held n.otc_balance
    → AfterRecord p w.booked (n.record_buy p) (run_cycle n w).1
unfolding resume_or_buy
resumed_until_recorded n b pending w p ready e pos le =
    rw
      (run_cycle-Ready n b pending w ready
        ∙ ap (λ u. resume_or_buy n b pending u w) e
        ∙ record_step-held n p w pos le)
      (book_record-AfterRecord p w (n.record_buy p))

-- A cycle that passes the checks and whose swap lands, but whose recording throws, leaves exactly
-- that swap unresolved.
swap_then_unresolved :
    (n : Node) (b pending : ℕ) (w : World) (x : String) (out : ℕ) (landed : Bool)
    → Ready n b pending
    → find_unresolved_swap w.journal ≡ none
    → 0 < amount_to_swap n b pending
    → n.is_dry_run ≡ false
    → n.swap (amount_to_swap n b pending) ≡ swapped x out
    → 0 < out
    → out ≤ held n.otc_balance
    → let p : UnresolvedSwap = record {
      bought = out;
      spent = amount_to_swap n b pending;
      swap_tx = x;
    } in
      n.record_buy p ≡ record_threw landed → find_unresolved_swap (run_cycle n w).1.journal ≡ some p
unfolding resume_or_buy after_swap
swap_then_unresolved n b pending w x out landed ready e some_amount live s pos le er =
    let p : UnresolvedSwap = record {
      bought = out;
      spent = amount_to_swap n b pending;
      swap_tx = x;
    } in
    let run : run_cycle n w ≡ after_swap n (amount_to_swap n b pending) (swapped x out) w =
      run_cycle-Ready n b pending w ready
      ∙ ap (λ u. resume_or_buy n b pending u w) e
      ∙ buys n b pending w some_amount live
      ∙ ap (λ r. after_swap n (amount_to_swap n b pending) r w) s in
    ap (λ (y : End × World). find_unresolved_swap y.1.journal)
      (run
        ∙ record_step-held n p (note_swap p w) pos le
        ∙ ap (λ r. book_record p r (note_swap p w)) er)
    ∙ book_record-threw p landed (note_swap p w)

-- The swap that is journaled last is unresolved, should the process die before it is recorded.
pub note_swap-unresolved :
    (p : UnresolvedSwap) (w : World)
    → str_eq p.swap_tx "" ≡ false
    → find_unresolved_swap (note_swap p w).journal ≡ some p
unfolding walk_back unresolved_of
note_swap-unresolved p w e = find-append _ _ ∙ rw e refl

refused :
    (n : Node) (b : ℕ) (w : World)
    → b < keeper_hard_min_lamports
    → with_balance n (some b) w ≡ stop blocked w
unfolding with_balance check_gas_float
refused n b w lt = rw (with_balance, check_gas_float, is_below b keeper_hard_min_lamports lt) refl

low_forgets :
    (n : Node) (b : ℕ) (w : World)
    → n.balance ≡ some b
    → b < keeper_hard_min_lamports
    → run_cycle n w ≡ stop blocked w
unfolding run_cycle
low_forgets n b w e lt = ap (λ x. with_balance n x w) e ∙ refused n b w lt

stop-resolved : (w : World) → find_unresolved_swap (stop blocked w).1.journal ≡ none
unfolding walk_back unresolved_of
stop-resolved w = find-append _ _

-- Whatever was unresolved, once the gas check has stopped a cycle, the next cycle fronts lamports again,
-- if it passes the checks, is no dry run, has a positive amount to swap, and its swap lands: the entry of
-- the stopped cycle hides the swap.
pub stopped_then_fronts :
    (n1 n2 : Node) (b1 b2 pending : ℕ) (w : World) (x : String) (out : ℕ)
    → n1.balance ≡ some b1
    → b1 < keeper_hard_min_lamports
    → Ready n2 b2 pending
    → 0 < amount_to_swap n2 b2 pending
    → n2.is_dry_run ≡ false
    → n2.swap (amount_to_swap n2 b2 pending) ≡ swapped x out
    → (run_cycle n2 (run_cycle n1 w).1).1.fronted ≡ amount_to_swap n2 b2 pending ∷ w.fronted
unfolding resume_or_buy after_swap
stopped_then_fronts n1 n2 b1 b2 pending w x out e1 low ready some_amount live s =
    let a = amount_to_swap n2 b2 pending in
    let v = (stop blocked w).1 in
    let p : UnresolvedSwap = record { bought = out; spent = a; swap_tx = x } in
    ap (λ (y : End × World). (run_cycle n2 y.1).1.fronted) (low_forgets n1 b1 w e1 low)
    ∙ ap (λ (y : End × World). y.1.fronted)
        (run_cycle-Ready n2 b2 pending v ready
          ∙ ap (λ u. resume_or_buy n2 b2 pending u v) (stop-resolved w)
          ∙ buys n2 b2 pending v some_amount live
          ∙ ap (λ r. after_swap n2 a r v) s)
    ∙ record_step-fronted n2 p (note_swap p v)
