-- ===== src/Keeper/Epoch/Refines.antt =====
-- The epoch keeper against a machine that only remembers which epochs it has closed.
use mathlib.Core.Path.{fun_ext}
use hubconnect.Base.{
  ℕ, ◌≡◌, refl, ap, sym, ◌∙◌, Bool, true, false, ◌&&◌, ◌||◌, ◌==◌, if◌then◌else◌, none, some, List,
  [], ◌∷◌, map, arith, Bool-cases, inl, inr,
}
use hubconnect.Sdk.Views.{ConfigView, EpochView}
use hubconnect.Keeper.Epoch.Journal.{
  dry_run, sent, failed, JournalEntry, Json, already_sent, already_sent-append, marks, is_sent,
}
use hubconnect.Keeper.Epoch.Cycle.{
  End, Step, goes, ends, SendReply, signed, send_threw, KeeperEnv, FinalizeCall, Node, ready_round,
  finalize_call, finalize_call_lem,
}
use hubconnect.Keeper.Epoch.Run.{
  send_by, World, entry_of, reaches, note, book_reply, submit, after_ready, run_cycle, run_cycles,
}

-- What the outside lets a cycle do for an epoch that is not closed yet.
pub data Attempt : Type 0 where
  idle : Attempt
  closes : ℕ → Attempt
  misses : ℕ → Bool → Attempt

-- The machine: the epochs that it has closed, and the transactions that got to the network.
pub record Closer : Type 0 where
  pub closed : ℕ → Bool
  pub network : List ℕ

abbrev pub close : ℕ → Closer → Closer
close k m = record { closed = λ j. m.closed j || (k == j); network = k ∷ m.network }

unfoldable pub closer_step : Attempt → Closer → Closer
closer_step idle m = m
closer_step (closes k) m = if m.closed k then m else close k m
closer_step (misses k reached) m =
    if m.closed k then m else record m { network = reaches reached k m.network }

unfoldable pub closer_run : List Attempt → Closer → Closer
closer_run [] m = m
closer_run (a ∷ as_) m = closer_run as_ (closer_step a m)

abbrev of_reply : ℕ → SendReply → Attempt
of_reply k (signed _) = closes k
of_reply k (send_threw reached) = misses k reached

abbrev of_call : KeeperEnv → Node → Step FinalizeCall → Attempt
of_call env n (ends _) = idle
of_call env n (goes call) =
    if env.is_dry_run then idle else of_reply call.epoch (send_by n call env.epoch_alt)

abbrev of_round : KeeperEnv → Node → Step (ConfigView × EpochView) → Attempt
of_round env n (ends _) = idle
of_round env n (goes (config, epoch)) = of_call env n (finalize_call env n config epoch)

unfoldable pub attempt : KeeperEnv → Node → Attempt
attempt env n = of_round env n (ready_round n)

no_mark : (b c : Bool) → (b || (c && false)) ≡ b
no_mark b c = ground arith

mark : (b c : Bool) → (b || (c && true)) ≡ (b || c)
mark b c = ground arith

closed-reply :
    (k : ℕ) (reply : SendReply) (m : Closer)
    → m.closed k ≡ true
    → closer_step (of_reply k reply) m ≡ m
unfolding closer_step
closed-reply k (signed s) m c = rw c refl
closed-reply k (send_threw reached) m c = rw c refl

closed-call :
    (env : KeeperEnv) (n : Node) (k : ℕ) (s : Step FinalizeCall) (m : Closer)
    → ((call : FinalizeCall) → s ≡ goes call → call.epoch ≡ k)
    → m.closed k ≡ true
    → closer_step (of_call env n s) m ≡ m
closed-call env n k (ends e) m same c = unfold closer_step in refl
closed-call env n k (goes call) m same c = elim (Bool-cases env.is_dry_run) [
  | inl dry ↦ rw dry (unfold closer_step in refl)
  | inr live ↦
      rw live (closed-reply call.epoch (send_by n call env.epoch_alt) m (rw (same call refl) c))
]

module _ {Line : Type 0} (json : Json Line) where
  abbrev pub view : World Line → Closer
  view w = record { closed = λ k. already_sent json k w.journal; network = w.submitted }

  abbrev closed_by : World Line → ℕ → Bool
  closed_by w k = already_sent json k w.journal

  closed-unsent :
      (e : JournalEntry) (w : World Line)
      → is_sent e.status ≡ false
      → closed_by (note json e w) ≡ closed_by w
  unfolding marks
  closed-unsent e w u = fun_ext λ k.
      already_sent-append json k e w.journal ∙ rw u (no_mark (closed_by w k) (e.epoch_index == k))

  closed-sent :
      (e : JournalEntry) (w : World Line)
      → is_sent e.status ≡ true
      → closed_by (note json e w) ≡ (λ k. closed_by w k || e.epoch_index == k)
  unfolding marks
  closed-sent e w u =
      fun_ext λ k.
        already_sent-append json k e w.journal ∙ rw u (mark (closed_by w k) (e.epoch_index == k))

  book_reply-step :
      (env : KeeperEnv) (n : Node) (call : FinalizeCall) (reply : SendReply) (w : World Line)
      → already_sent json call.epoch w.journal ≡ false
      → view (book_reply json env n call reply w).1
        ≡ closer_step (of_reply call.epoch reply) (view w)
  unfolding book_reply closer_step is_sent
  book_reply-step env n call (signed s) w fresh = rw fresh (
      ap (λ c. record { closed = c; network = call.epoch ∷ w.submitted })
        (closed-sent (entry_of env n call sent (some s)) w refl))
  book_reply-step env n call (send_threw reached) w fresh = rw fresh (
      ap (λ c. record { closed = c; network = reaches reached call.epoch w.submitted })
        (closed-unsent (entry_of env n call failed none) w refl))

  either_step :
      (b : Bool) (x y : End × World Line) (a c : Attempt) (m : Closer)
      → view x.1 ≡ closer_step a m
      → view y.1 ≡ closer_step c m
      → view (if b then x else y).1 ≡ closer_step (if b then a else c) m
  either_step true x y a c m p q = p
  either_step false x y a c m p q = q

  submit-step :
      (env : KeeperEnv) (n : Node) (k : ℕ) (s : Step FinalizeCall) (w : World Line)
      → already_sent json k w.journal ≡ false
      → ((call : FinalizeCall) → s ≡ goes call → call.epoch ≡ k)
      → view (submit json env n s w).1 ≡ closer_step (of_call env n s) (view w)
  unfolding submit closer_step is_sent
  submit-step env n k (ends e) w fresh same = refl
  submit-step env n k (goes call) w fresh same =
      either_step env.is_dry_run _ _ idle (of_reply call.epoch (send_by n call env.epoch_alt))
        (view w)
        (ap (λ c. record { closed = c; network = w.submitted })
          (closed-unsent (entry_of env n call dry_run none) w refl))
        (book_reply-step env n call (send_by n call env.epoch_alt) w (rw (same call refl) fresh))

  ready-step :
      (env : KeeperEnv) (n : Node) (s : Step (ConfigView × EpochView)) (w : World Line)
      → view (after_ready json env n s w).1 ≡ closer_step (of_round env n s) (view w)
  unfolding after_ready closer_step
  ready-step env n (ends e) w = refl
  ready-step env n (goes (config, epoch)) w =
      elim (Bool-cases (already_sent json config.current_epoch w.journal)) [
        | inl closed ↦ rw closed (
            sym (
              closed-call env n config.current_epoch _ (view w)
                (λ call e. (finalize_call_lem env n config epoch call e).0) closed))
        | inr fresh ↦ rw fresh (
            submit-step env n config.current_epoch (finalize_call env n config epoch) w fresh
              (λ call e. (finalize_call_lem env n config epoch call e).0))
      ]

  run_cycle-step :
      (env : KeeperEnv) (n : Node) (w : World Line)
      → view (run_cycle json env n w).1 ≡ closer_step (attempt env n) (view w)
  unfolding run_cycle attempt
  run_cycle-step env n w = ready-step env n (ready_round n) w

  -- Any sequence of cycles, on the journal's file, does what the machine does with the attempts that
  -- the outside lets those cycles make: it submits the same transactions in the same order, and the
  -- epochs that the journal holds as sent are those that the machine has closed.
  pub run_cycles_refines :
      (env : KeeperEnv) (ns : List Node) (w : World Line)
      → view (run_cycles json env ns w) ≡ closer_run (map (attempt env) ns) (view w)
  unfolding run_cycles closer_run
  run_cycles_refines env [] w = refl
  run_cycles_refines env (n ∷ ns) w =
      run_cycles_refines env ns (run_cycle json env n w).1
      ∙ ap (closer_run (map (attempt env) ns)) (run_cycle-step env n w)
