-- ===== src/Keeper/Epoch/Once.antt =====
-- When the epoch keeper submits, and that it does not again for an epoch that is on record as sent.
use hubconnect.Base.{
  ℕ, ◌+◌, ◌≡◌, ◌≤◌, ◌<◌, ◌⊎◌, refl, ap, ◌∙◌, Bool, true, false, ◌==◌, if◌then◌else◌, some, List, [],
  ◌∷◌, map, arith, Bool-cases, ==_iff, inl, inr, subst,
}
use hubconnect.Sdk.Views.{ConfigView, EpochView}
use hubconnect.Sdk.Rounds.{can_finalize, can_finalize_iff, lamports_to_threshold}
use hubconnect.Keeper.Checks.{
  keeper_hard_min_lamports, keeper_drip_trigger_lamports, keeper_target_ceiling_lamports,
  check_gas_float, check_operational_gate,
}
use hubconnect.Keeper.Epoch.Journal.{Json, already_sent}
use hubconnect.Keeper.Epoch.Cycle.{
  End, Step, goes, ends, SendReply, signed, send_threw, KeeperEnv, FinalizeCall, Node, gas_passes,
  gate_passes, read-goes, check-goes, ready_round, finalize_call, finalize_call_lem,
}
use hubconnect.Keeper.Epoch.Run.{
  send_by, World, book_reply, submit, after_ready, run_cycle, run_cycles,
}
use hubconnect.Keeper.Epoch.Refines.{
  Attempt, idle, closes, misses, Closer, closer_step, closer_run, attempt, view, run_cycles_refines,
}

abbrev pub count : ℕ → List ℕ → ℕ
count k [] = 0
count k (j ∷ js) = (if j == k then 1 else 0) + count k js

-- The machine keeps a closed epoch closed and submits nothing for it.
no_hit : (j k : ℕ) (m : Closer) → m.closed k ≡ true → m.closed j ≡ false → (j == k) ≡ false
no_hit j k m c f = elim (Bool-cases (j == k)) [
  | inl e ↦ let same = (==_iff j k).0 e in let t = ap m.closed same ∙ c in cc
  | inr e ↦ e
]

closer_step-closed :
    (k : ℕ) (a : Attempt) (m : Closer)
    → m.closed k ≡ true
    → ((closer_step a m).closed k ≡ true) × (count k (closer_step a m).network ≡ count k m.network)
unfolding closer_step
closer_step-closed k idle m c = (c, refl)
closer_step-closed k (closes j) m c = ground (arith, no_hit j k m c)
closer_step-closed k (misses j true) m c = ground (arith, no_hit j k m c)
closer_step-closed k (misses j false) m c = ground arith

closer_run-closed :
    (k : ℕ) (as_ : List Attempt) (m : Closer)
    → m.closed k ≡ true
    → count k (closer_run as_ m).network ≡ count k m.network
unfolding closer_run
closer_run-closed k [] m c = refl
closer_run-closed k (a ∷ as_) m c =
    let s = closer_step-closed k a m c in closer_run-closed k as_ (closer_step a m) s.0 ∙ s.1

-- Once the journal holds a sent entry of an epoch, no sequence of cycles submits another transaction
-- for it, whatever the outside answers.
pub sent_never_again :
    {Line : Type 0} (json : Json Line) (env : KeeperEnv) (ns : List Node) (w : World Line) (k : ℕ)
    → already_sent json k w.journal ≡ true
    → count k (run_cycles json env ns w).submitted ≡ count k w.submitted
sent_never_again json env ns w k sent_before =
    ap (λ m. count k m.network) (run_cycles_refines json env ns w)
    ∙ closer_run-closed k (map (attempt env) ns) (view json w) sent_before

-- What holds where a cycle submits a transaction for an epoch.
pub record Permits {Line : Type 0} (json : Json Line) (env : KeeperEnv) (n : Node) (w : World Line)
    (c : ConfigView) (e : EpochView) : Type 0 where
  pub funded : (b : ℕ) × (n.balance ≡ some b) × (keeper_hard_min_lamports ≤ b)
  pub live : env.is_dry_run ≡ false
  pub configured : n.config ≡ some c
  pub current : n.epoch_account c.current_epoch ≡ some e
  pub unpaused : c.paused ≡ false
  pub sealed : n.mint_sealed ≡ some true
  pub still_open : e.finalized ≡ false
  pub weighted : 0 < c.total_weight_bp
  pub reached_threshold : lamports_to_threshold e c ≡ 0
  pub unsent : already_sent json c.current_epoch w.journal ≡ false

gas_bound :
    (b : ℕ)
    → gas_passes (
        check_gas_float b keeper_hard_min_lamports keeper_drip_trigger_lamports
          keeper_target_ceiling_lamports)
      ≡ true
    → keeper_hard_min_lamports ≤ b
unfolding check_gas_float
gas_bound b h = ground arith

gate_bound :
    (p s : Bool) → gate_passes (check_operational_gate p s) ≡ true → (p ≡ false) × (s ≡ true)
unfolding check_operational_gate
gate_bound true s h = cc
gate_bound false false h = cc
gate_bound false true h = (refl, refl)

abbrev Ready : Node → ConfigView → EpochView → Type 0
Ready n c e =
    ((b : ℕ) × (n.balance ≡ some b) × (keeper_hard_min_lamports ≤ b))
    × (n.config ≡ some c)
    × (n.epoch_account c.current_epoch ≡ some e)
    × (c.paused ≡ false)
    × (n.mint_sealed ≡ some true)
    × (can_finalize e c ≡ true)

goes-injective : {A : Type 0} {a b : A} → goes a ≡ goes b → a ≡ b
goes-injective h = cc

ready_round-Ready :
    (n : Node) (c : ConfigView) (e : EpochView) → ready_round n ≡ goes (c, e) → Ready n c e
unfolding ready_round
ready_round-Ready n c e h =
    let (b, rb, h1) = read-goes n.balance _ h in
    let (gas, h2) =
      check-goes
        (gas_passes (
          check_gas_float b keeper_hard_min_lamports keeper_drip_trigger_lamports
            keeper_target_ceiling_lamports))
        _ h1 in
    let (c', rc, h3) = read-goes n.config _ h2 in
    let (e', re, h4) = read-goes (n.epoch_account c'.current_epoch) _ h3 in
    let (s, rs, h5) = read-goes n.mint_sealed _ h4 in
    let (gate, h6) = check-goes (gate_passes (check_operational_gate c'.paused s)) _ h5 in
    let (fin, h7) = check-goes (can_finalize e' c') _ h6 in
    let same : (c', e') ≡ (c, e) = goes-injective h7 in
    subst (λ p. Ready n p.0 p.1) same
      (
        (b, rb, gas_bound b gas),
        rc,
        re,
        (gate_bound c'.paused s gate).0,
        rs ∙ ap some (gate_bound c'.paused s gate).1,
        fin,
      )

abbrev pub SubmitsTo : {Line : Type 0} → Json Line → KeeperEnv → Node → World Line → List ℕ → Type 0
SubmitsTo json env n w after =
    (after ≡ w.submitted)
    ⊎ ((c : ConfigView) × (e : EpochView) × Permits json env n w c e
        × (after ≡ c.current_epoch ∷ w.submitted))

module _ {Line : Type 0} (json : Json Line) (env : KeeperEnv) (n : Node) (w : World Line) where
  book_reply-submitted :
      (call : FinalizeCall) (reply : SendReply)
      → let after = (book_reply json env n call reply w).1.submitted in
        (after ≡ w.submitted) ⊎ (after ≡ call.epoch ∷ w.submitted)
  unfolding book_reply
  book_reply-submitted call (signed s) = inr refl
  book_reply-submitted call (send_threw true) = inr refl
  book_reply-submitted call (send_threw false) = inl refl

  either_submitted :
      (dry : Bool) (call : FinalizeCall) (x y : End × World Line)
      → x.1.submitted ≡ w.submitted
      → (y.1.submitted ≡ w.submitted) ⊎ (y.1.submitted ≡ call.epoch ∷ w.submitted)
      → let after = (if dry then x else y).1.submitted in
        (after ≡ w.submitted)
        ⊎ ((dry ≡ false)
            × ((made : FinalizeCall) × (goes call ≡ goes made)
                × (after ≡ made.epoch ∷ w.submitted)))
  either_submitted true call x y p q = inl p
  either_submitted false call x y p (inl q) = inl q
  either_submitted false call x y p (inr q) = inr (refl, (call, refl, q))

  submit-submitted :
      (s : Step FinalizeCall)
      → let after = (submit json env n s w).1.submitted in
        (after ≡ w.submitted)
        ⊎ ((env.is_dry_run ≡ false)
            × ((call : FinalizeCall) × (s ≡ goes call) × (after ≡ call.epoch ∷ w.submitted)))
  unfolding submit
  submit-submitted (ends e) = inl refl
  submit-submitted (goes call) =
      either_submitted env.is_dry_run call _ _ refl
        (book_reply-submitted call (send_by n call env.epoch_alt))

  permitted :
      (c : ConfigView) (e : EpochView) {after : List ℕ}
      → already_sent json c.current_epoch w.journal ≡ false
      → Ready n c e
      → (after ≡ w.submitted)
        ⊎ ((env.is_dry_run ≡ false)
            × ((call : FinalizeCall) × (finalize_call env n c e ≡ goes call)
                × (after ≡ call.epoch ∷ w.submitted)))
      → SubmitsTo json env n w after
  permitted c e fresh r (inl same) = inl same
  permitted c e fresh r (inr (live, (call, made, sent_one))) =
      let open_round = (can_finalize_iff e c).0 r.5 in
      inr (
        c,
        e,
        record {
          funded = r.0;
          live = live;
          configured = r.1;
          current = r.2;
          unpaused = r.3;
          sealed = r.4;
          still_open = open_round.0;
          weighted = open_round.1;
          reached_threshold = open_round.2;
          unsent = fresh;
        },
        sent_one ∙ ap (λ k. k ∷ w.submitted) (finalize_call_lem env n c e call made).0,
      )

  after_ready-Submits :
      (s : Step (ConfigView × EpochView))
      → ((c : ConfigView) (e : EpochView) → s ≡ goes (c, e) → Ready n c e)
      → SubmitsTo json env n w (after_ready json env n s w).1.submitted
  unfolding after_ready
  after_ready-Submits (ends e) ready = inl refl
  after_ready-Submits (goes (c, e)) ready =
      elim (Bool-cases (already_sent json c.current_epoch w.journal)) [
        | inl closed ↦ inl (rw closed refl)
        | inr fresh ↦
            rw fresh
              (permitted c e fresh (ready c e refl) (submit-submitted (finalize_call env n c e)))
      ]

  -- A cycle submits nothing, or one transaction, for the current epoch; and that only with the gas it
  -- needs, outside a dry run, while the program is not paused and the mint sealed, for a round that
  -- is open, has some active weight and misses no lamport, and that the journal holds as not sent.
  pub run_cycle-Submits : SubmitsTo json env n w (run_cycle json env n w).1.submitted
  unfolding run_cycle
  run_cycle-Submits = after_ready-Submits (ready_round n) (λ c e h. ready_round-Ready n c e h)
