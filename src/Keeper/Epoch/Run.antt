-- ===== src/Keeper/Epoch/Run.antt =====
-- `sendWithAlt`, the end of `runCycle` and the loop of `main` of keeper/keeper/src/index.ts.
use hubconnect.Base.{
  ℕ, Bool, true, false, leb, if◌then◌else◌, Option, none, some, List, [], ◌∷◌, String,
}
use hubconnect.Sdk.Views.{ConfigView, EpochView}
use hubconnect.Keeper.Epoch.Journal.{
  Status, dry_run, sent, failed, JournalEntry, Json, append_journal, already_sent,
}
use hubconnect.Keeper.Epoch.Cycle.{
  End, returned, threw, Step, goes, ends, SendReply, signed, send_threw, AltSend, KeeperEnv,
  FinalizeCall, Node, memo_safe_limit_bytes, ready_round, finalize_call,
}

abbrev fits_memo : Option ℕ → Option Bool
fits_memo none = none
fits_memo (some size) = some (leb size memo_safe_limit_bytes)

-- `confirmTransaction`, after the transaction got to the network.
abbrev confirmed : Bool → SendReply → SendReply
confirmed true reply = reply
confirmed false (signed s) = send_threw true
confirmed false (send_threw reached) = send_threw reached

abbrev send_sized : AltSend → Option Bool → SendReply
send_sized a none = send_threw false
send_sized a (some true) = confirmed a.confirms (a.send_transaction true)
send_sized a (some false) =
    if a.without_memo then confirmed a.confirms (a.send_transaction false) else send_threw false

abbrev with_table : AltSend → Option Bool → SendReply
with_table a none = send_threw false
with_table a (some false) = send_threw false
with_table a (some true) =
    if a.instruction
    then if a.blockhash then send_sized a (fits_memo a.size_with_memo) else send_threw false
    else send_threw false

-- The message carries the memo only if it stays within the limit with it.
unfoldable pub send_with_alt : AltSend → SendReply
send_with_alt a = with_table a a.lookup_table

abbrev pub send_by : Node → FinalizeCall → Option String → SendReply
send_by n call none = n.rpc call
send_by n call (some _) = send_with_alt (n.alt call)

-- The journal, and the epochs of the transactions that got to the network, the newest first.
pub record World (Line : Type 0) : Type 0 where
  pub journal : List Line
  pub submitted : List ℕ

abbrev pub entry_of : KeeperEnv → Node → FinalizeCall → Status → Option String → JournalEntry
entry_of env n call status signature = record {
  ts = n.now;
  epoch_index = call.epoch;
  swap_total_lamports = call.swap_total;
  min_usdc_out = call.min_usdc_out;
  min_hub_out = call.min_hub_out;
  out_amount = call.out_amount;
  route_labels = call.labels;
  is_dry_run = env.is_dry_run;
  status = status;
  signature = signature;
}

abbrev pub reaches : Bool → ℕ → List ℕ → List ℕ
reaches true k ks = k ∷ ks
reaches false k ks = ks

module _ {Line : Type 0} (json : Json Line) where
  abbrev pub note : JournalEntry → World Line → World Line
  note e w = record w { journal = append_journal json e w.journal }

  unfoldable pub book_reply :
      KeeperEnv → Node → FinalizeCall → SendReply → World Line → End × World Line
  book_reply env n call (signed s) w = (
    returned,
    note (entry_of env n call sent (some s)) (record w { submitted = call.epoch ∷ w.submitted }),
  )
  book_reply env n call (send_threw reached) w = (
    threw,
    note (entry_of env n call failed none)
        (record w { submitted = reaches reached call.epoch w.submitted }),
  )

  unfoldable pub submit : KeeperEnv → Node → Step FinalizeCall → World Line → End × World Line
  submit env n (ends e) w = (e, w)
  submit env n (goes call) w =
      if env.is_dry_run
      then (returned, note (entry_of env n call dry_run none) w)
      else book_reply env n call (send_by n call env.epoch_alt) w

  unfoldable pub after_ready :
      KeeperEnv → Node → Step (ConfigView × EpochView) → World Line → End × World Line
  after_ready env n (ends e) w = (e, w)
  after_ready env n (goes (config, epoch)) w =
      if already_sent json config.current_epoch w.journal
      then (returned, w)
      else submit env n (finalize_call env n config epoch) w

  unfoldable pub run_cycle : KeeperEnv → Node → World Line → End × World Line
  run_cycle env n w = after_ready env n (ready_round n) w

  -- The loop of `main`, which survives a cycle that throws.
  unfoldable pub run_cycles : KeeperEnv → List Node → World Line → World Line
  run_cycles env [] w = w
  run_cycles env (n ∷ ns) w = run_cycles env ns (run_cycle env n w).1
