-- ===== src/Payouts/Airdrop.antt =====
-- The airdrop: publishing the snapshot's root, then a payment to each desk that has none.
use text.Mathlib.Text.{◌==◌ as str_eq}
use hubconnect.Base.{
  ℕ, ltb, Bool, not, ◌&&◌, Option, none, some, List, String, length, if◌then◌else◌,
}
use hubconnect.Payouts.Pay.{Payee, Payment, Host, Run, pay_all, pending, started}

pub record Snapshot : Type 0 where
  pub program_id : String
  pub root : String
  pub desk_count : ℕ
  pub entries : List Payee

-- The flags of the command line.
pub record Args : Type 0 where
  pub publish_root : Bool
  pub opens : Bool
  pub dry_run : Bool
  pub force : Bool
  pub batch : ℕ

-- What is read on chain, and the signer. The root stands as its hexadecimal digits.
pub record Chain : Type 0 where
  pub program_id : String
  pub authority : String
  pub signer : String
  pub airdrop_root : String
  pub airdrop_claims : ℕ
  pub ledger : List Payment

pub record Publication : Type 0 where
  pub root : String
  pub desk_count : ℕ
  pub opens : Bool

pub data Refusal : Type 0 where
  not_initialized not_authority other_program claims_exist not_published : Refusal

-- How the command ends. `distributed none` is a loop that has not ended on its fuel; `unreachable` is
-- a call that throws before the first payment.
pub data Outcome : Type 0 where
  refused : Refusal → Outcome
  unreachable : Outcome
  previewed : ℕ → Outcome
  distributed : Option Run → Outcome

-- The root that the command publishes, whether or not the transaction lands, with how it ends.
pub record Report : Type 0 where
  pub published : Option Publication
  pub outcome : Outcome

abbrev pub distribute : ℕ → Host → Args → List Payment → Option (List Payee) → Outcome
distribute fuel h args ledger none = unreachable
distribute fuel h args ledger (some ps) =
    if args.dry_run
    then previewed (length ps)
    else distributed (pay_all fuel h args.batch ps (started ledger))

abbrev pub publication : Args → Snapshot → Publication
publication args s = record { root = s.root; desk_count = s.desk_count; opens = args.opens }

-- Whether the transaction that publishes is confirmed is `publishes`.
abbrev pub publish : (Publication → Bool) → Args → Snapshot → Outcome → Report
publish publishes args s next =
    if args.dry_run then record { published = none; outcome = next } else record {
      published = some (publication args s);
      outcome = if publishes (publication args s) then next else unreachable;
    }

abbrev pub check_root : (Publication → Bool) → Args → Snapshot → Chain → Outcome → Report
check_root publishes args s c next =
    if str_eq c.airdrop_root s.root
    then record { published = none; outcome = next }
    else if ltb 0 c.airdrop_claims && not args.force
    then record { published = none; outcome = refused claims_exist }
    else if not args.publish_root
    then record { published = none; outcome = refused not_published }
    else publish publishes args s next

-- The command without `--reward`; a chain with no tokenomics account has no root.
unfoldable pub run_airdrop :
    ℕ → Host → (Publication → Bool) → Args → Snapshot → Option Chain → Report
run_airdrop fuel h publishes args s none = record {
  published = none;
  outcome = refused not_initialized;
}
run_airdrop fuel h publishes args s (some c) =
    if not (str_eq c.authority c.signer)
    then record { published = none; outcome = refused not_authority }
    else if not (str_eq s.program_id c.program_id)
    then record { published = none; outcome = refused other_program }
    else check_root publishes args s c
        (distribute fuel h args c.ledger (pending h s.entries c.ledger))

-- `process.exitCode` after the loop.
abbrev pub exit_code : Run → ℕ
exit_code r = if r.crashed then 1 else if ltb 0 r.failures then 1 else 0
