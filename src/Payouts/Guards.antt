-- ===== src/Payouts/Guards.antt =====
-- When the command publishes a root, and when it pays.
use text.Mathlib.TextEquality.{eq_iff}
use text.Mathlib.Text.{◌==◌ as str_eq}
use hubconnect.Base.{
  from_not, ℕ, zero, suc, ltb, ◌≡◌, refl, sym, Bool, true, false, not, ◌&&◌, ◌⊎◌, inl, inr, Option,
  none, some, List, arith, pick,
}
use mathlib.Core.Option.{some-injective}
use hubconnect.Payouts.Pay.{Payee, Host, Run, pending}
use hubconnect.Payouts.Airdrop.{
  Args, Chain, Snapshot, Publication, publication, Outcome, unreachable, distributed, distribute,
  publish, check_root, run_airdrop, Report,
}

free : (n : ℕ) (b : Bool) → (ltb 0 n && not b) ≡ false → (n ≡ 0) ⊎ (b ≡ true)
free zero b e = inl refl
free (suc n) true e = inr refl
free (suc n) false e = absurd (ground (arith, e))

module _ (publishes : Publication → Bool) (args : Args) (s : Snapshot) (c : Chain) where
  -- What holds when a root is published.
  abbrev pub MayPublish : Publication → Type 0
  MayPublish p =
      (c.signer ≡ c.authority)
      × (s.program_id ≡ c.program_id)
      × (args.dry_run ≡ false)
      × (args.publish_root ≡ true)
      × ((c.airdrop_claims ≡ 0) ⊎ (args.force ≡ true))
      × (p ≡ publication args s)

  -- What holds when the loop that pays is entered: the root on chain is the snapshot's.
  abbrev pub MayPay : Report → Type 0
  MayPay rep =
      (c.signer ≡ c.authority)
      × (s.program_id ≡ c.program_id)
      × (args.dry_run ≡ false)
      × ((c.airdrop_root ≡ s.root)
          ⊎ ((rep.published ≡ some (publication args s)) × (publishes (publication args s) ≡ true)))

  abbrev pub IsGuarded : Report → Type 0
  IsGuarded rep =
      ((p : Publication) → rep.published ≡ some p → MayPublish p)
      × ((o : Option Run) → rep.outcome ≡ distributed o → MayPay rep)

  module _ (signed : c.signer ≡ c.authority) (program : s.program_id ≡ c.program_id)
      (next : Outcome) (wet : (o : Option Run) → next ≡ distributed o → args.dry_run ≡ false) where
    publish-IsGuarded :
        args.publish_root ≡ true
        → ((c.airdrop_claims ≡ 0) ⊎ (args.force ≡ true))
        → IsGuarded (publish publishes args s next)
    publish-IsGuarded want free =
        pick IsGuarded args.dry_run (λ d. (λ p e. cc, λ o e. absurd (cc (d, wet o e))))
          (λ d. (
            λ p e. (signed, program, d, want, free, sym (some-injective _ _ e)),
            λ o.
                pick
                  (λ (x : Outcome).
                    x ≡ distributed o
                    → MayPay (record { published = some (publication args s); outcome = x }))
                  (publishes (publication args s)) (λ t e. (signed, program, d, inr (refl, t)))
                  (λ t (e : unreachable ≡ distributed o). cc e),
          ))

    check_root-IsGuarded : IsGuarded (check_root publishes args s c next)
    check_root-IsGuarded =
        pick IsGuarded (str_eq c.airdrop_root s.root)
          (λ t. (
            λ p e. cc,
            λ o e. (signed, program, wet o e, inl ((eq_iff c.airdrop_root s.root).0 t)),
          ))
          (λ _.
            pick IsGuarded (ltb 0 c.airdrop_claims && not args.force) (λ _. (λ p e. cc, λ o e. cc))
              (λ f.
                pick IsGuarded (not args.publish_root) (λ _. (λ p e. cc, λ o e. cc))
                  (λ g.
                    publish-IsGuarded (from_not args.publish_root g)
                      (free c.airdrop_claims args.force f))))

  distribute-wet :
      (fuel : ℕ) (h : Host) (qs : Option (List Payee)) (o : Option Run)
      → distribute fuel h args c.ledger qs ≡ distributed o
      → args.dry_run ≡ false
  distribute-wet fuel h none o e = cc
  distribute-wet fuel h (some qs) o t =
      pick (λ x. x ≡ distributed o → args.dry_run ≡ false) args.dry_run (λ _ e. cc) (λ d _. d) t

-- The command publishes a root only where the signer is the authority, the snapshot is of this
-- program, it is no dry run, `--publish-root` is given, and no claim is on chain unless `--force` is
-- given; what it publishes is the snapshot's. It pays only where signer and snapshot are right, it is
-- no dry run, and the root on chain is the snapshot's or has been published in a confirmed transaction.
pub run_airdrop-IsGuarded :
    (fuel : ℕ) (h : Host) (publishes : Publication → Bool) (args : Args) (s : Snapshot) (c : Chain)
    → IsGuarded publishes args s c (run_airdrop fuel h publishes args s (some c))
unfolding run_airdrop
run_airdrop-IsGuarded fuel h publishes args s c =
    pick (IsGuarded publishes args s c) (not (str_eq c.authority c.signer))
      (λ _. (λ p e. cc, λ o e. cc))
      (λ a.
        pick (IsGuarded publishes args s c) (not (str_eq s.program_id c.program_id))
          (λ _. (λ p e. cc, λ o e. cc))
          (λ b.
            check_root-IsGuarded publishes args s c
              (sym ((eq_iff c.authority c.signer).0 (from_not (str_eq c.authority c.signer) a)))
              ((eq_iff s.program_id c.program_id).0 (from_not (str_eq s.program_id c.program_id) b))
              (distribute fuel h args c.ledger (pending h s.entries c.ledger))
              (distribute-wet publishes args s c fuel h (pending h s.entries c.ledger))))
