-- ===== src/Payouts/Pays.antt =====
-- How often a desk is paid over several runs.
use text.Mathlib.TextEquality.{eq_iff}
use text.Mathlib.Text.{◌==◌ as str_eq}
use hubconnect.Base.{
  ap, ℕ, ◌≤◌, ◌≡◌, refl, subst, Bool, true, false, Bool-cases, inl, inr, not, ◌&&◌, ltb, pick,
  Option, none, some, List, [], ◌∷◌, String, arith,
}
use mathlib.Core.Option.{some-injective}
use hubconnect.Payouts.Pay.{
  Payee, Payment, Host, Run, has_claim, pay_all, pending, started, unless_claimed,
}
use hubconnect.Payouts.Counts.{pay_all-Within, times_listed, times_paid}
use hubconnect.Payouts.Airdrop.{
  Args, Chain, Snapshot, Publication, Outcome, distributed, unreachable, distribute, publish,
  publication, check_root, run_airdrop, Report,
}

unpaid : (a : String) (l : List Payment) → has_claim a l ≡ false → times_paid a l ≡ 0
unpaid a [] e = refl
unpaid a (p ∷ ps) e = let ih = unpaid a ps in ground (arith, ih)

-- Among the pending desks, one that is paid is not there, and no desk is there more often than before.
module _ (h : Host) (l : List Payment) (a : String) where
  abbrev Left : List Payee → List Payee → Type 0
  Left ps qs =
      (times_listed a qs ≤ times_listed a ps) × (has_claim a l ≡ true → times_listed a qs ≡ 0)

  unless_claimed-Left :
      (p : Payee) (ps : List Payee) (b : Bool) (o : Option (List Payee)) (qs : List Payee)
      → has_claim p.asset l ≡ b
      → unless_claimed p b o ≡ some qs
      → ((rs : List Payee) → o ≡ some rs → Left ps rs)
      → Left (p ∷ ps) qs
  unless_claimed-Left p ps b none qs c e ih = cc
  unless_claimed-Left p ps true (some rs) qs c e ih =
      let (w, z) = ih rs refl in subst (Left (p ∷ ps)) (some-injective _ _ e) (ground (arith, w), z)
  unless_claimed-Left p ps false (some rs) qs c e ih =
      let (w, z) = ih rs refl in
      subst (Left (p ∷ ps)) (some-injective _ _ e) (
        ground (arith, w),
        λ t.
            pick (λ n. n ≡ 0) (str_eq p.asset a) (λ e. cc ((eq_iff p.asset a).0 e, c, t))
              (λ _. z t),
      )

  pending-Left : (ps qs : List Payee) → pending h ps l ≡ some qs → Left ps qs
  unfolding pending
  pending-Left [] qs e = subst (Left []) (some-injective _ _ e) (omega arith, λ _. refl)
  pending-Left (p ∷ ps) qs t =
      pick (λ o. o ≡ some qs → Left (p ∷ ps) qs) (h.reads_claim p.asset)
        (λ _ e.
          unless_claimed-Left p ps (has_claim p.asset l) (pending h ps l) qs refl e
            (pending-Left ps))
        (λ _ e. cc) t

-- Each desk is listed at most once, or paid at most once.
abbrev pub ListsOnce : List Payee → Type 0
ListsOnce ps = (a : String) → times_listed a ps ≤ 1

abbrev pub PaysOnce : List Payment → Type 0
PaysOnce l = (a : String) → times_paid a l ≤ 1

pub listed_first :
    (asset : String) (p : Payee) (ps : List Payee)
    → times_listed p.asset ps ≡ 0
    → times_listed asset ps ≤ 1
    → times_listed asset (p ∷ ps) ≤ 1
listed_first asset p ps z le =
    pick (λ n. n ≤ 1) (str_eq p.asset asset)
      (λ t. omega (arith, z, ap (λ x. times_listed x ps) ((eq_iff p.asset asset).0 t))) (λ _. le)

pub pay_pending-PaysOnce :
    (fuel batch : ℕ) (h : Host) (ps qs : List Payee) (l : List Payment) (r : Run)
    → ListsOnce ps
    → PaysOnce l
    → pending h ps l ≡ some qs
    → pay_all fuel h batch qs (started l) ≡ some r
    → PaysOnce r.ledger
pay_pending-PaysOnce fuel batch h ps qs l r o p e d a =
    let w = (pay_all-Within h a fuel batch qs (started l) r d).0 in
    let (m, z) = pending-Left h l a ps qs e in
    elim (Bool-cases (has_claim a l)) [
      | inl t ↦ omega (arith, w, z t, p a)
      | inr f ↦ omega (arith, w, m, o a, unpaid a l f)
    ]

distributed-injective : (x y : Option Run) → distributed x ≡ distributed y → x ≡ y
distributed-injective x y e = cc

-- What a command that reaches its end has done.
module _ (fuel : ℕ) (h : Host) (args : Args) (s : Snapshot) (c : Chain) (r : Run) where
  abbrev pub Settled : Type 0
  Settled =
      (qs : List Payee) × (pending h s.entries c.ledger ≡ some qs)
      × (pay_all fuel h args.batch qs (started c.ledger) ≡ some r)

  distribute-Settled :
      (o : Option (List Payee))
      → pending h s.entries c.ledger ≡ o
      → distribute fuel h args c.ledger o ≡ distributed (some r)
      → Settled
  distribute-Settled none e d = cc
  distribute-Settled (some qs) e t =
      pick (λ x. x ≡ distributed (some r) → Settled) args.dry_run (λ _ d. cc)
        (λ _ d. (qs, e, distributed-injective _ _ d)) t

  publish-Settled :
      (publishes : Publication → Bool) (o : Outcome)
      → (publish publishes args s o).outcome ≡ distributed (some r)
      → o ≡ distributed (some r)
  publish-Settled publishes o =
      let P : Outcome → Type 0 = λ x. x ≡ distributed (some r) → o ≡ distributed (some r) in
      pick (λ (x : Report). P x.outcome) args.dry_run (λ _ d. d)
        (λ _.
          pick P (publishes (publication args s)) (λ _ d. d)
            (λ _ (d : unreachable ≡ distributed (some r)). cc d))

  check_root-Settled :
      (publishes : Publication → Bool) (o : Outcome)
      → (check_root publishes args s c o).outcome ≡ distributed (some r)
      → o ≡ distributed (some r)
  check_root-Settled publishes o =
      let P : Report → Type 0 = λ x. x.outcome ≡ distributed (some r) → o ≡ distributed (some r) in
      pick P (str_eq c.airdrop_root s.root) (λ _ d. d)
        (λ _.
          pick P (ltb 0 c.airdrop_claims && not args.force) (λ _ d. cc)
            (λ _. pick P (not args.publish_root) (λ _ d. cc) (λ _. publish-Settled publishes o)))

  pub run_airdrop-Settled :
      (publishes : Publication → Bool)
      → (run_airdrop fuel h publishes args s (some c)).outcome ≡ distributed (some r)
      → Settled
  unfolding run_airdrop
  run_airdrop-Settled publishes =
      let P : Report → Type 0 = λ x. x.outcome ≡ distributed (some r) → Settled in
      pick P (not (str_eq c.authority c.signer)) (λ _ d. cc)
        (λ _.
          pick P (not (str_eq s.program_id c.program_id)) (λ _ d. cc)
            (λ _ d. distribute-Settled _ refl (check_root-Settled publishes _ d)))

-- The payments that commands leave on chain, one after the other, whatever their flags and whatever
-- happens to their transactions.
pub data Paid : List Payment → Type 0 where
  none_yet : Paid []
  after_run :
      (fuel : ℕ) (h : Host) (publishes : Publication → Bool) (args : Args) (s : Snapshot)
      (c : Chain) (r : Run)
      → Paid c.ledger
      → ListsOnce s.entries
      → (run_airdrop fuel h publishes args s (some c)).outcome ≡ distributed (some r)
      → Paid r.ledger

-- Whatever the commands were and however their transactions ended, as long as each snapshot lists no
-- desk twice, no desk has been paid twice.
pub Paid-PaysOnce : (l : List Payment) → Paid l → (a : String) → times_paid a l ≤ 1
Paid-PaysOnce [] none_yet a = omega arith
Paid-PaysOnce l (after_run fuel h publishes args s c r paid once e) a =
    let (qs, p, d) = run_airdrop-Settled fuel h args s c r publishes e in
    pay_pending-PaysOnce fuel args.batch h s.entries qs c.ledger r once
      (Paid-PaysOnce c.ledger paid) p d a
