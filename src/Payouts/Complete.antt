-- ===== src/Payouts/Complete.antt =====
-- The loop that pays where every read answers and every transaction is confirmed.
use text.Mathlib.Text.{◌==◌ as str_eq}
use text.Mathlib.TextPositions.{eq_refl}
use hubconnect.Base.{
  ℕ, zero, suc, ◌≤◌, ◌<◌, ◌≡◌, refl, sym, ap, subst, ◌∙◌, Bool, true, false, some, List, [], ◌∷◌,
  ◌++◌, String, length, length-drop, take, drop, take-append-drop, arith, pick, All, All-append,
  All-map,
}
use hubconnect.Payouts.Pay.{
  Payee, Payment, confirmed, Host, Run, Draft, pay_to, draft, send_draft, settle_group, has_claim,
  pay_group, pay_all, started,
}
use hubconnect.Payouts.Counts.{pay_all-Within}

has_claim-cons :
    (a : String) (q : Payment) (qs : List Payment)
    → has_claim a qs ≡ true
    → has_claim a (q ∷ qs) ≡ true
has_claim-cons a q qs e = pick (λ b. b ≡ true) (str_eq q.asset a) (λ _. refl) (λ _. e)

claim_before :
    (a : String) (xs ys : List Payment) → has_claim a ys ≡ true → has_claim a (xs ++ ys) ≡ true
claim_before a [] ys e = e
claim_before a (x ∷ xs) ys e = has_claim-cons a x (xs ++ ys) (claim_before a xs ys e)

claim_added :
    (a : String) (xs ys : List Payment) → has_claim a xs ≡ true → has_claim a (xs ++ ys) ≡ true
claim_added a [] ys e = cc
claim_added a (x ∷ xs) ys e = let ih = claim_added a xs ys in ground (arith, ih)

abbrev pub Claimed : List Payment → Payee → Type 0
Claimed l p = has_claim p.asset l ≡ true

-- Every desk has an owner, every read answers and every transaction is confirmed.
abbrev pub IsSmooth : Host → Type 0
IsSmooth h =
    ((l : List Payment) (a : String) → (o : String) × (h.owner_of l a ≡ some (some o)))
    × ((l : List Payment) (o : String) → (b : Bool) × (h.has_account l o ≡ some b))
    × ((l : List Payment) (cs : List String) (ps : List Payment) → h.deliver l cs ps ≡ confirmed)

module _ (h : Host) (ok : IsSmooth h) where
  draft-full :
      (l : List Payment) (ps : List Payee)
      → (d : Draft) × (draft h l ps ≡ some d) × (d.skipped ≡ 0) × All (Claimed d.payments) ps
  unfolding draft
  draft-full l [] = (record { creates = []; payments = []; skipped = 0 }, refl, refl, tt)
  draft-full l (p ∷ ps) =
      let (d, e, n, all) = draft-full l ps in
      let (o, w) = ok.0 l p.asset in
      let (b, u) = ok.1 l o in
      (
        pay_to p o b d,
        rw (w, u, e) refl,
        n,
        (
          rw (eq_refl p.asset) refl,
          All-map (Claimed d.payments) (Claimed (pay_to p o b d).payments) ps
              (λ x.
                has_claim-cons x.asset
                  (record { asset = p.asset; owner = o; units = p.units; proof = p.proof })
                  d.payments)
              all,
        ),
      )

  -- The desks of `ps` are paid by then, the ones paid before still are, and nothing failed.
  abbrev AllPaid : List Payee → Run → Run → Type 0
  AllPaid ps r after =
      (after.crashed ≡ false)
      × (after.failures ≡ r.failures)
      × All (Claimed after.ledger) ps
      × ((p : Payee) → Claimed r.ledger p → Claimed after.ledger p)

  send_draft-AllPaid :
      (ps : List Payee) (d : Draft) (qs : List Payment) (r : Run)
      → r.crashed ≡ false
      → d.payments ≡ qs
      → d.skipped ≡ 0
      → All (Claimed d.payments) ps
      → AllPaid ps r (send_draft h d qs r)
  send_draft-AllPaid ps d [] r c e n all = (
    c,
    omega (arith, n),
    All-map (Claimed d.payments) (Claimed r.ledger) ps
        (λ x (t : Claimed d.payments x). cc (ap (has_claim x.asset) e, t)) all,
    λ p t. t,
  )
  send_draft-AllPaid ps d (q ∷ qs) r c e n all = rw (ok.2 r.ledger d.creates d.payments) (
    c,
    omega (arith, n),
    All-map (Claimed d.payments) (Claimed (d.payments ++ r.ledger)) ps
        (λ x. claim_added x.asset d.payments r.ledger) all,
    λ p. claim_before p.asset d.payments r.ledger,
  )

  pay_group-AllPaid :
      (ps : List Payee) (r : Run) → r.crashed ≡ false → AllPaid ps r (pay_group h ps r)
  unfolding pay_group
  pay_group-AllPaid ps r c =
      let (d, e, n, all) = draft-full r.ledger ps in
      pick (AllPaid ps r) r.crashed (λ t. absurd (cc (c, t)))
        (λ _.
          subst (λ o. AllPaid ps r (settle_group h o r)) (sym e)
            (send_draft-AllPaid ps d d.payments r c refl n all))

  pay_all-AllPaid :
      (fuel batch : ℕ) (ps : List Payee) (r : Run)
      → 0 < batch
      → length ps ≤ fuel
      → r.crashed ≡ false
      → (after : Run) × (pay_all fuel h batch ps r ≡ some after) × AllPaid ps r after
  unfolding pay_all
  pay_all-AllPaid fuel batch [] r b le c = (r, refl, (c, refl, tt, λ p t. t))
  pay_all-AllPaid zero batch (p ∷ ps) r b le c = absurd (omega arith)
  pay_all-AllPaid (suc fuel) batch (p ∷ ps) r b le c =
      let mid = pay_group h (take batch (p ∷ ps)) r in
      let (c', n', all', keep') = pay_group-AllPaid (take batch (p ∷ ps)) r c in
      let (after, e, (c'', n'', all'', keep'')) =
        pay_all-AllPaid fuel batch (drop batch (p ∷ ps)) mid b
          (omega (arith, length-drop batch (p ∷ ps))) c' in
      (
        after,
        e,
        (
          c'',
          n'' ∙ n',
          subst (All (Claimed after.ledger)) (take-append-drop batch (p ∷ ps)) (
              All-append (Claimed after.ledger) (take batch (p ∷ ps)) (drop batch (p ∷ ps))
                (All-map (Claimed mid.ledger) (Claimed after.ledger) (take batch (p ∷ ps)) keep''
                  all')
                all''),
          λ q t. keep'' q (keep' q t),
        ),
      )

-- On fuel for all the desks of the list, and with a positive batch, a loop that meets no failure ends
-- with no failure counted, as many payments counted as the list has desks, and a claim on chain for
-- each of them.
pub pay_all-PaysAll :
    (h : Host) (fuel batch : ℕ) (ps : List Payee) (ledger : List Payment)
    → IsSmooth h
    → 0 < batch
    → length ps ≤ fuel
    → (after : Run) × (pay_all fuel h batch ps (started ledger) ≡ some after)
      × (after.failures ≡ 0)
      × (after.paid ≡ length ps)
      × All (Claimed after.ledger) ps
pay_all-PaysAll h fuel batch ps ledger ok b le =
    let (after, e, (c, n, all, keep)) =
      pay_all-AllPaid h ok fuel batch ps (started ledger) b le refl in
    let (c', m) = (pay_all-Within h "" fuel batch ps (started ledger) after e).1 c in
    (after, e, n, omega (arith, n, m), all)
