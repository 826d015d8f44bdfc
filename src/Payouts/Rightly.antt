-- ===== src/Payouts/Rightly.antt =====
-- To whom, and with what, a run pays.
use mathlib.Core.List.{Mem}
use mathlib.Core.Option.{some-injective}
use hubconnect.Base.{
  ℕ, zero, suc, ◌≡◌, refl, subst, Bool, true, false, Option, none, some, List, [], ◌∷◌, ◌++◌,
  String, take, drop, pick, All, All-self, All-take, All-drop,
}
use hubconnect.Payouts.Pay.{
  Payee, Payment, Delivery, confirmed, failed, Host, Run, Draft, with_account, drafted, draft,
  after_delivery, send_draft, settle_group, pay_group, pay_all, started,
}

-- A payment to a desk of `Q`: its units, its proof, and the owner it has after the payments `l`.
abbrev pub PaysOne : Host → (Payee → Type 0) → List Payment → Payment → Type 0
PaysOne h Q l q =
    (p : Payee) × Q p
    × (q.asset ≡ p.asset)
    × (q.units ≡ p.units)
    × (q.proof ≡ p.proof)
    × (h.owner_of l p.asset ≡ some (some q.owner))

-- The payments on chain that transactions add to `old`: each transaction's are drawn up on exactly the
-- payments that are there before it lands.
pub data Grown (h : Host) (Q : Payee → Type 0) (old : List Payment) : List Payment → Type 0 where
  as_before : Grown h Q old old
  landed :
      (l qs : List Payment) → Grown h Q old l → All (PaysOne h Q l) qs → Grown h Q old (qs ++ l)

module _ (h : Host) (Q : Payee → Type 0) where
  module _ (l : List Payment) where
    with_account-PaysOne :
        (p : Payee) (owner : String) (o : Option Bool) (rest : Option Draft) (d : Draft)
        → Q p
        → h.owner_of l p.asset ≡ some (some owner)
        → with_account p owner o rest ≡ some d
        → ((c : Draft) → rest ≡ some c → All (PaysOne h Q l) c.payments)
        → All (PaysOne h Q l) d.payments
    with_account-PaysOne p owner none rest d q w e ih = cc
    with_account-PaysOne p owner (some b) none d q w e ih = cc
    with_account-PaysOne p owner (some b) (some c) d q w e ih =
        subst (λ (x : Draft). All (PaysOne h Q l) x.payments) (some-injective _ _ e)
          ((p, q, refl, refl, refl, w), ih c refl)

    drafted-PaysOne :
        (p : Payee) (o : Option (Option String)) (rest : Option Draft) (d : Draft)
        → Q p
        → h.owner_of l p.asset ≡ o
        → drafted h l p o rest ≡ some d
        → ((c : Draft) → rest ≡ some c → All (PaysOne h Q l) c.payments)
        → All (PaysOne h Q l) d.payments
    drafted-PaysOne p none rest d q w e ih = cc
    drafted-PaysOne p (some none) none d q w e ih = cc
    drafted-PaysOne p (some none) (some c) d q w e ih =
        subst (λ (x : Draft). All (PaysOne h Q l) x.payments) (some-injective _ _ e) (ih c refl)
    drafted-PaysOne p (some (some owner)) rest d q w e ih =
        with_account-PaysOne p owner (h.has_account l owner) rest d q w e ih

    draft-PaysOne :
        (ps : List Payee) (d : Draft)
        → All Q ps
        → draft h l ps ≡ some d
        → All (PaysOne h Q l) d.payments
    unfolding draft
    draft-PaysOne [] d q e =
        subst (λ (x : Draft). All (PaysOne h Q l) x.payments) (some-injective _ _ e) tt
    draft-PaysOne (p ∷ ps) d (q, qs) e =
        drafted-PaysOne p (h.owner_of l p.asset) (draft h l ps) d q refl e
          (λ c. draft-PaysOne ps c qs)

  module _ (old : List Payment) where
    after_delivery-Grown :
        (d : Draft) (o : Delivery) (r : Run)
        → All (PaysOne h Q r.ledger) d.payments
        → Grown h Q old r.ledger
        → Grown h Q old (after_delivery d o r).ledger
    after_delivery-Grown d confirmed r p g = landed r.ledger d.payments g p
    after_delivery-Grown d (failed true) r p g = landed r.ledger d.payments g p
    after_delivery-Grown d (failed false) r p g = g

    send_draft-Grown :
        (d : Draft) (qs : List Payment) (r : Run)
        → All (PaysOne h Q r.ledger) d.payments
        → Grown h Q old r.ledger
        → Grown h Q old (send_draft h d qs r).ledger
    send_draft-Grown d [] r p g = g
    send_draft-Grown d (x ∷ xs) r p g =
        after_delivery-Grown d (h.deliver r.ledger d.creates d.payments) r p g

    settle_group-Grown :
        (o : Option Draft) (r : Run)
        → ((d : Draft) → o ≡ some d → All (PaysOne h Q r.ledger) d.payments)
        → Grown h Q old r.ledger
        → Grown h Q old (settle_group h o r).ledger
    settle_group-Grown none r p g = g
    settle_group-Grown (some d) r p g = send_draft-Grown d d.payments r (p d refl) g

    pay_group-Grown :
        (ps : List Payee) (r : Run)
        → All Q ps
        → Grown h Q old r.ledger
        → Grown h Q old (pay_group h ps r).ledger
    unfolding pay_group
    pay_group-Grown ps r p g =
        pick (λ (x : Run). Grown h Q old x.ledger) r.crashed (λ _. g)
          (λ _. settle_group-Grown (draft h r.ledger ps) r (λ d. draft-PaysOne r.ledger ps d p) g)

    pub pay_all-Grown :
        (fuel batch : ℕ) (ps : List Payee) (r after : Run)
        → All Q ps
        → Grown h Q old r.ledger
        → pay_all fuel h batch ps r ≡ some after
        → Grown h Q old after.ledger
    unfolding pay_all
    pay_all-Grown fuel batch [] r after p g e =
        subst (λ (x : Run). Grown h Q old x.ledger) (some-injective _ _ e) g
    pay_all-Grown zero batch (x ∷ xs) r after p g e = cc
    pay_all-Grown (suc fuel) batch (x ∷ xs) r after p g e =
        pay_all-Grown fuel batch (drop batch (x ∷ xs)) (pay_group h (take batch (x ∷ xs)) r) after
          (All-drop Q batch (x ∷ xs) p)
          (pay_group-Grown (take batch (x ∷ xs)) r (All-take Q batch (x ∷ xs) p) g) e

-- What is on chain after the loop is what was there before, and on top of it the payments of one
-- transaction after the other: each to a desk of the list, of its units, with its proof, and to the
-- owner that the desk has with the payments that were on chain before the transaction.
pub pay_all-PaysRightly :
    (fuel : ℕ) (h : Host) (batch : ℕ) (ps : List Payee) (ledger : List Payment) (after : Run)
    → pay_all fuel h batch ps (started ledger) ≡ some after
    → Grown h (λ p. Mem p ps) ledger after.ledger
pay_all-PaysRightly fuel h batch ps ledger after e =
    pay_all-Grown h (λ p. Mem p ps) ledger fuel batch ps (started ledger) after (All-self ps)
      as_before e
