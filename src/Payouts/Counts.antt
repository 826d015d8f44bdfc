-- ===== src/Payouts/Counts.antt =====
-- How often a desk is paid, and the counts of a run.
use text.Mathlib.Text.{◌==◌ as str_eq}
use hubconnect.Base.{
  ℕ, zero, suc, ◌+◌, ◌≤◌, ◌≡◌, refl, sym, ap, subst, ◌∙◌, Bool, true, false, Option, none, some,
  List, [], ◌∷◌, ◌++◌, String, length, length-append, take, drop, take-append-drop, arith, pick,
  if◌then◌else◌,
}
use mathlib.Core.Option.{some-injective}
use hubconnect.Payouts.Pay.{
  Payee, Payment, Delivery, confirmed, failed, Host, Run, Draft, with_account, drafted, draft,
  after_delivery, send_draft, settle_group, pay_group, pay_all,
}

-- How often a desk is among payments, and among those to pay.
abbrev pub times_paid : String → List Payment → ℕ
times_paid a [] = 0
times_paid a (p ∷ ps) = let n = times_paid a ps in if str_eq p.asset a then suc n else n

abbrev pub times_listed : String → List Payee → ℕ
times_listed a [] = 0
times_listed a (p ∷ ps) = let n = times_listed a ps in if str_eq p.asset a then suc n else n

times_paid-append :
    (a : String) (xs ys : List Payment)
    → times_paid a (xs ++ ys) ≡ times_paid a xs + times_paid a ys
times_paid-append a [] ys = omega arith
times_paid-append a (x ∷ xs) ys = ground (arith, times_paid-append a xs ys)

times_listed-append :
    (a : String) (xs ys : List Payee)
    → times_listed a (xs ++ ys) ≡ times_listed a xs + times_listed a ys
times_listed-append a [] ys = omega arith
times_listed-append a (x ∷ xs) ys = ground (arith, times_listed-append a xs ys)

times_listed-split :
    (a : String) (n : ℕ) (xs : List Payee)
    → times_listed a (take n xs) + times_listed a (drop n xs) ≡ times_listed a xs
times_listed-split a n xs =
    sym (times_listed-append a (take n xs) (drop n xs))
    ∙ ap (times_listed a) (take-append-drop n xs)

module _ (h : Host) (l : List Payment) (a : String) where
  abbrev DraftWithin : List Payee → Draft → Type 0
  DraftWithin ps d =
      (times_paid a d.payments ≤ times_listed a ps) × (length d.payments + d.skipped ≡ length ps)

  with_account-Within :
      (p : Payee) (ps : List Payee) (owner : String) (o : Option Bool) (rest : Option Draft)
      (d : Draft)
      → with_account p owner o rest ≡ some d
      → ((c : Draft) → rest ≡ some c → DraftWithin ps c)
      → DraftWithin (p ∷ ps) d
  with_account-Within p ps owner none rest d e ih = cc
  with_account-Within p ps owner (some b) none d e ih = cc
  with_account-Within p ps owner (some b) (some c) d e ih =
      let (w, n) = ih c refl in
      subst (DraftWithin (p ∷ ps)) (some-injective _ _ e) (ground (arith, w), omega (arith, n))

  drafted-Within :
      (p : Payee) (ps : List Payee) (o : Option (Option String)) (rest : Option Draft) (d : Draft)
      → drafted h l p o rest ≡ some d
      → ((c : Draft) → rest ≡ some c → DraftWithin ps c)
      → DraftWithin (p ∷ ps) d
  drafted-Within p ps none rest d e ih = cc
  drafted-Within p ps (some none) none d e ih = cc
  drafted-Within p ps (some none) (some c) d e ih =
      let (w, n) = ih c refl in
      subst (DraftWithin (p ∷ ps)) (some-injective _ _ e) (ground (arith, w), omega (arith, n))
  drafted-Within p ps (some (some owner)) rest d e ih =
      with_account-Within p ps owner (h.has_account l owner) rest d e ih

  draft-Within : (ps : List Payee) (d : Draft) → draft h l ps ≡ some d → DraftWithin ps d
  unfolding draft
  draft-Within [] d e = subst (DraftWithin []) (some-injective _ _ e) (omega arith, omega arith)
  draft-Within (p ∷ ps) d e =
      drafted-Within p ps (h.owner_of l p.asset) (draft h l ps) d e (draft-Within ps)

split_length {ℓ} :
    {A : Type ℓ} (n : ℕ) (xs : List A) → length (take n xs) + length (drop n xs) ≡ length xs
split_length n xs = sym (length-append (take n xs) (drop n xs)) ∙ ap length (take-append-drop n xs)

-- What a part of a run that goes through the desks `ps` does to the payments and the counts.
module _ (a : String) where
  abbrev pub RunWithin : List Payee → Run → Run → Type 0
  RunWithin ps r after =
      (times_paid a after.ledger ≤ times_paid a r.ledger + times_listed a ps)
      × (after.crashed ≡ false
          → (r.crashed ≡ false) × (after.paid + after.failures ≡ r.paid + r.failures + length ps))

module _ (h : Host) (a : String) where
  after_delivery-Within :
      (ps : List Payee) (d : Draft) (o : Delivery) (r : Run)
      → DraftWithin h r.ledger a ps d
      → RunWithin a ps r (after_delivery d o r)
  after_delivery-Within ps d confirmed r (w, n) =
      (omega (arith, w, times_paid-append a d.payments r.ledger), λ c. (c, omega (arith, n)))
  after_delivery-Within ps d (failed true) r (w, n) =
      (omega (arith, w, times_paid-append a d.payments r.ledger), λ c. (c, omega (arith, n)))
  after_delivery-Within ps d (failed false) r (w, n) =
      (omega (arith, w), λ c. (c, omega (arith, n)))

  send_draft-Within :
      (ps : List Payee) (d : Draft) (qs : List Payment) (r : Run)
      → d.payments ≡ qs
      → DraftWithin h r.ledger a ps d
      → RunWithin a ps r (send_draft h d qs r)
  send_draft-Within ps d [] r e (w, n) = (omega arith, λ c. (c, omega (arith, n, ap length e)))
  send_draft-Within ps d (q ∷ qs) r e w =
      after_delivery-Within ps d (h.deliver r.ledger d.creates d.payments) r w

  settle_group-Within :
      (ps : List Payee) (o : Option Draft) (r : Run)
      → ((d : Draft) → o ≡ some d → DraftWithin h r.ledger a ps d)
      → (r.crashed ≡ false)
      → RunWithin a ps r (settle_group h o r)
  settle_group-Within ps none r w c = (omega arith, λ t. cc)
  settle_group-Within ps (some d) r w c = send_draft-Within ps d d.payments r refl (w d refl)

  pay_group-Within : (ps : List Payee) (r : Run) → RunWithin a ps r (pay_group h ps r)
  unfolding pay_group
  pay_group-Within ps r =
      pick (RunWithin a ps r) r.crashed (λ t. (omega arith, λ f. cc))
        (settle_group-Within ps (draft h r.ledger ps) r (draft-Within h r.ledger a ps))

  pub pay_all-Within :
      (fuel batch : ℕ) (ps : List Payee) (r after : Run)
      → pay_all fuel h batch ps r ≡ some after
      → RunWithin a ps r after
  unfolding pay_all
  pay_all-Within fuel batch [] r after e =
      subst (RunWithin a [] r) (some-injective _ _ e) (omega arith, λ c. (c, omega arith))
  pay_all-Within zero batch (p ∷ ps) r after e = cc
  pay_all-Within (suc fuel) batch (p ∷ ps) r after e =
      let mid = pay_group h (take batch (p ∷ ps)) r in
      let (w, n) = pay_group-Within (take batch (p ∷ ps)) r in
      let (w', n') = pay_all-Within fuel batch (drop batch (p ∷ ps)) mid after e in
      (
        omega (arith, w, w', times_listed-split a batch (p ∷ ps)),
        λ c.
            let (c', m') = n' c in
            let (c'', m) = n c' in (c'', omega (arith, m, m', split_length batch (p ∷ ps))),
      )
