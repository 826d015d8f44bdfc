-- ===== src/Faucet/Await.antt =====
-- `awaitSignature`: polling a signature until it is decided. `none` is a call that throws.
use hubconnect.Base.{
  ℕ, suc, zero, ◌+◌, ◌≤◌, ◌<◌, ◌≡◌, refl, Option, none, some, ltb, arith, if◌then◌else◌, Bool-cases,
  inl, inr, ◌⊎◌, subst,
}

pub data SignatureStatus : Type 0 where
  absent errored pending landed : SignatureStatus

-- One turn of the loop: the signature's status, and the block height if it is asked for.
pub record Poll : Type 0 where
  pub signature_status : Option SignatureStatus
  pub height : Option ℕ

pub data Verdict : Type 0 where
  seen_landed seen_errored expired threw : Verdict

-- Past the last valid height the signature has expired, otherwise the loop goes on.
unfoldable pub check_height : ℕ → Option ℕ → Option Verdict → Option Verdict
check_height last none rest = some threw
check_height last (some height) rest = if ltb last height then some expired else rest

unfoldable pub poll_step : ℕ → Option SignatureStatus → Option ℕ → Option Verdict → Option Verdict
unfolding check_height
poll_step last none height rest = some threw
poll_step last (some errored) height rest = some seen_errored
poll_step last (some landed) height rest = some seen_landed
poll_step last (some absent) height rest = check_height last height rest
poll_step last (some pending) height rest = check_height last height rest

-- From turn `i` on, for at most so many turns; `none` is a loop that still runs.
unfoldable pub await_signature : (ℕ → Poll) → ℕ → ℕ → ℕ → Option Verdict
unfolding poll_step
await_signature polls last zero i = none
await_signature polls last (suc n) i =
    let rest = await_signature polls last n (i + 1) in
    poll_step last (polls i).signature_status (polls i).height rest

-- A turn whose status decides nothing: the height is asked for.
abbrev pub IsOpen : Poll → Type 0
IsOpen p = (p.signature_status ≡ some absent) ⊎ (p.signature_status ≡ some pending)

-- A turn after which the loop goes on.
abbrev pub GoesOn : ℕ → Poll → Type 0
GoesOn last p = IsOpen p × (h : ℕ) × (p.height ≡ some h) × (h ≤ last)

-- The turn that a verdict is read from. Only a call that throws is a throw.
abbrev pub Says : ℕ → Poll → Verdict → Type 0
Says last p seen_landed = p.signature_status ≡ some landed
Says last p seen_errored = p.signature_status ≡ some errored
Says last p expired = IsOpen p × (h : ℕ) × (p.height ≡ some h) × (last < h)
Says last p threw = (p.signature_status ≡ none) ⊎ (IsOpen p × (p.height ≡ none))

-- Every turn sees a height of at least its number.
abbrev pub Advances : (ℕ → Poll) → Type 0
Advances polls = (i h : ℕ) → (polls i).height ≡ some h → i ≤ h

le_split : (i j : ℕ) → i ≤ j → (i ≡ j) ⊎ (i + 1 ≤ j)
le_split i j le = elim (Bool-cases (ltb i j)) [
  | inl lt ↦ inr (ground arith)
  | inr ge ↦ inl (ground arith)
]

module _ (polls : ℕ → Poll) (last : ℕ) where
  -- The verdict of the first turn from `i` on after which the loop does not go on.
  abbrev pub Decided : ℕ → Option Verdict → Type 0
  Decided i o =
      (v : Verdict) × (k : ℕ) × (o ≡ some v)
      × (i ≤ k)
      × Says last (polls k) v
      × ((j : ℕ) → i ≤ j → j < k → GoesOn last (polls j))

  at_once : (i : ℕ) (v : Verdict) → Says last (polls i) v → Decided i (some v)
  at_once i v s = (v, i, refl, omega arith, s, λ j le lt. absurd (omega arith))

  -- A turn that goes on leaves the verdict to the next.
  one_more :
      (i : ℕ) (rest : Option Verdict)
      → GoesOn last (polls i)
      → Decided (i + 1) rest
      → Decided i rest
  one_more i rest g (v, k, e, le, s, before) = (
    v,
    k,
    e,
    omega arith,
    s,
    λ j lo hi. elim (le_split i j lo) [
      | inl same ↦ subst (λ x. GoesOn last (polls x)) same g
      | inr more ↦ before j more hi
    ],
  )

  check_height-Decided :
      (i : ℕ) (o : Option ℕ) (rest : Option Verdict)
      → IsOpen (polls i)
      → (polls i).height ≡ o
      → ((h : ℕ) → o ≡ some h → h ≤ last → Decided (i + 1) rest)
      → Decided i (check_height last o rest)
  unfolding check_height
  check_height-Decided i none rest u e f = at_once i threw (inr (u, e))
  check_height-Decided i (some h) rest u e f = elim (Bool-cases (ltb last h)) [
    | inl past ↦ rw past (at_once i expired (u, h, e, ground arith))
    | inr still ↦ rw still (one_more i rest (u, h, e, ground arith) (f h refl (ground arith)))
  ]

  poll_step-Decided :
      (i : ℕ) (s : Option SignatureStatus) (rest : Option Verdict)
      → (polls i).signature_status ≡ s
      → ((h : ℕ) → (polls i).height ≡ some h → h ≤ last → Decided (i + 1) rest)
      → Decided i (poll_step last s (polls i).height rest)
  unfolding poll_step
  poll_step-Decided i none rest e f = at_once i threw (inl e)
  poll_step-Decided i (some errored) rest e f = at_once i seen_errored e
  poll_step-Decided i (some landed) rest e f = at_once i seen_landed e
  poll_step-Decided i (some absent) rest e f =
      check_height-Decided i (polls i).height rest (inl e) refl f
  poll_step-Decided i (some pending) rest e f =
      check_height-Decided i (polls i).height rest (inr e) refl f

  -- If the block height advances with the turns, the loop ends within two turns more than the last
  -- valid height, with the verdict of the first turn that does not go on: landed or errored as the
  -- status says, expired past the last valid height, a throw only where a call throws.
  pub await_signature-Decided :
      (n i : ℕ)
      → Advances polls
      → last + 2 ≤ n + i
      → 0 < n
      → Decided i (await_signature polls last n i)
  unfolding await_signature
  await_signature-Decided zero i a le p = absurd (omega arith)
  await_signature-Decided (suc n) i a le p =
      poll_step-Decided i (polls i).signature_status _ refl (λ h e small.
        let at_most : i ≤ h = a i h e in
        await_signature-Decided n (i + 1) a (omega arith) (omega arith))
