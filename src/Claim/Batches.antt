-- ===== src/Claim/Batches.antt =====
-- `groupBatches` and `packTxs`: the claims of one transaction.
use hubconnect.Base.{
  ℕ, zero, suc, ◌+◌, ◌-◌, ◌≤◌, ◌<◌, ◌≡◌, refl, ap, ◌∙◌, List, [], ◌∷◌, ◌++◌, length, take, drop,
  take-append-drop, length-take, length-drop, All, leb, ◌⊎◌, inl, inr, Bool-cases, arith,
  if◌then◌else◌,
}
use mathlib.Core.List.{flatten}

abbrev pub max_ixs_per_tx : ℕ
max_ixs_per_tx = 3

abbrev pub first_batch : ℕ → ℕ
first_batch preamble = if leb 1 (max_ixs_per_tx - preamble) then max_ixs_per_tx - preamble else 1

first_batch_room :
    (preamble l : ℕ) → l ≤ first_batch preamble → (l + preamble ≤ max_ixs_per_tx) ⊎ (l ≤ 1)
first_batch_room preamble l h = elim (Bool-cases (leb 1 (max_ixs_per_tx - preamble))) [
  | inl e ↦ inl (ground arith)
  | inr e ↦ inr (ground arith)
]

module _ {ℓ} {A : Type ℓ} where
  -- Groups of `batch` items, on fuel: every round takes some.
  unfoldable pub later_groups : ℕ → ℕ → List A → List (List A)
  later_groups fuel batch [] = []
  later_groups zero batch (x ∷ xs) = []
  later_groups (suc fuel) batch (x ∷ xs) =
      take batch (x ∷ xs) ∷ later_groups fuel batch (drop batch (x ∷ xs))

  -- The first group leaves room for the preamble.
  unfoldable pub group_batches : List A → ℕ → List (List A)
  unfolding later_groups
  group_batches [] preamble = []
  group_batches (x ∷ xs) preamble =
      let rest = drop (first_batch preamble) (x ∷ xs) in
      take (first_batch preamble) (x ∷ xs) ∷ later_groups (length rest) max_ixs_per_tx rest

  take_some : (n : ℕ) (x : A) (xs : List A) → 0 < n → 0 < length (take n (x ∷ xs))
  take_some zero x xs h = elim h [ ]
  take_some (suc n) x xs h = omega arith

  -- What is in a group, whose bound is given.
  abbrev pub Fits : ℕ → List A → Type 0
  Fits bound group = (0 < length group) × (length group ≤ bound)

  take-Fits : (n : ℕ) (x : A) (xs : List A) → 0 < n → Fits n (take n (x ∷ xs))
  take-Fits n x xs h = (take_some n x xs h, omega (arith, length-take n (x ∷ xs)))

  later_groups-Fits :
      (fuel batch : ℕ) (xs : List A)
      → 0 < batch
      → length xs ≤ fuel
      → (flatten (later_groups fuel batch xs) ≡ xs) × All (Fits batch) (later_groups fuel batch xs)
  unfolding later_groups flatten
  later_groups-Fits fuel batch [] h le = (refl, tt)
  later_groups-Fits zero batch (x ∷ xs) h le = absurd (omega arith)
  later_groups-Fits (suc fuel) batch (x ∷ xs) h le =
      let (whole, fits) =
        later_groups-Fits fuel batch (drop batch (x ∷ xs)) h
          (omega (arith, length-drop batch (x ∷ xs))) in
      (
        ap (λ l. take batch (x ∷ xs) ++ l) whole ∙ take-append-drop batch (x ∷ xs),
        (take-Fits batch x xs h, fits),
      )

  abbrev pub GroupsFit : ℕ → List (List A) → Type 0
  GroupsFit preamble [] = Unit
  GroupsFit preamble (g ∷ gs) =
      (0 < length g)
      × ((length g + preamble ≤ max_ixs_per_tx) ⊎ (length g ≤ 1))
      × All (Fits max_ixs_per_tx) gs

  -- The groups hold the items in their order, each once. None is empty; a later one holds at most
  -- three, and the first no more than leave room for the preamble, or one.
  pub group_batches-GroupsFit :
      (items : List A) (preamble : ℕ)
      → (flatten (group_batches items preamble) ≡ items)
        × GroupsFit preamble (group_batches items preamble)
  unfolding group_batches flatten
  group_batches-GroupsFit [] preamble = (refl, tt)
  group_batches-GroupsFit (x ∷ xs) preamble =
      let n = first_batch preamble in
      let rest = drop n (x ∷ xs) in
      let (whole, fits) =
        later_groups-Fits (length rest) max_ixs_per_tx rest (omega arith) (omega arith) in
      let some_first : 0 < n = ground arith in
      let (filled, bound) = take-Fits n x xs some_first in
      (
        ap (λ l. take n (x ∷ xs) ++ l) whole ∙ take-append-drop n (x ∷ xs),
        (filled, first_batch_room preamble _ bound, fits),
      )

module _ {ℓ κ} {A : Type ℓ} {B : Type κ} where
  later_groups-length :
      (fuel batch : ℕ) (xs : List A) (ys : List B)
      → length xs ≡ length ys
      → length (later_groups fuel batch xs) ≡ length (later_groups fuel batch ys)
  unfolding later_groups
  later_groups-length fuel batch [] [] e = refl
  later_groups-length fuel batch [] (y ∷ ys) e = absurd (omega arith)
  later_groups-length fuel batch (x ∷ xs) [] e = absurd (omega arith)
  later_groups-length zero batch (x ∷ xs) (y ∷ ys) e = refl
  later_groups-length (suc fuel) batch (x ∷ xs) (y ∷ ys) e = ap suc (
      later_groups-length fuel batch (drop batch (x ∷ xs)) (drop batch (y ∷ ys))
        (omega (arith, length-drop batch (x ∷ xs), length-drop batch (y ∷ ys))))

  -- As many items make as many groups.
  pub group_batches-length :
      (xs : List A) (ys : List B) (preamble : ℕ)
      → length xs ≡ length ys
      → length (group_batches xs preamble) ≡ length (group_batches ys preamble)
  unfolding group_batches
  group_batches-length [] [] preamble e = refl
  group_batches-length [] (y ∷ ys) preamble e = absurd (omega arith)
  group_batches-length (x ∷ xs) [] preamble e = absurd (omega arith)
  group_batches-length (x ∷ xs) (y ∷ ys) preamble e =
      let rest = drop (first_batch preamble) (x ∷ xs) in
      let more = drop (first_batch preamble) (y ∷ ys) in
      let same : length rest ≡ length more = omega (
        arith,
        length-drop (first_batch preamble) (x ∷ xs),
        length-drop (first_batch preamble) (y ∷ ys),
      ) in
      ap suc (
        later_groups-length (length rest) max_ixs_per_tx rest more same
        ∙ ap (λ k. length (later_groups k max_ixs_per_tx more)) same)
