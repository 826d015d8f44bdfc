-- ===== src/Airdrop/Tree.antt =====
-- The levels of the tree, the sibling path of a leaf, and the check of a path against a root. Hashes
-- are the values of a type with the order of `Buffer.compare` and the hash of a pair, both parameters.
use mathlib.Core.Option.{some-injective}
use hubconnect.Base.{
  ℕ, suc, zero, ◌+◌, ◌-◌, ◌/◌, ◌%◌, ◌≤◌, ◌<◌, ◌≡◌, refl, ap, ◌∙◌, Bool, true, false, Option, none,
  some, List, [], ◌∷◌, ltb, ◌==◌, length, get_elem?, arith, if◌then◌else◌, Bool-cases, ltb→lt, inl,
  inr,
}

pub record Hashes : Type 1 where
  pub Hash : Type 0
  pub le : Hash → Hash → Bool
  pub sha : Hash → Hash → Hash
  pub le_total : (a b : Hash) → le a b ≡ false → le b a ≡ true
  pub le_antisym : (a b : Hash) → le a b ≡ true → le b a ≡ true → a ≡ b

-- The index of the sibling: the last bit flipped.
abbrev pub sibling : ℕ → ℕ
sibling i = if i % 2 == 0 then i + 1 else i - 1

module _ (hashes : Hashes) where
  open hashes use {Hash, le, sha, le_total, le_antisym}

  unfoldable pub hash_pair : Hash → Hash → Hash
  hash_pair a b = if le a b then sha a b else sha b a

  -- Pairs of neighbours are hashed, and an odd last node is promoted.
  unfoldable pub next_level : List Hash → List Hash
  next_level [] = []
  next_level (x ∷ []) = x ∷ []
  next_level (x ∷ y ∷ r) = hash_pair x y ∷ next_level r

  abbrev pub push : Option Hash → List Hash → List Hash
  push none path = path
  push (some x) path = x ∷ path

  -- The root above a level, and the path of an index, in at most so many levels.
  unfoldable pub root_of : ℕ → List Hash → Option Hash
  unfolding next_level
  root_of zero level = none
  root_of (suc n) level =
      let above = root_of n (next_level level) in
      if ltb 1 (length level) then above else get_elem? level 0

  unfoldable pub path_of : ℕ → List Hash → ℕ → List Hash
  unfolding next_level
  path_of zero level i = []
  path_of (suc n) level i =
      let above = path_of n (next_level level) (i / 2) in
      if ltb 1 (length level) then push (get_elem? level (sibling i)) above else []

  unfoldable pub fold_path : Hash → List Hash → Hash
  unfolding hash_pair
  fold_path node [] = node
  fold_path node (sib ∷ path) = fold_path (hash_pair node sib) path

  pub hash_pair_comm : (a b : Hash) → hash_pair a b ≡ hash_pair b a
  unfolding hash_pair
  hash_pair_comm a b = elim (Bool-cases (le a b)) [
    | inl p ↦ elim (Bool-cases (le b a)) [
      | inl q ↦ let e : a ≡ b = le_antisym a b p q in rw e refl
      | inr q ↦ rw (p, q) refl
    ]
    | inr p ↦ rw (p, le_total a b p) refl
  ]

  -- The parent of a node: hashed with its sibling, if there is one.
  abbrev pub parent : Hash → Option Hash → Hash
  parent x none = x
  parent x (some y) = hash_pair x y

  next_level-length : (l : List Hash) → 1 < length l → length (next_level l) < length l
  unfolding next_level
  next_level-length [] p = omega arith
  next_level-length (x ∷ []) p = omega arith
  next_level-length (x ∷ y ∷ []) p = omega arith
  next_level-length (x ∷ y ∷ z ∷ []) p = omega arith
  next_level-length (x ∷ y ∷ z ∷ w ∷ r) p =
      omega (arith, next_level-length (z ∷ w ∷ r) (omega arith))

  half_step : (i : ℕ) → (suc (suc i)) / 2 ≡ suc (i / 2)
  half_step i = omega arith

  sibling_step : (i : ℕ) → sibling (suc (suc i)) ≡ suc (suc (sibling i))
  sibling_step i = ground arith

  next_level-get :
      (l : List Hash) (i : ℕ) (x : Hash)
      → get_elem? l i ≡ some x
      → get_elem? (next_level l) (i / 2) ≡ some (parent x (get_elem? l (sibling i)))
  unfolding next_level
  next_level-get [] i x e = cc
  next_level-get (y ∷ []) zero x e = e
  next_level-get (y ∷ []) (suc i) x e = cc
  next_level-get (y ∷ z ∷ r) zero x e = rw (some-injective _ _ e) refl
  next_level-get (y ∷ z ∷ r) (suc zero) x e =
      rw (some-injective _ _ e) (ap some (hash_pair_comm y x))
  next_level-get (y ∷ z ∷ r) (suc (suc i)) x e =
      rw (half_step i, sibling_step i) (next_level-get r i x e)

  fold_path-push :
      (x : Hash) (o : Option Hash) (path : List Hash)
      → fold_path x (push o path) ≡ fold_path (parent x o) path
  unfolding fold_path
  fold_path-push x none path = refl
  fold_path-push x (some y) path = refl

  single :
      (n : ℕ) (l : List Hash) (i : ℕ) (x : Hash)
      → length l ≤ 1
      → get_elem? l i ≡ some x
      → get_elem? l 0 ≡ some x
  single n [] i x le e = cc
  single n (y ∷ []) zero x le e = e
  single n (y ∷ []) (suc i) x le e = cc
  single n (y ∷ z ∷ r) i x le e = absurd (omega arith)

  -- With as many steps as there are leaves the root is found, and the path of every leaf leads to it.
  pub path_of-root_of :
      (n : ℕ) (l : List Hash) (i : ℕ) (x : Hash)
      → length l ≤ n
      → get_elem? l i ≡ some x
      → root_of n l ≡ some (fold_path x (path_of n l i))
  unfolding root_of path_of fold_path
  path_of-root_of zero [] i x le e = cc
  path_of-root_of zero (y ∷ l) i x le e = absurd (omega arith)
  path_of-root_of (suc n) l i x le e = elim (Bool-cases (ltb 1 (length l))) [
    | inl many ↦
        rw (many, fold_path-push x (get_elem? l (sibling i)) (path_of n (next_level l) (i / 2)))
          (path_of-root_of n (next_level l) (i / 2) (parent x (get_elem? l (sibling i)))
            (shorter l n le many) (next_level-get l i x e))
    | inr few ↦ rw few (single n l i x (at_most_one l few) e ∙ ap some (refl_fold x))
  ]
    where
      shorter :
          (l : List Hash) (n : ℕ)
          → length l ≤ suc n
          → ltb 1 (length l) ≡ true
          → length (next_level l) ≤ n
      shorter l n le many = omega (arith, next_level-length l (ltb→lt 1 (length l) many))

      at_most_one : (l : List Hash) → ltb 1 (length l) ≡ false → length l ≤ 1
      at_most_one l few = ground arith

      refl_fold : (x : Hash) → x ≡ fold_path x []
      refl_fold x = refl
