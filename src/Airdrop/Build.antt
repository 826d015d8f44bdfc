-- ===== src/Airdrop/Build.antt =====
-- `buildAirdropTree` and `verifyAirdropProof`. The hash of a leaf is a parameter; an asset is its
-- base58 text.
use text.Mathlib.Text.{◌==◌ as str_eq}
use mathlib.Core.Option.{some-injective}
use native.Mathlib.Nat.{le_refl}
use hubconnect.Base.{
  ℕ, suc, zero, ◌+◌, ◌≡◌, refl, sym, ap, ◌∙◌, Bool, true, false, ◌&&◌, ◌||◌, Option, none, some,
  List, [], ◌∷◌, String, length, get_elem?, map, arith, if◌then◌else◌, Bool-cases, inl, inr,
}
use hubconnect.Airdrop.Tree.{Hashes, root_of, path_of, fold_path, path_of-root_of}

pub record Entry : Type 0 where
  pub asset : String
  pub amount : ℕ

abbrev pub uniform_entries : List String → ℕ → List Entry
uniform_entries assets n = map (λ a. record { asset = a; amount = n }) assets

abbrev pub contains : List String → String → Bool
contains [] x = false
contains (y ∷ ys) x = str_eq y x || contains ys x

-- Whether an asset comes again, those of `seen` included.
unfoldable pub has_duplicate : List String → List Entry → Bool
has_duplicate seen [] = false
has_duplicate seen (e ∷ es) = contains seen e.asset || has_duplicate (e.asset ∷ seen) es

abbrev pub total_units : List Entry → ℕ
total_units [] = 0
total_units (e ∷ es) = e.amount + total_units es

module _ (hashes : Hashes) (leaf : String → ℕ → hashes.Hash) where
  open hashes use {Hash, le}

  pub record AirdropTree : Type 0 where
    pub root : Hash
    pub entries : List Entry
    pub total : ℕ
    pub proofs : List (String × List Hash)

  abbrev pub leaves_of : List Entry → List Hash
  leaves_of [] = []
  leaves_of (e ∷ es) = leaf e.asset e.amount ∷ leaves_of es

  -- The path of each entry, from index `i` on.
  unfoldable pub proofs_from : List Hash → ℕ → List Entry → List (String × List Hash)
  proofs_from leaves i [] = []
  proofs_from leaves i (e ∷ es) =
      (e.asset, path_of hashes (length leaves) leaves i) ∷ proofs_from leaves (i + 1) es

  unfoldable pub with_root : List Entry → Option Hash → Option AirdropTree
  unfolding proofs_from
  with_root entries none = none
  with_root entries (some r) = some (record {
    root = r;
    entries = entries;
    total = total_units entries;
    proofs = proofs_from (leaves_of entries) 0 entries;
  })

  -- `none` is the error: no entry, or an asset twice.
  unfoldable pub build_airdrop_tree : List Entry → Option AirdropTree
  unfolding with_root
  build_airdrop_tree [] = none
  build_airdrop_tree (e ∷ es) =
      let leaves = leaves_of (e ∷ es) in
      if has_duplicate [] (e ∷ es)
      then none
      else with_root (e ∷ es) (root_of hashes (length leaves) leaves)

  -- `cmp(node, root) === 0`.
  abbrev pub same : Hash → Hash → Bool
  same a b = le a b && le b a

  unfoldable pub verify_airdrop_proof : Hash → String → ℕ → List Hash → Bool
  verify_airdrop_proof root asset amount proof =
      same (fold_path hashes (leaf asset amount) proof) root

  le_refl_hash : (a : Hash) → le a a ≡ true
  le_refl_hash a = elim (Bool-cases (le a a)) [ inl e ↦ e | inr e ↦ hashes.le_total a a e ]

  leaves_of-length : (es : List Entry) → length (leaves_of es) ≡ length es
  leaves_of-length [] = refl
  leaves_of-length (e ∷ es) = ap suc (leaves_of-length es)

  leaves_of-get :
      (es : List Entry) (i : ℕ) (e : Entry)
      → get_elem? es i ≡ some e
      → get_elem? (leaves_of es) i ≡ some (leaf e.asset e.amount)
  leaves_of-get [] i e p = cc
  leaves_of-get (d ∷ es) zero e p =
      ap (λ (z : Entry). some (leaf z.asset z.amount)) (some-injective _ _ p)
  leaves_of-get (d ∷ es) (suc i) e p = leaves_of-get es i e p

  proofs_from-get :
      (leaves : List Hash) (j : ℕ) (es : List Entry) (i k : ℕ) (e : Entry)
      → j + i ≡ k
      → get_elem? es i ≡ some e
      → get_elem? (proofs_from leaves j es) i
        ≡ some (e.asset, path_of hashes (length leaves) leaves k)
  unfolding proofs_from
  proofs_from-get leaves j [] i k e q p = cc
  proofs_from-get leaves j (d ∷ es) zero k e q p =
      let at_k : j ≡ k = omega arith in
      ap (λ (z : Entry). some (z.asset, path_of hashes (length leaves) leaves j))
        (some-injective _ _ p)
      ∙ ap (λ n. some (e.asset, path_of hashes (length leaves) leaves n)) at_k
  proofs_from-get leaves j (d ∷ es) (suc i) k e q p =
      proofs_from-get leaves (j + 1) es i k e (omega arith) p

  with_root-verifies :
      (es : List Entry) (o : Option Hash) (t : AirdropTree) (i : ℕ) (e : Entry)
      → root_of hashes (length (leaves_of es)) (leaves_of es) ≡ o
      → with_root es o ≡ some t
      → get_elem? es i ≡ some e
      → (path : List Hash) × (get_elem? t.proofs i ≡ some (e.asset, path))
        × (verify_airdrop_proof t.root e.asset e.amount path ≡ true)
  unfolding with_root verify_airdrop_proof
  with_root-verifies es none t i e r b p = cc
  with_root-verifies es (some root) t i e r b p =
      let leaves = leaves_of es in
      let path = path_of hashes (length leaves) leaves i in
      let same_tree = some-injective _ _ b in
      let found =
        path_of-root_of hashes (length leaves) leaves i (leaf e.asset e.amount)
          (le_refl (length leaves)) (leaves_of-get es i e p) in
      let top : fold_path hashes (leaf e.asset e.amount) path ≡ t.root =
        some-injective _ _ (sym found ∙ r) ∙ ap (λ (z : AirdropTree). z.root) same_tree in
      (
        path,
        ap (λ (z : AirdropTree). get_elem? z.proofs i) (sym same_tree)
            ∙ proofs_from-get leaves 0 es i i e (omega arith) p,
        rw (top, le_refl_hash t.root) refl,
      )

  -- Every entry of a tree that is built has a proof at its place, under its asset, that verifies
  -- against the root for its amount.
  pub build-verifies :
      (es : List Entry) (t : AirdropTree) (i : ℕ) (e : Entry)
      → build_airdrop_tree es ≡ some t
      → get_elem? es i ≡ some e
      → (path : List Hash) × (get_elem? t.proofs i ≡ some (e.asset, path))
        × (verify_airdrop_proof t.root e.asset e.amount path ≡ true)
  unfolding build_airdrop_tree
  build-verifies [] t i e b p = cc
  build-verifies (d ∷ es) t i e b p = elim (Bool-cases (has_duplicate [] (d ∷ es))) [
    | inl f ↦ cc (rw f at b)
    | inr f ↦ with_root-verifies (d ∷ es) _ t i e refl (rw f at b) p
  ]
