-- ===== src/Airdrop/Tests.antt =====
-- A tree of three leaves, with numbers for hashes.
use hubconnect.Base.{
  ℕ, ◌+◌, ◌*◌, ◌≡◌, refl, true, false, some, List, [], ◌∷◌, leb, String, get_elem?, arith,
}
use hubconnect.Airdrop.Tree.{Hashes, root_of, path_of, next_level, hash_pair}
use hubconnect.Airdrop.Build.{
  Entry, AirdropTree, build_airdrop_tree, with_root, proofs_from, has_duplicate,
  verify_airdrop_proof, build-verifies,
}

leb_total : (a b : ℕ) → leb a b ≡ false → leb b a ≡ true
leb_total a b e = ground arith

leb_antisym : (a b : ℕ) → leb a b ≡ true → leb b a ≡ true → a ≡ b
leb_antisym a b p q = ground arith

abbrev numbers : Hashes
numbers = record {
  Hash = ℕ;
  le = leb;
  sha = λ a b. 3 * a + b;
  le_total = leb_total;
  le_antisym = leb_antisym;
}

abbrev leaf : String → ℕ → ℕ
leaf asset amount = amount

abbrev entries : List Entry
entries =
    record { asset = "a"; amount = 5 }
    ∷ record { asset = "b"; amount = 7 }
    ∷ record { asset = "c"; amount = 2 }
    ∷ []

abbrev tree : AirdropTree numbers leaf
tree = record {
  root = 28;
  entries = entries;
  total = 14;
  proofs = ("a", 7 ∷ 2 ∷ []) ∷ ("b", 5 ∷ 2 ∷ []) ∷ ("c", 22 ∷ []) ∷ [];
}

built : build_airdrop_tree numbers leaf entries ≡ some tree
unfolding build_airdrop_tree with_root proofs_from has_duplicate root_of path_of next_level
    hash_pair
built = refl

build-verifies_example :
    (path : List ℕ) × (get_elem? tree.proofs 2 ≡ some ("c", path))
    × (verify_airdrop_proof numbers leaf tree.root "c" 2 path ≡ true)
build-verifies_example =
    build-verifies numbers leaf entries tree 2 (record { asset = "c"; amount = 2 }) built refl
