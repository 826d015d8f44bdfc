-- ===== src/Claim/Passing.antt =====
-- The batches that pass their simulation, and what the wallet signs for each.
use mathlib.Core.Option.{some-injective}
use hubconnect.Base.{
  ◌≡◌, ◌⊎◌, refl, sym, ap, ◌∙◌, Bool, true, false, Option, none, some, List, [], ◌∷◌, String,
}
use hubconnect.Claim.Send.{Batch, Node, Signed, txs_of, Split, simulated_of, simulate_all}

module _ {T : Type 0} where
  -- What was signed for a batch, by its position.
  abbrev pub SignedAs : (bs : List (Batch T)) → Signed (txs_of bs) → Batch T → String → Type 0
  SignedAs [] signed b x = ⊥
  SignedAs (c ∷ cs) (y, ys) b x = ((b ≡ c) × (x ≡ y)) ⊎ SignedAs cs ys b x

  abbrev pub kept_if : Option Bool → Batch T → List (Batch T) → List (Batch T)
  kept_if none b bs = bs
  kept_if (some false) b bs = bs
  kept_if (some true) b bs = b ∷ bs

  -- The batches whose simulation says that they pass, in their order.
  abbrev pub passing_of : Node T → List (Batch T) → List (Batch T)
  passing_of n [] = []
  passing_of n (b ∷ bs) = kept_if (n.simulate b.tx) b (passing_of n bs)

module _ {T : Type 0} (n : Node T) where
  simulated_of-passing :
      (b : Batch T) (bs : List (Batch T)) (ok : Option Bool) (t : Option (Split T)) (s : Split T)
      → n.simulate b.tx ≡ ok
      → simulated_of b ok t ≡ some s
      → ((u : Split T) → t ≡ some u → u.passing ≡ passing_of n bs)
      → s.passing ≡ passing_of n (b ∷ bs)
  simulated_of-passing b bs none t s q e ih = cc
  simulated_of-passing b bs (some ok) none s q e ih = cc
  simulated_of-passing b bs (some true) (some u) s q e ih =
      ap (λ (x : Split T). x.passing) (sym (some-injective _ _ e))
      ∙ ap (λ xs. b ∷ xs) (ih u refl)
      ∙ ap (λ o. kept_if o b (passing_of n bs)) (sym q)
  simulated_of-passing b bs (some false) (some u) s q e ih =
      ap (λ (x : Split T). x.passing) (sym (some-injective _ _ e))
      ∙ ih u refl
      ∙ ap (λ o. kept_if o b (passing_of n bs)) (sym q)

  pub simulate_all-passing :
      (bs : List (Batch T)) (s : Split T) → simulate_all n bs ≡ some s → s.passing ≡ passing_of n bs
  unfolding simulate_all
  simulate_all-passing [] s e = ap (λ (x : Split T). x.passing) (sym (some-injective _ _ e))
  simulate_all-passing (b ∷ bs) s e =
      simulated_of-passing b bs (n.simulate b.tx) (simulate_all n bs) s refl e
        (simulate_all-passing bs)
