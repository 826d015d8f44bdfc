-- ===== src/Faucet/Guard.antt =====
-- What the guard before a granting handler lets through.
use hubconnect.Base.{
  ℕ, ◌≡◌, ◌⊎◌, inl, inr, refl, ap, ◌∙◌, Bool, true, false, Option, none, some, String, arith,
}
use hubconnect.Faucet.Host.{Host, Body, Response, error}
use hubconnect.Faucet.Store.{Kv, Key}
use hubconnect.Faucet.Handlers.{World, verify_turnstile, guarded, challenged, unless_cooling}

abbrev pub is_error : Response → Bool
is_error (error n r) = true
is_error _ = false

-- Only refusals come from the challenge.
verify_turnstile-error :
    (h : Host) (token : Option String) (r : Response)
    → verify_turnstile h token ≡ some r
    → is_error r ≡ true
unfolding verify_turnstile
verify_turnstile-error h token r e = ground (arith, e)

module _ (kv : Kv) (w : World kv.Store) (go : String → Response × World kv.Store)
    (wallet : String) where
  abbrev chain : Option Response → Option ℕ → Response × World kv.Store
  chain v c = challenged kv v w (unless_cooling kv c w (go wallet))

  chain_cooling : (v : Option Response) (t : ℕ) → (chain v (some t)).1 ≡ w
  unfolding challenged unless_cooling
  chain_cooling (some r) t = refl
  chain_cooling none t = refl

  chain-cases :
      (v : Option Response) (c : Option ℕ)
      → ((r : Response) → v ≡ some r → is_error r ≡ true)
      → ((is_error (chain v c).0 ≡ true) × ((chain v c).1 ≡ w))
        ⊎ ((c ≡ none) × (chain v c ≡ go wallet))
  unfolding challenged unless_cooling
  chain-cases (some r) c f = inl (f r refl, refl)
  chain-cases none (some t) f = inl (refl, refl)
  chain-cases none none f = inr (refl, refl)

module _ (kv : Kv) (h : Host) (key : String → Key) (body : Body)
    (go : String → Response × World kv.Store) (w : World kv.Store) where
  -- A wallet that cools down is refused before anything is done.
  pub guarded_cooling :
      (p : Option String) (wallet : String) (t : ℕ)
      → p ≡ some wallet
      → kv.get w.store h.now (key wallet) ≡ some t
      → (guarded kv h key body p go w).1 ≡ w
  unfolding guarded
  guarded_cooling p wallet t ep e =
      ap (λ p. (guarded kv h key body p go w).1) ep
      ∙ ap (λ c. (chain kv w go wallet (verify_turnstile h body.turnstile_token) c).1) e
      ∙ chain_cooling kv w go wallet (verify_turnstile h body.turnstile_token) t

  -- Either nothing is changed, or a wallet that was not cooling down is served.
  pub guarded-cases :
      (p : Option String)
      → ((is_error (guarded kv h key body p go w).0 ≡ true)
          × ((guarded kv h key body p go w).1 ≡ w))
        ⊎ ((wallet : String) × (p ≡ some wallet)
            × (kv.get w.store h.now (key wallet) ≡ none)
            × (guarded kv h key body p go w ≡ go wallet))
  unfolding guarded
  guarded-cases none = inl (refl, refl)
  guarded-cases (some wallet) =
      elim (chain-cases kv w go wallet (verify_turnstile h body.turnstile_token)
        (kv.get w.store h.now (key wallet)) (verify_turnstile-error h body.turnstile_token)) [
          | inl x ↦ inl x
          | inr (c, g) ↦ inr (wallet, refl, c, g)
        ]
