-- ===== src/Claim/Results.antt =====
-- The results of a claim against the desks that it was asked for.
use mathlib.Core.List.{Perm, perm_append_comm, append_assoc, map-append}
use mathlib.Core.List.Perm
use mathlib.Core.Option.{some-injective}
use hubconnect.Base.{
  ◌≡◌, refl, sym, ap, subst, ◌∙◌, Bool, true, false, Option, none, some, List, [], ◌∷◌, ◌++◌, map,
  String,
}
use hubconnect.Swap.Execute.{Confirmation, confirmed, failed_on_chain, confirm_threw}
use hubconnect.Claim.Send.{
  Batch, Node, Reason, ClaimResult, results_for, Split, simulated, simulated_of, simulate_all,
  rejections, Signed, txs_of, Sent, Sending, broadcast, send_all, confirmed_with, confirm_all,
  prepend, after_prompt, sign_passing, after_sims, claim_batches,
}

-- The desks of results, of batches and of what was sent.
abbrev pub desks : List ClaimResult → List String
desks rs = map (λ (r : ClaimResult). r.asset) rs

abbrev pub desks_of : {T : Type 0} → List (Batch T) → List String
desks_of [] = []
desks_of (b ∷ bs) = b.assets ++ desks_of bs

abbrev pub desks_sent : List Sent → List String
desks_sent [] = []
desks_sent (s ∷ ss) = s.assets ++ desks_sent ss

pub desks-results_for :
    (as_ : List String) (sig : Option String) (reason : Option Reason)
    → desks (results_for as_ sig reason) ≡ as_
desks-results_for [] sig reason = refl
desks-results_for (a ∷ rest) sig reason = ap (λ l. a ∷ l) (desks-results_for rest sig reason)

desks-append : (rs ts : List ClaimResult) → desks (rs ++ ts) ≡ desks rs ++ desks ts
desks-append rs ts = map-append (λ (r : ClaimResult). r.asset) rs ts

-- Results for a group stand in front of others.
desks-group :
    (as_ : List String) (sig : Option String) (reason : Option Reason) (rs : List ClaimResult)
    → desks (results_for as_ sig reason ++ rs) ≡ as_ ++ desks rs
desks-group as_ sig reason rs =
    desks-append (results_for as_ sig reason) rs
    ∙ ap (λ l. l ++ desks rs) (desks-results_for as_ sig reason)

-- A group that goes to the second of two lists.
to_second : (g xs ys zs : List String) → Perm (xs ++ ys) zs → Perm (xs ++ (g ++ ys)) (g ++ zs)
to_second g xs ys zs p =
    Perm.trans
      (subst (λ l. Perm l ((g ++ xs) ++ ys)) (append_assoc xs g ys)
        (Perm.append_right ys (perm_append_comm xs g)))
      (subst (λ l. Perm l (g ++ zs)) (sym (append_assoc g xs ys)) (Perm.append_left g p))

-- A group that goes to the first of them.
to_first : (g xs ys zs : List String) → Perm (xs ++ ys) zs → Perm ((g ++ xs) ++ ys) (g ++ zs)
to_first g xs ys zs p =
    subst (λ l. Perm l (g ++ zs)) (sym (append_assoc g xs ys)) (Perm.append_left g p)

module _ {T : Type 0} (n : Node T) where
  simulated-Perm :
      (b : Batch T) (ok : Bool) (s : Split T) (rest : List String)
      → Perm (desks s.failures ++ desks_of s.passing) rest
      → Perm
          (desks (simulated b ok s).failures ++ desks_of (simulated b ok s).passing)
          (b.assets ++ rest)
  simulated-Perm b true s rest p = to_second b.assets (desks s.failures) (desks_of s.passing) rest p
  simulated-Perm b false s rest p =
      subst (λ l. Perm (l ++ desks_of s.passing) (b.assets ++ rest))
        (sym (desks-group b.assets none _ s.failures))
        (to_first b.assets (desks s.failures) (desks_of s.passing) rest p)

  abbrev Splits : Split T → List String → Type 0
  Splits s rest = Perm (desks s.failures ++ desks_of s.passing) rest

  simulated_of-Perm :
      (b : Batch T) (ok : Option Bool) (t : Option (Split T)) (s : Split T) (rest : List String)
      → simulated_of b ok t ≡ some s
      → ((u : Split T) → t ≡ some u → Splits u rest)
      → Splits s (b.assets ++ rest)
  simulated_of-Perm b none t s rest e ih = cc
  simulated_of-Perm b (some ok) none s rest e ih = cc
  simulated_of-Perm b (some ok) (some u) s rest e ih =
      subst (λ v. Splits v (b.assets ++ rest)) (some-injective _ _ e)
        (simulated-Perm b ok u rest (ih u refl))

  simulate_all-Perm :
      (bs : List (Batch T)) (s : Split T) → simulate_all n bs ≡ some s → Splits s (desks_of bs)
  unfolding simulate_all
  simulate_all-Perm [] s e = subst (λ v. Splits v []) (some-injective _ _ e) (Perm.refl [])
  simulate_all-Perm (b ∷ bs) s e =
      simulated_of-Perm b (n.simulate b.tx) (simulate_all n bs) s (desks_of bs) e
        (simulate_all-Perm bs)

  desks-rejections : (bs : List (Batch T)) → desks (rejections bs) ≡ desks_of bs
  unfolding rejections
  desks-rejections [] = refl
  desks-rejections (b ∷ bs) =
      desks-group b.assets none _ (rejections bs) ∙ ap (λ l. b.assets ++ l) (desks-rejections bs)

  broadcast-Perm :
      (as_ : List String) (sig : Option String) (s : Sending) (rest : List String)
      → Perm (desks s.send_failures ++ desks_sent s.sent) rest
      → Perm
          (desks (broadcast as_ sig s).send_failures ++ desks_sent (broadcast as_ sig s).sent)
          (as_ ++ rest)
  broadcast-Perm as_ (some sig) s rest p =
      to_second as_ (desks s.send_failures) (desks_sent s.sent) rest p
  broadcast-Perm as_ none s rest p =
      subst (λ l. Perm (l ++ desks_sent s.sent) (as_ ++ rest))
        (sym (desks-group as_ none _ s.send_failures))
        (to_first as_ (desks s.send_failures) (desks_sent s.sent) rest p)

  send_all-Perm :
      (bs : List (Batch T)) (signed : Signed (txs_of bs))
      → let s = send_all n bs signed in
        Perm (desks s.send_failures ++ desks_sent s.sent) (desks_of bs)
  unfolding send_all
  send_all-Perm [] signed = Perm.refl []
  send_all-Perm (b ∷ bs) (x, xs) =
      broadcast-Perm b.assets (n.send x) (send_all n bs xs) (desks_of bs) (send_all-Perm bs xs)

confirmed_with-desks :
    (s : Sent) (c : Confirmation) (rest : Option (List ClaimResult)) (rs : List ClaimResult)
    (ds : List String)
    → confirmed_with s c rest ≡ some rs
    → ((ts : List ClaimResult) → rest ≡ some ts → desks ts ≡ ds)
    → desks rs ≡ s.assets ++ ds
confirmed_with-desks s confirmed (some ts) rs ds e ih =
    ap desks (sym (some-injective _ _ e))
    ∙ desks-group s.assets _ none ts
    ∙ ap (λ l. s.assets ++ l) (ih ts refl)
confirmed_with-desks s failed_on_chain (some ts) rs ds e ih =
    ap desks (sym (some-injective _ _ e))
    ∙ desks-group s.assets _ _ ts
    ∙ ap (λ l. s.assets ++ l) (ih ts refl)
confirmed_with-desks s confirm_threw (some ts) rs ds e ih = cc
confirmed_with-desks s confirmed none rs ds e ih = cc
confirmed_with-desks s failed_on_chain none rs ds e ih = cc
confirmed_with-desks s confirm_threw none rs ds e ih = cc

confirm_all-desks :
    (confirm : String → Confirmation) (ss : List Sent) (rs : List ClaimResult)
    → confirm_all confirm ss ≡ some rs
    → desks rs ≡ desks_sent ss
unfolding confirm_all
confirm_all-desks confirm [] rs e = ap desks (sym (some-injective _ _ e))
confirm_all-desks confirm (s ∷ ss) rs e =
    confirmed_with-desks s (confirm s.sig) (confirm_all confirm ss) rs (desks_sent ss) e
      (confirm_all-desks confirm ss)

-- Results that stand in front of the rest.
prepend-Perm :
    (rs : List ClaimResult) (rest : Option (List ClaimResult)) (all : List ClaimResult)
    (ds zs : List String)
    → prepend rs rest ≡ some all
    → ((ts : List ClaimResult) → rest ≡ some ts → Perm (desks ts) ds)
    → Perm (desks rs ++ ds) zs
    → Perm (desks all) zs
prepend-Perm rs none all ds zs e ih p = cc
prepend-Perm rs (some ts) all ds zs e ih p =
    subst (λ l. Perm (desks l) zs) (some-injective _ _ e)
      (subst (λ l. Perm l zs) (sym (desks-append rs ts))
        (Perm.trans (Perm.append_left (desks rs) (ih ts refl)) p))

module _ {T : Type 0} (n : Node T) where
  after_prompt-Perm :
      (bs : List (Batch T)) (signed : Option (Signed (txs_of bs))) (rs : List ClaimResult)
      → after_prompt n bs signed ≡ some rs
      → Perm (desks rs) (desks_of bs)
  unfolding after_prompt
  after_prompt-Perm bs none rs e =
      subst (λ l. Perm l (desks_of bs))
        (sym (desks-rejections n bs) ∙ ap desks (some-injective _ _ e)) (Perm.refl (desks_of bs))
  after_prompt-Perm bs (some signed) rs e =
      let s = send_all n bs signed in
      prepend-Perm s.send_failures (confirm_all n.confirm s.sent) rs (desks_sent s.sent)
        (desks_of bs) e
        (λ ts f. subst (Perm (desks ts)) (confirm_all-desks n.confirm s.sent ts f) (Perm.refl _))
        (send_all-Perm n bs signed)

  sign_passing-Perm :
      (bs : List (Batch T)) (rs : List ClaimResult)
      → sign_passing n bs ≡ some rs
      → Perm (desks rs) (desks_of bs)
  unfolding sign_passing
  sign_passing-Perm [] rs e = subst (λ l. Perm (desks l) []) (some-injective _ _ e) (Perm.refl [])
  sign_passing-Perm (b ∷ bs) rs e = after_prompt-Perm (b ∷ bs) _ rs e

  -- Unless a call throws, every desk of the batches has one result, no more and no other.
  pub claim_batches-Perm :
      (bs : List (Batch T)) (rs : List ClaimResult)
      → claim_batches n bs ≡ some rs
      → Perm (desks rs) (desks_of bs)
  unfolding claim_batches
  claim_batches-Perm bs rs e = after (simulate_all n bs) (simulate_all-Perm n bs) e
    where
      after :
          (t : Option (Split T))
          → ((s : Split T) → t ≡ some s → Splits n s (desks_of bs))
          → after_sims n t ≡ some rs
          → Perm (desks rs) (desks_of bs)
      after none p e = cc
      after (some s) p e =
          prepend-Perm s.failures (sign_passing n s.passing) rs (desks_of s.passing) (desks_of bs) e
            (sign_passing-Perm s.passing) (p s refl)
