-- ===== src/Claim/Earned.antt =====
-- What a result without a reason rests on.
use mathlib.Core.List.{Mem}
use mathlib.Core.Option.{some-injective}
use hubconnect.Base.{
  ◌≡◌, inl, inr, refl, subst, Bool, true, false, Option, none, some, List, [], ◌∷◌, String, All,
  All-append, All-map, All-self,
}
use hubconnect.Swap.Execute.{Confirmation, confirmed, failed_on_chain, confirm_threw}
use hubconnect.Claim.Passing.{SignedAs, passing_of, simulate_all-passing}
use hubconnect.Claim.Send.{
  Batch, Node, Signed, txs_of, Reason, ClaimResult, results_for, Split, simulated_of, simulate_all,
  simulation_failed, rejections, rejected, send_failed, chain_failed, Sent, Sending, broadcast,
  send_all, confirmed_with, confirm_all, prepend, after_prompt, sign_passing, after_sims,
  claim_batches,
}

All-results_for :
    (P : ClaimResult → Type 0) (as_ : List String) (sig : Option String) (reason : Option Reason)
    → All (λ a. P (record { asset = a; sig = sig; reason = reason })) as_
    → All P (results_for as_ sig reason)
All-results_for P [] sig reason p = tt
All-results_for P (a ∷ rest) sig reason (p, ps) = (p, All-results_for P rest sig reason ps)

module _ {T : Type 0} (n : Node T) (P : Batch T → Type 0) (asked : List (Batch T)) where
  -- A batch that passed its simulation, and was broadcast under the signature in the bytes that the
  -- wallet signed for it when it was prompted for the transactions of `asked`.
  pub record WasSent (s : Sent) : Type 0 where
    pub batch : Batch T
    pub known : P batch
    pub same : batch.assets ≡ s.assets
    pub passed : n.simulate batch.tx ≡ some true
    pub signed : Signed (txs_of asked)
    pub bytes : String
    pub prompted : n.prompt (txs_of asked) ≡ some signed
    pub placed : SignedAs asked signed batch bytes
    pub sent : n.send bytes ≡ some s.sig

  -- A result with no reason is for a desk of a batch that was sent and confirmed.
  abbrev pub IsEarned : ClaimResult → Type 0
  IsEarned r =
      r.reason ≡ none
      → (s : Sent) × WasSent s
        × Mem r.asset s.assets
        × (r.sig ≡ some s.sig)
        × (n.confirm s.sig ≡ confirmed)

  refused-IsEarned :
      (as_ : List String) (sig : Option String) (reason : Reason)
      → All IsEarned (results_for as_ sig (some reason))
  refused-IsEarned as_ sig reason = All-results_for IsEarned as_ sig (some reason) (
      All-map (λ a. Mem a as_)
        (λ a. IsEarned (record { asset = a; sig = sig; reason = some reason })) as_ (λ a m e. cc)
        (All-self as_))

  -- What a split has passed.
  abbrev Passed : Batch T → Type 0
  Passed b = P b × (n.simulate b.tx ≡ some true)

  abbrev SplitOk : Split T → Type 0
  SplitOk s = All IsEarned s.failures × All Passed s.passing

  simulated_of-SplitOk :
      (b : Batch T) (ok : Option Bool) (t : Option (Split T)) (s : Split T)
      → P b
      → n.simulate b.tx ≡ ok
      → simulated_of b ok t ≡ some s
      → ((u : Split T) → t ≡ some u → SplitOk u)
      → SplitOk s
  simulated_of-SplitOk b none t s p q e ih = cc
  simulated_of-SplitOk b (some ok) none s p q e ih = cc
  simulated_of-SplitOk b (some true) (some u) s p q e ih =
      let (f, g) = ih u refl in subst SplitOk (some-injective _ _ e) (f, ((p, q), g))
  simulated_of-SplitOk b (some false) (some u) s p q e ih =
      let (f, g) = ih u refl in
      subst SplitOk (some-injective _ _ e)
        (All-append IsEarned _ u.failures (refused-IsEarned b.assets none simulation_failed) f, g)

  simulate_all-SplitOk :
      (bs : List (Batch T)) (s : Split T) → All P bs → simulate_all n bs ≡ some s → SplitOk s
  unfolding simulate_all
  simulate_all-SplitOk [] s p e = subst SplitOk (some-injective _ _ e) (tt, tt)
  simulate_all-SplitOk (b ∷ bs) s (p, ps) e =
      simulated_of-SplitOk b (n.simulate b.tx) (simulate_all n bs) s p refl e
        (λ u f. simulate_all-SplitOk bs u ps f)

  rejections-IsEarned : (bs : List (Batch T)) → All IsEarned (rejections bs)
  unfolding rejections
  rejections-IsEarned [] = tt
  rejections-IsEarned (b ∷ bs) =
      All-append IsEarned _ (rejections bs) (refused-IsEarned b.assets none rejected)
        (rejections-IsEarned bs)

  abbrev SendingOk : Sending → Type 0
  SendingOk s = All IsEarned s.send_failures × All WasSent s.sent

  send_all-SendingOk :
      (signed : Signed (txs_of asked))
      → n.prompt (txs_of asked) ≡ some signed
      → (bs : List (Batch T)) (xs : Signed (txs_of bs)) → All Passed bs
      → ((b : Batch T) (x : String) → SignedAs bs xs b x → SignedAs asked signed b x)
      → SendingOk (send_all n bs xs)
  unfolding send_all
  send_all-SendingOk signed pr [] xs p at = (tt, tt)
  send_all-SendingOk signed pr (b ∷ bs) (x, xs) ((p, q), ps) at =
      next (n.send x) refl (send_all-SendingOk signed pr bs xs ps (λ c y m. at c y (inr m)))
    where
      next :
          (sig : Option String)
          → n.send x ≡ sig
          → SendingOk (send_all n bs xs)
          → SendingOk (broadcast b.assets sig (send_all n bs xs))
      next none e (f, g) =
          (All-append IsEarned _ _ (refused-IsEarned b.assets none send_failed) f, g)
      next (some sig) e (f, g) = (
        f,
        (
          record {
            batch = b;
            known = p;
            same = refl;
            passed = q;
            signed = signed;
            bytes = x;
            prompted = pr;
            placed = at b x (inl (refl, refl));
            sent = e;
          },
          g,
        ),
      )

  confirmed_with-IsEarned :
      (s : Sent) (c : Confirmation) (rest : Option (List ClaimResult)) (rs : List ClaimResult)
      → WasSent s
      → n.confirm s.sig ≡ c
      → confirmed_with s c rest ≡ some rs
      → ((ts : List ClaimResult) → rest ≡ some ts → All IsEarned ts)
      → All IsEarned rs
  confirmed_with-IsEarned s confirmed (some ts) rs w c e ih =
      subst (All IsEarned) (some-injective _ _ e) (
        All-append IsEarned _ ts
          (All-results_for IsEarned s.assets (some s.sig) none (
            All-map (λ a. Mem a s.assets)
              (λ a. IsEarned (record { asset = a; sig = some s.sig; reason = none })) s.assets
              (λ a m r. (s, w, m, refl, c)) (All-self s.assets)))
          (ih ts refl))
  confirmed_with-IsEarned s failed_on_chain (some ts) rs w c e ih =
      subst (All IsEarned) (some-injective _ _ e) (
        All-append IsEarned _ ts (refused-IsEarned s.assets (some s.sig) chain_failed) (ih ts refl))
  confirmed_with-IsEarned s confirm_threw (some ts) rs w c e ih = cc
  confirmed_with-IsEarned s confirmed none rs w c e ih = cc
  confirmed_with-IsEarned s failed_on_chain none rs w c e ih = cc
  confirmed_with-IsEarned s confirm_threw none rs w c e ih = cc

  confirm_all-IsEarned :
      (ss : List Sent) (rs : List ClaimResult)
      → All WasSent ss
      → confirm_all n.confirm ss ≡ some rs
      → All IsEarned rs
  unfolding confirm_all
  confirm_all-IsEarned [] rs w e = subst (All IsEarned) (some-injective _ _ e) tt
  confirm_all-IsEarned (s ∷ ss) rs (w, ws) e =
      confirmed_with-IsEarned s (n.confirm s.sig) (confirm_all n.confirm ss) rs w refl e
        (λ ts f. confirm_all-IsEarned ss ts ws f)

  prepend-IsEarned :
      (rs : List ClaimResult) (rest : Option (List ClaimResult)) (all : List ClaimResult)
      → prepend rs rest ≡ some all
      → All IsEarned rs
      → ((ts : List ClaimResult) → rest ≡ some ts → All IsEarned ts)
      → All IsEarned all
  prepend-IsEarned rs none all e p ih = cc
  prepend-IsEarned rs (some ts) all e p ih =
      subst (All IsEarned) (some-injective _ _ e) (All-append IsEarned rs ts p (ih ts refl))

  after_prompt-IsEarned :
      (signed : Option (Signed (txs_of asked))) (rs : List ClaimResult)
      → All Passed asked
      → n.prompt (txs_of asked) ≡ signed
      → after_prompt n asked signed ≡ some rs
      → All IsEarned rs
  unfolding after_prompt
  after_prompt-IsEarned none rs p q e =
      subst (All IsEarned) (some-injective _ _ e) (rejections-IsEarned asked)
  after_prompt-IsEarned (some signed) rs p q e =
      let (f, g) = send_all-SendingOk signed q asked signed p (λ b x m. m) in
      prepend-IsEarned _ (confirm_all n.confirm (send_all n asked signed).sent) rs e f
        (λ ts c. confirm_all-IsEarned (send_all n asked signed).sent ts g c)

module _ {T : Type 0} (n : Node T) (P : Batch T → Type 0) where
  sign_passing-IsEarned :
      (asked : List (Batch T)) (rs : List ClaimResult)
      → All (Passed n P asked) asked
      → sign_passing n asked ≡ some rs
      → All (IsEarned n P asked) rs
  unfolding sign_passing
  sign_passing-IsEarned [] rs p e = subst (All (IsEarned n P [])) (some-injective _ _ e) tt
  sign_passing-IsEarned (b ∷ bs) rs p e = after_prompt-IsEarned n P (b ∷ bs) _ rs p refl e

  after_sims-IsEarned :
      (asked : List (Batch T)) (t : Option (Split T)) (rs : List ClaimResult)
      → ((s : Split T) → t ≡ some s → SplitOk n P s.passing s × (s.passing ≡ asked))
      → after_sims n t ≡ some rs
      → All (IsEarned n P asked) rs
  after_sims-IsEarned asked none rs p e = cc
  after_sims-IsEarned asked (some s) rs p e =
      let ((f, g), same) = p s refl in
      subst (λ qs. All (IsEarned n P qs) rs) same
        (prepend-IsEarned n P s.passing s.failures (sign_passing n s.passing) rs e f
          (λ ts c. sign_passing-IsEarned s.passing ts g c))

-- Each result that carries no reason is for a desk of one of the batches. The batch's transaction passed
-- its simulation, the wallet was prompted once for exactly the transactions that passed, and signed; the
-- bytes that it signed for this one were broadcast under the result's signature, which was confirmed.
pub claim_batches-IsEarned :
    {T : Type 0} (n : Node T) (bs : List (Batch T)) (rs : List ClaimResult)
    → claim_batches n bs ≡ some rs
    → All (IsEarned n (λ b. Mem b bs) (passing_of n bs)) rs
unfolding claim_batches
claim_batches-IsEarned n bs rs e =
    after_sims-IsEarned n (λ b. Mem b bs) (passing_of n bs) (simulate_all n bs) rs
      (λ s f. (
        simulate_all-SplitOk n (λ b. Mem b bs) s.passing bs s (All-self bs) f,
        simulate_all-passing n bs s f,
      ))
      e
