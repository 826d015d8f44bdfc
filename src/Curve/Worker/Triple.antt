-- ===== src/Curve/Worker/Triple.antt =====
-- Invariants of handlers: what a handler keeps of the world, and what holds of its result.
use hubconnect.Base.{ℕ, ◌≡◌, refl, subst, Bool, true, false, Option, none, some}
use hubconnect.Curve.Worker.Host.{Response, Reason}
use hubconnect.Curve.Worker.Monad.{
  World, Result, ok, exit, Handler, ◌>>=◌, answer, pure, or_throw, refuse_if,
}

module _ {S : Type 0} (P : World S → Type 0) where
  abbrev pub Ensures : {A : Type 0} → (A → Type 0) → Result A × World S → Type 0
  Ensures Q (ok a, w) = P w × Q a
  Ensures Q (exit r, w) = P w

  -- From a world with `P` the handler ends in one, and its result, if there is one, has `Q`.
  pub record Triple {A : Type 0} (m : Handler S A) (Q : A → Type 0) : Type 0 where
    pub run : (w : World S) → P w → Ensures Q (m w)

abbrev pub Any : {A : Type 0} → A → Type 0
Any a = Unit

module _ {S : Type 0} {P : World S → Type 0} where
  step :
      {A B : Type 0} (f : A → Handler S B) (Q : A → Type 0) (R : B → Type 0)
      → ((a : A) → Q a → Triple P (f a) R)
      → (x : Result A × World S) → Ensures P Q x
      → Ensures P R (let (r, w') = x in elim r [ ok a ↦ f a w' | exit e ↦ (exit e, w') ])
  step f Q R rest (ok a, w') (p', q) = (rest a q).run w' p'
  step f Q R rest (exit e, w') p' = p'

  pub bind_rule :
      {A B : Type 0} {m : Handler S A} {f : A → Handler S B} {Q : A → Type 0} {R : B → Type 0}
      → Triple P m Q
      → ((a : A) → Q a → Triple P (f a) R)
      → Triple P (m >>= f) R
  unfolding ◌>>=◌
  bind_rule {m = m} {f = f} {Q = Q} {R = R} first rest = record {
    run = λ w p. step f Q R rest (m w) (first.run w p);
  }

  pub pure_rule : {A : Type 0} {Q : A → Type 0} (a : A) → Q a → Triple P (pure a) Q
  unfolding pure
  pure_rule a q = record { run = λ w p. (p, q) }

  pub answer_rule : {A : Type 0} {Q : A → Type 0} (r : Response) → Triple P (answer r) Q
  unfolding answer
  answer_rule r = record { run = λ w p. p }

  pub or_throw_rule : {A : Type 0} (o : Option A) → Triple P (or_throw o) (λ a. o ≡ some a)
  unfolding or_throw
  or_throw_rule none = answer_rule _
  or_throw_rule (some a) = pure_rule a refl

  pub refuse_if_rule :
      (b : Bool) (code : ℕ) (reason : Reason) → Triple P (refuse_if b code reason) (λ _. b ≡ false)
  unfolding refuse_if
  refuse_if_rule true code reason = answer_rule _
  refuse_if_rule false code reason = pure_rule tt refl

module _ {S : Type 0} (P : World S → Type 0) where
  weaken_result :
      {A : Type 0} (Q R : A → Type 0)
      → ((a : A) → Q a → R a)
      → (x : Result A × World S) → Ensures P Q x
      → Ensures P R x
  weaken_result Q R f (ok a, w') (p', q) = (p', f a q)
  weaken_result Q R f (exit e, w') p' = p'

module _ {S : Type 0} {P : World S → Type 0} where
  pub weaken :
      {A : Type 0} {m : Handler S A} {Q R : A → Type 0}
      → ((a : A) → Q a → R a)
      → Triple P m Q
      → Triple P m R
  weaken {m = m} {Q = Q} {R = R} f t = record {
    run = λ w p. weaken_result P Q R f (m w) (t.run w p);
  }

module _ {S : Type 0} (P : World S → Type 0) where
  step_never :
      {A B : Type 0} (f : A → Handler S B) (Q : A → Type 0)
      → ((a : A) → ¬ Q a)
      → (x : Result A × World S) → Ensures P Q x
      → P
          (let (r, w') = x in
            elim r as (λ _. Result B × World S) [ ok a ↦ f a w' | exit e ↦ (exit e, w') ]).1
  step_never f Q no_a (ok a, w') (p', q) = absurd (no_a a q)
  step_never f Q no_a (exit e, w') p' = p'

  -- A handler that cannot return hands no world on.
  pub bind_never :
      {A B : Type 0} (m : Handler S A) (f : A → Handler S B) (Q : A → Type 0)
      → Triple P m Q
      → ((a : A) → ¬ Q a)
      → (w : World S) → P w
      → P ((m >>= f) w).1
  unfolding ◌>>=◌
  bind_never m f Q t no_a w p = step_never f Q no_a (m w) (t.run w p)

module _ {S : Type 0} {P : World S → Type 0} where
  pub returned :
      {A : Type 0} {m : Handler S A} {Q : A → Type 0} {w v : World S} {a : A}
      → Triple P m Q
      → P w
      → m w ≡ (ok a, v)
      → P v × Q a
  returned {Q = Q} {w = w} t p e = subst (Ensures P Q) e (t.run w p)
