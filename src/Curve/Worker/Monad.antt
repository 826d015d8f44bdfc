-- ===== src/Curve/Worker/Monad.antt =====
-- The monad of a handler: the world, and an answer that may come early.
use hubconnect.Base.{ℕ, Bool, true, false, Option, none, some, List, ◌∷◌, String}
use hubconnect.Curve.Worker.Host.{
  Payment, Delivery, confirmed, failed, Host, Response, error, Reason, crashed,
}

pub record World (S : Type 0) : Type 0 where
  pub store : S
  pub ledger : List Payment

pub data Result (A : Type 0) : Type 0 where
  ok : A → Result A
  exit : Response → Result A

abbrev pub Handler : Type 0 → Type 0 → Type 0
Handler S A = World S → Result A × World S

infixl 5 ◌>>=◌ ◌>>◌
unfoldable pub ◌>>=◌ : {S A B : Type 0} → Handler S A → (A → Handler S B) → Handler S B
◌>>=◌ m f w = let (r, w') = m w in elim r [ ok a ↦ f a w' | exit e ↦ (exit e, w') ]

abbrev pub ◌>>◌ : {S A B : Type 0} → Handler S A → Handler S B → Handler S B
m >> k = m >>= λ _. k

module _ {S : Type 0} where
  unfoldable pub pure : {A : Type 0} → A → Handler S A
  pure a w = (ok a, w)

  unfoldable pub answer : {A : Type 0} → Response → Handler S A
  answer r w = (exit r, w)

  -- An exception that leaves the handler: the dispatcher answers 500.
  abbrev pub throw : {A : Type 0} → Handler S A
  throw = answer (error 500 crashed)

  unfoldable pub or_throw : {A : Type 0} → Option A → Handler S A
  or_throw none = throw
  or_throw (some a) = pure a

  unfoldable pub refuse_if : Bool → ℕ → Reason → Handler S (Unit {0})
  refuse_if true code reason = answer (error code reason)
  refuse_if false code reason = pure tt

  -- Reads and writes of the store.
  unfoldable pub gets : {A : Type 0} → (S → A) → Handler S A
  gets f w = (ok (f w.store), w)

  unfoldable pub modify : (S → S) → Handler S (Unit {0})
  modify f w = (ok tt, record w { store = f w.store })

  unfoldable pub land : Payment → Bool → World S → World S
  land p true w = record w { ledger = p ∷ w.ledger }
  land p false w = w

  unfoldable pub delivered : Payment → Delivery → Handler S (Option String)
  unfolding land
  delivered p (confirmed signature) w = (ok (some signature), land p true w)
  delivered p (failed landed) w = (ok none, land p landed w)

  -- Sign, send and confirm; `none` is a call that threw.
  unfoldable pub try_send : Host → Payment → Handler S (Option String)
  unfolding delivered
  try_send h p = delivered p (h.deliver p)

  unfoldable pub send : Host → Payment → Handler S String
  send h p = do or_throw (← try_send h p)
