-- ===== src/Swap/Sent.antt =====
-- What is true of every transaction that a swap sends, and of the result it reports.
use text.Mathlib.Text.{◌==◌ as str_eq}
use text.Mathlib.TextEquality.{eq_iff}
use hubconnect.Base.{
  ◌≡◌, refl, Bool, true, false, not, ◌||◌, Option, none, some, String, if◌then◌else◌,
}
use hubconnect.Swap.Quote.{QuoteParams, JupiterQuote, get_quote}
use hubconnect.Swap.Execute.{
  Node, Run, SwapResult, done, Unsigned, Signed, Confirmation, confirmed, failed_on_chain,
  confirm_threw, execute_swap, quote_step, build_step, sim_step, sign_step, send_step, confirm_step,
  settle, pays,
}

-- What was checked before bytes were sent: the quote is for what was asked, the user pays the fee, the
-- simulation found no error, the context was live at every call, and the message that the wallet
-- signed is the one simulated.
pub record WasChecked (n : Node) (p : QuoteParams) (bytes : String) : Type 0 where
  pub accepted : JupiterQuote
  pub tx : Unsigned
  pub signed : Signed
  pub quoted : get_quote n.is_pubkey n.transport p ≡ some accepted
  pub built : n.build accepted n.user ≡ some tx
  pub paid_by_user : pays tx.fee_payer n.user ≡ true
  pub simulated : n.simulate tx ≡ some none
  pub stayed_live : (n.live 0 ≡ true) × (n.live 1 ≡ true) × (n.live 2 ≡ true) × (n.live 3 ≡ true)
  pub from_wallet : n.wallet tx ≡ some (some signed)
  pub same_message : signed.message ≡ tx.message
  pub has_signature : signed.is_signed ≡ true
  pub same_bytes : signed.bytes ≡ bytes

-- How a reported success is known: confirmed, or landed by the signature's own status.
pub data WasSeen (n : Node) : String → Type 0 where
  seen_confirmed : (x : String) → n.confirm x ≡ confirmed → WasSeen n x
  seen_landed : (x : String) → n.landed x ≡ some true → WasSeen n x

abbrev pub is_done : SwapResult → Bool
is_done (done x) = true
is_done _ = false

-- What is known of a result: a success was seen to land.
abbrev pub Reported : Node → SwapResult → Type 0
Reported n (done x) = WasSeen n x
Reported n _ = Unit

-- A run that sent nothing reports no success; one that sent was checked, and reports success only for
-- a signature that was seen to land.
pub data IsSound (n : Node) (p : QuoteParams) : Run → Type 0 where
  sent_nothing : (r : SwapResult) → is_done r ≡ false → IsSound n p (r, none)
  sent_checked :
      (r : SwapResult) (bytes : String)
      → WasChecked n p bytes
      → Reported n r
      → IsSound n p (r, some bytes)

module _ (n : Node) (p : QuoteParams) where
  if_rule :
      (c : Bool) (x y : Run)
      → (c ≡ true → IsSound n p x)
      → (c ≡ false → IsSound n p y)
      → IsSound n p (if c then x else y)
  if_rule true x y f g = f refl
  if_rule false x y f g = g refl

  module _ (bytes : String) (k : WasChecked n p bytes) where
    settle-IsSound :
        (x : String) (o : Option Bool) → n.landed x ≡ o → IsSound n p (settle bytes x o)
    unfolding settle
    settle-IsSound x none e = sent_checked _ bytes k tt
    settle-IsSound x (some true) e = sent_checked _ bytes k (seen_landed x e)
    settle-IsSound x (some false) e = sent_checked _ bytes k tt

    confirm_step-IsSound :
        (x : String) (c : Confirmation) → n.confirm x ≡ c → IsSound n p (confirm_step n bytes x c)
    unfolding confirm_step
    confirm_step-IsSound x confirmed e = sent_checked _ bytes k (seen_confirmed x e)
    confirm_step-IsSound x failed_on_chain e = settle-IsSound x (n.landed x) refl
    confirm_step-IsSound x confirm_threw e = settle-IsSound x (n.landed x) refl

    send_step-IsSound : (o : Option String) → IsSound n p (send_step n bytes o)
    unfolding send_step
    send_step-IsSound none = sent_checked _ bytes k tt
    send_step-IsSound (some x) =
        if_rule n.blockhash _ _ (λ _. confirm_step-IsSound x (n.confirm x) refl)
          (λ _. sent_checked _ bytes k tt)

  from_not : (b : Bool) → not b ≡ false → b ≡ true
  from_not true e = refl
  from_not false e = cc

  neither : (a b : Bool) → (not a || not b) ≡ false → (a ≡ true) × (b ≡ true)
  neither true true e = (refl, refl)
  neither true false e = cc
  neither false b e = cc

  module _ (q : JupiterQuote) (quoted : get_quote n.is_pubkey n.transport p ≡ some q)
      (live0 : n.live 0 ≡ true) (tx : Unsigned) (built : n.build q n.user ≡ some tx)
      (live1 : n.live 1 ≡ true) (paid : pays tx.fee_payer n.user ≡ true) where
    sign_step-IsSound :
        n.simulate tx ≡ some none
        → n.live 2 ≡ true
        → n.live 3 ≡ true
        → (o : Option (Option Signed)) → n.wallet tx ≡ o
        → IsSound n p (sign_step n tx o)
    unfolding sign_step
    sign_step-IsSound sim live2 live3 none e = sent_nothing _ refl
    sign_step-IsSound sim live2 live3 (some none) e = sent_nothing _ refl
    sign_step-IsSound sim live2 live3 (some (some s)) e =
        if_rule (not (str_eq s.message tx.message) || not s.is_signed) _ _
          (λ _. sent_nothing _ refl)
          λ f.
            let (same, has) = neither _ _ f in
            send_step-IsSound s.bytes
              (record {
                accepted = q;
                tx = tx;
                signed = s;
                quoted = quoted;
                built = built;
                paid_by_user = paid;
                simulated = sim;
                stayed_live = (live0, live1, live2, live3);
                from_wallet = e;
                same_message = (eq_iff s.message tx.message).0 same;
                has_signature = has;
                same_bytes = refl;
              })
              (n.send s.bytes)

    sim_step-IsSound :
        (o : Option (Option String)) → n.simulate tx ≡ o → IsSound n p (sim_step n tx o)
    unfolding sim_step
    sim_step-IsSound none e = sent_nothing _ refl
    sim_step-IsSound (some none) e =
        if_rule (not (n.live 2) || not (n.live 3)) _ _ (λ _. sent_nothing _ refl)
          λ f.
            let (live2, live3) = neither _ _ f in sign_step-IsSound e live2 live3 (n.wallet tx) refl
    sim_step-IsSound (some (some err)) e =
        if_rule (not (n.live 2)) _ _ (λ _. sent_nothing _ refl) (λ _. sent_nothing _ refl)

  build_step-IsSound :
      (q : JupiterQuote)
      → get_quote n.is_pubkey n.transport p ≡ some q
      → n.live 0 ≡ true
      → (o : Option Unsigned) → n.build q n.user ≡ o
      → IsSound n p (build_step n o)
  unfolding build_step
  build_step-IsSound q quoted live0 none e = sent_nothing _ refl
  build_step-IsSound q quoted live0 (some tx) e =
      if_rule (not (n.live 1)) _ _ (λ _. sent_nothing _ refl)
        λ l.
          if_rule (pays tx.fee_payer n.user) _ _
            (λ paid. sim_step-IsSound q quoted live0 tx e (from_not _ l) paid (n.simulate tx) refl)
            (λ _. sent_nothing _ refl)

  quote_step-IsSound :
      (o : Option JupiterQuote)
      → get_quote n.is_pubkey n.transport p ≡ o
      → IsSound n p (quote_step n o)
  unfolding quote_step
  quote_step-IsSound none e = sent_nothing _ refl
  quote_step-IsSound (some q) e =
      if_rule (not (n.live 0)) _ _ (λ _. sent_nothing _ refl)
        λ l. build_step-IsSound q e (from_not _ l) (n.build q n.user) refl

  -- Bytes are sent only for the quote that was asked for, from a transaction that the user pays, that
  -- was simulated without error in a live context, and whose signed message is the simulated one; a
  -- success is reported only for a signature that was confirmed or seen to land.
  pub execute_swap-IsSound : IsSound n p (execute_swap n p)
  unfolding execute_swap
  execute_swap-IsSound = quote_step-IsSound (get_quote n.is_pubkey n.transport p) refl
