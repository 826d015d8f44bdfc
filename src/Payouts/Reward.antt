-- ===== src/Payouts/Reward.antt =====
-- The reward mode: the treasury deposits, a round is opened, and each active desk is paid its share.
use text.Mathlib.Text.{◌==◌ as str_eq}
use hubconnect.Base.{
  ℕ, zero, suc, ◌*◌, ◌^◌, ltb, leb, ◌==◌, Bool, true, false, not, ◌&&◌, Option, none, some, List,
  [], ◌∷◌, ◌++◌, String, length, take, drop, if◌then◌else◌,
}
use hubconnect.Swap.Amount.{all_digits, codes, value_from}
use hubconnect.Payouts.Pay.{Payee, Payment, Host, Run, pay_all, pending, started}

pub record RewardArgs : Type 0 where
  pub fund : Option String
  pub open_round : Bool
  pub round : Option ℕ
  pub dry_run : Bool
  pub batch : ℕ

pub record Keys : Type 0 where
  pub authority : String
  pub signer : String
  pub treasury : String
  pub treasury_signer : String

pub record DeskTier : Type 0 where
  pub voided : Bool
  pub tier : ℕ

-- What surrounds the command; `none` is a call that throws. `funds` and `opens` say whether the
-- transaction is confirmed, `standing` the units that are pending and the number of rounds, after the
-- deposit of this run, and `has_round` whether there is a round, after the opening of this run.
pub record Rounds : Type 0 where
  pub funds : ℕ → Bool
  pub standing : Option ℕ → Option (ℕ × ℕ)
  pub opens : ℕ → Bool
  pub has_round : Option ℕ → ℕ → Option Bool
  pub desks : Option (List String)
  pub tiers : List String → Option (List (Option DeskTier))
  pub claims : ℕ → List Payment
  pub host : Host

-- How the command ends. `distributed r none` is a loop that has not ended on its fuel, the number of the
-- pending desks.
pub data RewardEnd : Type 0 where
  bad_amount wrong_treasury not_authority no_round no_desks nothing_asked no_active unreachable :
      RewardEnd
  previewed : ℕ → RewardEnd
  distributed : ℕ → Option Run → RewardEnd

-- The deposit and the round that are sent, whether or not the transaction lands, with how it ends.
pub record RewardReport : Type 0 where
  pub funded : Option ℕ
  pub opened : Option ℕ
  pub outcome : RewardEnd

abbrev pub report : Option ℕ → Option ℕ → RewardEnd → RewardReport
report funded opened e = record { funded = funded; opened = opened; outcome = e }

abbrev pub hub_decimals : ℕ
hub_decimals = 6

-- Whole $HUB in base units, from digits and nothing else.
unfoldable pub hub_units_from_whole : String → Option ℕ
hub_units_from_whole v =
    if all_digits (codes v) && leb 1 (length (codes v))
    then some (value_from 0 (codes v) * 10 ^ hub_decimals)
    else none

abbrev pub fund_units :
    Rounds → RewardArgs → Keys → Option ℕ → (Option ℕ → RewardReport) → RewardReport
fund_units n args k none next = report none none bad_amount
fund_units n args k (some u) next =
    if not (str_eq k.treasury k.treasury_signer)
    then report none none wrong_treasury
    else if args.dry_run
    then next none
    else if n.funds u
    then next (some u)
    else report (some u) none unreachable

abbrev pub fund_step :
    Rounds → RewardArgs → Keys → Option String → (Option ℕ → RewardReport) → RewardReport
fund_step n args k none next = next none
fund_step n args k (some v) next = fund_units n args k (hub_units_from_whole v) next

-- A round that is opened is the one to pay unless another was asked for.
abbrev pub or_opened : Option ℕ → ℕ → ℕ
or_opened none opened = opened
or_opened (some r) opened = r

abbrev pub open_standing :
    Rounds
    → RewardArgs
    → Option ℕ
    → Option (ℕ × ℕ)
    → (Option ℕ → Option ℕ → RewardReport)
    → RewardReport
open_standing n args funded none next = report funded none unreachable
open_standing n args funded (some (units, count)) next =
    if units == 0
    then next none args.round
    else if args.dry_run
    then next none args.round
    else if n.opens count
    then next (some count) (some (or_opened args.round count))
    else report funded (some count) unreachable

abbrev pub open_step :
    Rounds → RewardArgs → Option ℕ → (Option ℕ → Option ℕ → RewardReport) → RewardReport
open_step n args funded next =
    if args.open_round
    then open_standing n args funded (n.standing funded) next
    else next none args.round

abbrev pub joined :
    Option (List (Option DeskTier))
    → Option (List (Option DeskTier))
    → Option (List (Option DeskTier))
joined none rest = none
joined (some xs) none = none
joined (some xs) (some ys) = some (xs ++ ys)

-- The tiers of the desks, a hundred at a time; on fuel, the number of desks.
unfoldable pub fetch_tiers : ℕ → Rounds → List String → Option (List (Option DeskTier))
fetch_tiers fuel n [] = some []
fetch_tiers zero n (a ∷ as_) = none
fetch_tiers (suc fuel) n (a ∷ as_) =
    joined (n.tiers (take 100 (a ∷ as_))) (fetch_tiers fuel n (drop 100 (a ∷ as_)))

abbrev pub is_active : Option DeskTier → Bool
is_active none = false
is_active (some t) = not t.voided && ltb 0 t.tier

abbrev pub rewarded : String → Payee
rewarded asset = record { asset = asset; units = none; proof = [] }

-- A desk without an entry in the list of tiers is not active.
unfoldable pub active_of : List String → List (Option DeskTier) → List Payee
active_of [] ts = []
active_of (a ∷ as_) [] = []
active_of (a ∷ as_) (t ∷ ts) =
    let rest = active_of as_ ts in if is_active t then rewarded a ∷ rest else rest

abbrev pub pay_pending : Rounds → RewardArgs → ℕ → Option (List Payee) → RewardEnd
pay_pending n args r none = unreachable
pay_pending n args r (some ps) =
    if args.dry_run
    then previewed (length ps)
    else distributed r (pay_all (length ps) n.host args.batch ps (started (n.claims r)))

abbrev pub pay_active : Rounds → RewardArgs → ℕ → List Payee → RewardEnd
pay_active n args r [] = no_active
pay_active n args r (p ∷ ps) = pay_pending n args r (pending n.host (p ∷ ps) (n.claims r))

abbrev pub pay_tiers :
    Rounds → RewardArgs → ℕ → List String → Option (List (Option DeskTier)) → RewardEnd
pay_tiers n args r as_ none = unreachable
pay_tiers n args r as_ (some ts) = pay_active n args r (active_of as_ ts)

abbrev pub pay_desks : Rounds → RewardArgs → ℕ → Option (List String) → RewardEnd
pay_desks n args r none = unreachable
pay_desks n args r (some []) = no_desks
pay_desks n args r (some (a ∷ as_)) =
    pay_tiers n args r (a ∷ as_) (fetch_tiers (length (a ∷ as_)) n (a ∷ as_))

abbrev pub pay_found : Rounds → RewardArgs → ℕ → Option Bool → RewardEnd
pay_found n args r none = unreachable
pay_found n args r (some false) = no_round
pay_found n args r (some true) = pay_desks n args r n.desks

abbrev pub pay_round : Rounds → RewardArgs → Keys → Option ℕ → Option ℕ → RewardEnd
pay_round n args k opened none = nothing_asked
pay_round n args k opened (some r) =
    if not (str_eq k.authority k.signer)
    then not_authority
    else pay_found n args r (n.has_round opened r)

unfoldable pub run_reward_mode : Rounds → RewardArgs → Keys → RewardReport
unfolding fetch_tiers active_of
run_reward_mode n args k = fund_step n args k args.fund (λ funded.
    open_step n args funded
      (λ opened round. report funded opened (pay_round n args k opened round)))
