-- ===== src/Keeper/OtcBuy/Record.antt =====
-- keeper/shared/src/journal.ts and keeper/otc-buy/src/record.ts: the journal, and what it says of a
-- swap that was never recorded. An amount in `meta` is the number that its decimal text denotes, and
-- `none` if the field is missing or no text.
use text.Mathlib.Text.{◌==◌ as str_eq}
use mathlib.Core.List.{reverse, reverse-append}
use hubconnect.Base.{ℕ, ◌≡◌, ap, Option, none, some, List, [], ◌∷◌, ◌++◌, String, if◌then◌else◌}

pub data Service : Type 0 where
  epoch sweeper lp treasury_exit creator_fee otc_buy : Service

pub data Status : Type 0 where
  waited would_act blocked dry_run swap_sent sent confirm_error failed : Status

pub record Meta : Type 0 where
  pub otc_bought : Option ℕ
  pub lamports_spent : Option ℕ
  pub swap_signature : Option String

pub record JournalEntry : Type 0 where
  pub service : Service
  pub status : Status
  pub signature : Option String
  pub info : Meta

abbrev pub no_meta : Meta
no_meta = record { otc_bought = none; lamports_spent = none; swap_signature = none }

-- The oldest entry first.
unfoldable pub append_journal : JournalEntry → List JournalEntry → List JournalEntry
append_journal e entries = entries ++ e ∷ []

pub record UnresolvedSwap : Type 0 where
  pub bought : ℕ
  pub spent : ℕ
  pub swap_tx : String

-- All three fields, the signature not empty.
abbrev pub swap_of : Option ℕ → Option ℕ → Option String → Option UnresolvedSwap
swap_of (some bought) (some spent) (some x) =
    some (record { bought = bought; spent = spent; swap_tx = x })
swap_of _ _ _ = none

-- An empty signature counts as missing.
abbrev pub present : Option String → Option String
present none = none
present (some x) = if str_eq x "" then none else some x

-- What an entry of this service says.
unfoldable pub unresolved_of : JournalEntry → Status → Option UnresolvedSwap
unresolved_of e swap_sent = swap_of e.info.otc_bought e.info.lamports_spent (present e.signature)
unresolved_of e confirm_error =
    swap_of e.info.otc_bought e.info.lamports_spent e.info.swap_signature
unresolved_of e _ = none

-- From the newest entry back, past the entries of other services.
unfoldable pub walk_back : List JournalEntry → Option UnresolvedSwap
unfolding unresolved_of
walk_back [] = none
walk_back (e ∷ older) = elim e.service [ otc_buy ↦ unresolved_of e e.status | _ ↦ walk_back older ]

unfoldable pub find_unresolved_swap : List JournalEntry → Option UnresolvedSwap
unfolding walk_back
find_unresolved_swap entries = walk_back (reverse entries)

-- The newest entry decides.
pub find-append :
    (e : JournalEntry) (entries : List JournalEntry)
    → find_unresolved_swap (append_journal e entries) ≡ walk_back (e ∷ reverse entries)
unfolding find_unresolved_swap append_journal
find-append e entries = ap walk_back (reverse-append entries (e ∷ []))
