-- ===== src/Keeper/Epoch/Journal.antt =====
-- keeper/keeper/src/journal.ts: the journal of the epoch keeper. The file is the list of its lines
-- that are not empty: a line that `JSON.stringify` writes has no line break in it. Every line of it ends
-- in a line break; an append that was cut off, to which the next entry would be glued, is left out.
use hubconnect.Base.{
  ℕ, ◌≡◌, arith, inl, inr, Option-cases, Bool, true, false, ◌&&◌, ◌||◌, ◌==◌, Option, none, some,
  List, [], ◌∷◌, ◌++◌, String,
}
use hubconnect.Base.Int.{ℤ}

pub data Status : Type 0 where
  dry_run sent confirm_error failed : Status

-- Amounts stand for their decimal texts.
pub record JournalEntry : Type 0 where
  pub ts : String
  pub epoch_index : ℕ
  pub swap_total_lamports : ℕ
  pub min_usdc_out : ℕ
  pub min_hub_out : ℤ
  pub out_amount : ℕ
  pub route_labels : List String
  pub is_dry_run : Bool
  pub status : Status
  pub signature : Option String

-- `JSON.stringify` and `JSON.parse` on the entries: what was written is read back. `none` is a line
-- that is no JSON.
pub record Json (Line : Type 0) : Type 0 where
  pub stringify : JournalEntry → Line
  pub parse : Line → Option JournalEntry
  pub parse_stringify : (e : JournalEntry) → parse (stringify e) ≡ some e

unfoldable pub is_sent : Status → Bool
is_sent sent = true
is_sent dry_run = false
is_sent confirm_error = false
is_sent failed = false

unfoldable pub marks : ℕ → JournalEntry → Bool
marks k e = e.epoch_index == k && is_sent e.status

or_false : (b : Bool) → (b || false) ≡ b
or_false b = ground arith

or_assoc : (a b c : Bool) → (a || (b || c)) ≡ (a || b || c)
or_assoc a b c = ground arith

module _ {Line : Type 0} (json : Json Line) where
  unfoldable pub append_journal : JournalEntry → List Line → List Line
  append_journal e file = file ++ json.stringify e ∷ []

  abbrev pub keep : Option JournalEntry → List JournalEntry → List JournalEntry
  keep none es = es
  keep (some e) es = e ∷ es

  unfoldable pub read_entries : List Line → List JournalEntry
  read_entries [] = []
  read_entries (l ∷ ls) = keep (json.parse l) (read_entries ls)

  abbrev pub any_marks : ℕ → List JournalEntry → Bool
  any_marks k [] = false
  any_marks k (e ∷ es) = marks k e || any_marks k es

  unfoldable pub already_sent : ℕ → List Line → Bool
  already_sent k file = any_marks k (read_entries file)

  -- After one more entry an epoch counts as sent exactly if it did before or the entry says so.
  pub already_sent-append :
      (k : ℕ) (e : JournalEntry) (file : List Line)
      → already_sent k (append_journal e file) ≡ (already_sent k file || marks k e)
  unfolding already_sent append_journal read_entries
  already_sent-append k e [] = rw (json.parse_stringify e) (or_false (marks k e))
  already_sent-append k e (l ∷ ls) =
      let ih = already_sent-append k e ls in
      elim (Option-cases (json.parse l)) [
        | inl n ↦ rw n ih
        | inr (x, s) ↦ rw (s, ih) (or_assoc (marks k x) (already_sent k ls) (marks k e))
      ]
