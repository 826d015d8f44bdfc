-- ===== src/Curve/Memory.antt =====
-- A key-value store in memory: an instance of Kv.
use text.Mathlib.Text.{◌==◌ as str_eq}
use text.Mathlib.TextEquality.{eq_iff}
use text.Mathlib.TextPositions.{eq_refl}
use hubconnect.Base.{
  ℕ, ◌+◌, ◌*◌, ◌<◌, ◌≡◌, ◌≢◌, refl, ap, ◌∙◌, Option, none, some, ltb, if◌then◌else◌, arith,
  Bool-cases, inl, inr,
}
use hubconnect.Curve.Kv.{Kv, Key, Value, state_key, trades_key, tx_key}

-- A value with the time at which it expires, if it does.
abbrev pub Cells : Type 0
Cells = (k : Key) → Option (Value k × Option ℕ)

abbrev pub empty : Cells
empty k = none

abbrev pub alive : {A : Type 0} → ℕ → Option (A × Option ℕ) → Option A
alive u none = none
alive u (some (v, none)) = some v
alive u (some (v, some end)) = if ltb u end then some v else none

abbrev pub set_cell : (k : Key) → Value k × Option ℕ → Cells → Cells
set_cell state_key c s state_key = some c
set_cell state_key c s trades_key = s trades_key
set_cell state_key c s (tx_key y) = s (tx_key y)
set_cell trades_key c s state_key = s state_key
set_cell trades_key c s trades_key = some c
set_cell trades_key c s (tx_key y) = s (tx_key y)
set_cell (tx_key x) c s state_key = s state_key
set_cell (tx_key x) c s trades_key = s trades_key
set_cell (tx_key x) c s (tx_key y) = if str_eq x y then some c else s (tx_key y)

pub set_cell_self : (k : Key) (c : Value k × Option ℕ) (s : Cells) → set_cell k c s k ≡ some c
set_cell_self state_key c s = refl
set_cell_self trades_key c s = refl
set_cell_self (tx_key x) c s = rw eq_refl

pub set_cell_ne : (k j : Key) (c : Value k × Option ℕ) (s : Cells) → k ≢ j → set_cell k c s j ≡ s j
set_cell_ne state_key state_key c s ne = absurd (ne refl)
set_cell_ne state_key trades_key c s ne = refl
set_cell_ne state_key (tx_key y) c s ne = refl
set_cell_ne trades_key state_key c s ne = refl
set_cell_ne trades_key trades_key c s ne = absurd (ne refl)
set_cell_ne trades_key (tx_key y) c s ne = refl
set_cell_ne (tx_key x) state_key c s ne = refl
set_cell_ne (tx_key x) trades_key c s ne = refl
set_cell_ne (tx_key x) (tx_key y) c s ne = elim (Bool-cases (str_eq x y)) [
  | inl same ↦ absurd (ne (ap tx_key ((eq_iff x y).0 same)))
  | inr other ↦ rw other
]

abbrev pub end_of : ℕ → Option ℕ → Option ℕ
end_of t none = none
end_of t (some ttl) = some (t + ttl * 1000)

pub alive_within :
    {A : Type 0} (v : A) (u end : ℕ) → u < end → alive u (some (v, some end)) ≡ some v
alive_within v u end lt = ground arith

abbrev pub memory : Kv
memory = record {
  Store = Cells;
  get = λ s u k. alive u (s k);
  put = λ s t k v ttl. set_cell k (v, end_of t ttl) s;
  get-put_kept = λ s t u k v le. ap (alive u) (set_cell_self k (v, none) s);
  get-put_live = λ s t u k v ttl le lt.
      ap (alive u) (set_cell_self k (v, some (t + ttl * 1000)) s) ∙ alive_within v u _ lt;
  get-put_ne = λ s t u k j v ttl ne. ap (alive u) (set_cell_ne k j (v, end_of t ttl) s ne);
}
