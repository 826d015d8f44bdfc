-- ===== src/Faucet/Memory.antt =====
-- A key-value store in memory: an instance of the faucet's Kv.
use text.Mathlib.Text.{◌==◌ as str_eq}
use text.Mathlib.TextEquality.{eq_iff}
use text.Mathlib.TextPositions.{eq_refl}
use hubconnect.Base.{
  ℕ, ◌+◌, ◌*◌, ◌<◌, ◌≡◌, ◌≢◌, refl, ap, ◌∙◌, Bool, true, false, ◌&&◌, Option, none, some, ltb, ◌==◌,
  ==_iff, if◌then◌else◌, arith, Bool-cases, inl, inr,
}
use hubconnect.Faucet.Store.{Kv, Key, ip_key, drip_key, sol_key, desk_key}

-- A value with the time at which it expires.
abbrev pub Cells : Type 0
Cells = Key → Option (ℕ × ℕ)

abbrev pub empty : Cells
empty k = none

abbrev pub key_eq : Key → Key → Bool
key_eq (ip_key a x) (ip_key b y) = (a == b) && str_eq x y
key_eq (drip_key x) (drip_key y) = str_eq x y
key_eq (sol_key x) (sol_key y) = str_eq x y
key_eq (desk_key x) (desk_key y) = str_eq x y
key_eq _ _ = false

nat_eq_refl : (a : ℕ) → (a == a) ≡ true
nat_eq_refl a = ground arith

pub key_eq_refl : (k : Key) → key_eq k k ≡ true
key_eq_refl (ip_key a x) = rw (nat_eq_refl a, eq_refl x) refl
key_eq_refl (drip_key x) = eq_refl x
key_eq_refl (sol_key x) = eq_refl x
key_eq_refl (desk_key x) = eq_refl x

pub key_eq_sound : (k j : Key) → key_eq k j ≡ true → k ≡ j
key_eq_sound (ip_key a x) (ip_key b y) e = ground (arith, eq_iff x y, ==_iff a b)
key_eq_sound (drip_key x) (drip_key y) e = ap drip_key ((eq_iff x y).0 e)
key_eq_sound (sol_key x) (sol_key y) e = ap sol_key ((eq_iff x y).0 e)
key_eq_sound (desk_key x) (desk_key y) e = ap desk_key ((eq_iff x y).0 e)
key_eq_sound _ _ e = cc

abbrev pub alive : ℕ → Option (ℕ × ℕ) → Option ℕ
alive u none = none
alive u (some (v, end)) = if ltb u end then some v else none

abbrev pub set_cell : Key → ℕ × ℕ → Cells → Cells
set_cell k c s j = if key_eq k j then some c else s j

pub alive_within : (v u end : ℕ) → u < end → alive u (some (v, end)) ≡ some v
alive_within v u end lt = ground arith

pub set_cell_self : (k : Key) (c : ℕ × ℕ) (s : Cells) → set_cell k c s k ≡ some c
set_cell_self k c s = rw (key_eq_refl k) refl

pub set_cell_ne : (k j : Key) (c : ℕ × ℕ) (s : Cells) → k ≢ j → set_cell k c s j ≡ s j
set_cell_ne k j c s ne = elim (Bool-cases (key_eq k j)) [
  | inl e ↦ absurd (ne (key_eq_sound k j e))
  | inr e ↦ rw e refl
]

abbrev pub memory : Kv
memory = record {
  Store = Cells;
  get = λ s u k. alive u (s k);
  put = λ s t k v ttl. set_cell k (v, t + ttl * 1000) s;
  get-put_live = λ s t u k v ttl le lt.
      ap (alive u) (set_cell_self k (v, t + ttl * 1000) s) ∙ alive_within v u _ lt;
  get-put_ne = λ s t u k j v ttl ne. ap (alive u) (set_cell_ne k j (v, t + ttl * 1000) s ne);
}
