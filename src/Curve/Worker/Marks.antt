-- ===== src/Curve/Worker/Marks.antt =====
-- The invariant that a signature stays marked from one time to another.
use text.Mathlib.TextEquality.{eq_iff}
use text.Mathlib.Text.{◌==◌ as str_eq}
use hubconnect.Base.{
  ℕ, ◌+◌, ◌*◌, ◌≤◌, ◌<◌, ◌≡◌, ◌≢◌, refl, sym, ◌∙◌, subst, false, Option, none, some, String, arith,
  Bool-cases, inl, inr,
}
use hubconnect.Curve.Config.{tx_replay_ttl_seconds}
use hubconnect.Curve.Kv.{Kv, state_key, trades_key, tx_key}
use hubconnect.Curve.Worker.Host.{Host, Tx}
use hubconnect.Curve.Worker.Deposit.{too_old}
use hubconnect.Curve.Worker.Invariant.Laws.{Invariant}

-- From `t` until `end` the signature is marked.
abbrev pub Marked : (kv : Kv) → String → ℕ → ℕ → kv.Store → Type 0
Marked kv x end t s = (u : ℕ) → t ≤ u → u < end → kv.get s u (tx_key x) ≡ some tt

tx_ne : (x y : String) → str_eq x y ≡ false → tx_key x ≢ tx_key y
tx_ne x y e p = ground (arith, eq_iff x y)

pub state_ne : (x : String) → state_key ≢ tx_key x
state_ne x = ground arith

pub trades_ne : (x : String) → trades_key ≢ tx_key x
trades_ne x = ground arith

-- Another mark never shortens the time for which a signature is marked.
pub mark_keeps :
    (kv : Kv) (x : String) (end t : ℕ) (s : kv.Store) (y : String)
    → end ≤ t + tx_replay_ttl_seconds * 1000
    → Marked kv x end t s
    → Marked kv x end t (kv.put s t (tx_key y) tt (some tx_replay_ttl_seconds))
mark_keeps kv x end t s y le k u lo hi = elim (Bool-cases (str_eq y x)) [
  | inl same ↦
      let e : y ≡ x = (eq_iff y x).0 same in
      subst
        (λ z. kv.get (kv.put s t (tx_key z) tt (some tx_replay_ttl_seconds)) u (tx_key x) ≡ some tt)
        (sym e) (kv.get-put_live s t u (tx_key x) tt tx_replay_ttl_seconds lo (omega arith))
  | inr other ↦
      kv.get-put_ne s t u (tx_key y) (tx_key x) tt (some tx_replay_ttl_seconds) (tx_ne y x other)
      ∙ k u lo hi
]

unfoldable pub marks :
    (kv : Kv) (h : Host) (x : String) (end : ℕ)
    → end ≤ h.now + tx_replay_ttl_seconds * 1000
    → Invariant kv h
marks kv h x end le = record {
  Keeps = Marked kv x end h.now;
  Good = λ _. Unit;
  load = λ s c k e. tt;
  start = λ m e. tt;
  save = λ s c g k u lo hi.
      kv.get-put_ne s h.now u state_key (tx_key x) c none (state_ne x) ∙ k u lo hi;
  log = λ s ts k u lo hi.
      kv.get-put_ne s h.now u trades_key (tx_key x) ts none (trades_ne x) ∙ k u lo hi;
  mark = λ s y k. mark_keeps kv x end h.now s y le k;
  pooled = λ c p g. tt;
  bought = λ o g _ p e. tt;
  sold = λ o g _ p e. tt;
}

-- The deposit behind a signature was made by `t`.
abbrev pub MadeBy : Host → String → ℕ → Type 0
MadeBy h x t = (tx : Tx) (b : ℕ) → h.transaction x ≡ some tx → tx.block_time ≡ some b → b * 1000 ≤ t

pub too_old-late :
    (now t : ℕ) (bt : Option ℕ)
    → t + tx_replay_ttl_seconds * 1000 ≤ now
    → ((b : ℕ) → bt ≡ some b → b * 1000 ≤ t)
    → too_old now bt ≢ false
unfolding too_old
too_old-late now t none le made e = cc
too_old-late now t (some b) le made e = ground (arith, made b refl)
