-- ===== src/Faucet/Store.antt =====
-- The faucet's key-value store (`interface FaucetKV`) and its keys. Every value is a number, a count
-- or a time, and is put with an expiry in seconds; times are milliseconds. The store itself is not
-- part of the repository: it is a record of two operations with the laws that the faucet relies on.
use hubconnect.Base.{ℕ, ◌+◌, ◌*◌, ◌≤◌, ◌<◌, ◌≡◌, ◌≢◌, Option, some, String}

-- `ip:<hour>:<address>`, `drip:<wallet>`, `sol:<wallet>` and `desk:<wallet>`.
pub data Key : Type 0 where
  ip_key : ℕ → String → Key
  drip_key sol_key desk_key : String → Key

pub record Kv : Type 1 where
  pub Store : Type 0
  pub get : Store → ℕ → Key → Option ℕ
  pub put : Store → ℕ → Key → ℕ → ℕ → Store
  pub get-put_live :
      (s : Store) (t u : ℕ) (k : Key) (v ttl : ℕ)
      → t ≤ u
      → u < t + ttl * 1000
      → get (put s t k v ttl) u k ≡ some v
  pub get-put_ne :
      (s : Store) (t u : ℕ) (k j : Key) (v ttl : ℕ) → k ≢ j → get (put s t k v ttl) u j ≡ get s u j
