-- ===== src/Faucet/IpLimit.antt =====
-- `checkIpLimit`: requests from one address, counted by the hour.
use native.Mathlib.Nat.{le_trans}
use hubconnect.Base.{
  ℕ, suc, ◌+◌, ◌/◌, ◌≤◌, ◌≡◌, sym, subst, ap, ◌∙◌, Bool, true, false, Option, none, some, List, [],
  ◌∷◌, String, leb, arith, Bool-cases, inl, inr, if◌then◌else◌,
}
use hubconnect.Faucet.Config.{ip_limit_per_hour}
use hubconnect.Faucet.Store.{Kv, ip_key}

-- `new Date().toISOString().slice(0, 13)` names the hour.
abbrev pub hour_of : ℕ → ℕ
hour_of now = now / 3_600_000

abbrev pub count_of : Option ℕ → ℕ
count_of none = 0
count_of (some n) = n

module _ (kv : Kv) where
  open kv use {Store, get, put}

  unfoldable pub count_request : ℕ → String → ℕ → Store → Bool × Store
  count_request now ip count s =
      if leb ip_limit_per_hour count
      then (false, s)
      else (true, put s now (ip_key (hour_of now) ip) (count + 1) 3600)

  unfoldable pub check_ip_limit : ℕ → String → Store → Bool × Store
  unfolding count_request
  check_ip_limit now ip s = count_request now ip (count_of (get s now (ip_key (hour_of now) ip))) s

  -- How many of the requests of one address, made at these times, are let through.
  abbrev allowed : String → List ℕ → Store → ℕ
  allowed ip [] s = 0
  allowed ip (t ∷ ts) s =
      let r = check_ip_limit t ip s in
      let rest = allowed ip ts r.1 in if r.0 then suc rest else rest

-- Times in order, all in one hour, from `t` on.
abbrev WithinHour : ℕ → ℕ → List ℕ → Type 0
WithinHour hour t [] = Unit
WithinHour hour t (u ∷ us) = (t ≤ u) × (hour_of u ≡ hour) × WithinHour hour u us

module _ (kv : Kv) (ip : String) (hour : ℕ) where
  -- The hour's count is known until the hour ends.
  abbrev pub Counted : ℕ → ℕ → kv.Store → Type 0
  Counted t n s = (u : ℕ) → t ≤ u → hour_of u ≡ hour → count_of (kv.get s u (ip_key hour ip)) ≡ n

  Counted-next :
      (t n : ℕ) (s : kv.Store)
      → hour_of t ≡ hour
      → Counted t (n + 1) (kv.put s t (ip_key hour ip) (n + 1) 3600)
  Counted-next t n s h u le hu =
      ap count_of (kv.get-put_live s t u (ip_key hour ip) (n + 1) 3600 le (ground arith))

  pub put-Counted :
      (u n : ℕ) (s : kv.Store)
      → hour_of u ≡ hour
      → Counted u (n + 1) (kv.put s u (ip_key (hour_of u) ip) (n + 1) 3600)
  put-Counted u n s h =
      subst (λ hr. Counted u (n + 1) (kv.put s u (ip_key hr ip) (n + 1) 3600)) (sym h)
        (Counted-next u n s h)

  abbrev then_allowed : List ℕ → Bool × kv.Store → ℕ
  then_allowed us r = if r.0 then suc (allowed kv ip us r.1) else allowed kv ip us r.1

  pub counted_request :
      (u n : ℕ) (s : kv.Store)
      → hour_of u ≡ hour
      → count_of (kv.get s u (ip_key hour ip)) ≡ n
      → check_ip_limit kv u ip s ≡ count_request kv u ip n s
  unfolding check_ip_limit
  counted_request u n s h e =
      ap (λ n. count_request kv u ip n s) (ap (λ hr. count_of (kv.get s u (ip_key hr ip))) h ∙ e)

  -- In one hour no more requests of an address are let through than the limit leaves of the count
  -- with which the hour began.
  allowed_bound :
      (ts : List ℕ) (t n : ℕ) (s : kv.Store)
      → WithinHour hour t ts
      → Counted t n s
      → n ≤ ip_limit_per_hour
      → allowed kv ip ts s + n ≤ ip_limit_per_hour
  unfolding count_request
  allowed_bound [] t n s w c le = omega arith
  allowed_bound (u ∷ us) t n s (tu, h, w) c le =
      subst (λ r. then_allowed us r + n ≤ ip_limit_per_hour)
        (sym (counted_request u n s h (c u tu h)))
        (elim (Bool-cases (leb ip_limit_per_hour n)) [
          | inl e ↦ rw e (allowed_bound us u n s w (λ v uv hv. c v (le_trans tu uv) hv) le)
          | inr e ↦
              rw e
                (one_more _ (allowed_bound us u (n + 1) _ w (put-Counted u n s h) (ground arith)))
        ])
    where
      one_more : (a : ℕ) → a + (n + 1) ≤ ip_limit_per_hour → suc a + n ≤ ip_limit_per_hour
      one_more a p = omega arith
