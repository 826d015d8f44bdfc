-- ===== src/Tier/Sized.antt =====
-- What the sizing of an $OTC swap guarantees, and when it succeeds.
use native.Mathlib.Nat.{le_trans, mul-le-mul_left, mul-le-mul_right}
use hubconnect.Base.{
  ℕ, zero, suc, ◌+◌, ◌-◌, ◌*◌, ◌/◌, ◌≤◌, ◌<◌, ◌≡◌, refl, subst, Bool-cases, Option-cases, inl, inr,
  false, Option, none, some, leb, ltb, ◌==◌, ◌∙◌, eq-false, le→leb, leb→le, arith,
}
use hubconnect.Base.Int.{ℤ, pos, negsuc}
use hubconnect.Base.Division.{div_bounds}
use hubconnect.Sdk.Constants.{bps}
use hubconnect.Tier.Route.{
  max_otc_probes, otc_probe_seed, otc_swap_input_buffer_bp, next_input, after_probe, probe_from,
  size_input,
}

ge→ltb : (a b : ℕ) → b ≤ a → ltb a b ≡ false
ge→ltb a b h = ground arith

module _ (quotes : ℕ → ℕ → Option ℤ) (least : ℕ) where
  -- An input that was quoted at least the least output, at one of the calls.
  abbrev pub Quoted : ℕ → ℕ → ℕ → ℕ → Type 0
  Quoted from to input out =
      (c : ℕ) × (from ≤ c) × (c < to) × (quotes c input ≡ some (pos out)) × (least ≤ out)

  after_probe-Quoted :
      (to call input i o : ℕ) (again : ℕ → Option (ℕ × ℕ)) (a : Option ℤ)
      → call < to
      → quotes call input ≡ a
      → after_probe least input again a ≡ some (i, o)
      → ((out : ℕ) → out < least → again out ≡ some (i, o) → Quoted (suc call) to i o)
      → Quoted call to i o
  unfolding after_probe
  after_probe-Quoted to call input i o again none lt q e ih = cc
  after_probe-Quoted to call input i o again (some (negsuc n)) lt q e ih = cc
  after_probe-Quoted to call input i o again (some (pos out)) lt q e ih =
      elim (Bool-cases (out == 0)) [
        | inl z ↦ cc (rw z at e)
        | inr z ↦ elim (Bool-cases (leb least out)) [
          | inl enough ↦ (call, omega arith, lt, ground (arith, q, e), ground (arith, e))
          | inr more ↦
              let (c, cl, cr, cq, ce) = ih out (ground arith) (ground (arith, e)) in
              (c, omega (arith, cl), cr, cq, ce)
        ]
      ]

  probe_from-Quoted :
      (left call input last i o : ℕ)
      → last < least
      → probe_from quotes least left call input last ≡ some (i, o)
      → least ≤ o
      → Quoted call (call + left) i o
  unfolding probe_from
  probe_from-Quoted zero call input last i o h e le = absurd (ground arith)
  probe_from-Quoted (suc left) call input last i o h e le =
      after_probe-Quoted (call + suc left) call input i o _ (quotes call input) (omega arith) refl e
        (λ out lt again.
          subst (λ n. Quoted (suc call) n i o) (omega arith)
            (probe_from-Quoted left (suc call) (next_input input least out) out i o lt again le))

  -- An input that was sized was one of six probes', quoted at least the least output, and half as much
  -- again as a percent was put on top.
  pub size_input-Quoted :
      (amount : ℕ)
      → 0 < least
      → size_input quotes least ≡ some amount
      → (input : ℕ) × (out : ℕ) × Quoted 0 max_otc_probes input out
        × (amount ≡ input * (bps + otc_swap_input_buffer_bp) / bps)
  unfolding size_input
  size_input-Quoted amount h e =
      elim (Option-cases (probe_from quotes least max_otc_probes 0 otc_probe_seed 0)) [
        | inl f ↦ cc (rw f at e)
        | inr ((i, o), f) ↦ elim (Bool-cases (ltb o least)) [
          | inl few ↦ ground (arith, rw f at e, few)
          | inr enough ↦
              let le : least ≤ o = ground arith in
              (
                i,
                o,
                probe_from-Quoted max_otc_probes 0 otc_probe_seed 0 i o h f le,
                ground (arith, rw f at e, enough),
              )
        ]
      ]

  -- A market that sells at one rate while it is asked twice.
  module _ (p q : ℕ) (priced : 0 < q) (sells : q ≤ otc_probe_seed * p) (wanted : 0 < least)
      (linear : (call x : ℕ) → call < 2 → quotes call x ≡ some (pos (x * p / q))) where
    abbrev first_out : ℕ
    first_out = otc_probe_seed * p / q

    scaled_clears :
        (o n : ℕ) → o * q ≤ otc_probe_seed * p → otc_probe_seed * least ≤ n * o → least * q ≤ n * p
    scaled_clears o n ho hn =
        let a : otc_probe_seed * least * q ≤ n * o * q = mul-le-mul_right q hn in
        let b : n * (o * q) ≤ n * (otc_probe_seed * p) = mul-le-mul_left n ho in grind (arith, a, b)

    quoted_above : (x : ℕ) → least * q ≤ x → least ≤ x / q
    quoted_above x h = let (_, above) = div_bounds x q priced in grind (arith, above, h)

    input_grows : (o : ℕ) → 0 < o → otc_probe_seed * least ≤ next_input otc_probe_seed least o * o
    unfolding next_input
    input_grows o h =
        let n = (otc_probe_seed * least + o - 1) / o in
        let (_, above) = div_bounds (otc_probe_seed * least + o - 1) o h in
        let nudged : n ≤ n * (bps + 50) / bps = omega arith in
        let scaled : n * o ≤ n * (bps + 50) / bps * o = mul-le-mul_right o nudged in
        omega (arith, above, scaled)

    sells_some : 0 < first_out
    sells_some = let (_, above) = div_bounds (otc_probe_seed * p) q priced in grind (arith, above)

    second_clears : least ≤ next_input otc_probe_seed least first_out * p / q
    second_clears =
        let (low, _) = div_bounds (otc_probe_seed * p) q priced in
        quoted_above _ (
          scaled_clears first_out (next_input otc_probe_seed least first_out) low
            (input_grows first_out sells_some))

    padded_clears :
        (x : ℕ) → least ≤ x * p / q → least ≤ x * (bps + otc_swap_input_buffer_bp) / bps * p / q
    padded_clears x h =
        let (low, _) = div_bounds (x * p) q priced in
        let padded : x ≤ x * (bps + otc_swap_input_buffer_bp) / bps = omega arith in
        quoted_above _ (le_trans (mul-le-mul_right q h) (le_trans low (mul-le-mul_right p padded)))

    probe_enough :
        (left call input last : ℕ)
        → call < 2
        → least ≤ input * p / q
        → probe_from quotes least (suc left) call input last ≡ some (input, input * p / q)
    unfolding probe_from after_probe
    probe_enough left call input last lt le =
        rw
          (
            linear call input lt,
            eq-false (input * p / q) 0 (omega (arith, wanted, le)),
            le→leb least (input * p / q) le,
          )
          refl

    probe_short :
        (left call input last : ℕ)
        → call < 2
        → 0 < input * p / q
        → leb least (input * p / q) ≡ false
        → probe_from quotes least (suc left) call input last
          ≡ probe_from quotes least left
              (suc call)
              (next_input input least (input * p / q))
              (input * p / q)
    unfolding probe_from after_probe
    probe_short left call input last lt some_out short =
        rw (linear call input lt, eq-false (input * p / q) 0 (omega arith), short) refl

    sized :
        (x : ℕ)
        → probe_from quotes least max_otc_probes 0 otc_probe_seed 0 ≡ some (x, x * p / q)
        → least ≤ x * p / q
        → (amount : ℕ) × (size_input quotes least ≡ some amount) × (least ≤ amount * p / q)
    unfolding size_input
    sized x e le = (
      x * (bps + otc_swap_input_buffer_bp) / bps,
      rw (e, ge→ltb (x * p / q) least le) refl,
      padded_clears x le,
    )

    -- The second probe clears the least output at the latest, and so does what is swapped in the end.
    pub size_input-clears :
        (amount : ℕ) × (size_input quotes least ≡ some amount) × (least ≤ amount * p / q)
    size_input-clears = elim (Bool-cases (leb least first_out)) [
      | inl at_once ↦
          let le = leb→le least first_out at_once in
          sized otc_probe_seed (probe_enough 5 0 otc_probe_seed 0 (omega arith) le) le
      | inr later ↦
          sized (next_input otc_probe_seed least first_out)
            (probe_short 5 0 otc_probe_seed 0 (omega arith) sells_some later
              ∙ probe_enough 4 1 (next_input otc_probe_seed least first_out) first_out (omega arith)
                  second_clears)
            second_clears
    ]
