-- ===== src/Tier/Cleared.antt =====
-- What a route that is returned has been checked for.
use text.Mathlib.Text.{◌==◌ as str_eq}
use hubconnect.Base.{
  ℕ, ◌+◌, ◌*◌, ◌/◌, ◌≤◌, ◌<◌, ◌≡◌, refl, sym, subst, ◌∙◌, Bool-cases, inl, inr, true, false, Bool,
  Option, none, some, List, String, ltb, ◌==◌, arith,
}
use hubconnect.Base.Int.{ℤ, pos, negsuc}
use hubconnect.Sdk.Constants.{bps}
use hubconnect.Keeper.Epoch.Jupiter.{ApiInstruction, jupiter_program_id, plan_labels}
use hubconnect.Tier.Route.{
  Api, BuildBody, OtcSwapRoute, max_otc_probes, otc_swap_input_buffer_bp, text_or_zero,
  exact_in_quote, size_input, build_query, build_sized, read_build, read_instruction, checked,
  route_with, all_keys, fetch_otc_to_hub_route,
}
use hubconnect.Tier.Sized.{Quoted, size_input-Quoted}

-- The route runs Jupiter's program, with the bytes and accounts of its answer, and the answer
-- guarantees the least output.
pub record IsBuilt (a : Api) (least : ℕ) (answer : Option BuildBody) (r : OtcSwapRoute)
    : Type 0 where
  pub body : BuildBody
  pub ix : ApiInstruction
  pub min_out : ℕ
  pub answered : answer ≡ some body
  pub ok : body.is_ok ≡ true
  pub instruction : body.swap_instruction ≡ some ix
  pub program : str_eq ix.program_id jupiter_program_id ≡ true
  pub bytes : r.jupiter_data ≡ ix.bytes
  pub accounts : r.remaining_accounts ≡ ix.accounts
  pub threshold : a.big_int (text_or_zero body.other_amount_threshold) ≡ some (pos min_out)
  pub clears : least ≤ min_out

module _ (a : Api) (least : ℕ) (amount : ℕ) (r : OtcSwapRoute) where
  route_with-eq :
      (labels : List String) (out : Option ℤ) (ix : ApiInstruction)
      → route_with a amount labels out ix ≡ some r
      → (r.jupiter_data ≡ ix.bytes)
        × (r.remaining_accounts ≡ ix.accounts)
        × (r.otc_swap_amount ≡ amount)
  route_with-eq labels none ix e = cc
  route_with-eq labels (some out) ix e = elim (Bool-cases (all_keys a ix.accounts)) [
    | inl k ↦ ground (arith, rw k at e)
    | inr k ↦ cc (rw k at e)
  ]

  checked-IsBuilt :
      (body : BuildBody) (ix : ApiInstruction) (least_out : Option ℤ)
      → body.is_ok ≡ true
      → body.swap_instruction ≡ some ix
      → str_eq ix.program_id jupiter_program_id ≡ true
      → a.big_int (text_or_zero body.other_amount_threshold) ≡ least_out
      → checked a least amount body least_out ix ≡ some r
      → IsBuilt a least (some body) r × (r.otc_swap_amount ≡ amount)
  checked-IsBuilt body ix none ok i p t e = cc
  checked-IsBuilt body ix (some (negsuc n)) ok i p t e = cc
  checked-IsBuilt body ix (some (pos n)) ok i p t e = elim (Bool-cases (ltb n least)) [
    | inl f ↦ cc (rw f at e)
    | inr f ↦
        let (bytes, accounts, amt) =
          route_with-eq (plan_labels body.route_plan) (a.big_int (text_or_zero body.out_amount)) ix
            (rw f at e) in
        (
          record {
            body = body;
            ix = ix;
            min_out = n;
            answered = refl;
            ok = ok;
            instruction = i;
            program = p;
            bytes = bytes;
            accounts = accounts;
            threshold = t;
            clears = ground (arith, f);
          },
          amt,
        )
  ]

  read_instruction-IsBuilt :
      (body : BuildBody) (ok : Bool) (ix : Option ApiInstruction)
      → body.is_ok ≡ ok
      → body.swap_instruction ≡ ix
      → read_instruction a least amount body ok ix ≡ some r
      → IsBuilt a least (some body) r × (r.otc_swap_amount ≡ amount)
  read_instruction-IsBuilt body false ix o i e = cc
  read_instruction-IsBuilt body true none o i e = cc
  read_instruction-IsBuilt body true (some ix) o i e =
      elim (Bool-cases (str_eq ix.program_id jupiter_program_id)) [
        | inl p ↦ checked-IsBuilt body ix _ o i p refl (rw p at e)
        | inr p ↦ cc (rw p at e)
      ]

  read_build-IsBuilt :
      (answer : Option BuildBody)
      → read_build a least amount answer ≡ some r
      → IsBuilt a least answer r × (r.otc_swap_amount ≡ amount)
  unfolding read_build
  read_build-IsBuilt none e = cc
  read_build-IsBuilt (some body) e =
      read_instruction-IsBuilt body body.is_ok body.swap_instruction refl refl e

module _ (a : Api) (taker otc_mint hub_mint destination : String) where
  -- A route that clears the least output twice: by the quote of one of six probes, and by the answer
  -- that it was built from.
  abbrev pub Clears : ℕ → OtcSwapRoute → Type 0
  Clears least r =
      ((input : ℕ) × (out : ℕ) × Quoted (exact_in_quote a otc_mint hub_mint) least 0 max_otc_probes
          input out
        × (r.otc_swap_amount ≡ input * (bps + otc_swap_input_buffer_bp) / bps))
      × IsBuilt a least
          (a.build (build_query taker otc_mint hub_mint destination r.otc_swap_amount)) r

  build_sized-Clears :
      (least : ℕ) (r : OtcSwapRoute) (amount : Option ℕ)
      → 0 < least
      → size_input (exact_in_quote a otc_mint hub_mint) least ≡ amount
      → build_sized a taker otc_mint hub_mint destination least amount ≡ some r
      → Clears least r
  build_sized-Clears least r none h s e = cc
  build_sized-Clears least r (some amount) h s e =
      let (built, same) =
        read_build-IsBuilt a least amount r
          (a.build (build_query taker otc_mint hub_mint destination amount)) e in
      let (input, out, quoted, padded) =
        size_input-Quoted (exact_in_quote a otc_mint hub_mint) least amount h s in
      (
        (input, out, quoted, same ∙ padded),
        subst (λ n. IsBuilt a least (a.build (build_query taker otc_mint hub_mint destination n)) r)
            (sym same) built,
      )

  -- A route is returned only for a positive least output, which it clears.
  pub fetch_otc_to_hub_route-Clears :
      (least : ℤ) (r : OtcSwapRoute)
      → fetch_otc_to_hub_route a taker otc_mint hub_mint destination least ≡ some r
      → (m : ℕ) × (least ≡ pos m) × (0 < m) × Clears m r
  unfolding fetch_otc_to_hub_route
  fetch_otc_to_hub_route-Clears (negsuc n) r e = cc
  fetch_otc_to_hub_route-Clears (pos least) r e = elim (Bool-cases (least == 0)) [
    | inl z ↦ cc (rw z at e)
    | inr z ↦
        let h : 0 < least = ground arith in
        (least, refl, h, build_sized-Clears least r _ h refl (rw z at e))
  ]
