-- ===== src/Worker/Origins.antt =====
-- Who is told that it may read an answer of the worker.
use text.Mathlib.Text.{◌==◌ as str_eq, starts_with}
use mathlib.Core.Option.{some-injective}
use hubconnect.Base.{
  ◌≡◌, inl, inr, refl, sym, subst, ◌∙◌, true, false, Option, none, some, List, [], ◌∷◌, ◌↔◌, pick,
  Bool-cases, if◌then◌else◌,
}
use hubconnect.Faucet.Store as FS
use hubconnect.Curve.Kv as CK
use hubconnect.Worker.Cors.{
  Text, Headers, no_headers, includes, is_empty, trimmed, trim, split_commas, allowed_origins,
  resolve_allowed_origin, preflight_response, with_cors,
}
use hubconnect.Worker.Fetch.{Request, Reply, Both, fetch}

-- No empty text is on a list that was filtered.
trimmed-nonempty : (ws : List Text) → includes (trimmed ws) [] ≡ false
trimmed-nonempty [] = refl
trimmed-nonempty (w ∷ ws) = kept (trim w) (trimmed-nonempty ws)
  where
    kept :
        (v : Text)
        → includes (trimmed ws) [] ≡ false
        → includes (if is_empty v then trimmed ws else v ∷ trimmed ws) [] ≡ false
    kept [] e = e
    kept (c ∷ cs) e = e

allowed_origins-nonempty : (var : Option Text) → includes (allowed_origins var) [] ≡ false
unfolding allowed_origins
allowed_origins-nonempty none = refl
allowed_origins-nonempty (some []) = refl
allowed_origins-nonempty (some (c ∷ cs)) = trimmed-nonempty (split_commas (c ∷ cs))

module _ (var : Option Text) (o : Text) where
  -- The origin of the request is on the list of the allowed ones.
  abbrev pub IsListed : Option Text → Type 0
  IsListed origin = (origin ≡ some o) × (includes (allowed_origins var) o ≡ true)

  resolve_allowed_origin-IsListed :
      (origin : Option Text) → resolve_allowed_origin origin var ≡ some o ↔ IsListed origin
  unfolding resolve_allowed_origin
  resolve_allowed_origin-IsListed none = (λ e. cc, λ (e, _). cc)
  resolve_allowed_origin-IsListed (some []) = (
    λ e. cc,
    λ (e, i). cc (
      subst (λ t. includes (allowed_origins var) t ≡ true) (sym (some-injective _ _ e)) i,
      allowed_origins-nonempty var,
    ),
  )
  resolve_allowed_origin-IsListed (some (c ∷ cs)) =
      elim (Bool-cases (includes (allowed_origins var) (c ∷ cs))) [
        | inl t ↦ rw t ((λ e. (e, subst Listed (some-injective _ _ e) t), λ (e, _). e))
        | inr f ↦ rw f ((λ e. cc, λ (e, i). cc (subst Listed (sym (some-injective _ _ e)) i, f)))
      ]
    where
      Listed : Text → Type 0
      Listed t = includes (allowed_origins var) t ≡ true

module _ (fkv : FS.Kv) (ckv : CK.Kv) (var : Option Text) (q : Request) (w : Both fkv ckv) where
  abbrev OriginOf : Option Text → (Reply × Headers) × Both fkv ckv → Type 0
  OriginOf origin r = r.0.1.allow_origin ≡ origin

  preflight-origin : (origin : Option Text) → (preflight_response origin).1.allow_origin ≡ origin
  unfolding preflight_response
  preflight-origin none = refl
  preflight-origin (some o) = refl

  with_cors-origin : (origin : Option Text) → (with_cors no_headers origin).allow_origin ≡ origin
  unfolding with_cors
  with_cors-origin none = refl
  with_cors-origin (some o) = refl

  api_origin :
      starts_with q.path "/api/" ≡ true
      → OriginOf (resolve_allowed_origin q.origin var) (fetch fkv ckv var q w)
  unfolding fetch
  api_origin e = rw e (
      pick (OriginOf (resolve_allowed_origin q.origin var)) (str_eq q.method "OPTIONS")
        (λ _. preflight-origin (resolve_allowed_origin q.origin var))
        (λ _. with_cors-origin (resolve_allowed_origin q.origin var)))

  asset_origin : starts_with q.path "/api/" ≡ false → OriginOf none (fetch fkv ckv var q w)
  unfolding fetch
  asset_origin e = rw e refl

  -- An answer names an origin that may read it exactly if the path is below `/api/` and the request
  -- came from that origin, which is one of the allowed: also for a preflight, an error or an unknown
  -- path.
  pub fetch-allow_origin :
      (o : Text)
      → (fetch fkv ckv var q w).0.1.allow_origin ≡ some o
        ↔ ((starts_with q.path "/api/" ≡ true) × IsListed var o q.origin)
  fetch-allow_origin o =
      let (to, from) = resolve_allowed_origin-IsListed var o q.origin in
      elim (Bool-cases (starts_with q.path "/api/")) [
        | inl e ↦ (λ a. (e, to (sym (api_origin e) ∙ a)), λ (_, l). api_origin e ∙ from l)
        | inr e ↦ (λ a. cc (asset_origin e, a), λ (t, _). cc (e, t))
      ]
