-- ===== src/Worker/Cors.antt =====
-- web/workers/cors.ts: which origins are told that they may read an answer. A text is the list of
-- its UTF-16 code units.
use hubconnect.Base.{
  ℕ, Bool, true, false, ◌&&◌, ◌||◌, Option, none, some, List, [], ◌∷◌, String, leb, ◌==◌,
  if◌then◌else◌,
}
use hubconnect.Swap.Amount.{codes}

abbrev pub Text : Type 0
Text = List ℕ

abbrev pub text_eq : Text → Text → Bool
text_eq [] [] = true
text_eq (a ∷ t) (b ∷ u) = (a == b) && text_eq t u
text_eq _ _ = false

abbrev pub includes : List Text → Text → Bool
includes [] t = false
includes (u ∷ us) t = text_eq u t || includes us t

-- The white space and line terminators that `trim` takes away.
abbrev pub is_space : ℕ → Bool
is_space c =
    (leb 9 c && leb c 13)
    || (c == 32)
    || (c == 160)
    || (c == 5_760)
    || (leb 8_192 c && leb c 8_202)
    || (c == 8_232)
    || (c == 8_233)
    || (c == 8_239)
    || (c == 8_287)
    || (c == 12_288)
    || (c == 65_279)

abbrev pub is_empty : Text → Bool
is_empty [] = true
is_empty _ = false

abbrev trim_start : Text → Text
trim_start [] = []
trim_start (c ∷ cs) = let rest = trim_start cs in if is_space c then rest else c ∷ cs

abbrev trim_end : Text → Text
trim_end [] = []
trim_end (c ∷ cs) = let rest = trim_end cs in if is_space c && is_empty rest then [] else c ∷ rest

abbrev pub trim : Text → Text
trim cs = trim_end (trim_start cs)

abbrev onto_first : ℕ → List Text → List Text
onto_first c [] = (c ∷ []) ∷ []
onto_first c (w ∷ ws) = (c ∷ w) ∷ ws

-- `split(",")`.
abbrev pub split_commas : Text → List Text
split_commas [] = [] ∷ []
split_commas (c ∷ cs) =
    let rest = split_commas cs in if c == 44 then [] ∷ rest else onto_first c rest

-- `.map((s) => s.trim()).filter(Boolean)`.
abbrev pub trimmed : List Text → List Text
trimmed [] = []
trimmed (w ∷ ws) = let rest = trimmed ws in if is_empty (trim w) then rest else trim w ∷ rest

abbrev pub default_allowed_origins : List Text
default_allowed_origins =
    codes "https://otchub.dev"
    ∷ codes "https://www.otchub.dev"
    ∷ codes "http://localhost:5173"
    ∷ codes "http://localhost:3000"
    ∷ []

-- The variable `ALLOWED_ORIGINS`; unset or empty, the known hosts.
unfoldable pub allowed_origins : Option Text → List Text
allowed_origins none = default_allowed_origins
allowed_origins (some []) = default_allowed_origins
allowed_origins (some (c ∷ cs)) = trimmed (split_commas (c ∷ cs))

unfoldable pub resolve_allowed_origin : Option Text → Option Text → Option Text
resolve_allowed_origin none var = none
resolve_allowed_origin (some []) var = none
resolve_allowed_origin (some (c ∷ cs)) var =
    if includes (allowed_origins var) (c ∷ cs) then some (c ∷ cs) else none

-- The headers of `cors.ts` on an answer.
pub record Headers : Type 0 where
  pub allow_origin : Option Text
  pub allow_methods : Option String
  pub allow_headers : Option String
  pub max_age : Option String
  pub vary : Option String

abbrev pub no_headers : Headers
no_headers = record {
  allow_origin = none;
  allow_methods = none;
  allow_headers = none;
  max_age = none;
  vary = none;
}

-- Status and headers of the answer to an OPTIONS request; it has no body.
unfoldable pub preflight_response : Option Text → ℕ × Headers
preflight_response none = (403, no_headers)
preflight_response (some origin) = (
  204,
  record {
    allow_origin = some origin;
    allow_methods = some "GET,POST,OPTIONS";
    allow_headers = some "content-type";
    max_age = some "86400";
    vary = some "origin";
  },
)

unfoldable pub with_cors : Headers → Option Text → Headers
with_cors headers none = headers
with_cors headers (some origin) = record headers {
  allow_origin = some origin;
  vary = some "origin";
}
