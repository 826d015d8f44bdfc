-- ===== src/Sdk/Tiers.antt =====
-- sdk/src/constants.ts: how the tables of the tiers are read. Tier 1 stands first, and a tier that
-- is not in a table, 0 as well, reads as nothing.
use hubconnect.Base.{ℕ, zero, suc, Option, none, some, List, get_elem?}
use hubconnect.Sdk.Constants.{tier_weights_bp}

abbrev pub tier_entry : List ℕ → ℕ → Option ℕ
tier_entry table zero = none
tier_entry table (suc i) = get_elem? table i

abbrev pub or_zero : Option ℕ → ℕ
or_zero none = 0
or_zero (some v) = v

unfoldable pub weight_bp : ℕ → ℕ
weight_bp tier = or_zero (tier_entry tier_weights_bp tier)
