-- ===== src/Worker/Tests.antt =====
-- Requests to the worker, and its theorems at concrete inputs.
use text.Mathlib.Text.{starts_with}
use hubconnect.Base.{
  ℕ, ◌+◌, ◌*◌, ◌≤◌, ◌≡◌, ◌↔◌, refl, true, false, none, some, [], ◌∷◌, String, length, List, arith,
}
use hubconnect.Swap.Amount.{codes}
use hubconnect.Faucet.Config.{ip_limit_per_hour}
use hubconnect.Faucet.Host as F
use hubconnect.Faucet.IpLimit.{check_ip_limit, count_request}
use hubconnect.Faucet.Memory as FM
use hubconnect.Faucet.Handlers.{
  handle_sol_drip, guarded, challenged, unless_cooling, verify_turnstile, sol_to, send_sol,
}
use hubconnect.Curve.Memory as CM
use hubconnect.Curve.Worker.Host as C
use hubconnect.Worker.Cors.{split_commas, trimmed}
use hubconnect.Worker.Fetch.{
  Request, Both, strip_devnet_prefix, limited, route_api, fetch, fetch_all,
}
use hubconnect.Worker.Granted.{grants_bounded}
use hubconnect.Worker.Origins.{IsListed, fetch-allow_origin}

origins_of :
    trimmed (split_commas (codes " https://a.dev,, b ")) ≡ codes "https://a.dev" ∷ codes "b" ∷ []
origins_of = refl

mount_stripped : strip_devnet_prefix (codes "/devnet/assets/x.js") ≡ codes "/assets/x.js"
unfolding strip_devnet_prefix
mount_stripped = refl

mount_alone : strip_devnet_prefix (codes "/devnet") ≡ codes "/"
unfolding strip_devnet_prefix
mount_alone = refl

not_the_mount : strip_devnet_prefix (codes "/devnets") ≡ codes "/devnets"
unfolding strip_devnet_prefix
not_the_mount = refl

abbrev deliver_all : F.Grant → F.Delivery
deliver_all g = F.confirmed "tx"

abbrev faucet_at : ℕ → F.Host
faucet_at t = record {
  now = t;
  ip = "1.2.3.4";
  payer = "faucet";
  parse_pubkey = λ s. some s;
  has_secret = false;
  site_verify = λ s. F.verify_threw;
  default_key = "default";
  config = none;
  hub_pot = none;
  mint_infos = λ ms. none;
  counts = none;
  balance = some 60_000_000;
  deliver = deliver_all;
}

abbrev curve_host : C.Host
curve_host = record {
  now = 0;
  curve_key = "curve";
  parse_pubkey = λ s. some s;
  big_int = λ s. none;
  ata = λ owner mint. owner;
  transaction = λ s. none;
  hub_mint = none;
  genesis_float = none;
  balance = none;
  pool_hub_balance = none;
  pool_sol_balance = none;
  rent_exempt = none;
  pool_key = "pool";
  deliver = λ p. C.failed false;
}

abbrev request_at : ℕ → String → String → Request
request_at t path method = record {
  path = path;
  method = method;
  origin = some (codes "https://otchub.dev");
  faucet_host = faucet_at t;
  faucet_body = record { wallet = some "bob"; turnstile_token = none };
  curve_host = curve_host;
  curve_body = record {
    wallet = none;
    signature = none;
    min_out = none;
    side = none;
    amount = none;
  };
}

abbrev start : Both FM.memory CM.memory
start = record {
  faucet = record { store = FM.empty; ledger = [] };
  curve = record { store = CM.empty; ledger = [] };
}

abbrev requests : List Request
requests =
    request_at 1_000 "/api/faucet/sol" "POST"
    ∷ request_at 2_000 "/api/faucet/sol" "POST"
    ∷ request_at 3_000 "/index.html" "GET"
    ∷ []

-- The second request is within the cooldown.
one_drip :
    (fetch_all FM.memory CM.memory none requests start).faucet.ledger ≡ F.sol "bob" 5_000_000 ∷ []
unfolding fetch_all fetch route_api limited check_ip_limit count_request handle_sol_drip guarded
    challenged unless_cooling verify_turnstile sol_to send_sol
one_drip = refl

grants_bounded_example :
    length (fetch_all FM.memory CM.memory none requests start).faucet.ledger + 2 * 0
    ≤ length start.faucet.ledger + 2 * ip_limit_per_hour
grants_bounded_example =
    grants_bounded FM.memory CM.memory "1.2.3.4" 0 none requests 0 0 start
      (omega arith, refl, refl, (omega arith, refl, refl, (omega arith, refl, refl, tt)))
      (λ u le e. refl) (omega arith)

fetch-allow_origin_example :
    (fetch FM.memory CM.memory none (request_at 0 "/api/none" "OPTIONS") start).0.1.allow_origin
      ≡ some (codes "https://otchub.dev")
    ↔ ((starts_with "/api/none" "/api/" ≡ true)
        × IsListed none (codes "https://otchub.dev") (some (codes "https://otchub.dev")))
fetch-allow_origin_example =
    fetch-allow_origin FM.memory CM.memory none (request_at 0 "/api/none" "OPTIONS") start
      (codes "https://otchub.dev")
