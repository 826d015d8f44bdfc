-- ===== src/Faucet/Tests.antt =====
-- Runs of the faucet, and the theorems at concrete inputs.
use hubconnect.Base.{ltb, if◌then◌else◌, ℕ, ◌+◌, ◌≡◌, refl, true, false, some, [], ◌∷◌, arith}
use mathlib.Core.Option.{some-injective}
use hubconnect.Faucet.Await.{
  SignatureStatus, pending, landed, Poll, seen_landed, await_signature, Advances, Decided,
  await_signature-Decided,
}
use hubconnect.Faucet.Host.{
  Host, Body, Grant, desk, Delivery, confirmed, failed, authority, verify_said,
}
use hubconnect.Faucet.Memory.{memory, empty, Cells}
use hubconnect.Faucet.Handlers.{World, handle_sol_drip}
use hubconnect.Faucet.Grants.{Tops, handle_sol_drip-Tops}

abbrev deliver_all : Grant → Delivery
deliver_all g = confirmed "tx"

-- Every desk fails.
abbrev deliver_kits : Grant → Delivery
deliver_kits (desk w n) = failed false
deliver_kits g = confirmed "tx"

abbrev host_at : ℕ → Host
host_at t = record {
  now = t;
  ip = "1.2.3.4";
  payer = "faucet";
  parse_pubkey = λ s. some s;
  has_secret = true;
  site_verify = λ s. verify_said true;
  default_key = "default";
  config = some (record { hub_mint = "hub"; otc_mint = "otc"; desk_collection = "desks" });
  hub_pot = some (some (record { crclx_mint = "c"; nvdax_mint = "n"; spcxx_mint = "s" }));
  mint_infos = λ ms. some (authority (some "faucet") ∷ authority (some "faucet") ∷ []);
  counts = some (some 41);
  balance = some 60_000_000;
  deliver = deliver_all;
}

abbrev body : Body
body = record { wallet = some "bob"; turnstile_token = some "token" }

abbrev start : World Cells
start = record { store = empty; ledger = [] }

handle_sol_drip-Tops_example :
    Tops memory (host_at 1_000) start (handle_sol_drip memory (host_at 1_000) body start).1.ledger
handle_sol_drip-Tops_example = handle_sol_drip-Tops memory (host_at 1_000) start body

-- The desks of this host never land.
abbrev broken_at : ℕ → Host
broken_at t = record (host_at t) { deliver = deliver_kits }

-- The signature lands at the third turn.
abbrev status_at : ℕ → SignatureStatus
status_at i = if ltb i 3 then pending else landed

abbrev polls : ℕ → Poll
polls i = record { signature_status = some (status_at i); height = some (100 + i) }

third_turn : await_signature polls 110 9 0 ≡ some seen_landed
unfolding await_signature
third_turn = refl

heights_grow : Advances polls
heights_grow i h e = ground (arith, some-injective _ _ e)

await_signature-Decided_example : Decided polls 110 0 (await_signature polls 110 112 0)
await_signature-Decided_example =
    await_signature-Decided polls 110 112 0 heights_grow (omega arith) (omega arith)
