-- ===== src/Lib.antt =====
-- The devnet and keeper services of hubconnect: a bonding curve and a faucet behind one worker, the
-- keepers that run the protocol's off-chain half, the web client's claims, tier changes and swaps, the
-- command that pays the airdrop, and the SDK functions that all share.
--
-- Parts and files:
--   Base    numbers, lists and signed integers that the other files share.
--   Curve   web/workers/bonding-curve.ts with curve-config.ts: Config has the tunables, Reserves
--           computeBuy, computeSell and progressBp, Kv the key-value store, Worker the handlers
--           (Deposit reads a deposit off a transaction, Records is what the worker keeps,
--           Graduation is attemptGraduation and maybeGraduate, Handlers the request handlers and
--           routeCurveRequest, Serve a sequence of requests).
--   Faucet  web/workers/faucet.ts with faucet-config.ts: Config has the tunables, Store the key-value
--           store, IpLimit is checkIpLimit, Await awaitSignature, Handlers are verifyTurnstile,
--           mintDeskAsset, handleDrip, handleSolDrip, handleMintDesk and handleStatus; Guard, Cooldown,
--           Grants, Kits, Writes, Once and Counts hold the proofs.
--   Worker  web/workers/faucet.ts and cors.ts: Cors has the allowed origins and the headers, Fetch
--           stripDevnetPrefix and the worker's fetch over the faucet's handlers and the curve's;
--           Granted and Origins hold the proofs.
--   Keeper  keeper/: Checks is shared/src/gas.ts and gate.ts; OtcBuy is otc-buy/src, with the journal
--           and findUnresolvedSwap in Record and runCycle in Cycle, and the proofs in Resume and
--           Recovery; CreatorFee is creator-fee/src/clear_cycle.ts; Acquisition is decideAcquisition of
--           sweeper/src/arbitrage.ts and Basket is sweeper/src/basketConsolidation.ts, both over the
--           floating-point operations of Numbers; Epoch is keeper/src: Raydium and Jupiter are the two
--           hops of the route, Journal the journal, Cycle runCycle up to the call of finalizeEpoch, Run
--           its sending and the loop of main; Refines, Once and Conserve hold the proofs.
--   Sdk     sdk/src/constants.ts and reader.ts, and web/src/hub/lib/yield.ts: Constants and Tiers the
--           tables, Supply supplyBreakdown and toSupplyView, Plan tokenomicsPlan, Fees the fees and
--           costs of the tiers, Views the accounts and the live costs, Rounds the open round, Shares
--           what the desks of a round get, Claims what a desk can take.
--   Web     web/src/hub/lib/curveCandles.ts: Candles, with its proofs in Count;
--           web/src/hub/lib/cpswap.ts: CpSwap, with its proofs in Loss.
--   Swap    web/src/hub/lib/swap.ts: Amount is validateRawAmount, Decimal parseAmountToRaw,
--           formatRawAmount and parseSlippageBps with proofs in Digits and RoundTrip, Quote validateQuote and getQuote,
--           Execute executeSwap; Sent holds the proofs.
--   Claim   web/src/hub/lib/claim.ts and hubPotClaim.ts, with buildClaimYieldIx and groupBatches in
--           Accounts and Batches: Yield is executeClaimYield, HubPot executeClaimHubPotReward, Send what
--           both do with their transactions; Results, Complete, Passing and Earned hold the
--           proofs.
--   Tier    web/src/hub/lib/activate.ts: Quote is quoteTierChange, Route exactInQuote and
--           fetchOtcToHubRoute, Change buildTierChangeIxs and executeTierChange; Sized, Cleared, Moves
--           and Sound hold the proofs.
--   Payouts scripts/mainnet-distribute.ts: Pay is the loop that pays the pending desks, Airdrop the
--           guards of main and what it does in order, Reward runRewardMode; Counts, Pays, Ends, Rightly,
--           Complete and Guards hold the proofs about the airdrop, Entered, RewardGuards and Rewards
--           those about the reward mode.
--   Airdrop sdk/src/airdrop.ts: Tree has the levels, root and sibling paths, Build buildAirdropTree and
--           verifyAirdropProof.
--
-- A handler of the curve is a state monad with early answers over the store and the ledger of the
-- payments that landed on chain. Numbers that the code keeps as bigint are natural numbers where
-- they cannot be negative and integers where they can. What surrounds the worker, the RPC node, the
-- clock, address derivations and the parsers of web3.js, is the record Host, one for a request; a
-- call that throws is `none`. The key-value store is the record Kv with the laws that the worker
-- relies on; Memory is an instance of it.
--
-- A handler of the faucet, and a cycle of a keeper, is a function of what it leaves behind: the
-- faucet's store and the grants that landed, the keeper's journal with the swaps and purchases that
-- landed. The outcome of a call that signs and sends is given to it, a call that threw although its
-- transaction landed included.
--
-- The levels of the airdrop tree are built on fuel, the number of leaves, since each level is shorter
-- than the one below; awaitSignature runs on fuel, two turns more than the last valid block height,
-- since the height grows with the turns; the bucket of the candles is widened on fuel, the span of the
-- trades, since it doubles; groupBatches runs on fuel, the number of its items, since each group takes
-- some; the probes of a route are the six that the code allows; the loop of the payouts runs on fuel,
-- the number of desks, which is enough for every batch but 0, and so does the loop that reads the
-- tiers a hundred at a time. Every other loop that is modelled goes over a list.
--
-- Numbers of the SDK that the code keeps as floating-point numbers, lamports and basis points, are
-- natural numbers below 2^53, and so are their products: there the code's divisions by Math.floor
-- are exact. The prices of the candles are a type with two laws of its order. The journal of the
-- epoch keeper is the list of its lines, over a record Json of which only is assumed that what was
-- written is read back. A wallet that signs some transactions gives the bytes of each, in their
-- order.
--
-- Not modelled: two requests that interleave on one store, which the code's own comment names as a
-- limitation; an append to the epoch keeper's journal that is cut off; the fetching and decoding of
-- accounts; building and signing transactions, of which only the recipient and the amount are kept,
-- or for the client's claims and tier changes the instructions without their compute budget; log
-- lines, phases and message texts.
pub mod Base
pub mod Airdrop
pub mod Claim
pub mod Curve
pub mod Faucet
pub mod Keeper
pub mod Payouts
pub mod Sdk
pub mod Swap
pub mod Tier
pub mod Web
pub mod Worker
