-- ===== src/Lib.antt =====
-- RazorAgent Mesh: the commerce core of the MCP server (packages/mcpServer/src), through which buying
-- agents get quotes, bargain, reserve stock and pay, and the buyer's SDK (packages/buyerSdkTs/src) that
-- signs what they agree.
--
-- The parts and how they interact. A quote (get_live_sku_quote) prices an item of the catalog with the
-- merchant's discounts, takes an agreed price from the registry of bargains where that is lower, adds
-- GST, signs the result and records it in the registry of issued quotes. A negotiation
-- (negotiate_price) plays turns against the x402-INR gateway inside an escrow session, and puts what
-- it agrees into the registry of bargains. A lock takes stock off the shelf for a limited time and
-- hands out a fencing token; a sweep puts lapsed locks back; a settlement retires a lock for good. An
-- agent is paired (establish_agent_delegation) with a signed intent, gets a merchant-signed cart for a
-- quote and a lock (create_cart_mandate) and a payload that binds the two by their hashes
-- (sign_execution_mandate), and posts the signed bundle to the settlement engine
-- (execute_settlement), which is code in Python and an argument here; the buyer's SDK builds, hashes
-- and checks these mandates.
--
-- Which file models which part:
--   Prelude        shared names, lists, and what JavaScript gives the code: strings as code units,
--                  integers, decimal printing, Map as an association list in insertion order, calls
--                  that may throw (Fallible);
--   Protocol       constants/protocolConstants.ts, constants/negotiationConstants.ts;
--   Pricing        catalog/pricingEngine.ts and its types in types/mcpToolTypes.ts:
--                  Volume (tiers, GST), Promotions (scheduled sales), Stack (the discount stack);
--   Catalog        catalog/catalogStore.ts;
--   Inventory      inventory/: Locker (redisLockManager.ts and lockExpirySweeper.ts, the in-memory
--                  versions), Fencing (fencingTokenValidator.ts), IssuedQuotes (issuedQuoteRegistry.ts);
--   Crypto         crypto/: the payloads that are signed;
--   Negotiation    negotiation/agreedPriceRegistry.ts, negotiation/negotiationResponse.ts and
--                  tools/priceNegotiator.ts: Ladder, Loop, Response, Tool; Gateway is the interface
--                  of the services that it calls;
--   Quote          tools/skuQuoter.ts: Price, Package;
--   LockTool       tools/inventoryLocker.ts over the in-memory locker;
--   Shipping       tools/slaVerifier.ts;
--   Session        session/sessionPurchaseRegistry.ts;
--   Sdk            packages/buyerSdkTs/src: Json (jcsCanonicalizer.ts), Pow (powSolver.ts), Keys
--                  (agentKeyManager.ts), Mandates (agentMandateBuilder.ts, types.ts);
--   Delegation     session/delegationSessionStore.ts; Payout (merchant/merchantPayoutRegistry.ts),
--                  Establish, Cart, Execution, Settlement (tools/delegationEstablisher.ts,
--                  cartMandateCreator.ts, executionMandateSigner.ts, settlementExecutor.ts);
--   Tests          concrete runs.
-- Names follow the source: computeAutoDiscountStack is compute_auto_discount_stack, and a private
-- _applyNegotiatedAgreement is apply_negotiated_agreement. A part's other files hold its theorems.
--
-- How the code is read. Amounts are whole paise: the request and catalog schemas admit non-negative
-- integers only, and JavaScript numbers are taken to be exact, which they are below 2^53; a
-- difference that the code lets fall below zero is written over ℤ or shown to give the same result.
-- The GST rate of a catalog item is a whole percentage; the schema also admits fractions, whose tax
-- the code computes in floating point, and such items are outside the model. A cart of the SDK may have
-- a line with a fractional rate, which the canonicalizer refuses.
-- Maps are association lists in insertion order. Each reading of the clock is an argument of its
-- own. The zod parsing in front of a tool is done before the model starts; where a theorem needs a
-- condition that the schema puts on a request, it is a hypothesis. HMAC-SHA256, Ed25519, the gateway,
-- SHA-256, the settlement engine and Redis are arguments of the definitions that use them. The tools run
-- one call at a time: between the waits of a call no other call changes the state. Without a Redis
-- client the sessions, locks and reservations are those in memory, which is the path that is modelled.
--
-- Bounds. The negotiation loop is recursion on the number of turns left, which is the request's
-- max_turns; the search for a quote's expiry tries the 125 seconds of its window; the proof-of-work
-- searches run on fuel, and enough fuel is any that is above a nonce that meets the difficulty. Every
-- other loop is recursion on a list or on a value's structure.
--
-- Not modelled: the Lua scripts that Redis runs, transport and telemetry, texts for people (labels,
-- advice, messages, which are modelled by the choice among them), the ranking of search results, and
-- the services in Python.
pub mod Prelude
pub mod Protocol
pub mod Sdk
pub mod Pricing
pub mod Catalog
pub mod Inventory
pub mod Crypto
pub mod Negotiation
pub mod Quote
pub mod Delegation
pub mod LockTool
pub mod Session
pub mod Shipping
pub mod Tests
