-- ===== src/Lib.antt =====
-- A model of the payment rail of arcagentx402: the program that lets an agent pay for API calls in
-- USDC, or over Lightning, under a spending policy, the facilitator that settles such payments, and
-- the collector that reads the chain for both.
--
-- The parts, from the repository's root:
--   packages/accounting  amounts in 6 and 18 decimals          Accounting, Accounting/Decimal, Gas
--   packages/policy      the spending policy and its decision  Policy, Policy/Parse, Policy/Wording
--   packages/ledger      the record of every payment           Ledger
--   packages/router      the rail: which payments are signed   Router/Decide, Rail, Fetch, Lightning,
--                                                               Proofs
--   packages/facilitator what is settled, and for whom         Facilitator/Guard, Sellers, Service
--   packages/lightning   prices in sats and the replay store   Lightning/Amounts, Limiter, Replay
--                        the decoding of invoices              Lightning/Invoice, Decode
--                        canonical JSON and request hashes     Lightning/Json, Binding, Binding/Hash
--                        challenge, payment and settlement     Lightning/Exact, Exact/Challenge,
--                                                               Exact/Settle
--   packages/collector   JSON-RPC replies, the pool of         Collector/Client, Pool, Pool/Batch,
--                        endpoints, the history and its gaps,  Backfill,
--                        the live range, signed payments       Head, Payments
-- The child modules of these hold the proofs, and the Tests modules the examples. Prelude has what
-- they share: Boolean tests, lists over native numbers, integers, text and errors.
--
-- How they interact: the rail (`pay`, `on_response`) asks the ledger what was spent, gives that to
-- the policy (`evaluatePolicy` is `evaluate_policy`), and writes the outcome into the ledger
-- (`record` is `record_payment`, `update` is `update`). The policy and the ledger count in the
-- amounts of accounting. The facilitator runs `refuse` and `allowanceRefusal` before it verifies
-- and before it settles, and `recordSettlement` after. The paywall of lightning asks the limiter for
-- an invoice at the price of today. A seller's challenge is `issue_lnbtc_challenge`; the buyer runs
-- `check_lnbtc_challenge` on it and has it paid by `pay_lnbtc_challenge`; the seller settles what
-- comes back by `settle_lnbtc`, which decodes the invoice, hashes the binding and claims the key in
-- the replay store. The collector's head worker and backfill share the table of gaps and ask the pool
-- for blocks; the pool's `batch` goes from endpoint to endpoint, and `rpcCall` and `rpcBatch` read
-- what an endpoint replies.
--
-- How state and values correspond: a `bigint` is an integer `ℤ` of any size; a class with fields is
-- a record, and a method that changes it returns the new record; a call that throws returns `err`
-- with the error. The row that MemoryLedger's `record` returns is the one that it keeps, so what
-- the hook after the response assigns to the row is one more patch of the ledger (`row_patch`). A
-- string is the list of its UTF-16 code units, and lower case is that of ASCII. A time is a number
-- of milliseconds, and a subtraction of times stops at 0. A reason that a decision prints is kept
-- as the values that it prints, and `Policy/Wording` prints it. A Map is an association list in the
-- order of insertion, the table block_gaps a function from its key, and a JSON value a data type of
-- its own. Chunks that are fetched at once are fetched one after the other; what they write does
-- not depend on it.
--
-- Bounds and fuel: `digits` prints a number on fuel, and the number itself is enough, since each
-- step divides by ten; `words_of` likewise, dividing by 32. The loop over the fields of an invoice
-- has the number of its words as fuel, and takes three words at least each time. The loop over the
-- chunks of a batch has the number of its calls as fuel, and takes a call at least each time, where
-- the limit is positive. The attempts of a request and of a fetch are as many as the source
-- allows. All other loops are structural.
--
-- What is a parameter: whether a seller batches, whether an identity is verified, the hash of a
-- policy, the host of a URL, what the x402 SDK answers once no hook aborts, the balance that the
-- chain tells, and for a Lightning payment what the wallet and the seller answer, and for a
-- settlement what Circle's Gateway and the chain answer. For challenges and invoices, the record
-- `Platform` stands for the digests, the URL parser, bech32, secp256k1, number printing and UTF-8 of
-- the packages and the platform. For the collector, what the endpoints send, the clock, the moving
-- average of latencies, the head that a poll gives, what a fetch of blocks gives, and which rows the
-- database's queries pick.
--
-- What is not modelled: two payments in flight at once on one rail (the rail keeps one `current`),
-- two requests in flight at once at the facilitator, signatures and the HTTP framing, PgLedger's
-- SQL, the encoder of invoices and the local pair of wallets for tests, the rest of the Lightning
-- paywall and its median of rates, receipts, the collector's scanner and ingest, the
-- API, the web pages, and the packages around third-party SDKs (escrow, identity, seller, lane, mcp).
pub mod Prelude
pub mod Accounting
pub mod Policy
pub mod Ledger
pub mod Router
pub mod Facilitator
pub mod Lightning
pub mod Collector
