-- ===== src/Lib.antt =====
-- PNLX, a private exchange for perpetual futures: a verification of the server's core.
--
-- Traders hold margin as notes, of which the server keeps commitments and spent nullifiers. They
-- submit intents; the batch matcher crosses the intents of a batch by price and time, with fees and
-- risk checks from the market mathematics, and returns fills, new position commitments and spent
-- nullifiers; the protocol store records intents, settlements, closes, liquidations and withdrawals,
-- and refuses what is spent, locked or known. The funding engine moves the funding index of its
-- markets, the jobs of the remote matcher are tried a few times each, and a snapshot of the store is
-- kept as JSON.
--
-- The files and the code that they model:
--   Base        what the other files share: integers (bigint) as pairs of a sign and a native
--               number, Result for a call that may throw, strings, maps and sets in insertion order
--   Protocol    packages/protocol-types/src/index.ts: the records, field by field
--   MarketMath  packages/market-math/src: margins, fees, profit and loss, funding, liquidation and
--               the virtual pool (vamm.ts); fillFees is fill_fees, settleClose is settle_close, and
--               so on. Division truncates towards zero, as that of bigint
--   Crypto      packages/crypto/src without `invert` and merkle.ts. SHA-256 and Poseidon2 come
--               from other packages and are the parameters of the record Primitives
--   Matcher     server/src/workers/batch-matcher: BatchMatcherService.match is match_batch; its loop
--               is match_loop, with a body cross; the orders that the source's objects share are a
--               list by sequence number, and the two sides are lists of sequence numbers
--   Store       server/src/shared/state/store.ts and server/src/workers/batch-matcher/private-intent.ts:
--               the fields of ProtocolStore are the record Store, a method is an Action, which returns
--               or throws and leaves a store in either case, so that what was written before a throw
--               stays; Command lists the methods that write, step runs one and run a sequence
--               Stored and Snapshot are protocol-snapshot.ts beside it: snapshot_protocol_store writes
--               a store out and apply_protocol_store_snapshot reads one back
--   Jobs        server/src/workers/matcher/matcher-job.service.ts, in memory: the service's fields and
--               its queue of microtasks are the record Jobs, and Step lists what can happen to it, in
--               any order: a request, a microtask that claims a job, an answer of the processor, or the
--               end of a process, which alone takes the job out of the active ones; a request that
--               comes between the last two does not start the job again, and can leave it queued
--   Json        bigintReplacer and bigintReviver of protocol-snapshot.ts, on trees of values
--   Funding     server/src/workers/funding-engine and server/src/shared/protocol/onchain-submission.ts:
--               runOnce is run_once and sampleOnce is sample_once, Actions over the Store; the prover
--               and the relay together are an argument, which may be missing
--
-- Fuel: match_loop takes fuel and gives none when it runs out. It is given one round more than the
-- two sides have orders together; every round that crosses leaves one of its two orders with nothing,
-- and so takes an order off a side. decimal takes the number itself as fuel for its digits.
--
-- Times are the values that Date.now() gives to a call, and are arguments. Numbers of the source that
-- are times, counts or indices are natural numbers.
--
-- Not modelled: the HTTP interface, the database, the relayer, the provers, the oracle and the other
-- workers, the feature services, the web client and the scripts, which are input and output around
-- these parts or await a model; the contracts, circuits and the zkVM guest, which are other programs;
-- of the store, the roots over merkle.ts and the fallback for settlements that carry no order updates;
-- of the jobs, the mode that keeps them in MongoDB; of the funding engine, its timers; of BigInt, the
-- texts that toString does not write.
pub mod Base
pub mod Protocol
pub mod MarketMath
pub mod Crypto
pub mod Matcher
pub mod Store
pub mod Jobs
pub mod Json
pub mod Funding
