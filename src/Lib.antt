-- ===== src/Lib.antt =====
-- Clearbook: an evidence-bound loan book. A loan cites token transfers on a source chain; a worker
-- (worker/src) carries such transfers into the evidence vault and challenges claimed repayments that
-- were funded by the originator itself; a web page (frontend/lib) previews a challenge and checks
-- whether a transaction is already committed to a claim.
--
-- The parts and their modules:
-- - Challenger (worker/src/enforce.ts): Filter has `matchesFundingLeg` and the shapes, Node the object
--   of `ReferenceChallenger` and the calls of the chain node, Act `gatedChallenge`, `act` and
--   `bountyFrom`, Sweep `openClaims`, `recentFacts`, `candidatesFor` and `sweep`.
-- - Worker (worker/src/main.ts, prove.ts, precheck.ts, submit.ts, health.ts, discover.ts): Prove,
--   Submit and Advance, whose `advance` carries one row of the store through the pipeline; Discover
--   has the chain discovery, Health the state and the answers of the health endpoint, and Tick puts
--   all parts together: `buildRuntime`, `tick` and the loop of `main`.
-- - Db (worker/src/db.ts, worker/migrations/001_init.sql): the tables with their unique constraints,
--   one function per statement; Pool has the methods of the class, which ask the connection pool.
--   Metrics (worker/src/log.ts): counters and histograms.
-- - Predicate (frontend/lib/predicate.ts): `dryRun` and `applyTreasuryBinding`. Protocol
--   (frontend/lib/protocol.ts): the types and the window arithmetic.
-- - Clearance (frontend/lib/clearance.ts, with the chain reads of frontend/lib/verifier.ts): Legs has
--   `transferLegs`, Check has `checkClearance`.
-- - Watch (worker/src/watch.ts): `scan` and `scanRange`, over the store.
-- - Projection (worker/src/index.ts): the read model, `sync` and `scanRange`.
-- - Coverage (frontend/lib/coverage.ts): `boundTreasuries` and `measureCoverage`.
-- - Reverts (frontend/lib/errors.ts): `decodeRevert` with its table of errors.
-- - Collide (frontend/app/api/collide/route.ts): Attempt has `collide`, Server has `rateLimited` and
--   `POST` over the variables of the module, and Server.Reach what can happen to them.
-- - Proxy (frontend/app/api/prover/route.ts): `GET` and `forward`.
-- - Reads (frontend/lib/hooks.ts): Pool has `mapLimit` as a step relation, Scans the chunked log
--   scans.
-- - Console (frontend/app/challenge/page.tsx): the derived values of the page; Ending has `Outcome`
--   and `submit`, Rail the stages, Reach what a visitor and the hooks can do in any order.
-- - Contract (contracts/src/Clearbook.sol, contracts/src/libraries/CovenantLib.sol): the guards of
--   `challenge`, as the specification that the filter and the preview are compared with.
-- - Ranges: the chunks of the block scans, a loop that several parts share.
-- - Prelude and Text: shared helpers, with strings as lists of code units. Async: methods that settle
--   to a value or throw, with the object that they work on passed along. Examples: concrete runs.
--
-- The worker and the challenger call the node, the proof builder and the vault. What these answer is a
-- parameter: any function of the calls made before, or a rejection. The connection pool of the store
-- answers each query, or throws before its statement has run, or after it; `IsUp` says that every
-- query to come is answered. The object of a method has the list of the calls made, so that a theorem
-- can speak of their order. The watcher, the projection, the coverage measurement and the clearance
-- check read answers that stay as they are during one run, each of them a value or a rejection.
-- Strings that the code compares are compared as the code does, without regard to case where it says
-- so; theorems that relate them to the contract's numbers say that they are hexadecimal strings of the
-- right length.
--
-- A round of the worker's loop runs in an environment, with what the chains and the services say
-- during this round; the loop takes a list of environments, so a statement about every list is one
-- about any number of rounds. The server of the duplicate commitment is a step relation: requests with
-- their times, and the settling of the attempt in flight, in any order.
--
-- Loops: the loop over identifiers and the one over the chunks run on fuel, with as many rounds as
-- there are identifiers or blocks, which is never too few for a chunk of at least one block; so do the
-- digits of a number, with one round more than its value. The attempts of `getProof` are counted down.
-- All other loops are over lists.
--
-- Not modelled: log lines, most display texts and timestamps; waits between attempts; the reading of
-- environment variables, save that of the proof builder's address; the clients, and `migrate` and
-- `close` of the store; the rendering of the pages; the Solidity contracts beyond the guards of
-- `challenge`.
pub mod Prelude
pub mod Text
pub mod Contract
pub mod Challenger
pub mod Protocol
pub mod Predicate
pub mod Ranges
pub mod Async
pub mod Metrics
pub mod Db
pub mod Worker
pub mod Clearance
pub mod Examples
pub mod Coverage
pub mod Watch
pub mod Projection
pub mod Reverts
pub mod Collide
pub mod Console
pub mod Proxy
pub mod Reads
