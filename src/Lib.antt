-- ===== src/Lib.antt =====
-- The backend of StellarKraal and its oracle bridge, modelled as functions on explicit states.
--
-- A farmer registers livestock, which `appraiseLivestock` values; loans against it live on a
-- Soroban contract, and the backend mirrors them in its database by polling the contract's events.
-- A borrower retires loans in bulk, in batched transactions. The oracle bridge submits prices to the
-- contract from one primary instance, with a standby that follows its backups.
--
-- Database: the rows of prisma/schema.prisma and the string types of src/types/domain.ts.
-- Number: the operations on JavaScript numbers that the code uses, as a record that every model
--   takes as an instance, and the laws of an ordered number type that the proofs use; Number/Cents
--   is an implementation of both, by hundredths of a natural number.
-- Oracle: src/services/oracle-aggregation.ts (`median`, `isOutlier`, `rejectOutliers`, `isStale`,
--   `validateQuality`, `aggregate`).
-- Appraisal: src/services/appraisal.service.ts (the price tables, `ageMultiplier`, the oracle
--   adapters, `aggregatedPricePerKg`, `appraiseLivestock`); it calls Oracle.
-- Indexer: the event poller of src/services/soroban.service.ts (`pollEvents`, `processEvent`,
--   `handleLoanCreated`, `handleLoanStatusChange`); its state is the database and the cursor.
-- Retirement: `chunkArray` and `retireLoansOnChain` of the same file, and in Retirement/Handler
--   `bulkRetireLoans` of src/controllers/retirements.controller.ts.
-- Bridge: oracle-bridge/src (state.ts, backup.ts, restore.ts, promote.ts and the timers of
--   index.ts).
-- Auth: src/services/auth.service.ts (`buildChallenge`, `verifyChallenge`) with the table of pending
--   challenges; in Auth/Login the tokens and `login` of src/controllers/auth.controller.ts, and in
--   Auth/Guards `requireAuth` and `requireRole` of src/middleware/requireAuth.ts.
-- Idempotency: src/services/idempotency.service.ts and src/middleware/idempotency.ts.
-- Livestock: src/controllers/livestock.controller.ts (`registerLivestock` in Livestock/Registration,
--   the others in Livestock/Upkeep).
-- Loans: src/controllers/loans.controller.ts (`getMarketLoans`, `getMyLoans`; `requestLoan` in
--   Loans/Request).
-- Lifecycle: the handlers that write livestock and loans, of Livestock, Indexer and Retirement, as the
--   actions of histories over one database.
-- Wallet: frontend/src/lib/wallet (types.ts, registry.ts; wallet-manager.ts in Wallet/Manager, each
--   asynchronous method cut at its `await`s).
-- Transactions: `invokeContract`, `waitForTransaction`, `mintCollateral` of
--   src/services/soroban.service.ts; in Transactions/Loans its `getLoanState` and `getLoanById` of
--   src/controllers/loans.controller.ts, and in Transactions/Retirements `submitRetirementChunk`, which
--   Retirement takes as an argument.
-- RateLimit: the store of src/middleware/rateLimiter.ts, its keys and its limits.
-- Prices: src/services/price-events.service.ts (the streams in Prices/Streams) and, in Prices/Charts,
--   src/controllers/price-events.controller.ts.
-- DataTable: the state and the page and row computations of frontend/src/components/ui
--   (AccessibleDataTable.tsx, Pagination.tsx, VirtualizedRows.tsx).
-- Monitoring: the anomaly rules of src/monitoring/rules, stateless ones in Monitoring and those with
--   a state in Monitoring/Windows; in Monitoring/Alerts the deduplication and the dispatcher of
--   src/monitoring/alerting.
--
-- A handler is a function from a request and the state to a response and the state; an exception is
-- a value of a result type, or `none`. A clock value is an argument, and so is what other programs
-- answer: one submission of a transaction, the resolution of a secret, which of
-- several rows of one time the database finds first, `toLowerCase`.
--
-- Two loops need fuel. That of `chunkArray` is given one round more than the list is long, which is
-- enough for every size but 0; that of the volume rule one round more than the time, in
-- milliseconds, which is enough for every window but one of length 0. The exceptions are loops that
-- never end.
--
-- Not modelled: log calls; the Stellar SDK and the network; the wiring of Express, Prisma and React;
-- and the parts of the backend that the list above does not name.
pub mod Appraisal
pub mod Auth
pub mod Bridge
pub mod DataTable
pub mod Database
pub mod Idempotency
pub mod Indexer
pub mod Lifecycle
pub mod Livestock
pub mod Loans
pub mod Monitoring
pub mod Number
pub mod Oracle
mod Prelude
pub mod Prices
pub mod RateLimit
pub mod Retirement
mod Tests
pub mod Transactions
pub mod Wallet
