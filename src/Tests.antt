-- ===== src/Tests.antt =====
-- Runs of the model on concrete inputs, and the theorems at inputs that meet their hypotheses.
mod Idempotency
mod Monitoring
mod Auth
mod Bridge
mod Oracle
mod Appraisal
mod Indexer
mod Retirement
mod Lending
mod Wallet
mod Prices
mod Transactions
mod RateLimit
mod DataTable
