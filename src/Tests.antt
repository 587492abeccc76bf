-- ===== src/Tests.antt =====
-- Tests of the model, and the theorems at concrete inputs.
mod Fixtures
mod Decimals
mod Payment
mod Opened
mod Amounts
mod Runs
mod Async
mod Mandates
mod Ledger
mod Once
mod Progress
mod Fleet
mod Demo
mod Wire
