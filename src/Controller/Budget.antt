-- ===== src/Controller/Budget.antt =====
-- The failure budget: how the counters of attempts and failures move, and how many runs a history
-- of reconciliations creates.
pub mod Failures
pub mod Dispatch
pub mod Ledger
pub mod Spending
pub mod Balance
pub mod Absence
pub mod History
pub mod Starting
