-- ===== src/Controller/Wakeup.antt =====
-- A reconciliation that ends well asks to be run again.
pub mod Delays
pub mod Attempts
pub mod Missing
pub mod Dispatch
