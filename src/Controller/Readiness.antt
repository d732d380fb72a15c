-- ===== src/Controller/Readiness.antt =====
-- What the conditions tell after a reconciliation: Ready, and the state.
pub mod Conditions
pub mod Soundness
pub mod Existing
pub mod Steady
pub mod Arrival
