-- ===== src/Controller/Safety.antt =====
-- What a reconciliation may do to the store and to the cluster.
pub mod Sensor
pub mod Outage
pub mod Deletion
pub mod Creation
pub mod Recovery
pub mod Release
pub mod Cancellation
