-- ===== src/Controller/Frame.antt =====
-- What a reconciliation leaves alone: the metadata and the spec of the Artifact.
pub mod Attempts
pub mod Requests
pub mod Finalizer
