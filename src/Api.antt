-- ===== src/Api.antt =====
-- api/v1alpha1: the custom resources that the controller reads and writes.
pub mod Json
pub mod Conditions
pub mod Artifact
pub mod ArtifactClass
