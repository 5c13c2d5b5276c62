-- ===== src/Tests.antt =====
-- Runs of the models on small inputs, and the theorems at inputs that meet their hypotheses.
pub mod Data
pub mod Scheduler
pub mod Cluster
pub mod Codec
pub mod Transport
pub mod Persistence
pub mod Store
pub mod Security
pub mod Runtime
pub mod Start
pub mod Discovery
pub mod Catalog
pub mod Manifest
pub mod Pipeline
pub mod Local
pub mod Backends
