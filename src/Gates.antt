-- ===== src/Gates.antt =====
-- The comparisons that guard the pipeline: the source against its fingerprint, the snapshot against
-- the manifest, the archived bytes against the record, the repository against the ledger.
pub mod Equal
pub mod Fingerprint
pub mod Repository
pub mod Reconcile
pub mod Payload
pub mod Catalog
pub mod Frontier
