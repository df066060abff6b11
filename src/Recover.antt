-- ===== src/Recover.antt =====
-- dropin/recover.py: a store from the repository alone. The children follow its steps: the
-- snapshots observed, the base chosen, the other exports merged, each occurrence verified and
-- settled, the watermarks rebuilt.
pub mod Observe
pub mod Base
pub mod Merge
pub mod Ledger
pub mod Verify
pub mod Settle
pub mod Meta
pub mod Run
pub mod Frame
pub mod Shape
pub mod Settled
pub mod Marks
pub mod Proven
pub mod Lineage
pub mod Watermarks
pub mod Newest
pub mod Chosen
pub mod Unparsed
