-- ===== src/Drain.antt =====
-- dropin/pipeline/drain.py: the state machine of one occurrence, step by step.
pub mod Base
pub mod Gate
pub mod Publish
pub mod Verify
pub mod Intend
pub mod Emit
pub mod Advance
pub mod Passes
pub mod Execute
pub mod Refused
