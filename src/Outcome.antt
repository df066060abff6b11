-- ===== src/Outcome.antt =====
-- dropin/report.py: the outcomes of an item.
pub data Outcome : Type 0 where
  archived already_archived deferred refused retained verified : Outcome
  corrupt missing restored orphaned queued info : Outcome
