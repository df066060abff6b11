-- ===== src/Drain/Base.antt =====
-- dropin/pipeline/drain.py: the settings, and what an exception means to a step.
use dropin.Prelude.{ℕ, Bool, Option, none, some, Text, ok, err, Result}
use dropin.Engine.Tags.{TagError, int_limit, Identity}
use dropin.Errors.{
  Exn, Reason, Raises, changed, special, reconcile_error, payload_error, catalog_error, tag_error,
}
use dropin.Store.{Store, Attempt}
use dropin.Store.Laws.{pending_row}
use dropin.Store.Records.{latest_by}

-- The settings of a run. The times of the settings are kept in nanoseconds.
pub record Settings : Type 0 where
  pub export_dir : Text
  pub max_attempts : ℕ
  pub retry_backoff_seconds : ℕ
  pub now_offset : ℕ
  pub retry_exhausted : Bool
  pub drop_dir : Text
  pub settle_seconds : ℕ
  pub sample_gap_seconds : ℕ

-- `_pending_attempt`
unfoldable pub pending_attempt : Text → Store → Option Attempt
pending_attempt occ_id db = latest_by (pending_row occ_id) db.attempts

abbrev pub parsed : Result TagError Identity → Raises Identity
parsed (ok i) = ok i
parsed (err x) = err (tag_error x)

-- The exceptions that a step turns into the end of the item.
abbrev pub as_verification : Exn → Option Reason
as_verification (reconcile_error p d) = some (Reason.verification p d)
as_verification (payload_error p d) = some (Reason.verification p d)
as_verification _ = none

abbrev pub as_catalog : Exn → Option Reason
as_catalog (catalog_error check) = some (Reason.catalog check)
as_catalog (tag_error int_limit) = none
as_catalog (tag_error x) = some (Reason.catalog_tags x)
as_catalog _ = none

abbrev pub is_source_change : Exn → Option (Text × Text)
is_source_change (changed p d) = some (p, d)
is_source_change (special p t) = some (p, t)
is_source_change _ = none
