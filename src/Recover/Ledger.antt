-- ===== src/Recover/Ledger.antt =====
-- dropin/recover.py: every observed snapshot in the ledger, before any verdict.
use dropin.Prelude.{ℕ, Option, none, some, List, [], ◌∷◌, if◌then◌else◌, ok, bind}
use dropin.Errors.{Raises, Reason}
use dropin.Recover.Base.{Observation}
use dropin.Store.{Store, SnapshotRow, SnapshotStatus}
use dropin.Store.Records.{get_snapshot, observe_snapshot}

-- The status and the reason that the ledger keeps or gets.
abbrev pub ledger_status : Observation → Option SnapshotRow → SnapshotStatus
ledger_status o none = if o.valid then SnapshotStatus.pending else SnapshotStatus.orphaned
ledger_status o (some row) = if o.valid then row.status else SnapshotStatus.orphaned

abbrev pub ledger_reason : Observation → Option SnapshotRow → Option Reason
ledger_reason o none = if o.valid then none else o.reason
ledger_reason o (some row) = if o.valid then row.reason else o.reason

-- `_ledger`
unfoldable pub ledger : List Observation → ℕ → Store → Raises Store
unfolding get_snapshot observe_snapshot
ledger [] now db = ok db
ledger (o ∷ rest) now db =
    bind
      (observe_snapshot o.snapshot_id o.identity (ledger_status o (get_snapshot db o.snapshot_id))
        (ledger_reason o (get_snapshot db o.snapshot_id)) now db)
      (ledger rest now)
