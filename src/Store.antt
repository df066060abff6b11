-- ===== src/Store.antt =====
-- dropin/store/schema/0001_initial.sql: the rows of the store. A table is the list of its rows; a
-- time is a number of seconds, where the source writes the text of the second.
pub mod Records
pub mod Laws
use dropin.Prelude.{ℕ, Bool, Option, List, Text}
use dropin.Errors.{Reason}
use dropin.Outcome.{Outcome}
use dropin.States.{State}

pub record Occurrence : Type 0 where
  pub occ_id : Text
  pub origin_store_id : Text
  pub item_name : Text
  pub archive_path : Text
  pub kind : Text
  pub spool_path : Text
  pub root_sha256 : Text
  pub size_bytes : ℕ
  pub entry_count : ℕ
  pub state : State
  pub confirmed_attempt_id : Option Text
  pub recorded_at : Option ℕ
  pub transferred_at : Option ℕ
  pub verified_at : Option ℕ
  pub recoverable_at : Option ℕ
  pub evicting_at : Option ℕ
  pub evicted_at : Option ℕ
  pub abandoned_at : Option ℕ
  pub last_error : Option Reason
  pub dedup_of : Option Text

pub data EntryType : Type 0 where
  file dir symlink : EntryType

pub record Entry : Type 0 where
  pub occ_id : Text
  pub rel_path : Text
  pub entry_type : EntryType
  pub size_bytes : Option ℕ
  pub sha256 : Option Text
  pub link_target : Option Text
  pub mode : ℕ
  pub archive_path : Text
  pub searchable : Bool
  pub capture_status : Text

pub record Fingerprint : Type 0 where
  pub occ_id : Text
  pub rel_path : Text
  pub entry_type : EntryType
  pub size_bytes : Option ℕ
  pub mtime_ns : ℕ
  pub ctime_ns : ℕ
  pub inode : ℕ
  pub dev : ℕ
  pub link_target : Option Text

pub data AttemptOutcome : Type 0 where
  pending confirmed failed : AttemptOutcome

pub record Attempt : Type 0 where
  pub attempt_id : Text
  pub origin_store_id : Text
  pub occ_id : Text
  pub export_seq : ℕ
  pub export_sha256 : Option Text
  pub export_path : Text
  pub started_at : ℕ
  pub snapshot_id : Option Text
  pub outcome : AttemptOutcome
  pub reason : Option Reason
  pub finished_at : Option ℕ

pub data SnapshotStatus : Type 0 where
  pending confirmed orphaned foreign : SnapshotStatus

-- A row of the observation ledger.
pub record SnapshotRow : Type 0 where
  pub snapshot_id : Text
  pub occ_id : Text
  pub attempt_id : Text
  pub store_id : Text
  pub export_seq : ℕ
  pub kind : Text
  pub catalog_sha256 : Text
  pub tag_set : List (Text × Text)
  pub status : SnapshotStatus
  pub reason : Option Reason
  pub seen_at : ℕ

pub record Intent : Type 0 where
  pub occ_id : Text
  pub intent_at : ℕ
  pub fingerprint : List Fingerprint
  pub recovered_without_local_history : Bool

pub record RunEvent : Type 0 where
  pub seq : ℕ
  pub occ_id : Option Text
  pub outcome : Outcome
  pub name : Text
  pub reason : Option Reason
  pub recorded_at : ℕ

-- The tables, and the one row of `store_meta`.
pub record Store : Type 0 where
  pub store_id : Text
  pub export_seq : ℕ
  pub published_frontier : ℕ
  pub lineage : List (Text × ℕ)
  pub occurrences : List Occurrence
  pub entries : List Entry
  pub fingerprints : List Fingerprint
  pub attempts : List Attempt
  pub snapshots : List SnapshotRow
  pub intents : List Intent
  pub events : List RunEvent
