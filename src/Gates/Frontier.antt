-- ===== src/Gates/Frontier.antt =====
-- dropin/pipeline/frontier.py: every snapshot of the repository must be one that the store knows.
pub mod Known
use dropin.Prelude.{
  ℕ, Bool, true, false, ◌&&◌, Option, none, some, List, [], ◌∷◌, Text, text_eq, find_by, leb, ◌==◌,
  if◌then◌else◌, Result, ok, err,
}
use dropin.Engine.Tags.{Identity, TagError, int_limit, parse_tags, tag_set}
use dropin.Errors.{Exn, Raises}
use dropin.Gates.Repository.{Snapshot}
use dropin.Store.{Store, Attempt, Occurrence, SnapshotStatus}
use dropin.Store.Records.{get_snapshot, merged_through, observe_snapshot, tag_sets_eq, occ_is}

-- `StaleStore` by its three causes, `LineageMismatch`, and the exceptions that pass through: the
-- plain `ValueError` of the parser, and an error of the ledger.
pub data Refusal : Type 0 where
  malformed : Text → TagError → Refusal
  recorded_differently unknown : Text → Refusal
  not_merged : Text → Text → ℕ → Refusal
  value_error : Refusal
  raised : Exn → Refusal

-- The tag values that the row of an attempt carries.
abbrev pub attempt_matches : Identity → Attempt → Bool
attempt_matches i a =
    text_eq i.attempt_id a.attempt_id
    && (text_eq i.occ_id a.occ_id
        && (text_eq i.store_id a.origin_store_id && i.export_seq == a.export_seq))

-- `row["export_sha256"] not in (None, identity.catalog_sha256)`, negated
abbrev pub digest_fits : Option Text → Identity → Bool
digest_fits none i = true
digest_fits (some digest) i = text_eq digest i.catalog_sha256

abbrev joined : Identity → Attempt → Option Occurrence → Option Attempt
joined i a none = none
joined i a (some o) =
    if text_eq o.kind i.kind && digest_fits a.export_sha256 i then some a else none

abbrev with_occurrence : Store → Identity → Option Attempt → Option Attempt
with_occurrence db i none = none
with_occurrence db i (some a) = joined i a (find_by (occ_is a.occ_id) db.occurrences)

-- `_matching_attempt`
unfoldable pub matching_attempt : Store → Identity → Option Attempt
matching_attempt db i = with_occurrence db i (find_by (attempt_matches i) db.attempts)

-- The observation of a snapshot that is known by its attempt.
abbrev pub observed : Bool → Snapshot → Identity → ℕ → Store → Raises Store
observed true s i now db = observe_snapshot s.id i SnapshotStatus.pending none now db
observed false s i now db = ok db

abbrev pub as_refusal : Raises Store → Result Refusal Store
as_refusal (ok db) = ok db
as_refusal (err x) = err (raised x)

-- `_require_known`
unfoldable pub require_known : Bool → Snapshot → Identity → ℕ → Store → Result Refusal Store
require_known observe s i now db = elim (get_snapshot db s.id) [
  | some row ↦
      if tag_sets_eq row.tag_set (tag_set i) then ok db else err (recorded_differently s.id)
  | none ↦ elim (matching_attempt db i) [
    | none ↦ err (unknown s.id)
    | some a ↦ as_refusal (observed observe s i now db)
  ]
]

-- `known_lineage.get(…)`, and the comparison with the sequence
abbrev pub is_merged : Option ℕ → ℕ → Bool
is_merged none seq = false
is_merged (some through) seq = leb seq through

-- One round of the loop, on the identity of the snapshot.
unfoldable pub check_identity :
    Bool → List (Text × ℕ) → Text → Snapshot → Identity → ℕ → Store → Result Refusal Store
check_identity observe known store_id s i now db =
    if text_eq i.store_id store_id
    then require_known observe s i now db
    else if is_merged (merged_through known i.store_id) i.export_seq
    then ok db
    else err (not_merged s.id i.store_id i.export_seq)

unfoldable pub check_parsed :
    Bool
    → List (Text × ℕ)
    → Text
    → Snapshot
    → Result TagError Identity
    → ℕ
    → Store
    → Result Refusal Store
check_parsed observe known store_id s (ok i) now db =
    check_identity observe known store_id s i now db
check_parsed observe known store_id s (err int_limit) now db = err value_error
check_parsed observe known store_id s (err x) now db = err (malformed s.id x)

-- The loop of `check_frontier`: how it ends, and the store that it leaves. Each observation is a
-- transaction of its own, so a refusal keeps the earlier ones.
unfoldable pub check_snapshots :
    Bool → List (Text × ℕ) → Text → ℕ → List Snapshot → Store → Option Refusal × Store
check_snapshots observe known store_id now [] db = (none, db)
check_snapshots observe known store_id now (s ∷ rest) db =
    elim (check_parsed observe known store_id s (parse_tags s.tags) now db) [
      | ok db' ↦ check_snapshots observe known store_id now rest db'
      | err x ↦ (some x, db)
    ]

-- `check_frontier`, on the snapshots that the repository lists; `assess_frontier` if nothing is to
-- be observed. The clock stands still meanwhile.
unfoldable pub check_frontier : Bool → Text → ℕ → List Snapshot → Store → Option Refusal × Store
check_frontier observe store_id now snapshots db =
    check_snapshots observe db.lineage store_id now snapshots db
