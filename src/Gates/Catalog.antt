-- ===== src/Gates/Catalog.antt =====
-- dropin/pipeline/catalog_verify.py: the catalog export, read back from the snapshot.
pub mod Sound
use dropin.Prelude.{
  ℕ, Bool, true, false, not, ◌&&◌, Option, none, some, List, [], ◌∷◌, Text, codes, text_eq, find_by,
  length, filter_by, ◌==◌, if◌then◌else◌, ok, err,
}
use dropin.Engine.Tags.{Identity}
use dropin.Errors.{Raises, catalog_error}
use dropin.Gates.Equal.{type_eq, opt_text_eq}
use dropin.Store.{Store, Occurrence, Entry}
use dropin.Store.Records.{occ_is, get_occurrence, iter_entries}

-- A row of `export_lineage`.
pub record LineageRow : Type 0 where
  pub store_id : Text
  pub export_seq : ℕ
  pub occ_id : Text
  pub attempt_id : Text

-- What Python's `hashlib` and `sqlite3` read of a dumped export: its digest, whether it opens as a
-- database, the answer of the integrity check, the rows of `export_lineage`, and the other tables.
pub record CatalogFile : Type 0 where
  pub digest : Text
  pub opens : Bool
  pub integrity : Text
  pub lineage : List LineageRow
  pub tables : Store

abbrev refuse_unless : Bool → Text → Raises (Unit {0}) → Raises (Unit {0})
refuse_unless true check rest = rest
refuse_unless false check rest = err (catalog_error check)

-- `tuple(row) != expected`
unfoldable pub lineage_matches : LineageRow → Identity → Bool
lineage_matches row i =
    text_eq row.store_id i.store_id
    && (row.export_seq == i.export_seq
        && (text_eq row.occ_id i.occ_id && text_eq row.attempt_id i.attempt_id))

abbrev check_lineage : List LineageRow → Identity → Raises (Unit {0})
check_lineage (row ∷ []) i = refuse_unless (lineage_matches row i) (codes "lineage") (ok tt)
check_lineage _ i = err (catalog_error (codes "lineage"))

-- The digest is compared before the file is opened.
unfoldable pub verify_catalog_file : CatalogFile → Identity → Raises (Unit {0})
verify_catalog_file file i = refuse_unless (text_eq file.digest i.catalog_sha256) (codes "digest") (
    refuse_unless file.opens (codes "open") (
      refuse_unless (text_eq file.integrity (codes "ok")) (codes "integrity_check")
        (check_lineage file.lineage i)))

-- The fields in which the two rows of the occurrence must agree.
unfoldable pub same_occurrence : Occurrence → Occurrence → Bool
same_occurrence exported stored =
    text_eq exported.root_sha256 stored.root_sha256
    && (text_eq exported.kind stored.kind
        && (exported.entry_count == stored.entry_count
            && (text_eq exported.item_name stored.item_name
                && text_eq exported.archive_path stored.archive_path)))

unfoldable pub same_entry : Entry → Entry → Bool
unfolding opt_text_eq
same_entry exported stored =
    text_eq exported.rel_path stored.rel_path
    && (type_eq exported.entry_type stored.entry_type
        && (opt_text_eq exported.sha256 stored.sha256
            && opt_text_eq exported.link_target stored.link_target))

-- `zip` of two lists of one length
unfoldable pub check_entries : List Entry → List Entry → Raises (Unit {0})
unfolding same_entry
check_entries (x ∷ xs) (y ∷ ys) =
    refuse_unless (same_entry x y) (codes "entries") (check_entries xs ys)
check_entries _ _ = ok tt

-- The row of the occurrence in the export, and its entries, against those of the store.
unfoldable pub compare_row :
    Option Occurrence → List Entry → Occurrence → List Entry → Raises (Unit {0})
compare_row none exported stored entries = err (catalog_error (codes "occurrence"))
compare_row (some row) exported stored entries =
    refuse_unless (same_occurrence row stored) (codes "occurrence") (
      refuse_unless (length exported == length entries) (codes "entries")
        (check_entries exported entries))

abbrev compare_with : Store → Store → Text → Raises Occurrence → Raises (Unit {0})
compare_with tables db occ_id (err x) = err x
compare_with tables db occ_id (ok stored) =
    compare_row (find_by (occ_is occ_id) tables.occurrences)
      (filter_by (λ r. text_eq occ_id r.occ_id) tables.entries) stored (iter_entries db occ_id)

-- `_compare_rows`, of the tables of the export and the store.
unfoldable pub compare_rows : Store → Store → Text → Raises (Unit {0})
unfolding compare_row
compare_rows tables db occ_id = compare_with tables db occ_id (get_occurrence db occ_id)

abbrev live_agrees : Option Text → Identity → Bool
live_agrees none i = true
live_agrees (some digest) i = text_eq digest i.catalog_sha256

abbrev both : Raises (Unit {0}) → Raises (Unit {0}) → Raises (Unit {0})
both (ok _) next = next
both (err x) next = err x

-- `verify_catalog` on the dumped file
unfoldable pub verify_catalog :
    CatalogFile → Identity → Option Text → Store → Text → Raises (Unit {0})
verify_catalog file i live_digest db occ_id =
    refuse_unless (live_agrees live_digest i) (codes "digest")
      (both (verify_catalog_file file i) (compare_rows file.tables db occ_id))
