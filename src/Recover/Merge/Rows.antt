-- ===== src/Recover/Merge/Rows.antt =====
-- dropin/recover.py: the store that is rebuilt, and when two exports describe one occurrence.
use Prim.Native.Nat.{max}
use dropin.Prelude.{
  ℕ, Bool, ◌&&◌, List, [], ◌∷◌, Text, text_eq, any, all, filter_by, ◌==◌, if◌then◌else◌,
}
use dropin.Gates.Catalog.{LineageRow}
use dropin.Gates.Equal.{type_eq, size_eq, opt_text_eq}
use dropin.Store.{Store, Occurrence, Entry, Fingerprint}

-- The work store, with its rows of `export_lineage`.
pub record Work : Type 0 where
  pub tables : Store
  pub exported : List LineageRow

-- `_base_seq_for`: the highest sequence of an origin store.
unfoldable pub base_seq_for : Text → List LineageRow → ℕ
base_seq_for store_id [] = 0
base_seq_for store_id (r ∷ rest) =
    let others : ℕ = base_seq_for store_id rest in
    if text_eq store_id r.store_id then max r.export_seq others else others

-- `OCCURRENCE_IDENTITY`
unfoldable pub same_identity : Occurrence → Occurrence → Bool
same_identity a b =
    text_eq a.origin_store_id b.origin_store_id
    && (text_eq a.item_name b.item_name
        && (text_eq a.archive_path b.archive_path
            && (text_eq a.kind b.kind
                && (text_eq a.spool_path b.spool_path
                    && (text_eq a.root_sha256 b.root_sha256
                        && (a.size_bytes == b.size_bytes && a.entry_count == b.entry_count))))))

abbrev bool_eq : Bool → Bool → Bool
bool_eq a b = if a then b else (if b then a else Bool.true)

unfoldable pub entry_eq : Entry → Entry → Bool
unfolding size_eq opt_text_eq
entry_eq a b =
    text_eq a.occ_id b.occ_id
    && (text_eq a.rel_path b.rel_path
        && (type_eq a.entry_type b.entry_type
            && (size_eq a.size_bytes b.size_bytes
                && (opt_text_eq a.sha256 b.sha256
                    && (opt_text_eq a.link_target b.link_target
                        && (a.mode == b.mode
                            && (text_eq a.archive_path b.archive_path
                                && (bool_eq a.searchable b.searchable
                                    && text_eq a.capture_status b.capture_status))))))))

unfoldable pub fingerprint_eq : Fingerprint → Fingerprint → Bool
unfolding size_eq opt_text_eq
fingerprint_eq a b =
    text_eq a.occ_id b.occ_id
    && (text_eq a.rel_path b.rel_path
        && (type_eq a.entry_type b.entry_type
            && (size_eq a.size_bytes b.size_bytes
                && (a.mtime_ns == b.mtime_ns
                    && (a.ctime_ns == b.ctime_ns
                        && (a.inode == b.inode
                            && (a.dev == b.dev && opt_text_eq a.link_target b.link_target)))))))

-- `EXCEPT` both ways leaves nothing.
module _ {A : Type 0} (eq : A → A → Bool) where
  abbrev pub same_set : List A → List A → Bool
  same_set xs ys = all (λ x. any (eq x) ys) xs && all (λ y. any (eq y) xs) ys

-- `_require_equal_rows`, of both tables
unfoldable pub same_rows : Text → Store → Store → Bool
unfolding entry_eq fingerprint_eq
same_rows occ_id a b =
    same_set entry_eq (filter_by (λ r. text_eq occ_id r.occ_id) a.entries)
      (filter_by (λ r. text_eq occ_id r.occ_id) b.entries)
    && same_set fingerprint_eq (filter_by (λ r. text_eq occ_id r.occ_id) a.fingerprints)
        (filter_by (λ r. text_eq occ_id r.occ_id) b.fingerprints)

-- The unique archive path of an entry.
unfoldable pub entries_clash : List Entry → List Entry → Bool
entries_clash new rows = any (λ r. any (λ s. text_eq r.archive_path s.archive_path) rows) new
