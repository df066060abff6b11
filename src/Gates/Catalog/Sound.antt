-- ===== src/Gates/Catalog/Sound.antt =====
-- What a verified catalog shows (dropin/pipeline/catalog_verify.py).
use dropin.Prelude.{
  ◌≡◌, refl, true, Option, none, some, List, [], ◌∷◌, Text, codes, text_eq_iff, text_eq, filter_by,
  find_by, length, ◌==◌, ok, arith, Option-cases, inl, inr,
}
use dropin.Engine.Tags.{Identity}
use dropin.Gates.Equal.{type_eq_iff, opt_text_eq_iff}
use dropin.Gates.Catalog.{
  LineageRow, CatalogFile, lineage_matches, verify_catalog_file, same_occurrence, same_entry,
  check_entries, compare_row, compare_rows, verify_catalog,
}
use dropin.Store.{Store, Occurrence, Entry}
use dropin.Store.Records.{occ_is, get_occurrence, iter_entries}

-- The file has the digest of the tags, is a sound database, and its one lineage row is the identity
-- of the tags.
pub record IsAuthentic (file : CatalogFile) (i : Identity) : Type 0 where
  pub digest : file.digest ≡ i.catalog_sha256
  pub opens : file.opens ≡ true
  pub integrity : file.integrity ≡ codes "ok"
  pub row : LineageRow
  pub only : file.lineage ≡ row ∷ []
  pub store_id : row.store_id ≡ i.store_id
  pub export_seq : row.export_seq ≡ i.export_seq
  pub occ_id : row.occ_id ≡ i.occ_id
  pub attempt_id : row.attempt_id ≡ i.attempt_id

verify_catalog_file_sound :
    (file : CatalogFile) (i : Identity) → verify_catalog_file file i ≡ ok tt → IsAuthentic file i
unfolding verify_catalog_file lineage_matches
verify_catalog_file_sound file i h = go file.lineage refl
  where
    go : (rows : List LineageRow) → file.lineage ≡ rows → IsAuthentic file i
    go [] e = absurd (ground (arith, e))
    go (a ∷ b ∷ rest) e = absurd (ground (arith, e))
    go (a ∷ []) e = record {
      digest = ground (arith, text_eq_iff file.digest i.catalog_sha256);
      opens = ground arith;
      integrity = ground (arith, text_eq_iff file.integrity (codes "ok"));
      row = a;
      only = e;
      store_id = ground (arith, e, text_eq_iff a.store_id i.store_id);
      export_seq = ground (arith, e);
      occ_id = ground (arith, e, text_eq_iff a.occ_id i.occ_id);
      attempt_id = ground (arith, e, text_eq_iff a.attempt_id i.attempt_id);
    }

-- The entries agree, one by one, in path, type, content hash and link target.
abbrev pub SameEntries : List Entry → List Entry → Type 0
SameEntries [] [] = Unit {0}
SameEntries (x ∷ xs) (y ∷ ys) =
    (x.rel_path ≡ y.rel_path)
    × (x.entry_type ≡ y.entry_type)
    × (x.sha256 ≡ y.sha256)
    × (x.link_target ≡ y.link_target)
    × SameEntries xs ys
SameEntries _ _ = ⊥

check_entries_sound :
    (xs ys : List Entry)
    → (length xs == length ys) ≡ true
    → check_entries xs ys ≡ ok tt
    → SameEntries xs ys
unfolding check_entries same_entry
check_entries_sound [] [] l h = tt
check_entries_sound [] (y ∷ ys) l h = ground arith
check_entries_sound (x ∷ xs) [] l h = ground arith
check_entries_sound (x ∷ xs) (y ∷ ys) l h = ground (
  arith,
  check_entries_sound xs ys,
  text_eq_iff x.rel_path y.rel_path,
  type_eq_iff x.entry_type y.entry_type,
  opt_text_eq_iff x.sha256 y.sha256,
  opt_text_eq_iff x.link_target y.link_target,
)

-- The row of an occurrence has the hash, kind, count, name and path of another.
abbrev pub SameOccurrence : Occurrence → Occurrence → Type 0
SameOccurrence exported stored =
    (exported.root_sha256 ≡ stored.root_sha256)
    × (exported.kind ≡ stored.kind)
    × (exported.entry_count ≡ stored.entry_count)
    × (exported.item_name ≡ stored.item_name)
    × (exported.archive_path ≡ stored.archive_path)

same_occurrence_sound :
    (row stored : Occurrence) → same_occurrence row stored ≡ true → SameOccurrence row stored
unfolding same_occurrence
same_occurrence_sound row stored h = ground (
  arith,
  text_eq_iff row.root_sha256 stored.root_sha256,
  text_eq_iff row.kind stored.kind,
  text_eq_iff row.item_name stored.item_name,
  text_eq_iff row.archive_path stored.archive_path,
)

-- The export has the occurrence with the recorded values, and exactly its entries, in their order.
abbrev pub Carries : Store → Store → Text → Type 0
Carries exported db occ_id =
    (stored row : Occurrence) × (find_by (occ_is occ_id) db.occurrences ≡ some stored)
    × (find_by (occ_is occ_id) exported.occurrences ≡ some row)
    × SameOccurrence row stored
    × SameEntries (filter_by (λ r. text_eq occ_id r.occ_id) exported.entries)
        (iter_entries db occ_id)

compare_row_sound :
    (found : Option Occurrence) (exported : List Entry) (stored : Occurrence) (entries : List Entry)
    → compare_row found exported stored entries ≡ ok tt
    → (row : Occurrence) × (found ≡ some row)
      × SameOccurrence row stored
      × SameEntries exported entries
unfolding compare_row
compare_row_sound none exported stored entries h = cc
compare_row_sound (some row) exported stored entries h = (
  row,
  refl,
  same_occurrence_sound row stored (ground arith),
  check_entries_sound exported entries (ground arith) (ground arith),
)

compare_rows_sound :
    (exported db : Store) (occ_id : Text)
    → compare_rows exported db occ_id ≡ ok tt
    → Carries exported db occ_id
unfolding compare_rows get_occurrence
compare_rows_sound exported db occ_id h =
    elim (Option-cases (find_by (occ_is occ_id) db.occurrences)) [
      | inl missing ↦ absurd (cc (rw (compare_rows, get_occurrence, missing) at h))
      | inr (stored, found) ↦
          let same =
            compare_row_sound (find_by (occ_is occ_id) exported.occurrences)
              (filter_by (λ r. text_eq occ_id r.occ_id) exported.entries) stored
              (iter_entries db occ_id) (rw (compare_rows, get_occurrence, found) at h) in
          (stored, same.0, found, same.1, same.2, same.3)
    ]

pub verify_catalog_sound :
    (file : CatalogFile) (i : Identity) (live_digest : Option Text) (db : Store) (occ_id : Text)
    → verify_catalog file i live_digest db occ_id ≡ ok tt
    → IsAuthentic file i
      × Carries file.tables db occ_id
      × ((d : Text) → live_digest ≡ some d → d ≡ file.digest)
unfolding verify_catalog
verify_catalog_sound file i live_digest db occ_id h =
    let authentic = verify_catalog_file_sound file i (ground arith) in
    (
      authentic,
      compare_rows_sound file.tables db occ_id (ground arith),
      λ d e. ground (arith, text_eq_iff d i.catalog_sha256, authentic.digest),
    )
