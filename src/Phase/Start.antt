-- ===== src/Phase/Start.antt =====
-- An occurrence that is recorded stands where it may (dropin/store/records.py).
use dropin.Prelude.{
  ◌≡◌, refl, false, Option, none, ◌++◌, List, [], ◌∷◌, Text, text_eq_refl, any, ok, err, some, ℕ,
  arith, Bool-cases, inl, inr, map,
}
use dropin.Errors.{Raises, integrity_error}
use dropin.Gates.Fingerprint.{capture}
use dropin.Phase.{IsConsistent, ready}
use dropin.Record.{
  row_refused, CapturedItem, record_occurrence, record_hashed, occurrence_row, insert_entries,
  with_fingerprints, with_entries, first_id, find_by_root_hash,
}
use dropin.States.{State}
use dropin.States.Reach.{here}
use dropin.Store.{Store, Occurrence, Entry, Fingerprint}
use dropin.Store.Laws.{find_occurrence, pending_of}
use dropin.Store.Records.{occ_is}

find_occurrence-last :
    (occ_id : Text) (rows : List Occurrence) (o : Occurrence)
    → any (occ_is occ_id) rows ≡ false
    → o.occ_id ≡ occ_id
    → find_occurrence occ_id (rows ++ o ∷ []) ≡ some o
unfolding find_occurrence
find_occurrence-last occ_id [] o h own = ground (arith, own, text_eq_refl occ_id)
find_occurrence-last occ_id (r ∷ rows) o h own =
    ground (arith, find_occurrence-last occ_id rows o, own)

-- What a recorded occurrence adds to the tables that the pipeline follows.
with_fingerprints_shape :
    (db db' : Store) (o : Occurrence) (entries : List Entry) (r : Raises (List Fingerprint))
    → with_fingerprints db o entries r ≡ ok db'
    → (db'.occurrences ≡ db.occurrences ++ o ∷ []) × (db'.attempts ≡ db.attempts)
with_fingerprints_shape db db' o entries (ok rows) h = ground (arith, h)
with_fingerprints_shape db db' o entries (err x) h = cc

with_entries_shape :
    (db db' : Store) (o : Occurrence) (item : CapturedItem) (r : Raises (List Entry))
    → with_entries db o item r ≡ ok db'
    → (db'.occurrences ≡ db.occurrences ++ o ∷ []) × (db'.attempts ≡ db.attempts)
with_entries_shape db db' o item (ok entries) h =
    with_fingerprints_shape db db' o entries
      (capture o.occ_id (map (λ c. c.fingerprint) item.entries) db.fingerprints) h
with_entries_shape db db' o item (err x) h = cc

-- The row of the identifier is in state `recorded` and stands where it may.
abbrev pub IsRecorded : Text → Store → Type 0
IsRecorded occ_id db =
    ((o : Occurrence) × (find_occurrence occ_id db.occurrences ≡ some o)
      × (o.occ_id ≡ occ_id)
      × (o.state ≡ State.recorded))
    × IsConsistent State.recorded occ_id db

abbrev new_row : Text → CapturedItem → Text → Text → ℕ → Store → Occurrence
new_row occ_id item root_sha256 store_id now db =
    occurrence_row occ_id item root_sha256 store_id (first_id (find_by_root_hash db root_sha256))
      now

record_hashed-IsRecorded :
    (occ_id : Text) (item : CapturedItem) (root_sha256 store_id : Text) (now : ℕ) (db db' : Store)
    → pending_of occ_id db.attempts ≡ []
    → record_hashed occ_id item root_sha256 store_id now db ≡ ok db'
    → IsRecorded occ_id db'
unfolding record_hashed
record_hashed-IsRecorded occ_id item root_sha256 store_id now db db' idle h =
    elim (Bool-cases
      (row_refused (new_row occ_id item root_sha256 store_id now db) db.occurrences)) [
        | inl e ↦ cc (rw e at h)
        | inr e ↦
            let o : Occurrence = new_row occ_id item root_sha256 store_id now db in
            let shape =
              with_entries_shape db db' o item
                (insert_entries occ_id o.archive_path item.entries [] db.entries) (rw e at h) in
            let found : find_occurrence occ_id db'.occurrences ≡ some o =
              rw shape.0 (find_occurrence-last occ_id db.occurrences o (ground (arith, e)) refl) in
            (
              (o, found, refl, refl),
              ready (record {
                row = record { o = o; found = found; own = refl; state = refl; reach = here };
                pending = rw shape.1 idle;
              }),
            )
      ]

-- If `record_occurrence` succeeds and the store has no pending attempt of the new identifier, then
-- the store has a row of the identifier in state `recorded`, and it stands where it may.
pub record_occurrence-IsRecorded :
    (occ_id : Text) (item : CapturedItem) (store_id : Text) (now : ℕ) (db db' : Store)
    → pending_of occ_id db.attempts ≡ []
    → record_occurrence occ_id item store_id now db ≡ ok db'
    → IsRecorded occ_id db'
unfolding record_occurrence
record_occurrence-IsRecorded occ_id item store_id now db db' idle h = go item.root_sha256 h
  where
    go :
        (root : Option Text)
        → elim root [
          | none ↦ err (integrity_error occ_id)
          | some root_sha256 ↦ record_hashed occ_id item root_sha256 store_id now db
        ]
          ≡ ok db'
        → IsRecorded occ_id db'
    go none e = cc
    go (some root_sha256) e =
        record_hashed-IsRecorded occ_id item root_sha256 store_id now db db' idle e
