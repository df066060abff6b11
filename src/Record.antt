-- ===== src/Record.antt =====
-- `record_occurrence` of dropin/store/records.py, on the values of dropin/capture/model.py that the
-- pipeline reads back, and its other reads in order. The attributes, extended attributes, search rows and tags are left out.
use dropin.Prelude.{
  not, ℕ, ◌++◌, Bool, ◌&&◌, ◌||◌, Option, none, some, List, [], ◌∷◌, Text, text_eq, text_lt, length,
  any, map, filter_by, ltb, sort_by, ◌==◌, if◌then◌else◌, ok, err,
}
use dropin.Errors.{Raises, integrity_error}
use dropin.Gates.Fingerprint.{capture}
use dropin.Spool.Walk.{WalkEntry}
use dropin.States.{State, state_eq}
use dropin.Engine.Tags.{is_in, kinds}
use dropin.Store.{Store, Occurrence, Entry, EntryType, Fingerprint, SnapshotRow}
use dropin.Store.Records.{occ_is}

pub record CapturedEntry : Type 0 where
  pub rel_path : Text
  pub entry_type : EntryType
  pub size_bytes : Option ℕ
  pub sha256 : Option Text
  pub link_target : Option Text
  pub mode : ℕ
  pub fingerprint : WalkEntry
  pub searchable : Bool
  pub capture_status : Text

pub record CapturedItem : Type 0 where
  pub spool_path : Text
  pub item_name : Text
  pub kind : Text
  pub root_sha256 : Option Text
  pub size_bytes : ℕ
  pub entries : List CapturedEntry

abbrev pub entry_count : CapturedItem → ℕ
entry_count item = length item.entries

abbrev time_of : Option ℕ → ℕ
time_of none = 0
time_of (some t) = t

-- `ORDER BY recorded_at, occ_id`
abbrev pub recorded_before : Occurrence → Occurrence → Bool
recorded_before a b =
    ltb (time_of a.recorded_at) (time_of b.recorded_at)
    || (time_of a.recorded_at == time_of b.recorded_at && text_lt a.occ_id b.occ_id)

unfoldable pub by_recorded : List Occurrence → List Occurrence
unfolding sort_by
by_recorded rows = sort_by recorded_before rows

unfoldable pub find_by_root_hash : Store → Text → List Occurrence
find_by_root_hash db root_sha256 =
    by_recorded (filter_by (λ o. text_eq root_sha256 o.root_sha256) db.occurrences)

abbrev in_states : List State → Occurrence → Bool
in_states states o = any (state_eq o.state) states

unfoldable pub occurrences_in_state : Store → List State → List Occurrence
occurrences_in_state db states = by_recorded (filter_by (in_states states) db.occurrences)

-- `ORDER BY snapshot_id`
unfoldable pub by_snapshot : List SnapshotRow → List SnapshotRow
unfolding sort_by
by_snapshot rows = sort_by (λ a b. text_lt a.snapshot_id b.snapshot_id) rows

unfoldable pub snapshots_for_attempt : Store → Text → List SnapshotRow
snapshots_for_attempt db attempt_id =
    by_snapshot (filter_by (λ r. text_eq attempt_id r.attempt_id) db.snapshots)

abbrev pub first_id : List Occurrence → Option Text
first_id [] = none
first_id (o ∷ rest) = some o.occ_id

abbrev pub entry_path : Text → Text → Text
entry_path archive_path [] = archive_path
entry_path archive_path (c ∷ rel) = archive_path ++ (b'/' ∷ c ∷ rel)

abbrev pub entry_row : Text → Text → CapturedEntry → Entry
entry_row occ_id archive_path c = record {
  occ_id = occ_id;
  rel_path = c.rel_path;
  entry_type = c.entry_type;
  size_bytes = c.size_bytes;
  sha256 = c.sha256;
  link_target = c.link_target;
  mode = c.mode;
  archive_path = entry_path archive_path c.rel_path;
  searchable = c.searchable;
  capture_status = c.capture_status;
}

-- The rows of one occurrence stand in the order of their paths, in which `iter_entries` reads them.
unfoldable pub insert_entry : Entry → List Entry → List Entry
insert_entry x [] = x ∷ []
insert_entry x (y ∷ ys) =
    if text_lt y.rel_path x.rel_path then y ∷ insert_entry x ys else x ∷ y ∷ ys

abbrev entry_is : Text → Text → Entry → Bool
entry_is occ_id rel_path r = text_eq occ_id r.occ_id && text_eq rel_path r.rel_path

-- The inserts into `entry`; the primary key refuses a second row of a path.
unfoldable pub insert_entries :
    Text → Text → List CapturedEntry → List Entry → List Entry → Raises (List Entry)
insert_entries occ_id archive_path [] own rows = ok (rows ++ own)
insert_entries occ_id archive_path (c ∷ cs) own rows =
    if any (entry_is occ_id c.rel_path) own || any (entry_is occ_id c.rel_path) rows
    then err (integrity_error c.rel_path)
    else insert_entries occ_id archive_path cs (insert_entry (entry_row occ_id archive_path c) own)
        rows

-- The row that is inserted into `occurrence`.
abbrev pub occurrence_row : Text → CapturedItem → Text → Text → Option Text → ℕ → Occurrence
occurrence_row occ_id item root_sha256 store_id dedup_of now = record {
  occ_id = occ_id;
  origin_store_id = store_id;
  item_name = item.item_name;
  archive_path = occ_id ++ (b'/' ∷ item.item_name);
  kind = item.kind;
  spool_path = item.spool_path;
  root_sha256 = root_sha256;
  size_bytes = item.size_bytes;
  entry_count = entry_count item;
  state = State.recorded;
  confirmed_attempt_id = none;
  recorded_at = some now;
  transferred_at = none;
  verified_at = none;
  recoverable_at = none;
  evicting_at = none;
  evicted_at = none;
  abandoned_at = none;
  last_error = none;
  dedup_of = dedup_of;
}

abbrev pub with_fingerprints :
    Store → Occurrence → List Entry → Raises (List Fingerprint) → Raises Store
with_fingerprints db o entries (ok rows) =
    ok
      (record db { occurrences = db.occurrences ++ o ∷ []; entries = entries; fingerprints = rows })
with_fingerprints db o entries (err x) = err x

abbrev pub with_entries : Store → Occurrence → CapturedItem → Raises (List Entry) → Raises Store
with_entries db o item (ok entries) =
    with_fingerprints db o entries
      (capture o.occ_id (map (λ c. c.fingerprint) item.entries) db.fingerprints)
with_entries db o item (err x) = err x

-- What the table refuses: a key or a path that is taken, or another kind.
abbrev pub row_refused : Occurrence → List Occurrence → Bool
row_refused o rows =
    any (occ_is o.occ_id) rows
    || (any (λ r. text_eq o.archive_path r.archive_path) rows || not (is_in o.kind kinds))

-- The inserts of an item that has a root hash.
unfoldable pub record_hashed : Text → CapturedItem → Text → Text → ℕ → Store → Raises Store
record_hashed occ_id item root_sha256 store_id now db =
    let o : Occurrence =
      occurrence_row occ_id item root_sha256 store_id (first_id (find_by_root_hash db root_sha256))
        now in
    if row_refused o db.occurrences
    then err (integrity_error occ_id)
    else with_entries db o item (insert_entries occ_id o.archive_path item.entries [] db.entries)

-- The transaction of `record_occurrence`, for an identifier that `new_id` made. The column of the
-- root hash is not null.
unfoldable pub record_occurrence : Text → CapturedItem → Text → ℕ → Store → Raises Store
unfolding record_hashed
record_occurrence occ_id item store_id now db = elim item.root_sha256 [
  | none ↦ err (integrity_error occ_id)
  | some root_sha256 ↦ record_hashed occ_id item root_sha256 store_id now db
]
