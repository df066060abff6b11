-- ===== src/Examples/Recording.antt =====
-- Recording at a concrete item.
use dropin.Prelude.{◌≡◌, refl, true, none, some, [], ◌∷◌, codes, ok}
use dropin.Gates.Fingerprint.{capture, compare, fingerprint_row}
use dropin.Gates.Fingerprint.Captured.{compare-capture}
use dropin.Phase.Start.{IsRecorded, record_occurrence-IsRecorded}
use dropin.Record.{
  CapturedItem, record_occurrence, record_hashed, insert_entry, insert_entries, find_by_root_hash,
  by_recorded, occurrence_row,
}
use dropin.Spool.Walk.{WalkEntry}
use dropin.Store.{Store, EntryType}
use dropin.Store.Laws.{pending_of}

abbrev live_file : WalkEntry
live_file = record {
  rel_path = [];
  entry_type = EntryType.file;
  size_bytes = some 3;
  mode = 33188;
  mtime_ns = 5;
  ctime_ns = 6;
  inode = 7;
  dev = 1;
  link_target = none;
}

captured :
    capture (codes "o1") (live_file ∷ []) [] ≡ ok (fingerprint_row (codes "o1") live_file ∷ [])
unfolding capture
captured = refl

compare-capture_example :
    compare (fingerprint_row (codes "o1") live_file ∷ []) (codes "o1") (live_file ∷ [], none)
    ≡ ok tt
compare-capture_example =
    compare-capture (codes "o1") (live_file ∷ []) [] (fingerprint_row (codes "o1") live_file ∷ [])
      refl captured

abbrev item : CapturedItem
item = record {
  spool_path = codes "/s/a";
  item_name = codes "a";
  kind = codes "file";
  root_sha256 = some (codes "d0");
  size_bytes = 3;
  entries =
      record {
        rel_path = [];
        entry_type = EntryType.file;
        size_bytes = some 3;
        sha256 = some (codes "d0");
        link_target = none;
        mode = 33188;
        fingerprint = live_file;
        searchable = true;
        capture_status = codes "ok";
      }
      ∷ [];
}

abbrev empty_store : Store
empty_store = record {
  store_id = codes "s1";
  export_seq = 0;
  published_frontier = 0;
  lineage = (codes "s2", 9) ∷ [];
  occurrences = [];
  entries = [];
  fingerprints = [];
  attempts = [];
  snapshots = [];
  intents = [];
  events = [];
}

abbrev recorded_store : Store
recorded_store = record empty_store {
  occurrences = occurrence_row (codes "o1") item (codes "d0") (codes "s1") none 7 ∷ [];
  entries =
      record {
        occ_id = codes "o1";
        rel_path = [];
        entry_type = EntryType.file;
        size_bytes = some 3;
        sha256 = some (codes "d0");
        link_target = none;
        mode = 33188;
        archive_path = codes "o1/a";
        searchable = true;
        capture_status = codes "ok";
      }
      ∷ [];
  fingerprints = fingerprint_row (codes "o1") live_file ∷ [];
}

none_pending : pending_of (codes "o1") empty_store.attempts ≡ []
unfolding pending_of
none_pending = refl

recorded_item : record_occurrence (codes "o1") item (codes "s1") 7 empty_store ≡ ok recorded_store
unfolding record_occurrence record_hashed insert_entries insert_entry find_by_root_hash by_recorded
    capture dropin.Engine.Tags.is_in
recorded_item = refl

record_occurrence-IsRecorded_example : IsRecorded (codes "o1") recorded_store
record_occurrence-IsRecorded_example =
    record_occurrence-IsRecorded (codes "o1") item (codes "s1") 7 empty_store recorded_store
      none_pending recorded_item
