-- ===== src/Examples/Gates.antt =====
-- The gates at a concrete item: a folder with one file.
use dropin.Prelude.{
  ◌≡◌, refl, ◌⊎◌, ◌++◌, true, false, Option, none, some, List, [], ◌∷◌, Text, codes, All, any, ok,
  text_eq, starts_with, strip_prefix,
}
use dropin.Engine.Tags.{Identity}
use dropin.Errors.{Exn}
use dropin.Gates.Catalog.{
  CatalogFile, verify_catalog, verify_catalog_file, lineage_matches, compare_rows, same_occurrence,
  check_entries,
}
use dropin.Gates.Catalog.Sound.{IsAuthentic, Carries, verify_catalog_sound}
use dropin.Gates.Equal.{opt_text_eq}
use dropin.Gates.Fingerprint.{compare}
use dropin.Gates.Fingerprint.Exact.{IsRecorded, IsMet, compare_sound}
use dropin.Gates.Fingerprint.Passes.{IsFresh, compare_passes}
use dropin.Gates.Payload.{verify_tree, member_rel_path, is_dot, split, lstrip_slash}
use dropin.Gates.Payload.MemberPath.{member_rel_path_sound}
use dropin.Gates.Payload.Tree.{IsProven, IsCarried, verify_tree_sound}
use dropin.Gates.Reconcile.{reconcile, is_listed}
use dropin.Gates.Reconcile.Exact.{IsExpected, reconcile_sound}
use dropin.Gates.Repository.{Member, MemberType, Node, NodeType}
use dropin.Spool.Walk.{WalkEntry}
use dropin.States.{State}
use dropin.Store.{Entry, EntryType, Fingerprint, Occurrence}

-- The walk, the listing and the stream end by themselves.
abbrev ended : Option Exn
ended = none

abbrev root_row : Entry
root_row = record {
  occ_id = codes "o1";
  rel_path = [];
  entry_type = EntryType.dir;
  size_bytes = none;
  sha256 = none;
  link_target = none;
  mode = 16877;
  archive_path = codes "a";
  searchable = true;
  capture_status = codes "skipped";
}

abbrev file_row : Entry
file_row = record {
  occ_id = codes "o1";
  rel_path = codes "x";
  entry_type = EntryType.file;
  size_bytes = some 3;
  sha256 = some (codes "d0");
  link_target = none;
  mode = 33188;
  archive_path = codes "a/x";
  searchable = true;
  capture_status = codes "captured";
}

abbrev rows : List Entry
rows = root_row ∷ file_row ∷ []

abbrev members : List Member
members =
    record { name = codes "s/a"; member_type = MemberType.dir; linkname = []; digest = none }
    ∷ record {
      name = codes "s/a/x";
      member_type = MemberType.reg;
      linkname = [];
      digest = some (codes "d0");
    }
    ∷ []

tree_verified : verify_tree (codes "/s/a") rows (members, ended) ≡ ok tt
unfolding verify_tree starts_with split text_eq strip_prefix opt_text_eq
tree_verified = refl

verify_tree_sound_example :
    (ended ≡ none)
    × All (IsProven rows (lstrip_slash (codes "/s/a"))) members
    × All (IsCarried (lstrip_slash (codes "/s/a")) members) rows
verify_tree_sound_example = verify_tree_sound (codes "/s/a") rows members ended tree_verified

path_accepted : member_rel_path (codes "s/a/x") (codes "s/a") ≡ ok (codes "x")
unfolding member_rel_path starts_with split text_eq strip_prefix
path_accepted = refl

member_rel_path_sound_example :
    ((codes "s/a/x" ≡ codes "s/a") × (codes "x" ≡ []))
    ⊎ ((codes "s/a/x" ≡ codes "s/a" ++ (b'/' ∷ codes "x"))
        × (any is_dot (split (codes "x")) ≡ false))
member_rel_path_sound_example =
    member_rel_path_sound (codes "s/a/x") (codes "s/a") (codes "x") path_accepted

abbrev nodes : List Node
nodes =
    record { path = codes "/s/a"; node_type = NodeType.dir; size = none }
    ∷ record { path = codes "/s/a/x"; node_type = NodeType.file; size = some 3 }
    ∷ []

reconciled : reconcile (codes "/s/a") rows (nodes, ended) ≡ ok tt
unfolding reconcile text_eq
reconciled = refl

reconcile_sound_example :
    (ended ≡ none)
    × All (IsExpected (codes "/s/a") rows) nodes
    × All (λ row. is_listed (codes "/s/a") nodes row ≡ true) rows
reconcile_sound_example = reconcile_sound (codes "/s/a") rows nodes ended reconciled

abbrev recorded_file : Fingerprint
recorded_file = record {
  occ_id = codes "o1";
  rel_path = [];
  entry_type = EntryType.file;
  size_bytes = some 3;
  mtime_ns = 5;
  ctime_ns = 6;
  inode = 7;
  dev = 1;
  link_target = none;
}

abbrev live_file : WalkEntry
live_file = record {
  rel_path = [];
  entry_type = EntryType.file;
  size_bytes = some 3;
  mode = 33188;
  mtime_ns = 5;
  ctime_ns = 6;
  inode = 7;
  dev = 1;
  link_target = none;
}

unchanged : compare (recorded_file ∷ []) (codes "o1") (live_file ∷ [], ended) ≡ ok tt
unfolding compare text_eq
unchanged = refl

compare_sound_example :
    (ended ≡ none)
    × All (IsRecorded (recorded_file ∷ []) (codes "o1")) (live_file ∷ [])
    × All (IsMet (codes "o1") (live_file ∷ [])) (recorded_file ∷ [])
compare_sound_example =
    compare_sound (recorded_file ∷ []) (codes "o1") (live_file ∷ []) ended unchanged

live_file-IsRecorded : All (IsRecorded (recorded_file ∷ []) (codes "o1")) (live_file ∷ [])
live_file-IsRecorded =
    (compare_sound (recorded_file ∷ []) (codes "o1") (live_file ∷ []) ended unchanged).1

recorded_file-IsMet : All (IsMet (codes "o1") (live_file ∷ [])) (recorded_file ∷ [])
recorded_file-IsMet =
    (compare_sound (recorded_file ∷ []) (codes "o1") (live_file ∷ []) ended unchanged).2

live_file-IsFresh : IsFresh [] (live_file ∷ [])
live_file-IsFresh = (refl, tt)

compare_passes_example : compare (recorded_file ∷ []) (codes "o1") (live_file ∷ [], none) ≡ ok tt
compare_passes_example =
    compare_passes (recorded_file ∷ []) (codes "o1") (live_file ∷ []) live_file-IsRecorded
      recorded_file-IsMet live_file-IsFresh

abbrev occurrence : Occurrence
occurrence = record {
  occ_id = codes "o1";
  origin_store_id = codes "s1";
  item_name = codes "a";
  archive_path = codes "a";
  kind = codes "dir";
  spool_path = codes "/s/a";
  root_sha256 = codes "m0";
  size_bytes = 3;
  entry_count = 2;
  state = State.verified;
  confirmed_attempt_id = none;
  recorded_at = some 1;
  transferred_at = some 2;
  verified_at = some 3;
  recoverable_at = none;
  evicting_at = none;
  evicted_at = none;
  abandoned_at = none;
  last_error = none;
  dedup_of = none;
}

abbrev identity : Identity
identity = record {
  store_id = codes "s1";
  occ_id = codes "o1";
  attempt_id = codes "a1";
  export_seq = 4;
  kind = codes "dir";
  catalog_sha256 = codes "c0";
  version = codes "1";
}

abbrev catalog : CatalogFile
catalog = record {
  digest = codes "c0";
  opens = true;
  integrity = codes "ok";
  lineage =
      record { store_id = codes "s1"; export_seq = 4; occ_id = codes "o1"; attempt_id = codes "a1" }
      ∷ [];
  tables = record {
    store_id = codes "s1";
    export_seq = 4;
    published_frontier = 0;
    lineage = [];
    occurrences = occurrence ∷ [];
    entries = rows;
    fingerprints = [];
    attempts = [];
    snapshots = [];
    intents = [];
    events = [];
  };
}

catalog_verified :
    verify_catalog catalog identity (some (codes "c0")) catalog.tables (codes "o1") ≡ ok tt
unfolding verify_catalog text_eq verify_catalog_file lineage_matches compare_rows same_occurrence
    check_entries dropin.Store.Records.get_occurrence dropin.Store.Records.iter_entries
catalog_verified = refl

verify_catalog_sound_example :
    IsAuthentic catalog identity
    × Carries catalog.tables catalog.tables (codes "o1")
    × ((d : Text) → some (codes "c0") ≡ some d → d ≡ catalog.digest)
verify_catalog_sound_example =
    verify_catalog_sound catalog identity (some (codes "c0")) catalog.tables (codes "o1")
      catalog_verified
