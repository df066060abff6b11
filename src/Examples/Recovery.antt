-- ===== src/Examples/Recovery.antt =====
-- Recovery on a small repository: one directory, with one snapshot of it.
use dropin.Prelude.{
  any, err, ℕ, ◌≡◌, refl, true, false, none, some, [], ◌∷◌, codes, text_eq, filter_by, insert_by,
  All, ok, ◌≤◌,
}
use dropin.Engine.Tags.{Identity, reserved_keys, missing_tags}
use dropin.Errors.{Raises, malformed_tags}
use dropin.Examples.Pipeline.{world, item, start_store, session}
use dropin.Gates.Catalog.{CatalogFile}
use dropin.Recover.Base.{Observation, choose_base}
use dropin.Recover.Chosen.{choose_base_sound, IsNewest}
use dropin.Recover.Marks.{EachRow, Judged, settled_store_sound}
use dropin.Recover.Settle.{settled_store}
use dropin.Recover.Unparsed.{Unparsed, EndsEmpty, recover-EndsEmpty}
use dropin.Gates.Repository.{Snapshot}
use dropin.Recover.Merge.{merge}
use dropin.Recover.Merge.Kept.{Holds}
use dropin.Recover.Merge.Rows.{Work}
use dropin.Recover.Merge.Whole.{merge_sound}
use dropin.Recover.Meta.{rebuild_meta}
use dropin.Recover.Proven.{IsEligible, IsProven, confirm_one_sound}
use dropin.Recover.Run.{verify_occurrences}
use dropin.Recover.Settled.{IsSettled, verify_occurrences-IsSettled}
use dropin.Recover.Verify.{confirm_one}
use dropin.Recover.Watermarks.{IsRebuilt, rebuild_meta_bounds, IsAbove, start_attempt-rebuild_meta}
use dropin.Session.{Env, Session}
use dropin.States.{State}
use dropin.Store.{Store, Occurrence, SnapshotStatus, Attempt, AttemptOutcome}
use dropin.Store.Laws.{find_occurrence}
use dropin.Store.Records.{occ_is, iter_entries, start_attempt}

abbrev identity : Identity
identity = record {
  store_id = codes "s1";
  occ_id = codes "o1";
  attempt_id = codes "a1";
  export_seq = 4;
  kind = codes "dir";
  catalog_sha256 = codes "c0";
  version = codes "1";
}

-- The export knows the item as recoverable.
abbrev later_item : Occurrence
later_item = record item { state = State.recoverable; confirmed_attempt_id = some (codes "a1") }

abbrev catalog : CatalogFile
catalog = record {
  digest = codes "c0";
  opens = true;
  integrity = codes "ok";
  lineage =
      record { store_id = codes "s1"; export_seq = 4; occ_id = codes "o1"; attempt_id = codes "a1" }
      ∷ [];
  tables = record start_store { occurrences = later_item ∷ [] };
}

abbrev found : Observation
found = record {
  place = 0;
  snapshot_id = codes "n1";
  time = codes "2026";
  paths = [];
  tags = [];
  identity = identity;
  export_path = none;
  dumped = some catalog;
  valid = true;
  reason = none;
  status = SnapshotStatus.pending;
}

abbrev dir_item : Occurrence
dir_item = record item { kind = codes "dir" }

abbrev dir_session : Session ℕ
dir_session = record session { db = record start_store { occurrences = dir_item ∷ [] } }

confirmed :
    (confirm_one world false dir_item (found ∷ []) dir_session).0 ≡ ok (some found, found ∷ [])
unfolding confirm_one dropin.Session.◌>>=◌ dropin.Session.gets dropin.Recover.Verify.confirm_first
    insert_by dropin.Session.catch dropin.Recover.Verify.prove dropin.Session.ask
    dropin.Session.lift dropin.Gates.Reconcile.reconcile iter_entries
    dropin.Store.Records.get_occurrence text_eq dropin.Gates.Payload.verify_tree dropin.Session.pure
confirmed = refl

confirm_one_sound_example :
    IsEligible world dir_session.db (found ∷ []) found
    × IsProven world false dir_session.db dir_item found
confirm_one_sound_example =
    confirm_one_sound world false dir_item (found ∷ []) (found ∷ []) found dir_session confirmed

one_item : filter_by (occ_is (codes "o1")) start_store.occurrences ≡ item ∷ []
unfolding text_eq
one_item = refl

verified : (verify_occurrences world false [] session).0 ≡ ok tt
unfolding verify_occurrences dropin.Session.◌>>=◌ dropin.Session.gets dropin.Recover.Run.verify_all
    insert_by confirm_one dropin.Recover.Verify.confirm_first dropin.Recover.Verify.candidates_of
    dropin.Recover.Verify.by_occurrence dropin.Session.pure dropin.Recover.Settle.settle_occurrence
    dropin.Session.commit dropin.Drain.Emit.report_line dropin.Recover.Run.refuse_unknown
verified = refl

verify_occurrences-IsSettled_example :
    IsSettled item (verify_occurrences world false [] session).1.db
verify_occurrences-IsSettled_example =
    verify_occurrences-IsSettled world false [] session item one_item verified

abbrev start_work : Work
start_work = record { tables = start_store; exported = [] }

abbrev merged_work : Work
merged_work = record { tables = catalog.tables; exported = catalog.lineage }

merged : merge (found ∷ []) none start_work ≡ ok merged_work
unfolding merge insert_by text_eq dropin.Recover.Merge.Attempt.merge_attempts
    dropin.Recover.Merge.with_intents
merged = refl

found_item : find_occurrence (codes "o1") start_store.occurrences ≡ some item
unfolding find_occurrence text_eq
found_item = refl

merge_sound_example : Holds item (iter_entries start_store (codes "o1")) merged_work
merge_sound_example = merge_sound (found ∷ []) none start_work merged_work item found_item merged

rebuild_meta_bounds_example :
    IsRebuilt
      (found ∷ [])
      (codes "s1")
      start_store
      (rebuild_meta (found ∷ []) (codes "s1") start_store)
rebuild_meta_bounds_example = rebuild_meta_bounds (found ∷ []) (codes "s1") start_store

has_item : any (occ_is (codes "o1")) start_store.occurrences ≡ true
unfolding text_eq
has_item = refl

start_attempt-rebuild_meta_example : IsAbove (found ∷ []) (codes "s1") [] (
    start_attempt
      (codes "a2")
      (codes "o1")
      (codes "s1")
      (codes "/e")
      none
      7
      (rebuild_meta (found ∷ []) (codes "s1") start_store))
start_attempt-rebuild_meta_example =
    start_attempt-rebuild_meta (found ∷ []) (codes "s1") start_store (codes "a2") (codes "o1")
      (codes "/e") 7 refl has_item

chosen : choose_base (found ∷ []) ≡ some found
unfolding choose_base text_eq
chosen = refl

choose_base_sound_example :
    (true ≡ true)
    × ((n : Observation) × IsNewest (found ∷ []) n × (n.identity.store_id ≡ codes "s1"))
    × All
        (λ o. o.valid ≡ true → o.identity.store_id ≡ codes "s1" → o.identity.export_seq ≤ 4)
        (found ∷ [])
choose_base_sound_example = choose_base_sound (found ∷ []) found chosen

abbrev bare_snapshot : Snapshot
bare_snapshot = record { id = codes "n1"; time = []; paths = []; tags = [] }

-- A repository that holds one snapshot without tags.
abbrev bare_world : Env ℕ
bare_world = record world { snapshots = λ t w. (ok (bare_snapshot ∷ []), w) }

bare_snapshot-Unparsed : Unparsed bare_snapshot
unfolding dropin.Engine.Tags.parse_tags
bare_snapshot-Unparsed =
    (missing_tags reserved_keys, refl, (malformed_tags (missing_tags reserved_keys), refl))

recover-EndsEmpty_example : EndsEmpty bare_world false session (bare_snapshot ∷ [])
recover-EndsEmpty_example =
    recover-EndsEmpty bare_world false session (bare_snapshot ∷ []) refl
      (bare_snapshot-Unparsed, tt)

abbrev pending_attempt : Attempt
pending_attempt = record {
  attempt_id = codes "a1";
  origin_store_id = codes "s1";
  occ_id = codes "o1";
  export_seq = 1;
  started_at = 7;
  finished_at = none;
  outcome = AttemptOutcome.pending;
  reason = none;
  snapshot_id = none;
  export_path = codes "/e";
  export_sha256 = none;
}

abbrev attempt_store : Store
attempt_store = record start_store { attempts = pending_attempt ∷ [] }

abbrev settled_by : Raises Store → Store
settled_by (ok db) = db
settled_by (err x) = attempt_store

settles :
    settled_store item (some found) (found ∷ []) 9 attempt_store
    ≡ ok (settled_by (settled_store item (some found) (found ∷ []) 9 attempt_store))
unfolding settled_store text_eq
settles = refl

settled_store_sound_example :
    EachRow
      (Judged item (some found))
      attempt_store.attempts
      (settled_by (settled_store item (some found) (found ∷ []) 9 attempt_store)).attempts
settled_store_sound_example =
    settled_store_sound item (some found) (found ∷ []) 9 attempt_store
      (settled_by (settled_store item (some found) (found ∷ []) 9 attempt_store)) settles
