-- ===== src/Examples/Pipeline.antt =====
-- One run of the loop on a concrete world: a file that was recorded and whose source is gone.
use dropin.Prelude.{
  ◌*◌, ◌≡◌, ℕ, ◌+◌, refl, true, false, none, some, [], ◌∷◌, codes, ok, err, text_eq,
}
use dropin.Drain.Advance.{advance, advance_loop}
use dropin.Drain.Base.{Settings}
use dropin.Errors.{Exn, lookup_error}
use dropin.Phase.{IsConsistent, ready}
use dropin.Phase.Ends.{advance-IsConsistent}
use dropin.Phase.Loop.{advance_loop-ends}
use dropin.Session.{Env, Session}
use dropin.Spool.{unreadable}
use dropin.States.{State}
use dropin.States.Reach.{here}
use dropin.Store.{Store, Occurrence}
use dropin.Store.Laws.{find_occurrence, pending_of}

-- A world in which the source is gone; the world counts the identifiers.
abbrev pub world : Env ℕ
world = record {
  clock = λ w. w * 1000000000;
  sleep = λ n w. (tt, n + w);
  new_id = λ s w. (codes "a1", w);
  build_export = λ p a db w. (ok (codes "c0"), w);
  snapshots = λ t w. (ok [], w);
  backup = λ p t w. (ok (record { snapshot_id = codes "n1"; exit_code = 0 }), w);
  ls = λ n p w. (([], none), w);
  dump_digest = λ n p w. (ok (codes "d0"), w);
  dump_tar = λ n p w. (([], none), w);
  dump_catalog = λ n p w. (err (lookup_error p), w);
  manifest_digest = λ rows. codes "m0";
  tree = λ p w. (unreadable (codes "ENOENT"), w);
  list_drop = λ p w. (ok (some []), w);
  sha256_stream = λ p w. (ok (codes "d0"), w);
  is_bundle = λ p w. (some false, w);
  metadata = λ p w. (record { mdls = false; importer = false; xattr = false; finder = false }, w);
  lexists = λ p w. (false, w);
  lstat = λ p w. (ok none, w);
  listdir = λ p w. (ok [], w);
  open_dir = λ p w. (ok tt, w);
  unlink = λ p w. (ok tt, w);
  rmdir = λ p w. (ok tt, w);
  capabilities = λ w. (record { ownership_check = true; ownership_reason = [] }, w);
  open_descriptors = λ p d w. (ok [], w);
}

abbrev pub settings : Settings
settings = record {
  export_dir = codes "/e";
  max_attempts = 3;
  retry_backoff_seconds = 60000000000;
  now_offset = 0;
  retry_exhausted = false;
  drop_dir = codes "/s";
  settle_seconds = 5000000000;
  sample_gap_seconds = 1000000000;
}

abbrev pub item : Occurrence
item = record {
  occ_id = codes "o1";
  origin_store_id = codes "s1";
  item_name = codes "a";
  archive_path = codes "a";
  kind = codes "file";
  spool_path = codes "/s/a";
  root_sha256 = codes "d0";
  size_bytes = 3;
  entry_count = 1;
  state = State.recorded;
  confirmed_attempt_id = none;
  recorded_at = some 1;
  transferred_at = none;
  verified_at = none;
  recoverable_at = none;
  evicting_at = none;
  evicted_at = none;
  abandoned_at = none;
  last_error = none;
  dedup_of = none;
}

abbrev pub start_store : Store
start_store = record {
  store_id = codes "s1";
  export_seq = 0;
  published_frontier = 0;
  lineage = [];
  occurrences = item ∷ [];
  entries = [];
  fingerprints = [];
  attempts = [];
  snapshots = [];
  intents = [];
  events = [];
}

abbrev pub session : Session ℕ
session = record {
  db = start_store;
  exports = [];
  report = record {
    verb = codes "run";
    run_id = codes "r1";
    records = [];
    run_refusal = none;
    run_error = none;
  };
  visited = [];
  world = 7;
}

start_store-IsConsistent : IsConsistent State.recorded (codes "o1") start_store
unfolding find_occurrence pending_of text_eq
start_store-IsConsistent = ready (record {
  row = record { o = item; found = refl; own = refl; state = refl; reach = here };
  pending = refl;
})

advance-IsConsistent_example :
    IsConsistent State.recorded
      (codes "o1")
      (advance world settings 8 (codes "o1") (codes "/s/a") (codes "a") session).1.db
advance-IsConsistent_example =
    advance-IsConsistent world settings State.recorded (codes "o1") 8 (codes "/s/a") (codes "a")
      session start_store-IsConsistent

advance_loop-ends_example :
    (x : Exn) × ((advance_loop world settings (8 + 0) (codes "o1") (codes "/s/a") session).0
      ≡ err x)
advance_loop-ends_example =
    advance_loop-ends world settings State.recorded (codes "o1") 0 (codes "/s/a") session
      start_store-IsConsistent
