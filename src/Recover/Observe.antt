-- ===== src/Recover/Observe.antt =====
-- dropin/recover.py: every snapshot with the version tag, and the export that it carries.
use dropin.Prelude.{
  ℕ, suc, ◌++◌, true, false, Option, none, some, List, [], ◌∷◌, Text, codes, ends_with, filter_by,
  ok, err,
}
use dropin.Drain.Emit.{report_line}
use dropin.Engine.Tags.{Identity, TagError, int_limit, parse_tags, tag, k_version}
use dropin.Errors.{
  Exn, Reason, malformed_tags, export_missing, export_ambiguous, catalog, tag_error, catalog_error,
  engine_error, os_error,
}
use dropin.Gates.Catalog.{verify_catalog_file}
use dropin.Gates.Repository.{Snapshot}
use dropin.Outcome.{Outcome}
use dropin.Recover.Base.{Observation}
use dropin.Session.{Env, Run, pure, raise, lift, call, catch, ◌>>=◌, ◌>>◌}
use dropin.Store.{SnapshotStatus}

-- What `_observe` returns: the observations, and the snapshots that it skipped.
abbrev pub Observed : Type 0
Observed = List Observation × List (Text × Reason)

abbrev pub observation : ℕ → Snapshot → Identity → Observation
observation place s i = record {
  place = place;
  snapshot_id = s.id;
  time = s.time;
  paths = s.paths;
  tags = s.tags;
  identity = i;
  export_path = none;
  dumped = none;
  valid = false;
  reason = none;
  status = SnapshotStatus.pending;
}

-- `except TagError`
abbrev pub as_skipped : TagError → Option Reason
as_skipped int_limit = none
as_skipped x = some (malformed_tags x)

abbrev pub observed_with : Observation → Observed → Observed
observed_with o found = (o ∷ found.0, found.1)

abbrev pub skipped_with : Text → Reason → Observed → Observed
skipped_with snapshot_id reason found = (found.0, (snapshot_id, reason) ∷ found.1)

-- `error.check`, or `dump`, for the errors that `_dump_candidates` catches.
abbrev pub as_dump : Exn → Option Text
as_dump (engine_error x) = some (codes "dump")
as_dump (os_error x) = some (codes "dump")
as_dump (catalog_error check) = some check
as_dump _ = none

abbrev pub export_suffix : Identity → Text
export_suffix i = i.occ_id ++ (b'-' ∷ (i.attempt_id ++ codes ".sqlite"))

abbrev pub orphaned : Reason → Observation → Observation
orphaned reason o = record o { status = SnapshotStatus.orphaned; reason = some reason }

module _ {W : Type 0} (e : Env W) where
  abbrev skip_or_raise : Snapshot → TagError → Option Reason → Run W Observed → Run W Observed
  skip_or_raise s x none rest = raise (tag_error x)
  skip_or_raise s x (some reason) rest = do
    report_line e Outcome.orphaned s.id none none none (some reason)
    found ← rest
    pure (skipped_with s.id reason found)

  -- The loop of `_observe`
  unfoldable pub observe_all : ℕ → List Snapshot → Run W Observed
  observe_all n [] = pure ([], [])
  observe_all n (s ∷ rest) = elim (parse_tags s.tags) [
    | ok i ↦ do found ← observe_all (suc n) rest; pure (observed_with (observation n s i) found)
    | err x ↦ skip_or_raise s x (as_skipped x) (observe_all (suc n) rest)
  ]

  unfoldable pub observe : Run W Observed
  observe = do found ← call (e.snapshots (tag k_version (codes "1"))); observe_all 0 found

  abbrev pub read_export : Observation → Text → Run W Observation
  read_export o path = do
    file ← call (e.dump_catalog o.snapshot_id path)
    lift (verify_catalog_file file o.identity)
    pure (record o { export_path = some path; dumped = some file; valid = true })

  abbrev pub not_dumped : Observation → Text → Exn → Option Text → Run W Observation
  not_dumped o path x none = raise x
  not_dumped o path x (some check) =
      pure (orphaned (catalog check) (record o { export_path = some path }))

  abbrev pub dump_matching : Observation → List Text → Run W Observation
  dump_matching o [] = pure (orphaned export_missing o)
  dump_matching o (path ∷ []) = catch (read_export o path) (λ x. not_dumped o path x (as_dump x))
  dump_matching o (_ ∷ _ ∷ _) = pure (orphaned export_ambiguous o)

  -- One round of `_dump_candidates`
  unfoldable pub dump_candidate : Observation → Run W Observation
  dump_candidate o =
      dump_matching o (filter_by (λ path. ends_with path (export_suffix o.identity)) o.paths)

  unfoldable pub dump_candidates : List Observation → Run W (List Observation)
  dump_candidates [] = pure []
  dump_candidates (o ∷ rest) = do
    dumped ← dump_candidate o
    others ← dump_candidates rest
    pure (dumped ∷ others)
