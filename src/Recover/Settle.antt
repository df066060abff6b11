-- ===== src/Recover/Settle.antt =====
-- dropin/recover.py: what the verdict on an occurrence writes, and what it reports.
use dropin.Prelude.{
  ℕ, Bool, true, false, not, ◌&&◌, Option, none, some, List, [], ◌∷◌, map, Text, text_eq, find_by,
  coalesce, if◌then◌else◌, ok, err, bind,
}
use dropin.Attempts.{now}
use dropin.Drain.Emit.{report_line}
use dropin.Errors.{Raises, no_proof, manual, superseded, integrity_error}
use dropin.Outcome.{Outcome}
use dropin.Recover.Base.{Observation, is_same}
use dropin.Recover.Observe.{orphaned}
use dropin.Session.{Env, Run, pure, commit, ◌>>=◌, ◌>>◌}
use dropin.States.{State, state_eq}
use dropin.Store.{Store, Occurrence, Attempt, AttemptOutcome, SnapshotStatus}
use dropin.Store.Records.{
  attempt_is, occ_is, update_where, confirmed_elsewhere, is_failed, set_snapshot_status,
}

abbrev pub is_evicting : State → Bool
is_evicting s = state_eq s State.evicting

abbrev pub is_orphaned : SnapshotStatus → Bool
is_orphaned SnapshotStatus.orphaned = true
is_orphaned _ = false

-- The last word on a candidate.
abbrev pub final : Option Observation → Observation → Observation
final none o = if is_orphaned o.status then o else orphaned no_proof o
final (some c) o =
    if is_same c o
    then record o { status = SnapshotStatus.confirmed; reason = none }
    else if is_orphaned o.status
    then o
    else orphaned (superseded c.snapshot_id) o

abbrev pub confirmed_by : Observation → ℕ → Attempt → Attempt
confirmed_by o n a = record a {
  outcome = AttemptOutcome.confirmed;
  reason = none;
  finished_at = coalesce a.finished_at (some n);
  snapshot_id = some o.snapshot_id;
  export_sha256 = some o.identity.catalog_sha256;
}

-- Another attempt of the occurrence is confirmed, where this one has a row.
abbrev pub index_refuses : Option Attempt → List Attempt → Bool
index_refuses none attempts = false
index_refuses (some a) attempts = confirmed_elsewhere a.occ_id a.attempt_id attempts

unfoldable pub confirm_row : Observation → ℕ → Store → Raises Store
confirm_row o n db =
    if index_refuses (find_by (attempt_is o.identity.attempt_id) db.attempts) db.attempts
    then err (integrity_error o.identity.attempt_id)
    else ok (record db {
      attempts = update_where (attempt_is o.identity.attempt_id) (confirmed_by o n) db.attempts;
    })

-- The occurrence whose snapshot proved itself, by its prior state.
unfoldable pub proven : Bool → Text → ℕ → Occurrence → Occurrence
proven true attempt_id n o = record o {
  confirmed_attempt_id = some attempt_id;
  last_error = some manual;
}
proven false attempt_id n o = record o {
  state = State.recoverable;
  confirmed_attempt_id = some attempt_id;
  recoverable_at = coalesce o.recoverable_at (some n);
  evicting_at = none;
  evicted_at = none;
  last_error = none;
}

unfoldable pub unproven : Bool → Occurrence → Occurrence
unproven true o = record o { last_error = some manual }
unproven false o = record o {
  state = State.recorded;
  confirmed_attempt_id = none;
  last_error = some no_proof;
}

abbrev pub failed_for : ℕ → Attempt → Attempt
failed_for n a = record a {
  outcome = AttemptOutcome.failed;
  reason = some no_proof;
  finished_at = coalesce a.finished_at (some n);
}

-- `WHERE occ_id = ? AND outcome != 'failed'`
abbrev pub unsettled : Text → Attempt → Bool
unsettled occ_id a = text_eq occ_id a.occ_id && not (is_failed a.outcome)

unfoldable pub fail_unproven : Bool → Text → ℕ → Store → Store
fail_unproven true occ_id n db = db
fail_unproven false occ_id n db = record db {
  attempts = update_where (unsettled occ_id) (failed_for n) db.attempts;
}

unfoldable pub set_statuses : List Observation → Store → Store
unfolding set_snapshot_status
set_statuses [] db = db
set_statuses (o ∷ rest) db =
    set_statuses rest (set_snapshot_status o.snapshot_id o.status o.reason db)

unfoldable pub verdict_store : Occurrence → Option Observation → ℕ → Store → Raises Store
unfolding confirm_row proven unproven fail_unproven
verdict_store occ (some c) n db = bind (confirm_row c n db) λ db1. ok (record db1 {
  occurrences =
      update_where (occ_is occ.occ_id) (proven (is_evicting occ.state) c.identity.attempt_id n)
        db1.occurrences;
})
verdict_store occ none n db = ok (
    fail_unproven (is_evicting occ.state) occ.occ_id n (record db {
      occurrences =
          update_where (occ_is occ.occ_id) (unproven (is_evicting occ.state)) db.occurrences;
    }))

-- The transaction of `_settle_occurrence`
unfoldable pub settled_store :
    Occurrence → Option Observation → List Observation → ℕ → Store → Raises Store
unfolding verdict_store set_statuses
settled_store occ confirmed candidates n db =
    bind (verdict_store occ confirmed n db)
      (λ db1. ok (set_statuses (map (final confirmed) candidates) db1))

module _ {W : Type 0} (e : Env W) where
  abbrev pub report_occurrence : Bool → Occurrence → Option Observation → Run W (Unit {0})
  report_occurrence true occ confirmed =
      report_line e Outcome.retained occ.item_name (some occ.archive_path) (some occ.kind)
        (some State.evicting) (some manual)
  report_occurrence false occ (some c) = pure tt
  report_occurrence false occ none =
      report_line e Outcome.refused occ.item_name (some occ.archive_path) (some occ.kind)
        (some State.recorded) (some no_proof)

  unfoldable pub report_orphans : Occurrence → List Observation → Run W (Unit {0})
  report_orphans occ [] = pure tt
  report_orphans occ (o ∷ rest) =
      (if is_orphaned o.status
        then report_line e Outcome.orphaned o.snapshot_id (some occ.archive_path) none none o.reason
        else pure tt)
      >> report_orphans occ rest

  -- `_settle_occurrence`
  unfoldable pub settle_occurrence :
      Occurrence → Option Observation → List Observation → Run W (Unit {0})
  unfolding settled_store report_orphans
  settle_occurrence occ confirmed candidates = do
    n ← now e
    commit (settled_store occ confirmed candidates n)
    report_occurrence (is_evicting occ.state) occ confirmed
    report_orphans occ (map (final confirmed) candidates)
