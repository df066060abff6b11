-- ===== src/Attempts.antt =====
-- dropin/pipeline/attempts.py: one backup is one attempt, and every attempt is settled once. With it
-- `export_catalog` of dropin/store/export.py, of which building and hashing the file is outside.
pub mod Budget
use Prim.Native.Nat.{max}
use dropin.Prelude.{
  ℕ, suc, ◌+◌, ◌*◌, ◌-◌, ◌++◌, Bool, true, false, not, ◌&&◌, Option, none, some, List, [], ◌∷◌,
  Text, codes, length, ltb, leb, filter_by, any, if◌then◌else◌, ok, err,
}
use dropin.Engine.Tags.{Identity, tag, k_attempt}
use dropin.Errors.{
  Exn, Reason, no_snapshot, duplicate, source_changed, source_changed_after_publication, backoff,
  attempt_failed, Raises,
}
use dropin.Gates.Repository.{Snapshot}
use dropin.Session.{
  Env, Session, Run, pure, raise, lift, gets, ask, call, write, commit, ◌>>=◌, ◌>>◌, discard_export,
  keep_export, nanoseconds, seconds_of,
}
use dropin.States.{State}
use dropin.Store.{Store, Attempt, AttemptOutcome, Occurrence, SnapshotStatus}
use dropin.Store.Records.{
  get_attempt, get_occurrence, is_confirmed, is_failed, start_attempt, set_export_path,
  set_export_digest, set_attempt_snapshot, observe_snapshot, fail_attempt, confirm_attempt,
  set_snapshot_status, set_state, advance_frontier,
}

-- A text in a Boolean position.
abbrev pub is_text : Option Text → Bool
is_text none = false
is_text (some []) = false
is_text (some (c ∷ s)) = true

-- `export_sha256` of a row, which is null until the export is built.
abbrev pub digest_of : Option Text → Text
digest_of none = []
digest_of (some d) = d

-- `identity_for`, on the row
abbrev pub identity_for : Attempt → Text → Identity
identity_for a kind = record {
  store_id = a.origin_store_id;
  occ_id = a.occ_id;
  attempt_id = a.attempt_id;
  export_seq = a.export_seq;
  kind = kind;
  catalog_sha256 = digest_of a.export_sha256;
  version = codes "1";
}

-- `snapshot_id or attempt["snapshot_id"]`
abbrev pub or_else : Option Text → Option Text → Option Text
or_else given recorded = if is_text given then given else recorded

abbrev pub orphan : Option Text → Reason → Store → Store
orphan none reason db = db
orphan (some []) reason db = db
orphan (some (c ∷ s)) reason db =
    set_snapshot_status (c ∷ s) SnapshotStatus.orphaned (some reason) db

-- The transaction of `fail`.
unfoldable pub failed_store : Attempt → Reason → Option Text → ℕ → Store → Store
failed_store a reason snapshot_id now db =
    set_state a.occ_id State.recorded (some reason) none now
      (orphan snapshot_id reason (fail_attempt a.attempt_id reason now db))

abbrev pub row_written : Raises (Attempt × Store) → Raises Store
row_written (ok (a, db)) = ok db
row_written (err x) = err x

-- The transaction of `adopt`.
unfoldable pub adopted_store : Text → Text → Identity → ℕ → Store → Raises Store
adopted_store attempt_id snapshot_id i now db =
    observe_snapshot snapshot_id i SnapshotStatus.pending none now
      (set_attempt_snapshot attempt_id snapshot_id db)

abbrev pub then_store : Raises Store → (Store → Raises Store) → Raises Store
then_store (ok db) f = f db
then_store (err x) f = err x

-- The transaction of `confirm`.
unfoldable pub confirmed_store : Text → Text → Text → ℕ → ℕ → Store → Raises Store
confirmed_store attempt_id occ_id snapshot_id export_seq now db =
    then_store (confirm_attempt occ_id attempt_id now db) λ db'. ok (
      advance_frontier export_seq (
        set_state occ_id State.recoverable none (some attempt_id) now
          (set_snapshot_status snapshot_id SnapshotStatus.confirmed none db')))

-- The observations of duplicate snapshots, in the transaction of `resume`.
unfoldable pub observe_duplicates : List Snapshot → Identity → ℕ → Store → Raises Store
observe_duplicates [] i now db = ok db
observe_duplicates (s ∷ rest) i now db =
    then_store (observe_snapshot s.id i SnapshotStatus.orphaned (some duplicate) now db)
      (observe_duplicates rest i now)

unfoldable pub duplicates_store : Attempt → List Snapshot → Identity → ℕ → Store → Raises Store
duplicates_store a found i now db = then_store (observe_duplicates found i now db) λ db'. ok (
    set_state a.occ_id State.recorded (some duplicate) none now
      (fail_attempt a.attempt_id duplicate now db'))

-- The transaction of `abandon_source_changed`.
unfoldable pub abandoned_store : Text → Text → Option Text → Bool → ℕ → Store → Store
abandoned_store occ_id attempt_id snapshot_id true now db =
    set_state occ_id State.abandoned (some source_changed_after_publication) none now db
abandoned_store occ_id attempt_id snapshot_id false now db =
    set_state occ_id State.abandoned (some source_changed) none now
      (orphan snapshot_id source_changed (fail_attempt attempt_id source_changed now db))

-- `f"{export_dir}/{occ_id}-{attempt_id}.sqlite"`
abbrev pub export_file : Text → Text → Text → Text
export_file export_dir occ_id attempt_id =
    export_dir ++ (b'/' ∷ (occ_id ++ (b'-' ∷ (attempt_id ++ codes ".sqlite"))))

module _ {W : Type 0} (e : Env W) where
  -- `time.time()`, in nanoseconds.
  abbrev pub time_now : Run W ℕ
  time_now = gets (λ s. e.clock s.world)

  -- `_now()` of the rows, whose format ends with the seconds.
  abbrev pub now : Run W ℕ
  now = gets (λ s. seconds_of (e.clock s.world))

  abbrev pub store : Run W Store
  store = gets (λ s. s.db)

  abbrev pub attempt_row : Text → Run W Attempt
  attempt_row attempt_id = do db ← store; lift (get_attempt db attempt_id)

  -- `start`: the row is committed before the export is built, the digest after.
  unfoldable pub start : Text → Text → Text → Run W Text
  start occ_id store_id export_dir = do
    attempt_id ← ask (e.new_id store_id)
    t ← now
    commit (λ db. row_written (
        start_attempt attempt_id occ_id store_id (export_dir ++ codes "/pending.sqlite") none t db))
    write (set_export_path attempt_id (export_file export_dir occ_id attempt_id))
    db ← store
    digest ← call (e.build_export (export_file export_dir occ_id attempt_id) attempt_id db)
    keep_export (export_file export_dir occ_id attempt_id)
    write (set_export_digest attempt_id digest)
    pure attempt_id

  unfoldable pub adopt : Text → Text → Identity → Run W (Unit {0})
  adopt attempt_id snapshot_id i = do t ← now; commit (adopted_store attempt_id snapshot_id i t)

  unfoldable pub fail : Text → Reason → Option Text → Run W (Unit {0})
  fail attempt_id reason snapshot_id = do
    a ← attempt_row attempt_id
    t ← now
    write (failed_store a reason (or_else snapshot_id a.snapshot_id) t)
    discard_export a.export_path

  unfoldable pub confirm : Text → Text → Text → ℕ → Run W (Unit {0})
  confirm attempt_id occ_id snapshot_id export_seq = do
    a ← attempt_row attempt_id
    t ← now
    commit (confirmed_store attempt_id occ_id snapshot_id export_seq t)
    discard_export a.export_path

  abbrev pub after_abandon : Bool → Text → Run W (Unit {0})
  after_abandon true attempt_id = pure tt
  after_abandon false attempt_id = do a ← attempt_row attempt_id; discard_export a.export_path

  unfoldable pub abandon_source_changed : Text → Text → Option Text → Bool → Run W (Unit {0})
  abandon_source_changed occ_id attempt_id snapshot_id confirmed = do
    t ← now
    write (abandoned_store occ_id attempt_id snapshot_id confirmed t)
    after_abandon confirmed attempt_id

  -- What `resume` does with the snapshots that carry the tag of the attempt.
  abbrev pub settle : Attempt → List Snapshot → Run W (Option Text)
  settle a [] = do fail a.attempt_id no_snapshot none; pure none
  settle a (s ∷ []) = do
    db ← store
    o ← lift (get_occurrence db a.occ_id)
    adopt a.attempt_id s.id (identity_for a o.kind)
    pure (some s.id)
  settle a (s ∷ u ∷ rest) = do
    db ← store
    o ← lift (get_occurrence db a.occ_id)
    t ← now
    commit (duplicates_store a (s ∷ u ∷ rest) (identity_for a o.kind) t)
    discard_export a.export_path
    pure none

  abbrev pub resume_row : Attempt → Run W (Option Text)
  resume_row a =
      if is_failed a.outcome
      then raise (attempt_failed a.attempt_id)
      else if is_text a.snapshot_id
      then pure a.snapshot_id
      else do found ← call (e.snapshots (tag k_attempt a.attempt_id)); settle a found

  -- `resume`: the snapshot of the attempt, or `none` if the attempt has been settled as failed.
  unfoldable pub resume : Text → Run W (Option Text)
  resume attempt_id = do a ← attempt_row attempt_id; resume_row a

-- `decision` of a `RetryState`, with its reason
pub data Retry : Type 0 where
  ready confirmed : Retry
  deferred exhausted : Reason → Retry

-- `_epoch`
abbrev pub epoch : Option ℕ → ℕ
epoch none = 0
epoch (some t) = t

-- The end of the failed attempt that ended last.
unfoldable pub last_end : List Attempt → ℕ
last_end [] = 0
last_end (a ∷ rest) = max (epoch a.finished_at) (last_end rest)

abbrev pub failures : List Attempt → List Attempt
failures history = filter_by (λ a. is_failed a.outcome) history

-- `retry_state`. The backoff and `now` are in nanoseconds, the ends of the rows in seconds; the wait
-- that is reported is the `int` of the seconds that are left.
unfoldable pub retry_state : List Attempt → ℕ → ℕ → ℕ → Bool → Retry
retry_state history max_attempts retry_backoff now retry_exhausted =
    let failed : List Attempt = failures history in
    let deadline : ℕ = last_end failed * nanoseconds + retry_backoff in
    if any (λ a. is_confirmed a.outcome) history
    then confirmed
    else if leb 1 (length failed) && ltb now deadline
    then deferred (backoff (seconds_of (deadline - now)))
    else if leb max_attempts (length failed) && not retry_exhausted
    then exhausted (Reason.exhausted (length failed))
    else ready
