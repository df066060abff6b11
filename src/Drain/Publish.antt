-- ===== src/Drain/Publish.antt =====
-- dropin/pipeline/drain.py: from `recorded` to `transferred`.
use dropin.Prelude.{ℕ, ◌+◌, Option, none, some, [], ◌∷◌, Text, if◌then◌else◌, ◌==◌}
use dropin.Attempts.{
  time_now, store, start, adopt, fail, resume, identity_for, retry_state, Retry, attempt_row,
}
use dropin.Engine.Tags.{to_tags}
use dropin.Errors.{Exn, Reason, stop, engine_error}
use dropin.Outcome.{Outcome}
use dropin.Session.{Env, Run, pure, raise, call, catch, ◌>>=◌, ◌>>◌}
use dropin.States.{State}
use dropin.Store.{Attempt, Occurrence}
use dropin.Store.Records.{attempts_for}
use dropin.Drain.Base.{Settings, pending_attempt}
use dropin.Drain.Gate.{gate, advance_to}

module _ {W : Type 0} (e : Env W) (c : Settings) where
  abbrev pub as_backup_failed : {A : Type 0} → Exn → Run W A
  as_backup_failed (engine_error x) = raise (stop Outcome.refused (Reason.backup_failed x))
  as_backup_failed x = raise x

  abbrev pub settle_partial : Text → Text → ℕ → Run W (Unit {0})
  settle_partial attempt_id snapshot_id exit_code = if exit_code == 0 then pure tt else do
    fail e attempt_id (Reason.partial_backup exit_code) (some snapshot_id)
    raise (stop Outcome.refused (Reason.partial_backup exit_code))

  -- The backup of the new attempt.
  unfoldable pub publish_backup : Occurrence → Text → Text → Run W (Text × Text)
  publish_backup o spool_path attempt_id = do
    a ← attempt_row e attempt_id
    gate e o.occ_id spool_path attempt_id none
    result ←
        catch (call (e.backup (spool_path ∷ a.export_path ∷ []) (to_tags (identity_for a o.kind))))
          as_backup_failed
    adopt e attempt_id result.snapshot_id (identity_for a o.kind)
    settle_partial attempt_id result.snapshot_id result.exit_code
    pure (attempt_id, result.snapshot_id)

  -- The new attempt of `_publish`, and its snapshot.
  unfoldable pub publish_new : Occurrence → Text → Run W (Text × Text)
  publish_new o spool_path = do
    db ← store e
    attempt_id ← start e o.occ_id db.store_id c.export_dir
    publish_backup o spool_path attempt_id

  -- The second half of `_publish`, gate (b).
  unfoldable pub publish_done : Occurrence → Text → Text × Text → Run W (Unit {0})
  publish_done o spool_path (attempt_id, snapshot_id) = do
    gate e o.occ_id spool_path attempt_id (some snapshot_id)
    advance_to e o.occ_id State.transferred

  abbrev pub publish_retry : Occurrence → Text → Retry → Run W (Unit {0})
  publish_retry o spool_path (Retry.deferred reason) = raise (stop Outcome.deferred reason)
  publish_retry o spool_path (Retry.exhausted reason) = raise (stop Outcome.refused reason)
  publish_retry o spool_path Retry.confirmed =
      raise (stop Outcome.refused Reason.confirmed_recorded)
  publish_retry o spool_path Retry.ready = do
    published ← publish_new o spool_path
    publish_done o spool_path published

  abbrev pub publish_resumed : Occurrence → Text → Text → Option Text → Run W (Unit {0})
  publish_resumed o spool_path attempt_id none = pure tt
  publish_resumed o spool_path attempt_id (some snapshot_id) =
      publish_done o spool_path (attempt_id, snapshot_id)

  abbrev pub publish_from : Occurrence → Text → Option Attempt → Run W (Unit {0})
  publish_from o spool_path none = do
    db ← store e
    n ← time_now e
    publish_retry o spool_path (
        retry_state (attempts_for db o.occ_id) c.max_attempts c.retry_backoff_seconds
          (n + c.now_offset) c.retry_exhausted)
  publish_from o spool_path (some a) = do
    resumed ← resume e a.attempt_id
    publish_resumed o spool_path a.attempt_id resumed

  -- `recorded` → `transferred`
  unfoldable pub publish : Occurrence → Text → Run W (Unit {0})
  publish o spool_path = do db ← store e; publish_from o spool_path (pending_attempt o.occ_id db)
