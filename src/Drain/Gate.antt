-- ===== src/Drain/Gate.antt =====
-- dropin/pipeline/drain.py: gates (a) to (c), and the moves from state to state.
use dropin.Prelude.{Bool, true, false, Option, none, some, Text}
use dropin.Attempts.{abandon_source_changed}
use dropin.Errors.{Exn, Reason, stop}
use dropin.Gates.Fingerprint.{compare}
use dropin.Outcome.{Outcome}
use dropin.Session.{Env, Run, raise, lift, gets, ask, catch, write, seconds_of, ◌>>=◌, ◌>>◌}
use dropin.Spool.Walk.{walk}
use dropin.States.{State}
use dropin.Store.Records.{set_state}
use dropin.Drain.Base.{is_source_change}

module _ {W : Type 0} (e : Env W) where
  -- `compare(db, occ_id, walk(spool_path))`
  unfoldable pub compare_source : Text → Text → Run W (Unit {0})
  compare_source occ_id spool_path = do
    t ← ask (e.tree spool_path)
    db ← gets (λ s. s.db)
    lift (compare db.fingerprints occ_id (walk t))

  abbrev pub changed_outcome : Bool → Text × Text → Run W (Unit {0})
  changed_outcome true (p, d) = raise (stop Outcome.deferred (Reason.changed_at p d))
  changed_outcome false (p, d) = raise (stop Outcome.refused Reason.vanished)

  abbrev pub abandon_changed :
      Text → Text → Text → Option Text → Option (Text × Text) → Exn → Run W (Unit {0})
  abandon_changed occ_id spool_path attempt_id snapshot_id none x = raise x
  abandon_changed occ_id spool_path attempt_id snapshot_id (some d) x = do
    exists ← ask (e.lexists spool_path)
    abandon_source_changed e occ_id attempt_id snapshot_id false
    changed_outcome exists d

  -- Gates (a) to (c): the source is compared; if it has changed, the occurrence is abandoned.
  unfoldable pub gate : Text → Text → Text → Option Text → Run W (Unit {0})
  gate occ_id spool_path attempt_id snapshot_id =
      catch (compare_source occ_id spool_path)
        (λ x. abandon_changed occ_id spool_path attempt_id snapshot_id (is_source_change x) x)

  unfoldable pub advance_to : Text → State → Run W (Unit {0})
  advance_to occ_id state = do
    n ← gets (λ s. seconds_of (e.clock s.world))
    write (set_state occ_id state none none n)
