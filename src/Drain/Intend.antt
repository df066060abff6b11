-- ===== src/Drain/Intend.antt =====
-- dropin/pipeline/drain.py: from `recoverable` to `evicting`, and on to `evicted`.
use dropin.Prelude.{true, Option, none, some, [], Text, if◌then◌else◌}
use dropin.Attempts.{abandon_source_changed}
use dropin.Errors.{Exn, Reason, stop, retained_error}
use dropin.Outcome.{Outcome}
use dropin.Session.{Env, Run, raise, ask, catch, ◌>>=◌, ◌>>◌}
use dropin.Store.{Occurrence}
use dropin.Evict.{begin_eviction, run_eviction}
use dropin.Drain.Base.{is_source_change}

module _ {W : Type 0} (e : Env W) where
  abbrev pub confirmed_id : Occurrence → Text
  confirmed_id o = elim o.confirmed_attempt_id [ none ↦ [] | some a ↦ a ]

  abbrev pub after_intent : Occurrence → Text → Option (Text × Text) → Exn → Run W (Unit {0})
  after_intent o spool_path none (retained_error reason) = raise (stop Outcome.retained reason)
  after_intent o spool_path none x = raise x
  after_intent o spool_path (some (p, d)) x = do
    exists ← ask (e.lexists spool_path)
    if exists
        then (do
          abandon_source_changed e o.occ_id (confirmed_id o) none true
          raise (stop Outcome.deferred (Reason.changed_after_at p d)))
        else raise (stop Outcome.refused Reason.vanished)

  -- `recoverable` → `evicting`, gate (d)
  unfoldable pub intend : Occurrence → Text → Run W (Unit {0})
  intend o spool_path =
      catch (begin_eviction e o.occ_id spool_path)
        (λ x. after_intent o spool_path (is_source_change x) x)

  abbrev pub as_stop : Exn → Run W (Unit {0})
  as_stop (retained_error reason) = raise (stop Outcome.retained reason)
  as_stop x = raise x

  -- `evicting` → `evicted`
  unfoldable pub delete : Occurrence → Text → Run W (Unit {0})
  delete o spool_path = catch (run_eviction e o.occ_id spool_path) as_stop
