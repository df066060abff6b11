-- ===== src/Drain/Advance.antt =====
-- dropin/pipeline/drain.py: the loop over the states of one occurrence.
use dropin.Prelude.{ℕ, zero, suc, Option, none, some, Text}
use dropin.Attempts.{store, fail}
use dropin.Errors.{Exn, Reason, stop, stopped, engine_error, os_error}
use dropin.Outcome.{Outcome}
use dropin.Session.{Env, Run, pure, raise, lift, catch, ◌>>=◌, ◌>>◌}
use dropin.States.{State}
use dropin.Store.{Attempt, Occurrence}
use dropin.Store.Records.{get_occurrence}
use dropin.Drain.Base.{Settings, pending_attempt}
use dropin.Drain.Publish.{publish}
use dropin.Drain.Verify.{verify, prove_recoverable}
use dropin.Drain.Emit.{emit}
use dropin.Drain.Intend.{intend, delete}

module _ {W : Type 0} (e : Env W) (c : Settings) where
  -- One round of the loop of `_advance`.
  unfoldable pub step : Occurrence → Text → State → Run W (Unit {0})
  step o spool_path State.recorded = publish e c o spool_path
  step o spool_path State.transferred = verify e o spool_path
  step o spool_path State.verified = prove_recoverable e o
  step o spool_path State.recoverable = intend e o spool_path
  step o spool_path State.evicting = delete e o spool_path
  step o spool_path State.evicted = raise (stopped Outcome.archived)
  step o spool_path State.abandoned =
      raise (stop Outcome.refused (Reason.occurrence_is State.abandoned))

  -- The loop of `_advance` on fuel. It ends only by an exception: a result means that the fuel ran
  -- out.
  unfoldable pub advance_loop : ℕ → Text → Text → Run W (Unit {0})
  advance_loop zero occ_id spool_path = pure tt
  advance_loop (suc fuel) occ_id spool_path = do
    db ← store e
    o ← lift (get_occurrence db occ_id)
    step o spool_path o.state
    advance_loop fuel occ_id spool_path

  abbrev pub fail_found : Reason → Option Attempt → Run W (Unit {0})
  fail_found reason none = pure tt
  fail_found reason (some a) = fail e a.attempt_id reason none

  -- `_fail_pending`
  unfoldable pub fail_pending : Text → Reason → Run W (Unit {0})
  fail_pending occ_id reason = do db ← store e; fail_found reason (pending_attempt occ_id db)

  -- What an exception that ends the loop leaves to report. An engine or an input error fails the
  -- pending attempt first; any other exception ends the run.
  abbrev pub ended : Text → Text → Exn → Run W (Unit {0})
  ended occ_id name (stop outcome reason) = emit e outcome name occ_id (some reason)
  ended occ_id name (stopped outcome) = emit e outcome name occ_id none
  ended occ_id name (engine_error x) = do
    fail_pending occ_id (Reason.engine_failure x)
    emit e Outcome.refused name occ_id (some (Reason.engine_reason x))
  ended occ_id name (os_error m) = do
    fail_pending occ_id (Reason.io_failure m)
    emit e Outcome.refused name occ_id (some (Reason.os_reason m))
  ended occ_id name x = raise x

  -- `_advance`
  unfoldable pub advance : ℕ → Text → Text → Text → Run W (Unit {0})
  advance fuel occ_id spool_path name =
      catch (advance_loop fuel occ_id spool_path) (ended occ_id name)
