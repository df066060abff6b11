-- ===== src/Phase/Ends.antt =====
-- `_advance` of dropin/pipeline/drain.py, with what it does about an exception.
use dropin.Prelude.{ℕ, ◌≡◌, refl, Text, none, some, Option, ok, err}
use dropin.Drain.Base.{Settings, pending_attempt}
use dropin.Drain.Emit.{emit, report_item, put_event}
use dropin.Drain.Advance.{advance, ended, fail_pending, fail_found}
use dropin.Errors.{Exn, Raises, Reason, stop, stopped, engine_error, os_error}
use dropin.Outcome.{Outcome}
use dropin.Phase.{
  Idle, Live, Proven, IsConsistent, ready, started, transferred, verified, recoverable, evicting,
  evicted, abandoned,
}
use dropin.Phase.Adopt.{Live-same}
use dropin.Phase.Loop.{loop-Consistent}
use dropin.Phase.Moves.{Row-same, Proven-same}
use dropin.Phase.Publish.{latest_by-none, latest_by-one}
use dropin.Phase.Settle.{Fine, fail-Idle}
use dropin.Report.{OutcomeRecord}
use dropin.Session.{Env, Session}
use dropin.Session.Triple.{
  Triple, Ends, Triple-pure, Triple-raise, Triple-weaken, Triple-catch, Triple-bind, Triple-write,
}
use dropin.Session.Rules.{Triple-peek, Triple-lifted, Triple-known}
use dropin.States.{State}
use dropin.States.Reach.{Reach, next}
use dropin.Store.{Store, Attempt}
use dropin.Store.Laws.{pending_of, pending_row}
use dropin.Store.Records.{get_occurrence}

-- What depends on the occurrences and the attempts only.
IsConsistent-same :
    {s0 : State} {occ_id : Text} {db : Store} (db' : Store)
    → db'.occurrences ≡ db.occurrences
    → db'.attempts ≡ db.attempts
    → IsConsistent s0 occ_id db
    → IsConsistent s0 occ_id db'
IsConsistent-same db' e f (ready i) =
    ready (record { row = Row-same db' e i.row; pending = rw f i.pending })
IsConsistent-same db' e f (started a l) = started a (Live-same a db' e f l)
IsConsistent-same db' e f (transferred a l) = transferred a (Live-same a db' e f l)
IsConsistent-same db' e f (verified a l) = verified a (Live-same a db' e f l)
IsConsistent-same db' e f (recoverable p) = recoverable (Proven-same db' e f p)
IsConsistent-same db' e f (evicting p) = evicting (Proven-same db' e f p)
IsConsistent-same db' e f (evicted p) = evicted (Proven-same db' e f p)
IsConsistent-same db' e f (abandoned i) =
    abandoned (record { row = Row-same db' e i.row; pending = rw f i.pending })

module _ {W : Type 0} (e : Env W) (c : Settings) {s0 : State} (occ_id : Text) where
  report_item-Consistent :
      (r : OutcomeRecord)
      → Triple {W = W}
          (IsConsistent s0 occ_id)
          (report_item e r)
          (λ _. IsConsistent s0 occ_id)
          (Fine s0 occ_id)
  unfolding report_item
  report_item-Consistent r = record { at = λ s p. p }

  emit-Consistent :
      (outcome : Outcome) (name : Text) (reason : Option Reason)
      → Triple
          (IsConsistent s0 occ_id)
          (emit e outcome name occ_id reason)
          (λ _. IsConsistent s0 occ_id)
          (Fine s0 occ_id)
  unfolding emit put_event
  emit-Consistent outcome name reason = Triple-peek _ _ λ db.
      Triple-lifted (get_occurrence db occ_id) _ (λ x db p. p)
        λ o q. Triple-peek _ _ λ report.
          Triple-bind (report_item-Consistent _)
            λ _. Triple-peek _ _ λ n. Triple-write _ (λ db p. IsConsistent-same _ refl refl p)

  fail-Idle_none :
      {st : State} (reason : Reason)
      → ((db : Store) → Idle s0 occ_id st db → IsConsistent s0 occ_id db)
      → Triple
          (Idle s0 occ_id st)
          (fail_pending e c occ_id reason)
          (λ _. IsConsistent s0 occ_id)
          (Fine s0 occ_id)
  unfolding fail_pending pending_of pending_attempt
  fail-Idle_none reason k =
      Triple-known (pending_attempt occ_id) (fail_found e c reason) none
        (λ db i. latest_by-none (pending_row occ_id) db.attempts i.pending) (Triple-pure tt k)

  fail-Proven :
      {st : State} (reason : Reason)
      → ((db : Store) → Proven s0 occ_id st db → IsConsistent s0 occ_id db)
      → Triple
          (Proven s0 occ_id st)
          (fail_pending e c occ_id reason)
          (λ _. IsConsistent s0 occ_id)
          (Fine s0 occ_id)
  unfolding fail_pending pending_of pending_attempt
  fail-Proven reason k =
      Triple-known (pending_attempt occ_id) (fail_found e c reason) none
        (λ db p. latest_by-none (pending_row occ_id) db.attempts p.idle.pending) (Triple-pure tt k)

  fail-Live :
      {st : State} (a : Attempt) (reason : Reason)
      → ((db : Store) → Live s0 occ_id st a db → Reach s0 State.recorded)
      → Triple
          (Live s0 occ_id st a)
          (fail_pending e c occ_id reason)
          (λ _. IsConsistent s0 occ_id)
          (Fine s0 occ_id)
  unfolding fail_pending pending_of pending_attempt
  fail-Live a reason back =
      Triple-known (pending_attempt occ_id) (fail_found e c reason) (some a)
        (λ db l. latest_by-one (pending_row occ_id) db.attempts a l.pending)
        (Triple-weaken (fail-Idle e a reason none back) (λ db l. l) (λ _ db i. ready i)
          (λ x db i. i))

  fail_pending-Consistent :
      (reason : Reason)
      → Triple
          (IsConsistent s0 occ_id)
          (fail_pending e c occ_id reason)
          (λ _. IsConsistent s0 occ_id)
          (Fine s0 occ_id)
  fail_pending-Consistent reason = record { at = go }
    where
      go :
          (s : Session W)
          → IsConsistent s0 occ_id s.db
          → Ends
              (λ _. IsConsistent s0 occ_id)
              (Fine s0 occ_id)
              (fail_pending e c occ_id reason s).0
              (fail_pending e c occ_id reason s).1.db
      go s (ready i) = (fail-Idle_none reason (λ db i. ready i)).at s i
      go s (started a l) = (fail-Live a reason (λ db l. l.row.reach)).at s l
      go s (transferred a l) =
          (fail-Live a reason (λ db l. next State.recorded l.row.reach refl)).at s l
      go s (verified a l) =
          (fail-Live a reason (λ db l. next State.recorded l.row.reach refl)).at s l
      go s (recoverable p) = (fail-Proven reason (λ db p. recoverable p)).at s p
      go s (evicting p) = (fail-Proven reason (λ db p. evicting p)).at s p
      go s (evicted p) = (fail-Proven reason (λ db p. evicted p)).at s p
      go s (abandoned i) = (fail-Idle_none reason (λ db i. abandoned i)).at s i

module _ {W : Type 0} (e : Env W) (c : Settings) {s0 : State} (occ_id : Text) where
  ended-Consistent :
      (name : Text) (x : Exn)
      → Triple
          (IsConsistent s0 occ_id)
          (ended e c occ_id name x)
          (λ _. IsConsistent s0 occ_id)
          (Fine s0 occ_id)
  ended-Consistent name (stop outcome reason) =
      emit-Consistent e c occ_id outcome name (some reason)
  ended-Consistent name (stopped outcome) = emit-Consistent e c occ_id outcome name none
  ended-Consistent name (engine_error x) =
      Triple-bind (fail_pending-Consistent e c occ_id _) (λ _. emit-Consistent e c occ_id _ name _)
  ended-Consistent name (os_error m) =
      Triple-bind (fail_pending-Consistent e c occ_id _) (λ _. emit-Consistent e c occ_id _ name _)
  ended-Consistent name x = Triple-raise x (λ db p. p)

  advance-Consistent :
      (fuel : ℕ) (spool_path name : Text)
      → Triple
          (IsConsistent s0 occ_id)
          (advance e c fuel occ_id spool_path name)
          (λ _. IsConsistent s0 occ_id)
          (Fine s0 occ_id)
  unfolding advance
  advance-Consistent fuel spool_path name =
      Triple-catch (loop-Consistent e c fuel occ_id spool_path) (ended-Consistent name)

-- From a store in which the occurrence stands where it may, in a state that permitted transitions
-- reach from `s0`, `advance` leaves a store in which it stands where it may, in a state that permitted
-- transitions reach from `s0`. This holds for every fuel, whatever the calls outside answer, and
-- whether `advance` returns or raises.
pub advance-IsConsistent :
    {W : Type 0} (e : Env W) (c : Settings) (s0 : State) (occ_id : Text) (fuel : ℕ)
    (spool_path name : Text) (s : Session W)
    → IsConsistent s0 occ_id s.db
    → IsConsistent s0 occ_id (advance e c fuel occ_id spool_path name s).1.db
advance-IsConsistent {W = W} e c s0 occ_id fuel spool_path name s p =
    go (advance e c fuel occ_id spool_path name s).0 (advance e c fuel occ_id spool_path name s).1
      ((advance-Consistent e c occ_id fuel spool_path name).at s p)
  where
    go :
        (r : Raises (Unit {0})) (s' : Session W)
        → Ends (λ _. IsConsistent s0 occ_id) (Fine s0 occ_id) r s'.db
        → IsConsistent s0 occ_id s'.db
    go (ok a) s' p = p
    go (err x) s' p = p
