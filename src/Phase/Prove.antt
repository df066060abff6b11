-- ===== src/Phase/Prove.antt =====
-- `_verify` and `_prove_recoverable` of dropin/pipeline/drain.py leave the occurrence where it may
-- stand.
use dropin.Prelude.{
  arith, ℕ, ◌≡◌, refl, Bool, true, false, Option, none, some, List, Text, if◌then◌else◌,
}
use dropin.Attempts.{is_text}
use dropin.Drain.Base.{pending_attempt, as_verification, as_catalog}
use dropin.Drain.Verify.{
  verify, verify_archive, verify_payload, check_manifest, require_pending, pending_or_stop,
  live_pending, drop_pending, refuse_attempt, snapshot_of, prove_recoverable, verify_pending,
  prove_pending, prove_catalog, prove_published, published,
}
use dropin.Errors.{Exn, Reason, lookup_error, snapshot_gone}
use dropin.Gates.Repository.{Snapshot}
use dropin.Phase.{Idle, Live, IsConsistent, Below, ready, transferred, verified, recoverable}
use dropin.Phase.Gate.{gate-Live, advance_to-Live}
use dropin.Phase.Moves.{dropped-Idle}
use dropin.Phase.Publish.{latest_by-one}
use dropin.Phase.Settle.{Fine, fail-Idle, confirm-Proven}
use dropin.Session.{Env}
use dropin.Session.Triple.{
  Triple, Triple-pure, Triple-raise, Triple-weaken, Triple-catch, Triple-bind,
}
use dropin.Session.Rules.{
  Triple-if, Triple-peek, Triple-known, Triple-same, Triple-asked, Triple-called, Triple-lifted,
  Triple-lift-same, Triple-written,
}
use dropin.States.{State}
use dropin.States.Reach.{Reach, next}
use dropin.Store.{Store, Attempt, Occurrence, Entry}
use dropin.Store.Laws.{pending_of, pending_row}

module _ {W : Type 0} (e : Env W) {P : Store → Type 0} where
  -- The reads of a proof leave the store alone.
  pub verify_payload-same :
      (is_file : Bool) (spool_path snapshot_id : Text) (rows : List Entry)
      → Triple P (verify_payload e is_file spool_path snapshot_id rows) (λ _. P) (λ _. P)
  verify_payload-same true spool_path snapshot_id rows =
      Triple-asked _ _ λ d. Triple-lift-same _ (λ x db p. p)
  verify_payload-same false spool_path snapshot_id rows =
      Triple-asked _ _ λ d. Triple-lift-same _ (λ x db p. p)

  check_manifest-same :
      (is_file : Bool) (o : Occurrence) (rows : List Entry)
      → Triple P (check_manifest e is_file o rows) (λ _. P) (λ _. P)
  check_manifest-same true o rows = Triple-pure tt (λ db p. p)
  check_manifest-same false o rows =
      Triple-if _ _ _ (Triple-pure tt (λ db p. p)) (Triple-raise _ (λ db p. p))

  verify_archive-same :
      (o : Occurrence) (spool_path snapshot_id : Text)
      → Triple P (verify_archive e o spool_path snapshot_id) (λ _. P) (λ _. P)
  unfolding verify_archive
  verify_archive-same o spool_path snapshot_id = Triple-peek _ _ λ db. Triple-asked _ _ λ nodes.
      Triple-bind (Triple-lift-same _ (λ x db p. p)) (λ _.
        Triple-bind (verify_payload-same _ spool_path snapshot_id _)
          (λ _. check_manifest-same _ o _))

  prove_catalog-same :
      (o : Occurrence) (a : Attempt) (s : Snapshot)
      → Triple P (prove_catalog e o a s) (λ _. P) (λ _. P)
  unfolding prove_catalog
  prove_catalog-same o a s =
      Triple-lifted _ _ (λ x db p. p)
        λ i q. Triple-asked _ _ λ file.
          Triple-lifted _ _ (λ x db p. p)
            λ f q. Triple-peek _ _ λ db. Triple-lift-same _ (λ x db p. p)

drop_pending-Idle :
    {s0 : State} {occ_id : Text} {st : State} {db : Store} (a : Attempt) (n : ℕ)
    → Live s0 occ_id st a db
    → Reach s0 State.recorded
    → Idle s0 occ_id State.recorded (drop_pending occ_id (some a) n db)
unfolding drop_pending
drop_pending-Idle a n l back =
    dropped-Idle a.attempt_id a State.recorded Reason.no_pending Reason.no_pending none n l refl
      back

module _ {W : Type 0} (e : Env W) {s0 : State} (o : Occurrence) {st : State} (a : Attempt) where
  module _ (back : (db : Store) → Live s0 o.occ_id st a db → Reach s0 State.recorded) where
    pending_or_stop-Live :
        (shown : Bool)
        → Triple
            (Live s0 o.occ_id st a)
            (pending_or_stop e o.occ_id (if shown then some a else none) (some a))
            (λ b db. Live s0 o.occ_id st a db × (b ≡ a))
            (Fine s0 o.occ_id)
    pending_or_stop-Live true = Triple-pure a (λ db l. (l, refl))
    pending_or_stop-Live false = Triple-peek _ _ λ n.
        Triple-written {P' = Idle s0 o.occ_id State.recorded} _
          (λ db l. drop_pending-Idle a n l (back db l)) (Triple-raise _ (λ db i. ready i))

    require_pending-Live :
        Triple
          (Live s0 o.occ_id st a)
          (require_pending e o.occ_id)
          (λ b db. Live s0 o.occ_id st a db × (b ≡ a))
          (Fine s0 o.occ_id)
    unfolding require_pending pending_of pending_attempt
    require_pending-Live =
        Triple-known (pending_attempt o.occ_id)
          (λ found. pending_or_stop e o.occ_id (live_pending e found) found) (some a)
          (λ db l. latest_by-one (pending_row o.occ_id) db.attempts a l.pending)
          (pending_or_stop-Live (is_text a.snapshot_id))

    refuse_attempt-Fine :
        (told : Option Reason) (x : Exn) {Q : Unit {0} → Store → Type 0}
        → ((db : Store) → Live s0 o.occ_id st a db → IsConsistent s0 o.occ_id db)
        → Triple (Live s0 o.occ_id st a) (refuse_attempt e a told x) Q (Fine s0 o.occ_id)
    refuse_attempt-Fine none x k = Triple-raise x k
    refuse_attempt-Fine (some reason) x k =
        Triple-bind (fail-Idle e a reason a.snapshot_id back)
          (λ _. Triple-raise _ (λ db i. ready i))

module _ {W : Type 0} (e : Env W) {s0 : State} (o : Occurrence) (a : Attempt) where
  pub verify-Consistent :
      (spool_path : Text)
      → Triple
          (Live s0 o.occ_id State.transferred a)
          (verify e o spool_path)
          (λ _. Below 5 s0 o.occ_id)
          (Fine s0 o.occ_id)
  unfolding verify verify_pending
  verify-Consistent spool_path = Triple-bind (require_pending-Live e o a back) λ b.
      Triple-same (verify_pending e o spool_path) a b (
        Triple-bind
          (Triple-catch (verify_archive-same e o spool_path (snapshot_of e a))
            (λ x. refuse_attempt-Fine e o a back (as_verification x) x (λ db l. transferred a l)))
          λ _.
            Triple-bind
              (gate-Live e a (λ db l. transferred a l)
                (λ db l. next State.abandoned l.row.reach refl) spool_path a.snapshot_id)
              (λ _.
                Triple-weaken
                  (advance_to-Live e a State.verified
                    (λ db l. next State.verified l.row.reach refl))
                  (λ db l. l) (λ _ db l. (verified a l, omega arith)) (λ x db i. i)))
    where
      back : (db : Store) → Live s0 o.occ_id State.transferred a db → Reach s0 State.recorded
      back db l = next State.recorded l.row.reach refl

  prove_published-Live :
      (found : Option Snapshot)
      → Triple
          (Live s0 o.occ_id State.verified a)
          (prove_published e o a found)
          (λ _. Live s0 o.occ_id State.verified a)
          (Fine s0 o.occ_id)
  prove_published-Live none =
      refuse_attempt-Fine e o a (λ db l. next State.recorded l.row.reach refl) (some snapshot_gone)
        (lookup_error (snapshot_of e a)) (λ db l. verified a l)
  prove_published-Live (some s) = Triple-catch (prove_catalog-same e o a s) (λ x.
      refuse_attempt-Fine e o a (λ db l. next State.recorded l.row.reach refl) (as_catalog x) x
        (λ db l. verified a l))

  pub prove_recoverable-Consistent :
      Triple
        (Live s0 o.occ_id State.verified a)
        (prove_recoverable e o)
        (λ _. Below 4 s0 o.occ_id)
        (Fine s0 o.occ_id)
  unfolding prove_recoverable prove_pending
  prove_recoverable-Consistent =
      Triple-bind (require_pending-Live e o a (λ db l. next State.recorded l.row.reach refl)) λ b.
        Triple-same (prove_pending e o) a b (
          Triple-called _ _ (λ x db l. verified a l)
            λ found. Triple-bind (prove_published-Live (published e (snapshot_of e a) found)) (λ _.
              Triple-weaken (confirm-Proven e a (snapshot_of e a) a.export_seq) (λ db l. l)
                (λ _ db p. (recoverable p, omega arith)) (λ x db i. i)))
