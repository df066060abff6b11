-- ===== src/Phase/Publish.antt =====
-- `_publish` of dropin/pipeline/drain.py leaves the occurrence where it may stand.
use dropin.Prelude.{
  ℕ, ◌≡◌, refl, Bool, Option, none, some, List, [], ◌∷◌, Text, ◌==◌, filter_by, arith, Bool-cases,
  inl, inr,
}
use dropin.Attempts.{Retry}
use dropin.Drain.Base.{Settings, pending_attempt}
use dropin.Drain.Publish.{
  publish, publish_backup, publish_new, publish_done, publish_from, publish_retry, publish_resumed,
  settle_partial, as_backup_failed,
}
use dropin.Errors.{Exn, engine_error}
use dropin.Gates.Repository.{BackupResult}
use dropin.Phase.{Idle, Live, IsConsistent, Below, Below-le, ready, started, transferred}
use dropin.Phase.Gate.{gate-Live, advance_to-Live, resume-Resumed, Resumed}
use dropin.Phase.Settle.{
  Started, Fine, Triple-row, Triple-Started, start-Started, adopt-Live, fail-Idle,
}
use dropin.Session.{Env}
use dropin.Session.Triple.{
  Triple, Triple-pure, Triple-raise, Triple-weaken, Triple-catch, Triple-bind, Triple-call,
}
use dropin.Session.Rules.{Triple-if, Triple-peek, Triple-known}
use dropin.States.{State}
use dropin.States.Reach.{next}
use dropin.Store.{Store, Attempt, Occurrence}
use dropin.Store.Laws.{pending_of, pending_row}
use dropin.Store.Records.{latest_by}

-- The attempt that `_pending_attempt` finds, from the list of pending attempts.
pub latest_by-none :
    (p : Attempt → Bool) (rows : List Attempt) → filter_by p rows ≡ [] → latest_by p rows ≡ none
unfolding latest_by
latest_by-none p [] h = refl
latest_by-none p (a ∷ rows) h = ground (arith, latest_by-none p rows)

pub latest_by-one :
    (p : Attempt → Bool) (rows : List Attempt) (a : Attempt)
    → filter_by p rows ≡ a ∷ []
    → latest_by p rows ≡ some a
unfolding latest_by
latest_by-one p [] a h = cc
latest_by-one p (r ∷ rows) a h = elim (Bool-cases (p r)) [
  | inl q ↦ ground (arith, rw q at h, q, latest_by-none p rows)
  | inr q ↦ rw (latest_by-one p rows a (rw q at h), q) refl
]

module _ {W : Type 0} (e : Env W) (c : Settings) {s0 : State} (o : Occurrence)
    (spool_path : Text) where
  as_backup_failed-Fine :
      {A : Type 0} {P : Store → Type 0} {Q : A → Store → Type 0} (x : Exn)
      → ((db : Store) → P db → IsConsistent s0 o.occ_id db)
      → Triple {W = W} P (as_backup_failed e c x) Q (Fine s0 o.occ_id)
  as_backup_failed-Fine (engine_error x) k = Triple-raise _ k
  as_backup_failed-Fine x k = Triple-raise x k

  publish_done-Consistent :
      (published : Text × Text)
      → Triple
          (Started s0 o.occ_id published.0)
          (publish_done e c o spool_path published)
          (λ _. Below 6 s0 o.occ_id)
          (Fine s0 o.occ_id)
  unfolding publish_done
  publish_done-Consistent (attempt_id, snapshot_id) =
      Triple-Started (λ k. publish_done e c o spool_path (k, snapshot_id)) attempt_id
        λ a.
          Triple-bind
            (gate-Live e a (λ db l. started a l) (λ db l. next State.abandoned l.row.reach refl)
              spool_path (some snapshot_id))
            (λ _.
              Triple-weaken
                (advance_to-Live e a State.transferred
                  (λ db l. next State.transferred l.row.reach refl))
                (λ db l. l) (λ _ db l. (transferred a l, omega arith)) (λ x db i. i))

  settle_partial-Started :
      (a : Attempt) (snapshot_id : Text) (exit_code : ℕ)
      → Triple
          (Live s0 o.occ_id State.recorded a)
          (settle_partial e c a.attempt_id snapshot_id exit_code)
          (λ _. Live s0 o.occ_id State.recorded a)
          (Fine s0 o.occ_id)
  settle_partial-Started a snapshot_id exit_code =
      Triple-if (exit_code == 0) _ _ (Triple-pure tt (λ db l. l)) (
        Triple-bind (fail-Idle e a _ (some snapshot_id) (λ db l. l.row.reach))
          (λ _. Triple-raise _ (λ db i. ready i)))

  publish_backup-Started :
      (a : Attempt)
      → Triple
          (Live s0 o.occ_id State.recorded a)
          (publish_backup e c o spool_path a.attempt_id)
          (λ published. Started s0 o.occ_id published.0)
          (Fine s0 o.occ_id)
  unfolding publish_backup
  publish_backup-Started a =
      Triple-row e a _ (λ db l. l.keyed)
        (Triple-bind
          (gate-Live e a (λ db l. started a l) (λ db l. next State.abandoned l.row.reach refl)
            spool_path none)
          λ _.
            Triple-bind {A = BackupResult}
              (Triple-catch (Triple-call _ (λ r db l. l) (λ x db l. l))
                (λ x. as_backup_failed-Fine x (λ db l. started a l)))
              λ result. Triple-bind (adopt-Live e a result.snapshot_id _ (λ db l. started a l)) λ _.
                Triple-bind
                  (settle_partial-Started (record a { snapshot_id = some result.snapshot_id })
                    result.snapshot_id result.exit_code)
                  λ _.
                    Triple-pure _
                      (λ db l. (record a { snapshot_id = some result.snapshot_id }, l, refl)))

  publish_new-Started :
      Triple
        (Idle s0 o.occ_id State.recorded)
        (publish_new e c o spool_path)
        (λ published. Started s0 o.occ_id published.0)
        (Fine s0 o.occ_id)
  unfolding publish_new
  publish_new-Started = Triple-peek _ _ λ db.
      Triple-bind (start-Started e db.store_id c.export_dir) λ attempt_id.
        Triple-Started (publish_backup e c o spool_path) attempt_id publish_backup-Started

  publish_retry-Consistent :
      (r : Retry)
      → Triple
          (Idle s0 o.occ_id State.recorded)
          (publish_retry e c o spool_path r)
          (λ _. Below 6 s0 o.occ_id)
          (Fine s0 o.occ_id)
  publish_retry-Consistent (Retry.deferred reason) = Triple-raise _ (λ db i. ready i)
  publish_retry-Consistent (Retry.exhausted reason) = Triple-raise _ (λ db i. ready i)
  publish_retry-Consistent Retry.confirmed = Triple-raise _ (λ db i. ready i)
  publish_retry-Consistent Retry.ready = Triple-bind publish_new-Started publish_done-Consistent

  publish_resumed-Consistent :
      (a : Attempt) (snapshot_id : Option Text)
      → Triple
          (Resumed s0 o.occ_id a.attempt_id snapshot_id)
          (publish_resumed e c o spool_path a.attempt_id snapshot_id)
          (λ _. Below 7 s0 o.occ_id)
          (Fine s0 o.occ_id)
  publish_resumed-Consistent a none = Triple-pure tt (λ db i. (ready i, omega arith))
  publish_resumed-Consistent a (some s) =
      Triple-weaken (publish_done-Consistent (a.attempt_id, s)) (λ db p. p)
        (λ _ db p. Below-le 6 7 (omega arith) p) (λ x db p. p)

  pub publish-ready :
      Triple
        (Idle s0 o.occ_id State.recorded)
        (publish e c o spool_path)
        (λ _. Below 6 s0 o.occ_id)
        (Fine s0 o.occ_id)
  unfolding publish pending_of pending_attempt
  publish-ready =
      Triple-known (pending_attempt o.occ_id) (publish_from e c o spool_path) none
        (λ db i. latest_by-none (pending_row o.occ_id) db.attempts i.pending)
        (Triple-peek _ _ λ db. Triple-peek _ _ λ n. publish_retry-Consistent _)

  pub publish-started :
      (a : Attempt)
      → Triple
          (Live s0 o.occ_id State.recorded a)
          (publish e c o spool_path)
          (λ _. Below 7 s0 o.occ_id)
          (Fine s0 o.occ_id)
  unfolding publish pending_of pending_attempt
  publish-started a =
      Triple-known (pending_attempt o.occ_id) (publish_from e c o spool_path) (some a)
        (λ db l. latest_by-one (pending_row o.occ_id) db.attempts a l.pending)
        (Triple-bind (resume-Resumed e a) (publish_resumed-Consistent a))
