-- ===== src/Phase/Gate.antt =====
-- Gates (a) to (c) of dropin/pipeline/drain.py, and `resume`, leave the occurrence where it may stand.
use dropin.Prelude.{◌≡◌, refl, Bool, true, false, Option, none, some, List, [], ◌∷◌, Text}
use dropin.Attempts.{resume, resume_row, settle, is_text}
use dropin.Drain.Base.{is_source_change}
use dropin.Drain.Gate.{gate, compare_source, abandon_changed, changed_outcome, advance_to}
use dropin.Errors.{Exn}
use dropin.Gates.Repository.{Snapshot}
use dropin.Phase.{Idle, Live, IsConsistent, started, abandoned}
use dropin.Phase.Adopt.{duplicates_store-Idle}
use dropin.Phase.Moves.{Live-set_state}
use dropin.Phase.Settle.{Started, Fine, Triple-row, fail-Idle, abandon-pending, adopt-Live}
use dropin.Session.{Env, pure}
use dropin.Session.Triple.{
  Triple, Triple-pure, Triple-raise, Triple-catch, Triple-bind, Triple-write,
}
use dropin.Session.Rules.{
  Triple-if, Triple-lift-same, Triple-peek, Triple-asked, Triple-called, Triple-lifted,
  Triple-committed, Triple-discarded,
}
use dropin.States.{State}
use dropin.States.Reach.{Reach}
use dropin.Store.{Store, Attempt}
use dropin.Store.Records.{get_occurrence, is_failed}

module _ {W : Type 0} (e : Env W) {P : Store → Type 0} where
  pub compare_source-same :
      (occ_id spool_path : Text) → Triple P (compare_source e occ_id spool_path) (λ _. P) (λ _. P)
  unfolding compare_source
  compare_source-same occ_id spool_path =
      Triple-asked _ _ λ t. Triple-peek _ _ λ db. Triple-lift-same _ (λ x db p. p)

module _ {W : Type 0} (e : Env W) {s0 : State} {occ_id : Text} {st : State} (a : Attempt) where
  module _ (fine : (db : Store) → Live s0 occ_id st a db → IsConsistent s0 occ_id db)
      (reach : (db : Store) → Live s0 occ_id st a db → Reach s0 State.abandoned) where
    changed_outcome-Fine :
        (exists : Bool) (d : Text × Text)
        → Triple {W = W}
            (Idle s0 occ_id State.abandoned)
            (changed_outcome e exists d)
            (λ _. Live s0 occ_id st a)
            (Fine s0 occ_id)
    changed_outcome-Fine true d = Triple-raise _ (λ db i. abandoned i)
    changed_outcome-Fine false d = Triple-raise _ (λ db i. abandoned i)

    abandon_changed-Live :
        (spool_path : Text) (snapshot_id : Option Text) (change : Option (Text × Text)) (x : Exn)
        → Triple
            (Live s0 occ_id st a)
            (abandon_changed e occ_id spool_path a.attempt_id snapshot_id change x)
            (λ _. Live s0 occ_id st a)
            (Fine s0 occ_id)
    abandon_changed-Live spool_path snapshot_id none x = Triple-raise x fine
    abandon_changed-Live spool_path snapshot_id (some d) x = Triple-asked _ _ λ exists.
        Triple-bind (abandon-pending e a snapshot_id reach) (λ _. changed_outcome-Fine exists d)

    -- Past a gate the attempt is still pending; a gate that stops leaves a consistent store.
    pub gate-Live :
        (spool_path : Text) (snapshot_id : Option Text)
        → Triple
            (Live s0 occ_id st a)
            (gate e occ_id spool_path a.attempt_id snapshot_id)
            (λ _. Live s0 occ_id st a)
            (Fine s0 occ_id)
    unfolding gate
    gate-Live spool_path snapshot_id =
        Triple-catch (compare_source-same e occ_id spool_path)
          (λ x. abandon_changed-Live spool_path snapshot_id (is_source_change x) x)

  pub advance_to-Live :
      (st' : State)
      → ((db : Store) → Live s0 occ_id st a db → Reach s0 st')
      → Triple
          (Live s0 occ_id st a)
          (advance_to e occ_id st')
          (λ _. Live s0 occ_id st' a)
          (Fine s0 occ_id)
  unfolding advance_to
  advance_to-Live st' reach =
      Triple-peek _ _ λ n. Triple-write _ (λ db l. Live-set_state a st' n l (reach db l))

-- After `resume` the attempt is still pending, or it has been settled and none is.
abbrev pub Resumed : State → Text → Text → Option Text → Store → Type 0
Resumed s0 occ_id attempt_id none db = Idle s0 occ_id State.recorded db
Resumed s0 occ_id attempt_id (some snapshot_id) db = Started s0 occ_id attempt_id db

module _ {W : Type 0} (e : Env W) {s0 : State} {occ_id : Text} (a : Attempt) where
  shown-Resumed :
      (snapshot_id : Option Text)
      → is_text snapshot_id ≡ true
      → Triple {W = W}
          (Live s0 occ_id State.recorded a)
          (pure snapshot_id)
          (Resumed s0 occ_id a.attempt_id)
          (Fine s0 occ_id)
  shown-Resumed none h = cc
  shown-Resumed (some s) h = Triple-pure (some s) (λ db l. (a, l, refl))

  settle-Resumed :
      (found : List Snapshot)
      → Triple
          (Live s0 occ_id State.recorded a)
          (settle e a found)
          (Resumed s0 occ_id a.attempt_id)
          (Fine s0 occ_id)
  settle-Resumed [] =
      Triple-bind (fail-Idle e a _ none (λ db l. l.row.reach)) (λ _. Triple-pure none (λ db i. i))
  settle-Resumed (s ∷ []) = Triple-peek _ _ λ db.
      Triple-lifted (get_occurrence db a.occ_id) _ (λ x db l. started a l)
        λ o q.
          Triple-bind (adopt-Live e a s.id _ (λ db l. started a l))
            (λ _. Triple-pure (some s.id) (λ db l. (record a { snapshot_id = some s.id }, l, refl)))
  settle-Resumed (s ∷ u ∷ rest) = Triple-peek _ _ λ db.
      Triple-lifted (get_occurrence db a.occ_id) _ (λ x db l. started a l)
        λ o q. Triple-peek _ _ λ n.
          Triple-committed _ (λ x db l. started a l)
            (λ db db' l h. duplicates_store-Idle a (s ∷ u ∷ rest) _ n db' l l.row.reach h)
            (Triple-discarded a.export_path (Triple-pure none (λ db i. i)))

  resume_row-Resumed :
      (shown : Bool)
      → is_text a.snapshot_id ≡ shown
      → Triple
          (Live s0 occ_id State.recorded a)
          (resume_row e a)
          (Resumed s0 occ_id a.attempt_id)
          (Fine s0 occ_id)
  resume_row-Resumed true h =
      Triple-if (is_failed a.outcome) _ _ (Triple-raise _ (λ db l. started a l))
        (rw h (shown-Resumed a.snapshot_id h))
  resume_row-Resumed false h =
      Triple-if (is_failed a.outcome) _ _ (Triple-raise _ (λ db l. started a l))
        (rw h (Triple-called _ _ (λ x db l. started a l) settle-Resumed))

  pub resume-Resumed :
      Triple
        (Live s0 occ_id State.recorded a)
        (resume e a.attempt_id)
        (Resumed s0 occ_id a.attempt_id)
        (Fine s0 occ_id)
  unfolding resume
  resume-Resumed =
      Triple-row e a _ (λ db l. l.keyed) (resume_row-Resumed (is_text a.snapshot_id) refl)
