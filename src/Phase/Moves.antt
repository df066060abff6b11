-- ===== src/Phase/Moves.antt =====
-- What each write of the pipeline does to where an occurrence stands.
use dropin.Prelude.{
  ℕ, ◌≡◌, refl, sym, ap, ◌∙◌, true, false, Option, none, some, [], ◌∷◌, Text, text_eq_sound,
  text_eq_refl, arith, Bool-cases, inl, inr, ok,
}
use dropin.Errors.{Reason, source_changed, source_changed_after_publication}
use dropin.Attempts.{failed_store, confirmed_store, abandoned_store, orphan}
use dropin.Evict.{intended_store, finished_store, put_intent}
use dropin.Phase.{Row, Idle, Live, Proven}
use dropin.States.{State}
use dropin.States.Reach.{Reach, next}
use dropin.Store.{Store, Attempt, AttemptOutcome, SnapshotStatus}
use dropin.Store.Laws.{
  map_option, state-with_state, find_occurrence-update, occ_id-with_state, pending_of,
  pending_of-finished, pending_of-head, find_attempt-update,
}
use dropin.Store.Records.{
  set_state, with_state, stamp, finished, confirm_attempt, confirmed_elsewhere, advance_frontier,
  is_pending, fail_attempt, set_outcome, set_snapshot_status,
}

module _ {s0 : State} {occ_id : Text} {st : State} {db : Store} where
  -- A state written over the row.
  unfoldable pub Row-set_state :
      (st' : State) (reason : Option Reason) (attempt : Option Text) (n : ℕ)
      → Row s0 occ_id st db
      → Reach s0 st'
      → Row s0 occ_id st' (set_state occ_id st' reason attempt n db)
  unfolding set_state
  Row-set_state st' reason attempt n r reach = record {
    o = with_state st' reason attempt n r.o;
    found =
        find_occurrence-update occ_id (with_state st' reason attempt n) db.occurrences
          (occ_id-with_state st' reason attempt n)
        ∙ ap (map_option (with_state st' reason attempt n)) r.found;
    own = occ_id-with_state st' reason attempt n r.o ∙ r.own;
    state = state-with_state st' reason attempt n r.o;
    reach = reach;
  }

  unfoldable pub Row-same :
      (db' : Store) → db'.occurrences ≡ db.occurrences → Row s0 occ_id st db → Row s0 occ_id st db'
  Row-same db' e r = record {
    o = r.o;
    found = rw e r.found;
    own = r.own;
    state = r.state;
    reach = r.reach;
  }

  pub Live-owner : (a : Attempt) → Live s0 occ_id st a db → occ_id ≡ a.occ_id
  Live-owner a l =
      text_eq_sound occ_id a.occ_id (ground (arith, pending_of-head occ_id db.attempts a l.pending))

pub orphan-occurrences :
    (s : Option Text) (reason : Reason) (db : Store)
    → (orphan s reason db).occurrences ≡ db.occurrences
unfolding set_snapshot_status
orphan-occurrences none reason db = refl
orphan-occurrences (some []) reason db = refl
orphan-occurrences (some (c ∷ s)) reason db = refl

pub orphan-attempts :
    (s : Option Text) (reason : Reason) (db : Store) → (orphan s reason db).attempts ≡ db.attempts
unfolding set_snapshot_status
orphan-attempts none reason db = refl
orphan-attempts (some []) reason db = refl
orphan-attempts (some (c ∷ s)) reason db = refl

pub fail_attempt-occurrences :
    (attempt_id : Text) (reason : Reason) (n : ℕ) (db : Store)
    → (fail_attempt attempt_id reason n db).occurrences ≡ db.occurrences
unfolding fail_attempt
fail_attempt-occurrences attempt_id reason n db = refl

-- The one pending attempt of an occurrence is settled as failed.
pub settled :
    (occ_id attempt_id : Text) (a : Attempt) (outcome : AttemptOutcome) (reason : Option Reason)
    (n : ℕ) (db : Store)
    → is_pending outcome ≡ false
    → pending_of occ_id db.attempts ≡ a ∷ []
    → a.attempt_id ≡ attempt_id
    → pending_of occ_id (set_outcome attempt_id outcome reason n db).attempts ≡ []
unfolding set_outcome
settled occ_id attempt_id a outcome reason n db s h e =
    pending_of-finished occ_id attempt_id outcome reason n db.attempts s
    ∙ rw h (rw e (rw (text_eq_refl attempt_id) refl))

-- An attempt that fails with its snapshot, and the state that is written with it.
pub dropped-Idle :
    {s0 : State} {occ_id : Text} {st : State} {db : Store} (attempt_id : Text) (a : Attempt)
    (st' : State) (told reason : Reason) (snapshot_id : Option Text) (n : ℕ)
    → Live s0 occ_id st a db
    → a.attempt_id ≡ attempt_id
    → Reach s0 st'
    → Idle s0 occ_id st' (
        set_state occ_id st'
          (some told)
          none
          n
          (orphan snapshot_id reason (fail_attempt attempt_id reason n db)))
unfolding set_state fail_attempt
dropped-Idle {db} attempt_id a st' told reason snapshot_id n l e reach = record {
  row =
      Row-set_state st' (some told) none n
        (Row-same (orphan snapshot_id reason (fail_attempt attempt_id reason n db))
          (orphan-occurrences snapshot_id reason (fail_attempt attempt_id reason n db)
            ∙ fail_attempt-occurrences attempt_id reason n db)
          l.row)
        reach;
  pending =
      rw (orphan-attempts snapshot_id reason (fail_attempt attempt_id reason n db))
        (settled _ attempt_id a AttemptOutcome.failed (some reason) n db refl l.pending e);
}

module _ {s0 : State} {occ_id : Text} {st : State} {db : Store} where
  -- If the only pending attempt of an occurrence fails, the occurrence is `recorded` with no pending
  -- attempt.
  pub failed_store-Idle :
      (a : Attempt) (reason : Reason) (snapshot_id : Option Text) (n : ℕ)
      → Live s0 occ_id st a db
      → Reach s0 State.recorded
      → Idle s0 occ_id State.recorded (failed_store a reason snapshot_id n db)
  unfolding failed_store
  failed_store-Idle a reason snapshot_id n l reach =
      rw (← Live-owner a l)
        (dropped-Idle a.attempt_id a State.recorded reason reason snapshot_id n l refl reach)

  -- If the source of the only pending attempt has changed, the occurrence is `abandoned` with no pending attempt.
  pub abandoned_store-pending-Idle :
      (a : Attempt) (attempt_id : Text) (snapshot_id : Option Text) (n : ℕ)
      → Live s0 occ_id st a db
      → a.attempt_id ≡ attempt_id
      → Reach s0 State.abandoned
      → Idle s0 occ_id State.abandoned (abandoned_store occ_id attempt_id snapshot_id false n db)
  unfolding abandoned_store
  abandoned_store-pending-Idle a attempt_id snapshot_id n l e reach =
      dropped-Idle attempt_id a State.abandoned source_changed source_changed snapshot_id n l e
        reach

  pub abandoned_store-confirmed-Idle :
      (attempt_id : Text) (snapshot_id : Option Text) (n : ℕ)
      → Proven s0 occ_id st db
      → Reach s0 State.abandoned
      → Idle s0 occ_id State.abandoned (abandoned_store occ_id attempt_id snapshot_id true n db)
  unfolding abandoned_store set_state
  abandoned_store-confirmed-Idle attempt_id snapshot_id n p reach = record {
    row =
        Row-set_state State.abandoned (some source_changed_after_publication) none n p.idle.row
          reach;
    pending = p.idle.pending;
  }

abbrev confirmed_as : Text → Text → Text → ℕ → ℕ → Store → Store
confirmed_as attempt_id occ_id snapshot_id export_seq n db = advance_frontier export_seq (
    set_state occ_id State.recoverable none (some attempt_id) n (
      set_snapshot_status snapshot_id SnapshotStatus.confirmed none
        (set_outcome attempt_id AttemptOutcome.confirmed none n db)))

-- What `confirm` writes.
confirmed_store_shape :
    (attempt_id occ_id snapshot_id : Text) (export_seq n : ℕ) (db db' : Store)
    → confirmed_store attempt_id occ_id snapshot_id export_seq n db ≡ ok db'
    → confirmed_as attempt_id occ_id snapshot_id export_seq n db ≡ db'
unfolding confirmed_store confirm_attempt
confirmed_store_shape attempt_id occ_id snapshot_id export_seq n db db' h =
    elim (Bool-cases (confirmed_elsewhere occ_id attempt_id db.attempts)) [
      | inl e ↦ cc (rw e at h)
      | inr e ↦ ground (arith, rw e at h)
    ]

module _ {s0 : State} {occ_id : Text} {db : Store} where
  confirmed_as-Proven :
      (a : Attempt) (snapshot_id : Text) (export_seq n : ℕ)
      → Live s0 occ_id State.verified a db
      → Proven s0 occ_id State.recoverable
          (confirmed_as a.attempt_id occ_id snapshot_id export_seq n db)
  unfolding advance_frontier set_state set_snapshot_status set_outcome Row-set_state Row-same
      with_state stamp
  confirmed_as-Proven a snapshot_id export_seq n l = record {
    idle = record {
      row = Row-same (confirmed_as a.attempt_id occ_id snapshot_id export_seq n db) refl (
          Row-set_state State.recoverable none (some a.attempt_id) n l.row
            (next State.recoverable l.row.reach refl));
      pending =
          settled occ_id a.attempt_id a AttemptOutcome.confirmed none n db refl l.pending refl;
    };
    attempt = finished AttemptOutcome.confirmed none n a;
    keyed =
        find_attempt-update a.attempt_id (finished AttemptOutcome.confirmed none n) db.attempts a
          (λ r. refl) l.keyed;
    owner = sym (Live-owner a l);
    outcome = refl;
    named = refl;
  }

  -- The confirmation of the only pending attempt.
  pub confirmed_store-Proven :
      (a : Attempt) (snapshot_id : Text) (export_seq n : ℕ) (db' : Store)
      → Live s0 occ_id State.verified a db
      → confirmed_store a.attempt_id occ_id snapshot_id export_seq n db ≡ ok db'
      → Proven s0 occ_id State.recoverable db'
  confirmed_store-Proven a snapshot_id export_seq n db' l h =
      rw (← confirmed_store_shape a.attempt_id occ_id snapshot_id export_seq n db db' h)
        (confirmed_as-Proven a snapshot_id export_seq n l)

module _ {s0 : State} {occ_id : Text} {st : State} {db : Store} where
  -- A state written over the row of a proven occurrence.
  Proven-set_state :
      (st' : State) (n : ℕ) (db' : Store)
      → db'.occurrences ≡ db.occurrences
      → db'.attempts ≡ db.attempts
      → Proven s0 occ_id st db
      → Reach s0 st'
      → Proven s0 occ_id st' (set_state occ_id st' none none n db')
  unfolding set_state Row-set_state Row-same with_state
  Proven-set_state st' n db' e f p reach = record {
    idle = record {
      row = Row-set_state st' none none n (Row-same db' e p.idle.row) reach;
      pending = rw f p.idle.pending;
    };
    attempt = p.attempt;
    keyed = rw f p.keyed;
    owner = p.owner;
    outcome = p.outcome;
    named = named_still;
  }
    where
      named_still :
          (with_state st' none none n p.idle.row.o).confirmed_attempt_id ≡ some p.attempt.attempt_id
      named_still = p.named

module _ {s0 : State} {occ_id : Text} {db : Store} where
  pub intended_store-Proven :
      (n : ℕ)
      → Proven s0 occ_id State.recoverable db
      → Proven s0 occ_id State.evicting (intended_store occ_id n db)
  unfolding intended_store put_intent
  intended_store-Proven n p =
      Proven-set_state State.evicting n _ refl refl p (next State.evicting p.idle.row.reach refl)

  pub finished_store-Proven :
      (n : ℕ)
      → Proven s0 occ_id State.evicting db
      → Proven s0 occ_id State.evicted (finished_store occ_id n db)
  unfolding finished_store
  finished_store-Proven n p =
      Proven-set_state State.evicted n _ refl refl p (next State.evicted p.idle.row.reach refl)

  -- A state written over the row of an occurrence with a pending attempt.
  pub Live-set_state :
      {st : State} (a : Attempt) (st' : State) (n : ℕ)
      → Live s0 occ_id st a db
      → Reach s0 st'
      → Live s0 occ_id st' a (set_state occ_id st' none none n db)
  unfolding set_state
  Live-set_state a st' n l reach = record {
    row = Row-set_state st' none none n l.row reach;
    pending = l.pending;
    keyed = l.keyed;
  }

  -- A store that differs only in other tables.
  pub Proven-same :
      {st : State} (db' : Store)
      → db'.occurrences ≡ db.occurrences
      → db'.attempts ≡ db.attempts
      → Proven s0 occ_id st db
      → Proven s0 occ_id st db'
  unfolding Row-same
  Proven-same db' e f p = record {
    idle = record { row = Row-same db' e p.idle.row; pending = rw f p.idle.pending };
    attempt = p.attempt;
    keyed = rw f p.keyed;
    owner = p.owner;
    outcome = p.outcome;
    named = p.named;
  }
