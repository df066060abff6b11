-- ===== src/Phase/Adopt.antt =====
-- What the writes on an attempt do to where its occurrence stands.
use mathlib.Core.Path.{subst}
use dropin.Prelude.{
  ℕ, suc, ◌≡◌, refl, sym, ap, ◌∙◌, false, ◌++◌, Option, none, some, List, [], ◌∷◌, Text,
  text_eq_refl, find_by, arith, Bool-cases, inl, inr, ok, err, any, Option-cases,
}
use dropin.Errors.{Reason, Raises, duplicate}
use dropin.Engine.Tags.{Identity}
use dropin.Gates.Repository.{Snapshot}
use dropin.Attempts.{adopted_store, observe_duplicates, duplicates_store}
use dropin.Phase.{Idle, Live}
use dropin.Phase.Moves.{Row-same, Live-owner, dropped-Idle}
use dropin.States.{State}
use dropin.States.Reach.{Reach}
use dropin.Store.{Store, Attempt, AttemptOutcome, SnapshotStatus}
use dropin.Store.Laws.{pending_of-update, pending_of-append, find_attempt-update, find_attempt-new}
use dropin.Store.Records.{
  observe_snapshot, get_snapshot, tag_sets_eq, set_attempt_snapshot, start_attempt, attempt_clash,
  attempt_refused, new_attempt, update_where, attempt_is, snapshot_is, fail_attempt, set_state,
}
use dropin.Engine.Tags.{tag_set}

module _ {s0 : State} {occ_id : Text} {st : State} {db : Store} where
  -- An update of the pending attempt that keeps its identifiers and its outcome.
  pub Live-update :
      (f : Attempt → Attempt) (a : Attempt)
      → ((r : Attempt) → (f r).attempt_id ≡ r.attempt_id)
      → ((r : Attempt) → (f r).occ_id ≡ r.occ_id)
      → ((r : Attempt) → (f r).outcome ≡ r.outcome)
      → Live s0 occ_id st a db
      → Live s0 occ_id st
          (f a)
          (record db { attempts = update_where (attempt_is a.attempt_id) f db.attempts })
  Live-update f a keep_id keep_occ keep_outcome l = record {
    row = Row-same _ refl l.row;
    pending =
        pending_of-update f keep_occ keep_outcome occ_id a.attempt_id db.attempts
        ∙ rw l.pending (rw (text_eq_refl a.attempt_id) refl);
    keyed =
        subst
          (λ k.
            find_by (attempt_is k) (update_where (attempt_is a.attempt_id) f db.attempts)
            ≡ some (f a))
          (sym (keep_id a)) (find_attempt-update a.attempt_id f db.attempts a keep_id l.keyed);
  }

  -- A store that differs only in other tables.
  pub Live-same :
      (a : Attempt) (db' : Store)
      → db'.occurrences ≡ db.occurrences
      → db'.attempts ≡ db.attempts
      → Live s0 occ_id st a db
      → Live s0 occ_id st a db'
  Live-same a db' e f l = record {
    row = Row-same db' e l.row;
    pending = rw f l.pending;
    keyed = rw f l.keyed;
  }

-- The ledger of observations stands apart from the occurrences and the attempts.
pub observe_snapshot-rest :
    (snapshot_id : Text) (i : Identity) (status : SnapshotStatus) (reason : Option Reason) (n : ℕ)
    (db db' : Store)
    → observe_snapshot snapshot_id i status reason n db ≡ ok db'
    → (db'.occurrences ≡ db.occurrences) × (db'.attempts ≡ db.attempts)
unfolding observe_snapshot get_snapshot
observe_snapshot-rest snapshot_id i status reason n db db' h =
    elim (Option-cases (find_by (snapshot_is snapshot_id) db.snapshots)) [
      | inl e ↦ ground (arith, rw (observe_snapshot, e) at h)
      | inr (r, e) ↦ elim (Bool-cases (tag_sets_eq r.tag_set (tag_set i))) [
        | inl q ↦ ground (arith, rw (observe_snapshot, e, q) at h)
        | inr q ↦ cc (rw (observe_snapshot, e, q) at h)
      ]
    ]

pub observe_duplicates-rest :
    (found : List Snapshot) (i : Identity) (n : ℕ) (db db' : Store)
    → observe_duplicates found i n db ≡ ok db'
    → (db'.occurrences ≡ db.occurrences) × (db'.attempts ≡ db.attempts)
unfolding observe_duplicates
observe_duplicates-rest [] i n db db' h = ground (arith, h)
observe_duplicates-rest (s ∷ rest) i n db db' h =
    go (observe_snapshot s.id i SnapshotStatus.orphaned (some duplicate) n db) refl
      (observe_duplicates-rest rest i n)
  where
    go :
        (r : Raises Store)
        → observe_snapshot s.id i SnapshotStatus.orphaned (some duplicate) n db ≡ r
        → ((d d' : Store)
            → observe_duplicates rest i n d ≡ ok d'
            → (d'.occurrences ≡ d.occurrences) × (d'.attempts ≡ d.attempts))
        → (db'.occurrences ≡ db.occurrences) × (db'.attempts ≡ db.attempts)
    go (ok d) e ih =
        let later = ih d db' (rw e at h) in
        let first =
          observe_snapshot-rest s.id i SnapshotStatus.orphaned (some duplicate) n db d e in
        (later.0 ∙ first.0, later.1 ∙ first.1)
    go (err x) e ih = cc (rw e at h)

module _ {s0 : State} {occ_id : Text} {st : State} {db : Store} where
  pub adopted_store-Live :
      (a : Attempt) (snapshot_id : Text) (i : Identity) (n : ℕ) (db' : Store)
      → Live s0 occ_id st a db
      → adopted_store a.attempt_id snapshot_id i n db ≡ ok db'
      → Live s0 occ_id st (record a { snapshot_id = some snapshot_id }) db'
  unfolding adopted_store set_attempt_snapshot
  adopted_store-Live a snapshot_id i n db' l h =
      let rest =
        observe_snapshot-rest snapshot_id i SnapshotStatus.pending none n
          (set_attempt_snapshot a.attempt_id snapshot_id db) db' h in
      Live-same _ db' rest.0 rest.1 (
        Live-update (λ r. record r { snapshot_id = some snapshot_id }) a (λ r. refl) (λ r. refl)
          (λ r. refl) l)

  -- Duplicate snapshots fail the attempt.
  pub duplicates_store-Idle :
      (a : Attempt) (found : List Snapshot) (i : Identity) (n : ℕ) (db' : Store)
      → Live s0 occ_id st a db
      → Reach s0 State.recorded
      → duplicates_store a found i n db ≡ ok db'
      → Idle s0 occ_id State.recorded db'
  unfolding duplicates_store
  duplicates_store-Idle a found i n db' l reach h = go (observe_duplicates found i n db) refl
    where
      go :
          (r : Raises Store)
          → observe_duplicates found i n db ≡ r
          → Idle s0 occ_id State.recorded db'
      go (ok d) e =
          let rest = observe_duplicates-rest found i n db d e in
          let done : Idle s0 occ_id State.recorded (
              set_state occ_id State.recorded (some duplicate) none n
                (fail_attempt a.attempt_id duplicate n d)) =
            dropped-Idle a.attempt_id a State.recorded duplicate duplicate none n
              (Live-same a d rest.0 rest.1 l) refl reach in
          let same : set_state occ_id State.recorded (some duplicate) none n
                (fail_attempt a.attempt_id duplicate n d)
              ≡ db' =
            ground (arith, rw (e, ← Live-owner a l) at h) in
          rw (← same) done
      go (err x) e = cc (rw e at h)

no_attempt :
    (attempt_id store_id : Text) (seq : ℕ) (rows : List Attempt)
    → attempt_clash attempt_id store_id seq rows ≡ false
    → any (attempt_is attempt_id) rows ≡ false
no_attempt attempt_id store_id seq [] h = refl
no_attempt attempt_id store_id seq (r ∷ rows) h =
    ground (arith, h, no_attempt attempt_id store_id seq rows)

abbrev with_attempt : Attempt → Store → Store
with_attempt a db = record db { export_seq = suc db.export_seq; attempts = db.attempts ++ a ∷ [] }

module _ {s0 : State} {occ_id : Text} {st : State} {db : Store} where
  with_attempt-Live :
      (a : Attempt)
      → Idle s0 occ_id st db
      → a.occ_id ≡ occ_id
      → a.outcome ≡ AttemptOutcome.pending
      → any (attempt_is a.attempt_id) db.attempts ≡ false
      → Live s0 occ_id st a (with_attempt a db)
  with_attempt-Live a i own out fresh = record {
    row = Row-same (with_attempt a db) refl i.row;
    pending =
        pending_of-append occ_id db.attempts a (ground (arith, own, out, text_eq_refl occ_id))
        ∙ rw i.pending refl;
    keyed = find_attempt-new a.attempt_id a db.attempts (text_eq_refl a.attempt_id) fresh;
  }

  -- The new attempt of an occurrence that has none pending.
  pub start_attempt-Live :
      (attempt_id store_id export_path : Text) (n : ℕ) (a : Attempt) (db' : Store)
      → Idle s0 occ_id st db
      → start_attempt attempt_id occ_id store_id export_path none n db ≡ ok (a, db')
      → Live s0 occ_id st a db' × (a.attempt_id ≡ attempt_id)
  unfolding start_attempt
  start_attempt-Live attempt_id store_id export_path n a db' i h =
      elim (Bool-cases (attempt_refused attempt_id occ_id store_id (suc db.export_seq) db)) [
        | inl e ↦ cc (rw e at h)
        | inr e ↦
            let row : Attempt =
              new_attempt attempt_id store_id occ_id (suc db.export_seq) export_path n in
            let same_row : row ≡ a = ground (arith, rw e at h) in
            let same_db : with_attempt row db ≡ db' = ground (arith, rw e at h) in
            let live : Live s0 occ_id st row (with_attempt row db) =
              with_attempt-Live row i refl refl (
                no_attempt attempt_id store_id (suc db.export_seq) db.attempts
                  (ground (arith, e))) in
            (
              subst (λ b. Live s0 occ_id st b db') same_row
                  (subst (Live s0 occ_id st row) same_db live),
              ap (λ b. b.attempt_id) (sym same_row),
            )
      ]
