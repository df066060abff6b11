-- ===== src/Phase/Settle.antt =====
-- The operations of dropin/pipeline/attempts.py leave the occurrence where it may stand.
use mathlib.Core.Path.{subst}
use dropin.Prelude.{
  none, ℕ, ◌≡◌, refl, true, false, Option, some, Text, ok, err, ◌∙◌, ◌++◌, codes, arith,
}
use dropin.Attempts.{
  attempt_row, fail, adopt, confirm, start, or_else, abandon_source_changed, export_file,
  row_written,
}
use dropin.Engine.Tags.{Identity}
use dropin.Errors.{Exn, Reason, Raises}
use dropin.Phase.{Idle, Live, Proven, IsConsistent, IsKeyed, ready, started, verified, abandoned}
use dropin.Phase.Moves.{
  failed_store-Idle, abandoned_store-pending-Idle, abandoned_store-confirmed-Idle,
  confirmed_store-Proven,
}
use dropin.Phase.Adopt.{Live-update, adopted_store-Live, start_attempt-Live}
use dropin.Session.{Env, Run, ◌>>=◌, lift, gets}
use dropin.Session.Triple.{Triple, Triple-pure, Triple-commit, Triple-discard, Triple-bind}
use dropin.Session.Rules.{
  Triple-lift-same, Triple-peek, Triple-asked, Triple-called, Triple-written, Triple-committed,
  Triple-kept,
}
use dropin.States.{State}
use dropin.States.Reach.{Reach, next}
use dropin.Store.{Store, Attempt}
use dropin.Store.Records.{
  get_attempt, attempt_is, set_export_path, set_export_digest, start_attempt, update_where,
}

-- A raise leaves the occurrence where it may stand.
abbrev pub Fine : State → Text → Exn → Store → Type 0
Fine s0 occ_id x db = IsConsistent s0 occ_id db

module _ {W B : Type 0} (e : Env W) {P : Store → Type 0} {R : B → Store → Type 0}
    {X : Exn → Store → Type 0} where
  -- The row of an attempt is the one that its identifier finds.
  pub Triple-row :
      (a : Attempt) (f : Attempt → Run W B)
      → ((db : Store) → P db → IsKeyed db a)
      → Triple P (f a) R X
      → Triple P (attempt_row e a.attempt_id >>= f) R X
  unfolding get_attempt lift ◌>>=◌ gets
  Triple-row a f k t = record { at = λ s p. rw (k s.db p) (t.at s p) }

module _ {W : Type 0} (e : Env W) {P : Store → Type 0} {X : Exn → Store → Type 0} where
  -- A row that is looked up, if it is there.
  Triple-seen :
      (attempt_id : Text)
      → ((x : Exn) (db : Store) → P db → X x db)
      → Triple P (attempt_row e attempt_id) (λ _. P) X
  Triple-seen attempt_id k = Triple-peek _ _ λ db. Triple-lift-same (get_attempt db attempt_id) k

module _ {W : Type 0} (e : Env W) {s0 : State} {occ_id : Text} {st : State} (a : Attempt) where
  -- The pending attempt fails.
  pub fail-Idle :
      (reason : Reason) (snapshot_id : Option Text)
      → ((db : Store) → Live s0 occ_id st a db → Reach s0 State.recorded)
      → Triple
          (Live s0 occ_id st a)
          (fail e a.attempt_id reason snapshot_id)
          (λ _. Idle s0 occ_id State.recorded)
          (Fine s0 occ_id)
  unfolding fail
  fail-Idle reason snapshot_id reach =
      Triple-row e a _ (λ db l. l.keyed)
        (Triple-peek _ _ λ n.
          Triple-written _
            (λ db l.
              failed_store-Idle a reason (or_else snapshot_id a.snapshot_id) n l (reach db l))
            (Triple-discard a.export_path (λ db i. i)))

  -- The source has changed while the attempt was pending.
  pub abandon-pending :
      (snapshot_id : Option Text)
      → ((db : Store) → Live s0 occ_id st a db → Reach s0 State.abandoned)
      → Triple
          (Live s0 occ_id st a)
          (abandon_source_changed e occ_id a.attempt_id snapshot_id false)
          (λ _. Idle s0 occ_id State.abandoned)
          (Fine s0 occ_id)
  unfolding abandon_source_changed
  abandon-pending snapshot_id reach = Triple-peek _ _ λ n.
      Triple-written _
        (λ db l. abandoned_store-pending-Idle a a.attempt_id snapshot_id n l refl (reach db l))
        (Triple-bind (Triple-seen e a.attempt_id (λ x db i. abandoned i))
          (λ b. Triple-discard b.export_path (λ db i. i)))

  pub adopt-Live :
      (snapshot_id : Text) (i : Identity)
      → ((db : Store) → Live s0 occ_id st a db → IsConsistent s0 occ_id db)
      → Triple
          (Live s0 occ_id st a)
          (adopt e a.attempt_id snapshot_id i)
          (λ _. Live s0 occ_id st (record a { snapshot_id = some snapshot_id }))
          (Fine s0 occ_id)
  unfolding adopt
  adopt-Live snapshot_id i fine = Triple-peek _ _ λ n.
      Triple-commit _ (λ db db' l h. adopted_store-Live a snapshot_id i n db' l h)
        (λ x db l h. fine db l)

module _ {W : Type 0} (e : Env W) {s0 : State} {occ_id : Text} where
  pub abandon-confirmed :
      (attempt_id : Text) (snapshot_id : Option Text)
      → Triple
          (Proven s0 occ_id State.recoverable)
          (abandon_source_changed e occ_id attempt_id snapshot_id true)
          (λ _. Idle s0 occ_id State.abandoned)
          (Fine s0 occ_id)
  unfolding abandon_source_changed
  abandon-confirmed attempt_id snapshot_id = Triple-peek _ _ λ n.
      Triple-written _
        (λ db p.
          abandoned_store-confirmed-Idle attempt_id snapshot_id n p
            (next State.abandoned p.idle.row.reach refl))
        (Triple-pure tt (λ db i. i))

  pub confirm-Proven :
      (a : Attempt) (snapshot_id : Text) (export_seq : ℕ)
      → Triple
          (Live s0 occ_id State.verified a)
          (confirm e a.attempt_id occ_id snapshot_id export_seq)
          (λ _. Proven s0 occ_id State.recoverable)
          (Fine s0 occ_id)
  unfolding confirm
  confirm-Proven a snapshot_id export_seq =
      Triple-row e a _ (λ db l. l.keyed)
        (Triple-peek _ _ λ n.
          Triple-committed _ (λ x db l. verified a l)
            (λ db db' l h. confirmed_store-Proven a snapshot_id export_seq n db' l h)
            (Triple-discard a.export_path (λ db p. p)))

-- The new attempt of `start` is pending in every store that a raise leaves after it.
abbrev pub Started : State → Text → Text → Store → Type 0
Started s0 occ_id attempt_id db =
    (a : Attempt) × Live s0 occ_id State.recorded a db × (a.attempt_id ≡ attempt_id)

module _ {s0 : State} {occ_id : Text} (attempt_id : Text) where
  Started-new :
      (store_id export_path : Text) (n : ℕ) (db db' : Store)
      → Idle s0 occ_id State.recorded db
      → row_written (start_attempt attempt_id occ_id store_id export_path none n db) ≡ ok db'
      → Started s0 occ_id attempt_id db'
  Started-new store_id export_path n db db' i h =
      go (start_attempt attempt_id occ_id store_id export_path none n db) refl
    where
      go :
          (r : Raises (Attempt × Store))
          → start_attempt attempt_id occ_id store_id export_path none n db ≡ r
          → Started s0 occ_id attempt_id db'
      go (ok (a, d)) q =
          let live : Live s0 occ_id State.recorded a d × (a.attempt_id ≡ attempt_id) =
            start_attempt-Live attempt_id store_id export_path n a d i q in
          let same : d ≡ db' = ground (arith, rw q at h) in
          (a, subst (Live s0 occ_id State.recorded a) same live.0, live.1)
      go (err x) q = cc (rw q at h)

  -- An update of the new attempt that keeps its identifiers and its outcome.
  Started-update :
      (f : Attempt → Attempt) (db : Store)
      → ((r : Attempt) → (f r).attempt_id ≡ r.attempt_id)
      → ((r : Attempt) → (f r).occ_id ≡ r.occ_id)
      → ((r : Attempt) → (f r).outcome ≡ r.outcome)
      → Started s0 occ_id attempt_id db
      → Started s0 occ_id attempt_id
          (record db { attempts = update_where (attempt_is attempt_id) f db.attempts })
  Started-update f db keep_id keep_occ keep_outcome (a, l, q) = (
    f a,
    subst
        (λ k.
          Live s0 occ_id State.recorded (f a)
            (record db { attempts = update_where (attempt_is k) f db.attempts }))
        q (Live-update f a keep_id keep_occ keep_outcome l),
    keep_id a ∙ q,
  )

module _ {W : Type 0} (e : Env W) {s0 : State} {occ_id : Text} where
  pub start-Started :
      (store_id export_dir : Text)
      → Triple
          (Idle s0 occ_id State.recorded)
          (start e occ_id store_id export_dir)
          (Started s0 occ_id)
          (Fine s0 occ_id)
  unfolding start set_export_path set_export_digest
  start-Started store_id export_dir = Triple-asked _ _ λ attempt_id. Triple-peek _ _ λ n.
      Triple-committed _ (λ x db i. ready i)
        (λ db db' i h.
          Started-new attempt_id store_id (export_dir ++ codes "/pending.sqlite") n db db' i h)
        (Triple-written {P' = Started s0 occ_id attempt_id} _
          (λ db s.
            Started-update attempt_id
              (λ a. record a { export_path = export_file export_dir occ_id attempt_id }) db
              (λ r. refl) (λ r. refl) (λ r. refl) s)
          (Triple-peek _ _ λ db.
            Triple-called _ _ (λ x db s. started s.0 s.1)
              λ digest. Triple-kept _ (
                Triple-written {P' = Started s0 occ_id attempt_id} _
                  (λ db s.
                    Started-update attempt_id (λ a. record a { export_sha256 = some digest }) db
                      (λ r. refl) (λ r. refl) (λ r. refl) s)
                  (Triple-pure attempt_id (λ db s. s)))))

-- An action on the identifier of a pending attempt.
pub Triple-Started :
    {W B : Type 0} {s0 : State} {occ_id : Text} {R : B → Store → Type 0} {X : Exn → Store → Type 0}
    (m : Text → Run W B) (attempt_id : Text)
    → ((a : Attempt) → Triple (Live s0 occ_id State.recorded a) (m a.attempt_id) R X)
    → Triple (Started s0 occ_id attempt_id) (m attempt_id) R X
Triple-Started m attempt_id t = record { at = λ s p. rw (← p.2) ((t p.0).at s p.1) }
