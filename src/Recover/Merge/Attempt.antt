-- ===== src/Recover/Merge/Attempt.antt =====
-- dropin/recover.py: an attempt of another export, merged into the work store.
use dropin.Prelude.{
  Bool, not, ◌&&◌, none, some, List, [], ◌∷◌, ◌++◌, text_eq, find_by, coalesce, bind, ltb, ◌==◌,
  if◌then◌else◌, ok, err,
}
use dropin.Errors.{Raises, identity_collision, integrity_error}
use dropin.Recover.Base.{Observation}
use dropin.Recover.Merge.Rows.{Work, base_seq_for}
use dropin.Store.{Attempt}
use dropin.Store.Records.{
  update_where, attempt_is, attempt_clash, confirmed_elsewhere, is_pending, is_confirmed,
}

-- `ATTEMPT_IDENTITY`
unfoldable pub same_attempt : Attempt → Attempt → Bool
same_attempt a b =
    text_eq a.origin_store_id b.origin_store_id
    && (text_eq a.occ_id b.occ_id && (a.export_seq == b.export_seq && a.started_at == b.started_at))

-- The primary key and the two unique indexes.
unfoldable pub insert_attempt : Attempt → Work → Raises Work
insert_attempt a w =
    if attempt_clash a.attempt_id a.origin_store_id a.export_seq w.tables.attempts
    then err (integrity_error a.attempt_id)
    else if is_confirmed a.outcome && confirmed_elsewhere a.occ_id a.attempt_id w.tables.attempts
    then err (integrity_error a.attempt_id)
    else ok (record w { tables = record w.tables { attempts = w.tables.attempts ++ a ∷ [] } })

abbrev pub with_outcome : Attempt → Attempt → Attempt
with_outcome incoming a = record a {
  outcome = incoming.outcome;
  reason = incoming.reason;
  finished_at = incoming.finished_at;
  snapshot_id = coalesce a.snapshot_id incoming.snapshot_id;
}

-- Whether a later export of the same lineage settles a pending attempt.
unfoldable pub settles : Observation → Attempt → Attempt → Work → Bool
unfolding base_seq_for
settles o existing incoming w =
    is_pending existing.outcome
    && (not (is_pending incoming.outcome)
        && (text_eq o.identity.store_id existing.origin_store_id
            && ltb (base_seq_for existing.origin_store_id w.exported) o.identity.export_seq))

unfoldable pub update_attempt : Attempt → Work → Raises Work
update_attempt incoming w =
    if is_confirmed incoming.outcome
      && confirmed_elsewhere incoming.occ_id incoming.attempt_id w.tables.attempts
    then err (integrity_error incoming.attempt_id)
    else ok (record w {
      tables = record w.tables {
        attempts =
            update_where (attempt_is incoming.attempt_id) (with_outcome incoming) w.tables.attempts;
      };
    })

-- `_merge_attempt`
unfoldable pub merge_attempt : Observation → Attempt → Work → Raises Work
unfolding insert_attempt same_attempt settles update_attempt
merge_attempt o incoming w = elim (find_by (attempt_is incoming.attempt_id) w.tables.attempts) [
  | none ↦ insert_attempt incoming w
  | some existing ↦
      if same_attempt existing incoming
      then if settles o existing incoming w then update_attempt incoming w else ok w
      else err (identity_collision incoming.attempt_id)
]

unfoldable pub merge_attempts : Observation → List Attempt → Work → Raises Work
unfolding merge_attempt
merge_attempts o [] w = ok w
merge_attempts o (a ∷ rest) w = bind (merge_attempt o a w) (merge_attempts o rest)
