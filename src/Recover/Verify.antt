-- ===== src/Recover/Verify.antt =====
-- dropin/recover.py: the snapshots of an occurrence, and the newest of them that proves itself.
use dropin.Prelude.{
  Bool, true, false, not, ◌&&◌, Option, none, some, List, [], ◌∷◌, ◌++◌, map, Text, text_eq,
  filter_by, find_by, if◌then◌else◌, sort_by,
}
use dropin.Attempts.{store}
use dropin.Drain.Verify.{verify_payload, is_file_kind}
use dropin.Errors.{
  Exn, Reason, excluded, excluded_unexplained, verification, verification_engine, reconcile_error,
  payload_error, engine_error,
}
use dropin.Gates.Reconcile.{reconcile}
use dropin.Recover.Base.{Observation, is_same, older}
use dropin.Recover.Observe.{orphaned}
use dropin.Session.{Env, Run, pure, raise, lift, ask, catch, ◌>>=◌, ◌>>◌}
use dropin.States.{State}
use dropin.Store.{Store, Occurrence, Attempt}
use dropin.Store.Records.{attempt_is, is_failed, iter_entries, get_occurrence}

-- `by_occurrence`, in the order of the first snapshot of each
unfoldable pub add_candidate :
    Observation → List (Text × List Observation) → List (Text × List Observation)
add_candidate o [] = (o.identity.occ_id, o ∷ []) ∷ []
add_candidate o ((occ_id, found) ∷ rest) =
    if text_eq o.identity.occ_id occ_id
    then (occ_id, found ++ o ∷ []) ∷ rest
    else (occ_id, found) ∷ add_candidate o rest

unfoldable pub by_occurrence :
    List Observation → List (Text × List Observation) → List (Text × List Observation)
unfolding add_candidate
by_occurrence [] groups = groups
by_occurrence (o ∷ rest) groups = by_occurrence rest (add_candidate o groups)

-- `by_occurrence.get(occ_id, [])`
unfoldable pub candidates_of : Text → List (Text × List Observation) → List Observation
candidates_of occ_id [] = []
candidates_of occ_id ((id, found) ∷ rest) =
    if text_eq occ_id id then found else candidates_of occ_id rest

abbrev pub excluded_for : Option Reason → Reason
excluded_for none = excluded_unexplained
excluded_for (some reason) = excluded reason

abbrev pub attempt_failed : Option Attempt → Bool
attempt_failed none = false
attempt_failed (some a) = is_failed a.outcome

abbrev pub attempt_reason : Option Attempt → Option Reason
attempt_reason none = none
attempt_reason (some a) = a.reason

-- The attempt that the store records for a snapshot.
abbrev pub attempt_of : Store → Observation → Option Attempt
attempt_of db o = find_by (attempt_is o.identity.attempt_id) db.attempts

-- The first loop of `_confirm_one`: what history excludes, and what is left to try.
abbrev pub exclude : Store → Observation → Observation
exclude db o =
    if attempt_failed (attempt_of db o)
    then orphaned (excluded_for (attempt_reason (attempt_of db o))) o
    else o

abbrev pub is_eligible : Store → Observation → Bool
is_eligible db o = not (attempt_failed (attempt_of db o)) && o.valid

abbrev pub opt_is : Option Text → Text → Bool
opt_is none t = false
opt_is (some s) t = text_eq s t

abbrev pub is_published : State → Bool
is_published State.recoverable = true
is_published State.evicting = true
is_published State.evicted = true
is_published _ = false

-- `_later_export_confirms`
unfoldable pub later_export_confirms : Occurrence → Observation → Bool
later_export_confirms occ o =
    opt_is occ.confirmed_attempt_id o.identity.attempt_id && is_published occ.state

-- What the proof raises against a snapshot.
abbrev pub as_evidence : Exn → Option Reason
as_evidence (reconcile_error p d) = some (verification p d)
as_evidence (payload_error p d) = some (verification p d)
as_evidence (engine_error x) = some (verification_engine x)
as_evidence _ = none

abbrev pub orphan_same : Observation → Reason → Observation → Observation
orphan_same o reason c = if is_same o c then orphaned reason c else c

-- The snapshot that was confirmed, and the candidates with their verdicts.
abbrev pub Verdict : Type 0
Verdict = Option Observation × List Observation

module _ {W : Type 0} (e : Env W) where
  -- `reconcile`, then `verify_payload`
  unfoldable pub prove : Occurrence → Observation → Run W (Unit {0})
  prove occ o = do
    db ← store e
    nodes ← ask (e.ls o.snapshot_id occ.spool_path)
    lift (reconcile occ.spool_path (iter_entries db occ.occ_id) nodes)
    row ← lift (get_occurrence db occ.occ_id)
    verify_payload e (is_file_kind e row.kind) occ.spool_path o.snapshot_id
        (iter_entries db occ.occ_id)

  abbrev pub evidence : Exn → Option Reason → Run W (Option Reason)
  evidence x none = raise x
  evidence x (some reason) = pure (some reason)

  -- `none` if the snapshot proves itself, else why not.
  abbrev pub try_candidate : Occurrence → Observation → Run W (Option Reason)
  try_candidate occ o = catch (prove occ o >> pure none) (λ x. evidence x (as_evidence x))

  -- Past a candidate: it is the one, or the others are tried.
  abbrev pub decided :
      Observation
      → List Observation
      → (List Observation → Run W Verdict)
      → Option Reason
      → Run W Verdict
  decided o candidates rest none = pure (some o, candidates)
  decided o candidates rest (some reason) = rest (map (orphan_same o reason) candidates)

  -- The second loop of `_confirm_one`
  unfoldable pub confirm_first :
      Bool → Occurrence → List Observation → List Observation → Run W Verdict
  unfolding later_export_confirms
  confirm_first trust occ [] candidates = pure (none, candidates)
  confirm_first trust occ (o ∷ rest) candidates =
      if trust && later_export_confirms occ o then pure (some o, candidates) else (do
        found ← try_candidate occ o
        decided o candidates (confirm_first trust occ rest) found)

  -- `_confirm_one`
  unfoldable pub confirm_one : Bool → Occurrence → List Observation → Run W Verdict
  unfolding sort_by
  confirm_one trust occ candidates = do
    db ← store e
    confirm_first trust occ (sort_by (λ a b. older b a) (filter_by (is_eligible db) candidates))
        (map (exclude db) candidates)
