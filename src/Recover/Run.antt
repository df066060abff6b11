-- ===== src/Recover/Run.antt =====
-- dropin/recover.py: the protocol, step after step. The file system around it (the directories,
-- the byte copies, the rename of the finished store) and the summary line are left out.
use dropin.Prelude.{
  Bool, true, false, ok, bind, Option, none, some, List, [], ◌∷◌, Text, codes, text_eq, any,
  if◌then◌else◌,
}
use dropin.Attempts.{store, now}
use dropin.Drain.Emit.{report_line}
use dropin.Errors.{Reason, Raises, recover_refused, unrecoverable, unrecoverable_unexplained}
use dropin.Gates.Catalog.{CatalogFile}
use dropin.Outcome.{Outcome}
use dropin.Record.{by_recorded}
use dropin.Recover.Base.{Observation, choose_base, newest}
use dropin.Recover.Ledger.{ledger}
use dropin.Recover.Merge.{merge}
use dropin.Recover.Merge.Rows.{Work}
use dropin.Recover.Meta.{rebuild_meta}
use dropin.Recover.Observe.{Observed, observe, dump_candidates}
use dropin.Recover.Settle.{settle_occurrence}
use dropin.Recover.Verify.{by_occurrence, candidates_of, confirm_one}
use dropin.Session.{Env, Run, pure, raise, lift, write, commit, ◌>>=◌, ◌>>◌}
use dropin.States.{State, state_eq}
use dropin.Store.{Store, Occurrence}

-- `initialise_store` in a new file
abbrev pub fresh_store : Text → Store
fresh_store store_id = record {
  store_id = store_id;
  export_seq = 0;
  published_frontier = 0;
  lineage = [];
  occurrences = [];
  entries = [];
  fingerprints = [];
  attempts = [];
  snapshots = [];
  intents = [];
  events = [];
}

abbrev pub base_store : Observation → Option CatalogFile → Work
base_store base none = record { tables = fresh_store base.identity.store_id; exported = [] }
base_store base (some file) = record { tables = file.tables; exported = file.lineage }

-- The identifier of the store, and the file that recovery starts from.
unfoldable pub start_of : List Observation → Option Observation → Raises (Text × Work)
unfolding newest
start_of observations none = bind (newest observations) λ o.
    ok (o.identity.store_id, record { tables = fresh_store o.identity.store_id; exported = [] })
start_of observations (some base) = ok (base.identity.store_id, base_store base base.dumped)

abbrev pub unrecoverable_for : Text → Option Reason → Reason
unrecoverable_for occ_id none = unrecoverable_unexplained occ_id
unrecoverable_for occ_id (some reason) = unrecoverable occ_id reason

module _ {W : Type 0} (e : Env W) where
  -- One round of the first loop of `_verify_occurrences`
  unfoldable pub verify_one : Bool → List (Text × List Observation) → Occurrence → Run W (Unit {0})
  verify_one trust groups occ = if state_eq occ.state State.abandoned then pure tt else (do
    verdict ← confirm_one e trust occ (candidates_of occ.occ_id groups)
    settle_occurrence e occ verdict.0 verdict.1)

  unfoldable pub verify_all :
      Bool → List (Text × List Observation) → List Occurrence → Run W (Unit {0})
  unfolding verify_one
  verify_all trust groups [] = pure tt
  verify_all trust groups (occ ∷ rest) = verify_one trust groups occ >> verify_all trust groups rest

  unfoldable pub refuse_candidates : Text → List Observation → Run W (Unit {0})
  refuse_candidates occ_id [] = pure tt
  refuse_candidates occ_id (o ∷ rest) = do
    report_line e Outcome.refused o.snapshot_id none none none
        (some (unrecoverable_for occ_id o.reason))
    refuse_candidates occ_id rest

  -- The snapshots of which no catalog knows the occurrence.
  unfoldable pub refuse_unknown :
      List Occurrence → List (Text × List Observation) → Run W (Unit {0})
  unfolding refuse_candidates
  refuse_unknown known [] = pure tt
  refuse_unknown known ((occ_id, candidates) ∷ rest) =
      (if any (λ o. text_eq occ_id o.occ_id) known
        then pure tt
        else refuse_candidates occ_id candidates)
      >> refuse_unknown known rest

  -- `_verify_occurrences`
  unfoldable pub verify_occurrences : Bool → List Observation → Run W (Unit {0})
  unfolding by_recorded
  verify_occurrences trust observations = do
    db ← store e
    verify_all trust (by_occurrence observations []) (by_recorded db.occurrences)
    refuse_unknown db.occurrences (by_occurrence observations [])

  -- The steps from the candidates on.
  unfoldable pub rebuild : Bool → List Observation → Run W (Unit {0})
  unfolding start_of choose_base
  rebuild trust observations = do
    start ← lift (start_of observations (choose_base observations))
    w ← lift (merge observations (choose_base observations) start.1)
    write (λ _. w.tables)
    n ← now e
    commit (ledger observations n)
    verify_occurrences trust observations
    write (rebuild_meta observations start.0)

  -- Nothing was observed and nothing was skipped.
  abbrev pub is_empty_repository : Observed → Bool
  is_empty_repository ([], []) = true
  is_empty_repository _ = false

  -- `recover`
  unfoldable pub recover : Bool → Run W (Unit {0})
  unfolding rebuild
  recover trust = do
    found ← observe e
    (if is_empty_repository found
        then raise (recover_refused (codes "no archiver snapshots"))
        else (do observations ← dump_candidates e found.0; rebuild trust observations))
