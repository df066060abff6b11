-- ===== src/Drain/Verify.antt =====
-- dropin/pipeline/drain.py: from `transferred` to `verified`, and on to `recoverable`.
use dropin.Prelude.{
  ℕ, Bool, true, false, Option, none, some, List, [], Text, codes, text_eq, find_by, map,
  if◌then◌else◌, ok, err,
}
use dropin.Attempts.{now, store, fail, confirm, is_text}
use dropin.Engine.Tags.{tag, k_attempt, parse_tags}
use dropin.Errors.{Exn, Reason, Raises, stop, payload_error, catalog_error, lookup_error}
use dropin.Gates.Catalog.{CatalogFile, verify_catalog}
use dropin.Gates.Payload.{verify_tree, verify_file}
use dropin.Gates.Reconcile.{reconcile}
use dropin.Gates.Repository.{Snapshot}
use dropin.Outcome.{Outcome}
use dropin.Session.{Env, ManifestRow, Run, pure, raise, lift, ask, call, catch, write, ◌>>=◌, ◌>>◌}
use dropin.States.{State}
use dropin.Store.{Store, Attempt, Occurrence, Entry}
use dropin.Store.Records.{iter_entries, set_state, fail_attempt}
use dropin.Drain.Base.{pending_attempt, parsed, as_verification, as_catalog}
use dropin.Drain.Gate.{gate, advance_to}

unfoldable pub drop_pending : Text → Option Attempt → ℕ → Store → Store
drop_pending occ_id none n db = set_state occ_id State.recorded (some Reason.no_pending) none n db
drop_pending occ_id (some a) n db =
    set_state occ_id State.recorded (some Reason.no_pending) none n
      (fail_attempt a.attempt_id Reason.no_pending n db)

module _ {W : Type 0} (e : Env W) where
  abbrev pub live_pending : Option Attempt → Option Attempt
  live_pending none = none
  live_pending (some a) = if is_text a.snapshot_id then some a else none

  abbrev pub pending_or_stop : Text → Option Attempt → Option Attempt → Run W Attempt
  pending_or_stop occ_id (some a) found = pure a
  pending_or_stop occ_id none found = do
    n ← now e
    write (drop_pending occ_id found n)
    raise (stop Outcome.refused Reason.no_pending)

  -- `_require_pending`
  unfoldable pub require_pending : Text → Run W Attempt
  require_pending occ_id = do
    db ← store e
    pending_or_stop occ_id (live_pending (pending_attempt occ_id db)) (pending_attempt occ_id db)

  abbrev pub snapshot_of : Attempt → Text
  snapshot_of a = elim a.snapshot_id [ none ↦ [] | some s ↦ s ]

  -- A proof failed: the attempt fails with its snapshot, and the item ends.
  abbrev pub refuse_attempt : Attempt → Option Reason → Exn → Run W (Unit {0})
  refuse_attempt a none x = raise x
  refuse_attempt a (some reason) x = do
    fail e a.attempt_id reason a.snapshot_id
    raise (stop Outcome.refused reason)

  abbrev pub is_file_kind : Text → Bool
  is_file_kind kind = text_eq kind (codes "file")

  abbrev pub manifest_row : Entry → ManifestRow
  manifest_row r = record {
    rel_path = r.rel_path;
    entry_type = r.entry_type;
    size_bytes = r.size_bytes;
    sha256 = r.sha256;
    link_target = r.link_target;
  }

  -- `recompute_manifest_hash`
  abbrev pub recompute_manifest_hash : List Entry → Text
  recompute_manifest_hash rows = e.manifest_digest (map manifest_row rows)

  -- `verify_payload`: the bytes of a file, or the tar stream of a tree.
  abbrev pub verify_payload : Bool → Text → Text → List Entry → Run W (Unit {0})
  verify_payload true spool_path snapshot_id rows = do
    digest ← ask (e.dump_digest snapshot_id spool_path)
    lift (verify_file rows digest)
  verify_payload false spool_path snapshot_id rows = do
    members ← ask (e.dump_tar snapshot_id spool_path)
    lift (verify_tree spool_path rows members)

  abbrev pub check_manifest : Bool → Occurrence → List Entry → Run W (Unit {0})
  check_manifest true o rows = pure tt
  check_manifest false o rows =
      if text_eq (recompute_manifest_hash rows) o.root_sha256
      then pure tt
      else raise (payload_error [] (codes "manifest hash differs from the record"))

  unfoldable pub verify_archive : Occurrence → Text → Text → Run W (Unit {0})
  verify_archive o spool_path snapshot_id = do
    db ← store e
    nodes ← ask (e.ls snapshot_id spool_path)
    lift (reconcile spool_path (iter_entries db o.occ_id) nodes)
    verify_payload (is_file_kind o.kind) spool_path snapshot_id (iter_entries db o.occ_id)
    check_manifest (is_file_kind o.kind) o (iter_entries db o.occ_id)

  -- The proofs of the payload, and gate (c).
  unfoldable pub verify_pending : Occurrence → Text → Attempt → Run W (Unit {0})
  verify_pending o spool_path a = do
    catch (verify_archive o spool_path (snapshot_of a))
        (λ x. refuse_attempt a (as_verification x) x)
    gate e o.occ_id spool_path a.attempt_id a.snapshot_id
    advance_to e o.occ_id State.verified

  -- `transferred` → `verified`
  unfoldable pub verify : Occurrence → Text → Run W (Unit {0})
  verify o spool_path = do a ← require_pending o.occ_id; verify_pending o spool_path a

  abbrev pub dumped : Raises CatalogFile → Raises CatalogFile
  dumped (ok f) = ok f
  dumped (err x) = err (catalog_error (codes "dump"))

  abbrev pub published : Text → List Snapshot → Option Snapshot
  published snapshot_id found = find_by (λ s. text_eq s.id snapshot_id) found

  -- The catalog, read back from the snapshot that carries the tags.
  unfoldable pub prove_catalog : Occurrence → Attempt → Snapshot → Run W (Unit {0})
  prove_catalog o a s = do
    i ← lift (parsed (parse_tags s.tags))
    file ← ask (e.dump_catalog (snapshot_of a) a.export_path)
    f ← lift (dumped file)
    db ← store e
    lift (verify_catalog f i a.export_sha256 db o.occ_id)

  abbrev pub prove_published : Occurrence → Attempt → Option Snapshot → Run W (Unit {0})
  prove_published o a none =
      refuse_attempt a (some Reason.snapshot_gone) (lookup_error (snapshot_of a))
  prove_published o a (some s) =
      catch (prove_catalog o a s) (λ x. refuse_attempt a (as_catalog x) x)

  -- The proof of the catalog, and the confirmation.
  unfoldable pub prove_pending : Occurrence → Attempt → Run W (Unit {0})
  prove_pending o a = do
    found ← call (e.snapshots (tag k_attempt a.attempt_id))
    prove_published o a (published (snapshot_of a) found)
    confirm e a.attempt_id o.occ_id (snapshot_of a) a.export_seq

  -- `verified` → `recoverable`
  unfoldable pub prove_recoverable : Occurrence → Run W (Unit {0})
  prove_recoverable o = do a ← require_pending o.occ_id; prove_pending o a
