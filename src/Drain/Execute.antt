-- ===== src/Drain/Execute.antt =====
-- dropin/pipeline/drain.py: a whole drain. Opening and closing the run's row, the ceilings on the
-- cache and the progress events are left out.
use dropin.Prelude.{
  ℕ, ◌++◌, Bool, true, false, not, ◌&&◌, ◌||◌, Option, none, some, List, [], ◌∷◌, Text, codes,
  text_eq, any, filter_by, ltb, ◌==◌, sort_by, if◌then◌else◌, ok, err, bind,
}
use dropin.Attempts.{store, now, fail}
use dropin.Capture.{capture_item, walk_now}
use dropin.Capture.Admission.{admit}
use dropin.Capture.Scan.{scan}
use dropin.Drain.Advance.{advance}
use dropin.Drain.Base.{Settings}
use dropin.Drain.Emit.{emit_name}
use dropin.Drain.Passes.{active_occurrence, pending_intents, visit, intent_pass}
use dropin.Engine.{EngineError}
use dropin.Engine.Tags.{TagError, int_limit, parse_tags, tag, k_version, k_attempt}
use dropin.Errors.{
  Exn, Raises, special, os_error, engine_error, capture_aborted, tag_error, value_error,
  unsupported_entry, os_reason, not_quiescent, changed_in_capture, no_snapshot, engine_reason,
}
use dropin.Gates.Frontier.{Refusal, check_frontier}
use dropin.Gates.Reconcile.{absolute}
use dropin.Gates.Repository.{Snapshot}
use dropin.Outcome.{Outcome}
use dropin.Record.{CapturedItem, record_occurrence}
use dropin.Session.{Env, Run, pure, raise, gets, ask, call, catch, write, commit, ◌>>=◌, ◌>>◌}
use dropin.Store.{Store, Attempt, Occurrence, SnapshotStatus}
use dropin.Store.Records.{is_pending, observe_snapshot}

-- `_engine_reason`, without its limits on the length of the tail
abbrev pub engine_text : EngineError → Text
engine_text x = elim x.stderr_tail [ [] ↦ x.message | c ∷ tail ↦ x.message ++ (b'\n' ∷ c ∷ tail) ]

-- How the message of a refusal begins.
abbrev pub refusal_text : Refusal → Text
refusal_text (Refusal.malformed id x) =
    codes "snapshot " ++ (id ++ codes " has malformed reserved tags")
refusal_text (Refusal.recorded_differently id) =
    codes "snapshot " ++ (id ++ codes " carries tags this store recorded differently")
refusal_text (Refusal.unknown id) = codes "snapshot " ++ (id ++ codes " is not known to this store")
refusal_text (Refusal.not_merged id store_id seq) =
    codes "snapshot " ++ (id ++ (codes " belongs to store " ++ store_id))
refusal_text _ = []

-- How the frontier gate ends, where it raises nothing that ends the run.
pub data GateVerdict : Type 0 where
  passes : GateVerdict
  refused : Text → GateVerdict
  unreachable : EngineError → GateVerdict

-- `ORDER BY started_at, export_seq`
abbrev starts_before : Attempt → Attempt → Bool
starts_before a b =
    ltb a.started_at b.started_at || (a.started_at == b.started_at && ltb a.export_seq b.export_seq)

-- `pending_attempts`
unfoldable pub pending_attempts : Store → List Attempt
unfolding sort_by
pending_attempts db = sort_by starts_before (filter_by (λ a. is_pending a.outcome) db.attempts)

-- `except TagError`
abbrev pub is_tag_error : TagError → Bool
is_tag_error int_limit = false
is_tag_error _ = true

abbrev pub or_empty : Option Text → Text
or_empty none = []
or_empty (some text) = text

-- `f"{previous}\n{reason}" if previous else reason`
abbrev pub added : Option Text → Text → Text
added none reason = reason
added (some []) reason = reason
added (some (c ∷ previous)) reason = (c ∷ previous) ++ (b'\n' ∷ reason)

module _ {W : Type 0} (e : Env W) (c : Settings) (fuel : ℕ) where
  unfoldable pub refuse_run : Text → Run W (Unit {0})
  refuse_run text s = (ok tt, record s { report = record s.report { run_refusal = some text } })

  unfoldable pub add_refusal : Text → Run W (Unit {0})
  add_refusal text s = (
    ok tt,
    record s { report = record s.report { run_refusal = some (added s.report.run_refusal text) } },
  )

  unfoldable pub add_error : Text → Run W (Unit {0})
  add_error text s = (
    ok tt,
    record s { report = record s.report { run_error = some (added s.report.run_error text) } },
  )

  -- What a walk or a capture that raises leaves to report.
  abbrev pub not_captured : Text → Exn → Run W (Option Text)
  not_captured name (special p t) = do
    emit_name e Outcome.refused name (unsupported_entry p t)
    pure none
  not_captured name (os_error m) = do emit_name e Outcome.refused name (os_reason m); pure none
  not_captured name capture_aborted = do
    emit_name e Outcome.deferred name changed_in_capture
    pure none
  not_captured name x = raise x

  abbrev pub not_admitted : Text → Run W (Option Text)
  not_admitted name = do emit_name e Outcome.deferred name not_quiescent; pure none

  -- The item is captured; then `record_occurrence`.
  abbrev pub captured : Text → Text → Run W (Option CapturedItem)
  captured path name = do item ← capture_item e path name; pure (some item)

  abbrev pub recorded : Option CapturedItem → Run W (Option Text)
  recorded none = pure none
  recorded (some item) = do
    db ← store e
    occ_id ← ask (e.new_id db.store_id)
    n ← now e
    commit (record_occurrence occ_id item db.store_id n)
    pure (some occ_id)

  abbrev pub no_item : Run W (Option Text) → Run W (Option CapturedItem)
  no_item m = do m; pure none

  -- `_capture`
  unfoldable pub capture_path : Text → Text → Run W (Option Text)
  capture_path path name = do
    admitted ← admit e path c.settle_seconds c.sample_gap_seconds
    (if admitted
        then (do
          item ← catch (captured path name) (λ x. no_item (not_captured name x))
          recorded item)
        else catch (do walk_now e path; not_admitted name) (not_captured name))

  abbrev pub advance_found : Text → Text → Option Text → Run W (Unit {0})
  advance_found path name none = pure tt
  advance_found path name (some occ_id) = do
    visit e c fuel occ_id
    advance e c fuel occ_id path name

  abbrev pub spool_found : Text → Text → Option Occurrence → Run W (Unit {0})
  spool_found path name (some o) = advance_found path name (some o.occ_id)
  spool_found path name none = do occ_id ← capture_path path name; advance_found path name occ_id

  -- `_spool_item`, of a name in the drop folder
  unfoldable pub spool_item : Text → Run W (Unit {0})
  unfolding active_occurrence
  spool_item name = do
    db ← store e
    spool_found (absolute c.drop_dir name) name
        (active_occurrence (absolute c.drop_dir name) db.occurrences)

  unfoldable pub spool_pass : List Text → Run W (Unit {0})
  unfolding spool_item
  spool_pass [] = pure tt
  spool_pass (name ∷ rest) = spool_item name >> spool_pass rest

  -- The ledger gets what the repository shows; tags that do not parse are passed over.
  unfoldable pub observe_found : List Snapshot → ℕ → Store → Raises Store
  unfolding observe_snapshot
  observe_found [] n db = ok db
  observe_found (s ∷ rest) n db = elim (parse_tags s.tags) [
    | ok i ↦ bind (observe_snapshot s.id i SnapshotStatus.pending none n db) (observe_found rest n)
    | err x ↦ if is_tag_error x then observe_found rest n db else err (tag_error x)
  ]

  -- What the repository answers on a dormant attempt.
  abbrev pub settle_dormant : Text → List Snapshot → Run W (Unit {0})
  settle_dormant attempt_id [] = fail e attempt_id no_snapshot none
  settle_dormant attempt_id (s ∷ rest) = do n ← now e; commit (observe_found (s ∷ rest) n)

  -- An engine error settles nothing; it is noted, for the run if no item was begun.
  abbrev pub note_unread : Bool → Text → Exn → Run W (Option (List Snapshot))
  note_unread started attempt_id (engine_error x) = do
    (if started
        then add_error (codes "pending attempt " ++ (attempt_id ++ (codes ": " ++ engine_text x)))
        else add_refusal
            (codes "pending attempt " ++ (attempt_id ++ (codes ": " ++ engine_text x))))
    pure none
  note_unread started attempt_id x = raise x

  abbrev pub ask_dormant : Text → Run W (Option (List Snapshot))
  ask_dormant attempt_id = do
    found ← call (e.snapshots (tag k_attempt attempt_id))
    pure (some found)

  abbrev pub settle_asked : Text → Option (List Snapshot) → Run W (Unit {0})
  settle_asked attempt_id none = pure tt
  settle_asked attempt_id (some found) = settle_dormant attempt_id found

  unfoldable pub settle_all : Bool → List Attempt → Run W (Unit {0})
  unfolding observe_found
  settle_all started [] = pure tt
  settle_all started (a ∷ rest) = do
    found ← catch (ask_dormant a.attempt_id) (note_unread started a.attempt_id)
    settle_asked a.attempt_id found
    settle_all started rest

  -- `_dormant_attempt_pass`; nothing is visited meanwhile.
  unfoldable pub dormant_attempt_pass : Bool → Run W (Unit {0})
  unfolding settle_all pending_attempts
  dormant_attempt_pass started = do
    db ← store e
    visited ← gets (λ s. s.visited)
    settle_all started (filter_by (λ a. not (any (text_eq a.occ_id) visited)) (pending_attempts db))

  abbrev pub verdict_of : Option Refusal → Run W GateVerdict
  verdict_of none = pure GateVerdict.passes
  verdict_of (some Refusal.value_error) = raise (value_error (codes "int"))
  verdict_of (some (Refusal.raised x)) = raise x
  verdict_of (some x) = pure (GateVerdict.refused (refusal_text x))

  abbrev pub as_unreachable : Exn → Run W GateVerdict
  as_unreachable (engine_error x) = pure (GateVerdict.unreachable x)
  as_unreachable x = raise x

  -- `check_frontier` on what the repository lists
  unfoldable pub frontier : Run W GateVerdict
  unfolding check_frontier
  frontier =
      catch
        (do
          found ← call (e.snapshots (tag k_version (codes "1")))
          n ← now e
          db ← store e
          write (λ _. (check_frontier true db.store_id n found db).1)
          verdict_of (check_frontier true db.store_id n found db).0)
        as_unreachable

  unfoldable pub list_names : Run W (List Text)
  unfolding scan
  list_names = do names ← call (e.list_drop c.drop_dir); pure (scan names)

  abbrev pub not_scanned : Exn → Run W (List Text)
  not_scanned (os_error m) = do
    s ← gets (λ s. s.report.run_refusal)
    refuse_run (or_empty s ++ (codes "; spool scan failed: " ++ m))
    pure []
  not_scanned x = raise x

  unfoldable pub refuse_names : EngineError → List Text → Run W (Unit {0})
  refuse_names x [] = pure tt
  refuse_names x (name ∷ rest) = do
    emit_name e Outcome.refused name (engine_reason x)
    refuse_names x rest

  abbrev pub is_begun : List Text → List Occurrence → Bool
  is_begun [] [] = false
  is_begun _ _ = true

  -- The three passes.
  unfoldable pub three_passes : Run W (Unit {0})
  unfolding spool_pass dormant_attempt_pass
  three_passes = do
    names ← list_names
    spool_pass names
    db ← store e
    visited ← gets (λ s. s.visited)
    intent_pass e c fuel
    dormant_attempt_pass (is_begun names (pending_intents visited db))

  abbrev pub run_verdict : GateVerdict → Run W (Unit {0})
  run_verdict GateVerdict.passes = three_passes
  run_verdict (GateVerdict.refused text) = refuse_run text
  run_verdict (GateVerdict.unreachable x) = do
    refuse_run (codes "repository: " ++ engine_text x)
    names ← catch list_names not_scanned
    refuse_names x names

  -- `execute`
  unfoldable pub execute : Run W (Unit {0})
  unfolding frontier refuse_names
  execute = do verdict ← frontier; run_verdict verdict
