-- ===== src/Drain/Emit.antt =====
-- dropin/pipeline/drain.py: the report of an item's outcome, with its row of `run_event`.
use Prim.Native.Nat.{max}
use dropin.Prelude.{ℕ, ◌+◌, ◌++◌, Bool, true, false, Option, none, some, List, [], ◌∷◌, Text, ok}
use dropin.Attempts.{store}
use dropin.Errors.{Reason}
use dropin.Outcome.{Outcome}
use dropin.Report.{OutcomeRecord, Report, add}
use dropin.Session.{Env, Run, lift, gets, write, seconds_of, ◌>>=◌, ◌>>◌}
use dropin.States.{State}
use dropin.Store.{Store, Occurrence, Attempt, RunEvent}
use dropin.Store.Laws.{pending_row, confirmed_row}
use dropin.Store.Records.{get_occurrence, latest_by}

-- `outcome IN ('confirmed', 'pending')`, the confirmed attempt first, then the latest
unfoldable pub shown_attempt : Text → List Attempt → Option Attempt
shown_attempt occ_id attempts = elim (latest_by (confirmed_row occ_id) attempts) [
  | some a ↦ some a
  | none ↦ latest_by (pending_row occ_id) attempts
]

abbrev pub snapshot_shown : Option Attempt → Option Text
snapshot_shown none = none
snapshot_shown (some a) = a.snapshot_id

abbrev pub is_some : Option Text → Bool
is_some none = false
is_some (some s) = true

-- `coalesce(max(seq), 0)`
unfoldable pub last_seq : List RunEvent → ℕ
last_seq [] = 0
last_seq (v ∷ vs) = max v.seq (last_seq vs)

unfoldable pub put_event : Option Text → Outcome → Text → Option Reason → ℕ → Store → Store
unfolding last_seq
put_event occ_id outcome name reason n db = record db {
  events =
      db.events
      ++ record {
        seq = last_seq db.events + 1;
        occ_id = occ_id;
        outcome = outcome;
        name = name;
        reason = reason;
        recorded_at = n;
      }
        ∷ [];
}

module _ {W : Type 0} (e : Env W) where
  abbrev pub shown :
      Report → Outcome → Text → Option Reason → Occurrence → Option Text → OutcomeRecord
  shown report outcome name reason o snapshot = record {
    verb = report.verb;
    outcome = outcome;
    name = name;
    run_id = report.run_id;
    archive_path = some o.archive_path;
    kind = some o.kind;
    state = some o.state;
    snapshot = snapshot;
    sha256 = some o.root_sha256;
    size = some o.size_bytes;
    dedup = is_some o.dedup_of;
    reason = reason;
  }

  unfoldable pub report_item : OutcomeRecord → Run W (Unit {0})
  unfolding add
  report_item r s = (ok tt, record s { report = add r s.report })

  -- `report.item` with few fields
  unfoldable pub report_line :
      Outcome → Text → Option Text → Option Text → Option State → Option Reason → Run W (Unit {0})
  unfolding report_item
  report_line outcome name archive_path kind state reason = do
    report ← gets (λ s. s.report)
    report_item (record {
      verb = report.verb;
      outcome = outcome;
      name = name;
      run_id = report.run_id;
      archive_path = archive_path;
      kind = kind;
      state = state;
      snapshot = none;
      sha256 = none;
      size = none;
      dedup = false;
      reason = reason;
    })

  -- `_emit` for an occurrence
  unfoldable pub emit : Outcome → Text → Text → Option Reason → Run W (Unit {0})
  unfolding report_item
  emit outcome name occ_id reason = do
    db ← store e
    o ← lift (get_occurrence db occ_id)
    report ← gets (λ s. s.report)
    report_item
        (shown report outcome name reason o (snapshot_shown (shown_attempt occ_id db.attempts)))
    n ← gets (λ s. seconds_of (e.clock s.world))
    write (put_event (some occ_id) outcome name reason n)

  -- `_emit` without an occurrence
  unfoldable pub emit_name : Outcome → Text → Reason → Run W (Unit {0})
  unfolding report_line
  emit_name outcome name reason = do
    report_line outcome name none none none (some reason)
    n ← gets (λ s. seconds_of (e.clock s.world))
    write (put_event none outcome name (some reason) n)
