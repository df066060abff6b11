-- ===== src/Examples/Records.antt =====
-- Report, states and retries at concrete inputs.
use dropin.Prelude.{
  ℕ, ◌≡◌, refl, ◌+◌, ◌*◌, ◌≤◌, ◌<◌, ◌⊎◌, ◌↔◌, ◌≢◌, true, false, none, some, [], ◌∷◌, codes, All,
  any, length,
}
use dropin.Attempts.{last_end, Retry, retry_state, failures, epoch}
use dropin.Attempts.Budget.{retry_state_ready, retry_state-deferred}
use dropin.Errors.{Reason, no_snapshot, backoff}
use dropin.Outcome.{Outcome}
use dropin.Report.{OutcomeRecord, Report, add, exit_code}
use dropin.Report.Exit.{severity, exit_code-add-le, exit_code_ok, IsFine, IsUnset}
use dropin.States.{
  recorded, transferred, verified, recoverable, evicting, evicted, abandoned, is_before,
}
use dropin.States.Reach.{
  Reach, here, next, is_deleting, Reach-is_deleting, can_transition_shape, evicted_through_evicting,
}
use dropin.Session.{nanoseconds}
use dropin.Store.{Attempt, AttemptOutcome}
use dropin.Store.Records.{is_confirmed, is_failed}

abbrev deferred_item : OutcomeRecord
deferred_item = record {
  verb = codes "run";
  outcome = Outcome.deferred;
  name = codes "notes";
  run_id = codes "r1";
  archive_path = none;
  kind = none;
  state = none;
  snapshot = none;
  sha256 = none;
  size = none;
  dedup = false;
  reason = some no_snapshot;
}

abbrev empty_report : Report
empty_report = record {
  verb = codes "run";
  run_id = codes "r1";
  records = [];
  run_refusal = none;
  run_error = none;
}

exit_code-add-le_example :
    severity (exit_code empty_report) ≤ severity (exit_code (add deferred_item empty_report))
exit_code-add-le_example = exit_code-add-le deferred_item empty_report

exit_code_ok_example : (exit_code empty_report ≡ 0) ↔ (
    IsUnset empty_report.run_refusal
    × IsUnset empty_report.run_error
    × All (λ r. IsFine r.outcome) empty_report.records)
exit_code_ok_example = exit_code_ok empty_report

evicting_to_evicted : Reach evicting evicted
evicting_to_evicted = next evicted here refl

Reach-is_deleting_example : is_deleting evicted ≡ true
Reach-is_deleting_example = Reach-is_deleting evicting evicted refl evicting_to_evicted

can_transition_shape_example :
    (is_before transferred recorded ≡ some true)
    ⊎ ((recorded ≡ recorded) × ((transferred ≡ transferred) ⊎ (transferred ≡ verified)))
    ⊎ ((recorded ≡ abandoned) × (is_before transferred evicting ≡ some true))
can_transition_shape_example = can_transition_shape transferred recorded refl

recoverable_to_evicted : Reach recoverable evicted
recoverable_to_evicted = next evicted (next evicting here refl) refl

not_evicted : recoverable ≢ evicted
not_evicted h = cc

evicted_through_evicting_example : Reach recoverable evicting
evicted_through_evicting_example =
    evicted_through_evicting recoverable not_evicted recoverable_to_evicted

abbrev failed_at : ℕ → Attempt
failed_at t = record {
  attempt_id = codes "a1";
  origin_store_id = codes "s";
  occ_id = codes "o1";
  export_seq = 1;
  export_sha256 = none;
  export_path = codes "/x";
  started_at = 100;
  snapshot_id = none;
  outcome = AttemptOutcome.failed;
  reason = some no_snapshot;
  finished_at = some t;
}

ready_again : retry_state (failed_at 100 ∷ []) 3 60000000000 200000000000 false ≡ Retry.ready
unfolding retry_state last_end
ready_again = refl

retry_state_ready_example :
    (any (λ a. is_confirmed a.outcome) (failed_at 100 ∷ []) ≡ false)
    × All
        (λ a.
          is_failed a.outcome ≡ true
          → epoch a.finished_at * nanoseconds + 60000000000 ≤ 200000000000)
        (failed_at 100 ∷ [])
    × ((length (failures (failed_at 100 ∷ [])) < 3) ⊎ (false ≡ true))
retry_state_ready_example =
    retry_state_ready (failed_at 100 ∷ []) 3 60000000000 200000000000 false ready_again

deferred_still :
    retry_state (failed_at 100 ∷ []) 3 60000000000 120500000000 false ≡ Retry.deferred (backoff 39)
unfolding retry_state last_end
deferred_still = refl

retry_state-deferred_example :
    ((d : ℕ)
      → d < 39 * nanoseconds
      → (m : ℕ) × (retry_state (failed_at 100 ∷ []) 3 60000000000 (120500000000 + d) false
          ≡ Retry.deferred (backoff m)))
    × ((reason : Reason)
        → retry_state (failed_at 100 ∷ []) 3 60000000000 (120500000000 + 40 * nanoseconds) false
          ≢ Retry.deferred reason)
retry_state-deferred_example =
    retry_state-deferred (failed_at 100 ∷ []) 3 60000000000 120500000000 false 39 deferred_still
