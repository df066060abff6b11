-- ===== src/Report/Exit.antt =====
-- The exit code of a run as the worst thing that it met (dropin/report.py).
use dropin.Prelude.{
  ℕ, ◌-◌, ◌≤◌, ◌≡◌, ◌↔◌, ◌⊎◌, inl, inr, refl, true, false, Option, none, some, List, All, Text, ◌∷◌,
  [], any-append, leb, if◌then◌else◌, arith,
}
use dropin.Outcome.{Outcome}
use dropin.Report.{
  OutcomeRecord, Report, is_item_failure, is_verification_failure, is_set, has_outcome, exit_code,
  add,
}

-- How bad an exit code is: a refused run before a failed verification before a failed item.
abbrev pub severity : ℕ → ℕ
severity code = if leb code 1 then code else 7 - code

-- One more record never makes a run look better.
pub exit_code-add-le :
    (r : OutcomeRecord) (report : Report)
    → severity (exit_code report) ≤ severity (exit_code (add r report))
unfolding exit_code add
exit_code-add-le r report = ground (
  arith,
  any-append (λ (x : OutcomeRecord). is_verification_failure x.outcome) report.records (r ∷ []),
  any-append (λ (x : OutcomeRecord). is_item_failure x.outcome) report.records (r ∷ []),
)

-- The outcomes that a run can be content with.
pub data IsFine : Outcome → Type 0 where
  archived : IsFine Outcome.archived
  already_archived : IsFine Outcome.already_archived
  verified : IsFine Outcome.verified
  restored : IsFine Outcome.restored
  orphaned : IsFine Outcome.orphaned
  queued : IsFine Outcome.queued
  info : IsFine Outcome.info

-- `None`, or the empty text.
abbrev pub IsUnset : Option Text → Type 0
IsUnset t = (t ≡ none) ⊎ (t ≡ some [])

fine_lem : (x : Outcome) → is_verification_failure x ≡ false → is_item_failure x ≡ false → IsFine x
fine_lem Outcome.archived v i = archived
fine_lem Outcome.already_archived v i = already_archived
fine_lem Outcome.verified v i = verified
fine_lem Outcome.restored v i = restored
fine_lem Outcome.orphaned v i = orphaned
fine_lem Outcome.queued v i = queued
fine_lem Outcome.info v i = info
fine_lem Outcome.deferred v i = cc
fine_lem Outcome.refused v i = cc
fine_lem Outcome.retained v i = cc
fine_lem Outcome.corrupt v i = cc
fine_lem Outcome.missing v i = cc

IsFine-unfailed :
    {x : Outcome} → IsFine x → (is_verification_failure x ≡ false) × (is_item_failure x ≡ false)
IsFine-unfailed archived = (refl, refl)
IsFine-unfailed already_archived = (refl, refl)
IsFine-unfailed verified = (refl, refl)
IsFine-unfailed restored = (refl, refl)
IsFine-unfailed orphaned = (refl, refl)
IsFine-unfailed queued = (refl, refl)
IsFine-unfailed info = (refl, refl)

all_fine :
    (records : List OutcomeRecord)
    → has_outcome is_verification_failure records ≡ false
    → has_outcome is_item_failure records ≡ false
    → All (λ r. IsFine r.outcome) records
all_fine [] v i = tt
all_fine (r ∷ rest) v i = (
  fine_lem r.outcome (ground (arith, v)) (ground (arith, i)),
  all_fine rest (ground (arith, v)) (ground (arith, i)),
)

none_failed :
    (records : List OutcomeRecord)
    → All (λ r. IsFine r.outcome) records
    → (has_outcome is_verification_failure records ≡ false)
      × (has_outcome is_item_failure records ≡ false)
none_failed [] f = (refl, refl)
none_failed (r ∷ rest) f =
    let first = IsFine-unfailed f.0 in
    let others = none_failed rest f.1 in
    (ground (arith, first.0, others.0), ground (arith, first.1, others.1))

unset_lem : (t : Option Text) → (is_set t ≡ false) ↔ IsUnset t
unset_lem none = ((λ h. inl refl), (λ h. refl))
unset_lem (some []) = ((λ h. inr refl), (λ h. refl))
unset_lem (some (c ∷ s)) = ((λ h. cc), go)
  where
    go : IsUnset (some (c ∷ s)) → true ≡ false
    go (inl h) = cc
    go (inr h) = cc

exit_code-unset :
    (report : Report)
    → (exit_code report ≡ 0) ↔ (
        (is_set report.run_refusal ≡ false)
        × (is_set report.run_error ≡ false)
        × (has_outcome is_verification_failure report.records ≡ false)
        × (has_outcome is_item_failure report.records ≡ false))
unfolding exit_code
exit_code-unset report = (λ h. ground arith, λ h. ground arith)

-- The exit code says success exactly when the run has no text of a refusal and none of an error, and
-- every record says archived, already archived, verified, restored, orphaned, queued or info.
pub exit_code_ok :
    (report : Report)
    → (exit_code report ≡ 0) ↔ (
        IsUnset report.run_refusal
        × IsUnset report.run_error
        × All (λ r. IsFine r.outcome) report.records)
exit_code_ok report = (
  λ h.
      let (refusal, error, v, i) = (exit_code-unset report).0 h in
      (
        (unset_lem report.run_refusal).0 refusal,
        (unset_lem report.run_error).0 error,
        all_fine report.records v i,
      ),
  λ h.
      let failed = none_failed report.records h.2 in
      (exit_code-unset report).1 (
        (unset_lem report.run_refusal).1 h.0,
        (unset_lem report.run_error).1 h.1,
        failed.0,
        failed.1,
      ),
)
