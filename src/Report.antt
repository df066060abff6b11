-- ===== src/Report.antt =====
-- dropin/report.py: outcome records and the exit-code policy.
pub mod Exit
pub use dropin.Outcome.{Outcome}
use dropin.Outcome.{deferred, refused, retained, corrupt, missing}
use dropin.Errors.{Reason}
use dropin.States.{State}
use dropin.Prelude.{
  ℕ, ◌+◌, Bool, true, false, ◌&&◌, ◌||◌, not, Option, none, some, List, [], ◌∷◌, ◌++◌, Text, any,
  if◌then◌else◌,
}

abbrev pub exit_ok : ℕ
exit_ok = 0

abbrev pub exit_item_failure : ℕ
exit_item_failure = 1

abbrev pub exit_run_refused : ℕ
exit_run_refused = 3

abbrev pub exit_verification : ℕ
exit_verification = 4

-- `ITEM_FAILURES`
abbrev pub is_item_failure : Outcome → Bool
is_item_failure deferred = true
is_item_failure refused = true
is_item_failure retained = true
is_item_failure _ = false

-- `VERIFICATION_FAILURES`
abbrev pub is_verification_failure : Outcome → Bool
is_verification_failure corrupt = true
is_verification_failure missing = true
is_verification_failure _ = false

pub record OutcomeRecord : Type 0 where
  pub verb : Text
  pub outcome : Outcome
  pub name : Text
  pub run_id : Text
  pub archive_path : Option Text
  pub kind : Option Text
  pub state : Option State
  pub snapshot : Option Text
  pub sha256 : Option Text
  pub size : Option ℕ
  pub dedup : Bool
  pub reason : Option Reason

-- An optional text in a Boolean position: `None` and the empty text are false.
abbrev pub is_set : Option Text → Bool
is_set none = false
is_set (some []) = false
is_set (some (c ∷ s)) = true

-- `outcomes & SET`, where `outcomes` is the set of the records' outcomes
abbrev pub has_outcome : (Outcome → Bool) → List OutcomeRecord → Bool
has_outcome p records = any (λ r. p r.outcome) records

pub exit_code_for : List OutcomeRecord → Option Text → Option Text → ℕ
exit_code_for records run_refusal run_error =
    if is_set run_refusal
    then exit_run_refused
    else if has_outcome is_verification_failure records
    then exit_verification
    else if is_set run_error || has_outcome is_item_failure records
    then exit_item_failure
    else exit_ok

pub status_exit_code : Bool → Bool → Bool → ℕ
status_exit_code attention unreachable offline =
    if unreachable && not offline
    then exit_run_refused
    else if attention
    then exit_item_failure
    else exit_ok

pub record Report : Type 0 where
  pub verb : Text
  pub run_id : Text
  pub records : List OutcomeRecord
  pub run_refusal : Option Text
  pub run_error : Option Text

unfoldable pub add : OutcomeRecord → Report → Report
add r report = record report { records = report.records ++ r ∷ [] }

pub exit_code : Report → ℕ
unfolding exit_code_for
exit_code report = exit_code_for report.records report.run_refusal report.run_error
