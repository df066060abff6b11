-- ===== src/Errors.antt =====
-- The exceptions of the pipeline and the reasons that it records and reports. A reason stands for
-- the message of the source, with the values that the message shows.
use dropin.Prelude.{ℕ, List, Text, Result}
use dropin.Engine.{EngineError}
use dropin.Engine.Tags.{TagError}
use dropin.Outcome.{Outcome}
use dropin.States.{State}

pub data Reason : Type 0 where
  no_snapshot duplicate : Reason
  source_changed source_changed_after_publication : Reason
  changed_at changed_after_at : Text → Text → Reason
  vanished : Reason
  partial_backup : ℕ → Reason
  backup_failed : EngineError → Reason
  engine_failure : EngineError → Reason
  engine_reason : EngineError → Reason
  io_failure : Text → Reason
  os_reason : Text → Reason
  verification : Text → Text → Reason
  catalog : Text → Reason
  catalog_tags : TagError → Reason
  snapshot_gone : Reason
  no_pending : Reason
  confirmed_recorded : Reason
  backoff : ℕ → Reason
  exhausted : ℕ → Reason
  occurrence_is : State → Reason
  unsupported_entry : Text → Text → Reason
  not_quiescent changed_in_capture : Reason
  no_capability : Text → Reason
  open_writer : Text → List ℕ → Reason
  no_intent recovered_absent : Reason
  identity_changed type_changed : Text → Reason
  field_changed : Text → Text → Reason
  not_empty : Text → Text → Reason
  not_removed : Text → Text → Reason
  malformed_tags : TagError → Reason
  export_missing export_ambiguous : Reason
  excluded : Reason → Reason
  excluded_unexplained : Reason
  verification_engine : EngineError → Reason
  superseded : Text → Reason
  no_proof manual : Reason
  unrecoverable : Text → Reason → Reason
  unrecoverable_unexplained : Text → Reason

-- Each exception class is a constructor. A path is relative to the item, `[]` for its root.
pub data Exn : Type 0 where
  stop : Outcome → Reason → Exn
  stopped : Outcome → Exn
  engine_error : EngineError → Exn
  os_error : Text → Exn
  changed : Text → Text → Exn
  special : Text → Text → Exn
  reconcile_error : Text → Text → Exn
  payload_error : Text → Text → Exn
  catalog_error : Text → Exn
  tag_error : TagError → Exn
  tar_error : Text → Exn
  retained_error : Reason → Exn
  unsupported : Text → Exn
  attempt_failed : Text → Exn
  identity_collision : Text → Exn
  lookup_error : Text → Exn
  integrity_error : Text → Exn
  type_error value_error : Text → Exn
  recover_refused : Text → Exn
  capture_aborted : Exn

abbrev pub Raises : Type 0 → Type 0
Raises A = Result Exn A
