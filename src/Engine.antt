-- ===== src/Engine.antt =====
-- dropin/engine/interface.py: the types that the pipeline exchanges with the repository. The
-- engine itself is a parameter of what uses it.
pub mod Tags
use dropin.Prelude.{ℕ, ◌++◌, Option, List, [], ◌∷◌, Text, codes}
use Tags.Decimal.{str}

pub data EngineKind : Type 0 where
  no_repo locked bad_password incompatible_repository : EngineKind
  corrupt missing tool_error : EngineKind

pub record EngineError : Type 0 where
  pub kind : EngineKind
  pub message : Text
  pub stderr_tail : Text
