-- ===== src/Gates/Repository.antt =====
-- What the repository engine hands out (dropin/engine/interface.py, and the members of a tar stream
-- as Python's `tarfile` reads them).
use dropin.Prelude.{ℕ, Option, List, Text}
use dropin.Errors.{Exn}

pub record Snapshot : Type 0 where
  pub id : Text
  pub time : Text
  pub paths : List Text
  pub tags : List Text

pub data NodeType : Type 0 where
  file dir symlink other : NodeType

-- One entry of `ls --json`.
pub record Node : Type 0 where
  pub path : Text
  pub node_type : NodeType
  pub size : Option ℕ

pub record BackupResult : Type 0 where
  pub snapshot_id : Text
  pub exit_code : ℕ

pub data MemberType : Type 0 where
  sym dir lnk reg other : MemberType

-- One member of a tar stream; `digest` is the SHA-256 of its content, if it can be read.
pub record Member : Type 0 where
  pub name : Text
  pub member_type : MemberType
  pub linkname : Text
  pub digest : Option Text

-- What an iterator yields, and the exception that ends it early.
abbrev pub Stream : Type 0 → Type 0
Stream A = List A × Option Exn
