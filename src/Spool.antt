-- ===== src/Spool.antt =====
-- dropin/spool/walk.py: what the pipeline reads
-- of the drop folder. File names are their bytes, as `os.fsencode` gives them.
pub mod Walk
use dropin.Prelude.{ℕ, Option, List, Text}

-- `stat.S_IFMT` of a mode
pub data FileType : Type 0 where
  regular directory link fifo socket char_device block_device unknown : FileType

pub record Stat : Type 0 where
  pub file_type : FileType
  pub mode : ℕ
  pub size : ℕ
  pub mtime_ns : ℕ
  pub ctime_ns : ℕ
  pub inode : ℕ
  pub dev : ℕ
  pub link_target : Text

-- What one walk gets from `lstat`, `readlink` and `listdir`: the status of each entry, the children
-- of each directory as they are listed, and the error where a call fails.
mutual
  pub data Tree : Type 0 where
    unreadable : Text → Tree
    leaf : Stat → Tree
    folder : Stat → Forest → Tree
    closed : Stat → Text → Tree

  pub data Forest : Type 0 where
    empty : Forest
    child : Text → Tree → Forest → Forest
