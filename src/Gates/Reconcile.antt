-- ===== src/Gates/Reconcile.antt =====
-- dropin/pipeline/reconcile.py: the snapshot's listing against the manifest. `rows` are the entry
-- rows of the occurrence, in order; no two have one path, by the primary key.
pub mod Exact
use dropin.Prelude.{
  ℕ, ◌++◌, Bool, true, false, not, Option, none, some, List, [], ◌∷◌, Text, codes, text_eq, find_by,
  any, strip_prefix, if◌then◌else◌, ok, err,
}
use dropin.Errors.{Exn, Raises, reconcile_error}
use dropin.Gates.Equal.{type_eq, size_eq}
use dropin.Gates.Repository.{Node, NodeType, Stream}
use dropin.Store.{Entry, EntryType}

-- `_absolute`
abbrev pub absolute : Text → Text → Text
absolute spool_path [] = spool_path
absolute spool_path (c ∷ rel) = spool_path ++ (b'/' ∷ c ∷ rel)

-- `spool_path.rstrip("/")`
unfoldable pub rstrip_slash : Text → Text
rstrip_slash [] = []
rstrip_slash (c ∷ s) = elim (rstrip_slash s) [
  | [] ↦ if text_eq (c ∷ []) (codes "/") then [] else c ∷ []
  | d ∷ t ↦ c ∷ d ∷ t
]

abbrev or_whole : Text → Option Text → Text
or_whole path none = path
or_whole path (some rest) = rest

-- `_relative`
unfoldable pub relative : Text → Text → Text
unfolding rstrip_slash
relative spool_path path =
    if text_eq path spool_path
    then []
    else or_whole path (strip_prefix (rstrip_slash spool_path ++ codes "/") path)

abbrev pub same_type : NodeType → EntryType → Bool
same_type NodeType.file EntryType.file = true
same_type NodeType.dir EntryType.dir = true
same_type NodeType.symlink EntryType.symlink = true
same_type _ _ = false

-- `expected.get(path)`
abbrev pub expected_at : Text → List Entry → Text → Option Entry
expected_at spool_path rows path =
    find_by (λ row. text_eq path (absolute spool_path row.rel_path)) rows

abbrev is_file : EntryType → Bool
is_file EntryType.file = true
is_file _ = false

abbrev check_size : Node → Entry → Raises (Unit {0})
check_size node row =
    if is_file row.entry_type
    then if size_eq node.size row.size_bytes
      then ok tt
      else err (reconcile_error row.rel_path (codes "size differs"))
    else ok tt

-- The checks on one node of the listing.
unfoldable pub check_node : Text → List Entry → Node → Raises (Unit {0})
unfolding size_eq
check_node spool_path rows node = elim (expected_at spool_path rows node.path) [
  | none ↦ err (
      reconcile_error (relative spool_path node.path)
        (codes "entry is in the snapshot but not the manifest"))
  | some row ↦
      if same_type node.node_type row.entry_type
      then check_size node row
      else err (reconcile_error row.rel_path (codes "type differs"))
]

unfoldable pub check_nodes : Text → List Entry → List Node → Raises (Unit {0})
unfolding check_node
check_nodes spool_path rows [] = ok tt
check_nodes spool_path rows (n ∷ ns) = elim (check_node spool_path rows n) [
  | ok _ ↦ check_nodes spool_path rows ns
  | err x ↦ err x
]

abbrev pub is_listed : Text → List Node → Entry → Bool
is_listed spool_path nodes row = any (λ n. text_eq (absolute spool_path row.rel_path) n.path) nodes

-- The loop over `expected` for entries that were not seen.
unfoldable pub check_missing : Text → List Node → List Entry → Raises (Unit {0})
check_missing spool_path nodes [] = ok tt
check_missing spool_path nodes (row ∷ rows) =
    if is_listed spool_path nodes row
    then check_missing spool_path nodes rows
    else err (reconcile_error row.rel_path (codes "entry is missing from the snapshot"))

-- How the listing ended, and the search for missing entries if it ended by itself.
abbrev pub check_rest : Text → List Node → List Entry → Option Exn → Raises (Unit {0})
check_rest spool_path nodes rows none = check_missing spool_path nodes rows
check_rest spool_path nodes rows (some x) = err x

unfoldable pub reconcile : Text → List Entry → Stream Node → Raises (Unit {0})
unfolding check_nodes check_missing
reconcile spool_path rows (nodes, ended) = elim (check_nodes spool_path rows nodes) [
  | ok _ ↦ check_rest spool_path nodes rows ended
  | err x ↦ err x
]
