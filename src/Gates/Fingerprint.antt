-- ===== src/Gates/Fingerprint.antt =====
-- dropin/pipeline/fingerprint.py: is this still the item that was recorded?
pub mod Exact
pub mod Passes
pub mod Captured
use dropin.Prelude.{
  ℕ, ◌++◌, Bool, true, false, not, ◌&&◌, Option, none, some, List, [], ◌∷◌, Text, codes, text_eq,
  text_lt, find_by, filter_by, any, if◌then◌else◌, ok, err, ◌==◌,
}
use dropin.Errors.{Exn, Raises, changed, os_error, integrity_error}
use dropin.Gates.Equal.{type_eq, size_eq, opt_text_eq}
use dropin.Spool.Walk.{WalkEntry, Walked}
use dropin.Store.{Fingerprint}

-- The row of one path of an occurrence, by primary key.
abbrev pub row_is : Text → Text → Fingerprint → Bool
row_is occ_id rel_path r = text_eq occ_id r.occ_id && text_eq rel_path r.rel_path

-- The first of `FIELDS` in which the row and the live entry differ.
unfoldable pub first_difference : Fingerprint → WalkEntry → Option Text
unfolding size_eq opt_text_eq
first_difference r e =
    if not (type_eq r.entry_type e.entry_type)
    then some (codes "entry_type")
    else if not (size_eq r.size_bytes e.size_bytes)
    then some (codes "size_bytes")
    else if not (r.mtime_ns == e.mtime_ns)
    then some (codes "mtime_ns")
    else if not (r.ctime_ns == e.ctime_ns)
    then some (codes "ctime_ns")
    else if not (r.inode == e.inode)
    then some (codes "inode")
    else if not (r.dev == e.dev)
    then some (codes "dev")
    else if not (opt_text_eq r.link_target e.link_target)
    then some (codes "link_target")
    else none

-- The checks on one live entry; `seen` is the temporary table of paths.
unfoldable pub check_entry : List Fingerprint → Text → List Text → WalkEntry → Raises (List Text)
unfolding first_difference
check_entry rows occ_id seen e = elim (find_by (row_is occ_id e.rel_path) rows) [
  | none ↦ err (changed e.rel_path (codes "entry added"))
  | some r ↦ elim (first_difference r e) [
    | some field ↦ err (changed e.rel_path field)
    | none ↦
        if any (text_eq e.rel_path) seen
        then err (integrity_error e.rel_path)
        else ok (e.rel_path ∷ seen)
  ]
]

unfoldable pub check_entries :
    List Fingerprint → Text → List Text → List WalkEntry → Raises (List Text)
unfolding check_entry
check_entries rows occ_id seen [] = ok seen
check_entries rows occ_id seen (e ∷ es) = elim (check_entry rows occ_id seen e) [
  | ok seen' ↦ check_entries rows occ_id seen' es
  | err x ↦ err x
]

-- `ORDER BY rel_path LIMIT 1`
unfoldable pub least_path : List Fingerprint → Option Text
least_path [] = none
least_path (r ∷ rs) = elim (least_path rs) [
  | none ↦ some r.rel_path
  | some p ↦ some (if text_lt p r.rel_path then p else r.rel_path)
]

-- The rows of the occurrence that no live entry met.
abbrev pub removed_rows : List Fingerprint → Text → List Text → List Fingerprint
removed_rows rows occ_id seen =
    filter_by (λ r. text_eq occ_id r.occ_id && not (any (text_eq r.rel_path) seen)) rows

abbrev pub check_removed : List Fingerprint → Text → List Text → Raises (Unit {0})
check_removed rows occ_id seen = elim (least_path (removed_rows rows occ_id seen)) [
  | none ↦ ok tt
  | some p ↦ err (changed p (codes "entry removed"))
]

-- How the walk ended: a source that vanished or became unreadable is a changed source.
abbrev pub check_end : List Fingerprint → Text → Option Exn → List Text → Raises (Unit {0})
check_end rows occ_id none seen = check_removed rows occ_id seen
check_end rows occ_id (some (os_error e)) seen = err (changed [] e)
check_end rows occ_id (some x) seen = err x

unfoldable pub compare : List Fingerprint → Text → Walked → Raises (Unit {0})
unfolding check_entries least_path
compare rows occ_id (entries, ended) = elim (check_entries rows occ_id [] entries) [
  | ok seen ↦ check_end rows occ_id ended seen
  | err x ↦ err x
]

abbrev pub fingerprint_row : Text → WalkEntry → Fingerprint
fingerprint_row occ_id e = record {
  occ_id = occ_id;
  rel_path = e.rel_path;
  entry_type = e.entry_type;
  size_bytes = e.size_bytes;
  mtime_ns = e.mtime_ns;
  ctime_ns = e.ctime_ns;
  inode = e.inode;
  dev = e.dev;
  link_target = e.link_target;
}

-- `capture`, in the transaction of the caller: a row for each entry; the primary key refuses a path
-- that the occurrence has already.
unfoldable pub capture : Text → List WalkEntry → List Fingerprint → Raises (List Fingerprint)
capture occ_id [] rows = ok rows
capture occ_id (e ∷ es) rows =
    if any (row_is occ_id e.rel_path) rows
    then err (integrity_error e.rel_path)
    else capture occ_id es (rows ++ fingerprint_row occ_id e ∷ [])
