-- ===== src/Gates/Payload.antt =====
-- dropin/pipeline/verify.py: the archived bytes against the record. `rows` are the entry rows of the
-- occurrence, in order.
pub mod MemberPath
pub mod Tree
use dropin.Prelude.{
  ◌++◌, Bool, true, false, not, ◌&&◌, ◌||◌, Option, none, some, List, [], ◌∷◌, Text, codes, text_eq,
  text_lt, starts_with, strip_prefix, find_by, filter_by, any, ◌==◌, if◌then◌else◌, ok, err,
}
use dropin.Errors.{Exn, Raises, payload_error, tar_error, lookup_error}
use dropin.Gates.Equal.{type_eq, opt_text_eq}
use dropin.Gates.Repository.{Member, MemberType, Stream}
use dropin.Store.{Entry, EntryType}

-- `s.split(sep)`: the first piece, and the others.
unfoldable pub split_at : Text → Text × List Text
split_at [] = ([], [])
split_at (c ∷ s) =
    if c == b'/'
    then ([], (split_at s).0 ∷ (split_at s).1)
    else (c ∷ (split_at s).0, (split_at s).1)

unfoldable pub split : Text → List Text
unfolding split_at
split s = (split_at s).0 ∷ (split_at s).1

abbrev pub is_dot : Text → Bool
is_dot part = text_eq (codes "..") part || text_eq (codes ".") part

-- `s.lstrip("/")`
unfoldable pub lstrip_slash : Text → Text
lstrip_slash [] = []
lstrip_slash (c ∷ s) = if c == b'/' then lstrip_slash s else c ∷ s

abbrev below : Text → Option Text → Raises Text
below name none = err (payload_error name (codes "member is outside the item"))
below name (some rel) = ok rel

-- `_member_rel_path`
unfoldable pub member_rel_path : Text → Text → Raises Text
member_rel_path name prefix =
    if starts_with name (codes "/")
    then err (payload_error name (codes "absolute member name"))
    else if any is_dot (split name)
    then err (payload_error name (codes "member name contains a dot segment"))
    else if text_eq name prefix
    then ok []
    else below name (strip_prefix (prefix ++ codes "/") name)

abbrev refuse_unless : Bool → Text → Text → Raises (Unit {0}) → Raises (Unit {0})
refuse_unless true rel detail rest = rest
refuse_unless false rel detail rest = err (payload_error rel detail)

abbrev check_content : Entry → Text → Option Text → Raises (Unit {0})
check_content row rel none = err (payload_error rel (codes "member has no readable content"))
check_content row rel (some digest) =
    refuse_unless (opt_text_eq (some digest) row.sha256) rel
      (codes "content hash differs from the record") (ok tt)

abbrev check_typed : Member → Entry → Text → MemberType → Raises (Unit {0})
check_typed m row rel MemberType.sym =
    refuse_unless (type_eq row.entry_type EntryType.symlink) rel
      (codes "member is a symlink, manifest is not")
      (refuse_unless (opt_text_eq (some m.linkname) row.link_target) rel
        (codes "link target differs") (ok tt))
check_typed m row rel MemberType.dir =
    refuse_unless (type_eq row.entry_type EntryType.dir) rel
      (codes "member is a directory, manifest is not") (ok tt)
check_typed m row rel MemberType.lnk = err (payload_error rel (codes "unexpected hardlink member"))
check_typed m row rel MemberType.other = err (payload_error rel (codes "unsupported member type"))
check_typed m row rel MemberType.reg =
    refuse_unless (type_eq row.entry_type EntryType.file) rel
      (codes "member is a regular file, manifest is not") (check_content row rel m.digest)

-- `_check_member`
unfoldable pub check_member : Member → Entry → Text → Raises (Unit {0})
check_member m row rel = check_typed m row rel m.member_type

abbrev pub entry_at : List Entry → Text → Option Entry
entry_at rows rel = find_by (λ row. text_eq rel row.rel_path) rows

-- The checks on one member, by its relative path; `seen` is the temporary table.
unfoldable pub check_path : List Entry → List Text → Member → Text → Raises (List Text)
unfolding check_member
check_path rows seen m rel =
    if any (text_eq rel) seen
    then err (payload_error rel (codes "duplicate member in stream"))
    else elim (entry_at rows rel) [
      | none ↦ err (payload_error rel (codes "member is in the stream but not the manifest"))
      | some row ↦ elim (check_member m row rel) [ ok _ ↦ ok (rel ∷ seen) | err x ↦ err x ]
    ]

unfoldable pub check_members : List Entry → Text → List Text → List Member → Raises (List Text)
unfolding member_rel_path check_path
check_members rows prefix seen [] = ok seen
check_members rows prefix seen (m ∷ ms) = elim (member_rel_path m.name prefix) [
  | err x ↦ err x
  | ok rel ↦ elim (check_path rows seen m rel) [
    | ok seen' ↦ check_members rows prefix seen' ms
    | err x ↦ err x
  ]
]

-- The rows below the root that the stream did not carry.
abbrev pub missing_rows : List Entry → List Text → List Entry
missing_rows rows seen =
    filter_by (λ row. not (text_eq row.rel_path []) && not (any (text_eq row.rel_path) seen)) rows

-- The rows are in order, so the first is the one of the least path.
abbrev check_missing : List Entry → Raises (Unit {0})
check_missing [] = ok tt
check_missing (row ∷ rows) =
    err (payload_error row.rel_path (codes "member is missing from the stream"))

-- How the stream ended; a stream that `tarfile` cannot read is a payload error.
abbrev pub check_end : List Entry → Option Exn → List Text → Raises (Unit {0})
check_end rows none seen = check_missing (missing_rows rows seen)
check_end rows (some (tar_error e)) seen = err (payload_error [] e)
check_end rows (some x) seen = err x

-- `_verify_tree`
unfoldable pub verify_tree : Text → List Entry → Stream Member → Raises (Unit {0})
unfolding check_members lstrip_slash
verify_tree spool_path rows (members, ended) =
    elim (check_members rows (lstrip_slash spool_path) [] members) [
      | ok seen ↦ check_end rows ended seen
      | err x ↦ err x
    ]

-- `_verify_file`: any failure of the read is evidence of corruption.
unfoldable pub verify_file : List Entry → Raises Text → Raises (Unit {0})
unfolding opt_text_eq
verify_file [] digest = err (lookup_error [])
verify_file (row ∷ rows) (err x) = err (payload_error [] (codes "read failed"))
verify_file (row ∷ rows) (ok digest) =
    if opt_text_eq (some digest) row.sha256
    then ok tt
    else err (payload_error [] (codes "content hash differs from the record"))
