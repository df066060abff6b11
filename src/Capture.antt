-- ===== src/Capture.antt =====
-- dropin/capture/extract.py: the item that is recorded, from two walks that agree and the hashes
-- between them. The attributes, extended attributes and tags themselves are left out.
pub mod Admission
pub mod Scan
pub mod Sound
pub mod Faithful
use dropin.Prelude.{
  ℕ, ◌+◌, ◌++◌, Bool, true, false, not, ◌&&◌, ◌||◌, Option, none, some, List, [], ◌∷◌, map, Text,
  codes, text_eq, text_lt, find_by, sort_by, ◌==◌, if◌then◌else◌, ok, err,
}
use dropin.Errors.{Exn, Raises, capture_aborted, lookup_error}
use dropin.Gates.Equal.{type_eq, size_eq, opt_text_eq}
use dropin.Gates.Reconcile.{absolute}
use dropin.Record.{CapturedEntry, CapturedItem}
use dropin.Session.{
  Env, ManifestRow, MetadataFailures, Run, pure, raise, lift, ask, call, ◌>>=◌, ◌>>◌,
}
use dropin.Spool.Walk.{WalkEntry, Walked, walk}
use dropin.Store.{EntryType}

-- `==` on the rows of `_sample` and of `_fingerprints`
unfoldable pub same_sample : WalkEntry → WalkEntry → Bool
unfolding size_eq opt_text_eq
same_sample a b =
    text_eq a.rel_path b.rel_path
    && (type_eq a.entry_type b.entry_type
        && (size_eq a.size_bytes b.size_bytes
            && (a.mtime_ns == b.mtime_ns
                && (a.ctime_ns == b.ctime_ns
                    && (a.inode == b.inode
                        && (a.dev == b.dev && opt_text_eq a.link_target b.link_target))))))

unfoldable pub same_walk : List WalkEntry → List WalkEntry → Bool
unfolding same_sample
same_walk [] [] = true
same_walk [] (y ∷ ys) = false
same_walk (x ∷ xs) [] = false
same_walk (x ∷ xs) (y ∷ ys) = same_sample x y && same_walk xs ys

-- `list(walk(path))`
abbrev pub listed : Walked → Raises (List WalkEntry)
listed (entries, none) = ok entries
listed (entries, some x) = err x

abbrev pub is_file_entry : EntryType → Bool
is_file_entry EntryType.file = true
is_file_entry _ = false

abbrev pub is_dir_entry : EntryType → Bool
is_dir_entry EntryType.dir = true
is_dir_entry _ = false

-- `hashes.get(rel_path)`
abbrev pub hash_at : List (Text × Text) → Text → Option Text
hash_at hashes rel_path = elim (find_by (λ h. text_eq rel_path h.0) hashes) [
  | none ↦ none
  | some h ↦ some h.1
]

abbrev pub kind_from : Option Bool → Text
kind_from (some true) = codes "bundle"
kind_from (some false) = codes "dir"
kind_from none = codes "dir"

abbrev failed : Bool → Text → List Text → List Text
failed false source rest = rest
failed true source rest = source ∷ rest

-- `sorted(set(failed_sources))`
abbrev pub failed_sources : MetadataFailures → List Text
failed_sources f = failed f.finder (codes "finder") (
    failed f.importer (codes "importer")
      (failed f.mdls (codes "mdls") (failed f.xattr (codes "xattr") [])))

abbrev comma_joined : Text → List Text → Text
comma_joined first [] = first
comma_joined first (next ∷ rest) = first ++ (b',' ∷ comma_joined next rest)

abbrev pub status_of : List Text → Text
status_of [] = codes "ok"
status_of (first ∷ rest) = codes "partial:" ++ comma_joined first rest

abbrev is_bundle_kind : Text → Bool
is_bundle_kind kind = text_eq kind (codes "bundle")

abbrev is_root : Text → Bool
is_root [] = true
is_root (c ∷ rel) = false

abbrev size_of : Option ℕ → ℕ
size_of none = 0
size_of (some n) = n

abbrev pub total_size : List CapturedEntry → ℕ
total_size [] = 0
total_size (c ∷ rest) = size_of c.size_bytes + total_size rest

abbrev pub captured_row : CapturedEntry → ManifestRow
captured_row c = record {
  rel_path = c.rel_path;
  entry_type = c.entry_type;
  size_bytes = c.size_bytes;
  sha256 = c.sha256;
  link_target = c.link_target;
}

module _ {W : Type 0} (e : Env W) where
  unfoldable pub walk_now : Text → Run W (List WalkEntry)
  unfolding walk
  walk_now path = do tree ← ask (e.tree path); lift (listed (walk tree))

  -- `hashes`, of the files in the order of the walk
  unfoldable pub hash_files : Text → List WalkEntry → Run W (List (Text × Text))
  hash_files path [] = pure []
  hash_files path (w ∷ rest) =
      if is_file_entry w.entry_type
      then (do
        digest ← call (e.sha256_stream (absolute path w.rel_path))
        others ← hash_files path rest
        pure ((w.rel_path, digest) ∷ others))
      else hash_files path rest

  -- `_kind`
  abbrev pub kind_of : Text → WalkEntry → Run W Text
  kind_of path root =
      if is_dir_entry root.entry_type
      then (do bundle ← ask (e.is_bundle path); pure (kind_from bundle))
      else pure (codes "file")

  -- `_entry`
  unfoldable pub captured_entry : Text → WalkEntry → Option Text → Text → Run W CapturedEntry
  captured_entry path w sha256 kind = do
    metadata ← ask (e.metadata (absolute path w.rel_path))
    pure (record {
      rel_path = w.rel_path;
      entry_type = w.entry_type;
      size_bytes = w.size_bytes;
      sha256 = sha256;
      link_target = w.link_target;
      mode = w.mode;
      fingerprint = w;
      searchable = is_root w.rel_path || not (is_bundle_kind kind);
      capture_status = status_of (failed_sources metadata);
    })

  unfoldable pub captured_entries :
      Text → List (Text × Text) → Text → List WalkEntry → Run W (List CapturedEntry)
  unfolding captured_entry
  captured_entries path hashes kind [] = pure []
  captured_entries path hashes kind (w ∷ rest) = do
    entry ← captured_entry path w (hash_at hashes w.rel_path) kind
    others ← captured_entries path hashes kind rest
    pure (entry ∷ others)

  -- `manifest_hash`
  unfoldable pub manifest_hash : List CapturedEntry → Text
  unfolding sort_by
  manifest_hash entries =
      e.manifest_digest (map captured_row (sort_by (λ a b. text_lt a.rel_path b.rel_path) entries))

  abbrev first_hash : List CapturedEntry → Option Text
  first_hash [] = none
  first_hash (c ∷ rest) = c.sha256

  unfoldable pub captured_item : Text → Text → Text → List CapturedEntry → CapturedItem
  unfolding manifest_hash
  captured_item path name kind entries = record {
    spool_path = path;
    item_name = name;
    kind = kind;
    root_sha256 =
        if text_eq kind (codes "file") then first_hash entries else some (manifest_hash entries);
    size_bytes = total_size entries;
    entries = entries;
  }

  -- A walk that ends by itself yields its root first.
  unfoldable pub build_item : Text → Text → List (Text × Text) → List WalkEntry → Run W CapturedItem
  unfolding captured_entries captured_item
  build_item path name hashes [] = raise (lookup_error (codes "0"))
  build_item path name hashes (root ∷ rest) = do
    kind ← kind_of path root
    entries ← captured_entries path hashes kind (root ∷ rest)
    pure (captured_item path name kind entries)

  -- `capture_item`
  unfoldable pub capture_item : Text → Text → Run W CapturedItem
  unfolding walk_now hash_files build_item same_walk
  capture_item path name = do
    before ← walk_now path
    hashes ← hash_files path before
    now_there ← walk_now path
    (if same_walk before now_there
        then build_item path name hashes before
        else raise capture_aborted)
