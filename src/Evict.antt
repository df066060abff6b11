-- ===== src/Evict.antt =====
-- dropin/pipeline/evict.py: the journalled deletion of a local original, the only code that removes
-- user data.
use dropin.Prelude.{
  ℕ, suc, ◌++◌, Bool, true, false, not, ◌&&◌, ◌||◌, Option, none, some, List, [], ◌∷◌, Text, codes,
  text_eq, text_lt, filter_by, find_by, ltb, ◌==◌, if◌then◌else◌, ok, err,
}
use dropin.Errors.{
  Exn, Reason, Raises, retained_error, unsupported, os_error, lookup_error, no_capability,
  open_writer, no_intent, recovered_absent, identity_changed, type_changed, field_changed,
  not_empty, not_removed,
}
use dropin.Gates.Equal.{type_eq, size_eq, opt_text_eq}
use dropin.Gates.Fingerprint.{compare}
use dropin.Session.{
  Env, Capabilities, Run, pure, raise, lift, gets, ask, call, catch, transaction, write, seconds_of,
  ◌>>=◌, ◌>>◌,
}
use dropin.Spool.{FileType, Stat}
use dropin.Spool.Walk.{walk}
use dropin.States.{State}
use dropin.Store.{Store, Intent, Fingerprint, EntryType}
use dropin.Store.Records.{set_state}

-- `rel_path.count("/")`
unfoldable pub depth : Text → ℕ
depth [] = 0
depth (c ∷ s) = if c == b'/' then suc (depth s) else depth s

-- `_depth_first`: by depth, then by path.
unfoldable pub shallower : Text → Text → Bool
unfolding depth
shallower p q = ltb (depth p) (depth q) || (depth p == depth q && text_lt p q)

-- `sorted(by_path, key=_depth_first, reverse=True)`: the deepest first.
unfoldable pub insert_deep : Fingerprint → List Fingerprint → List Fingerprint
insert_deep x [] = x ∷ []
insert_deep x (y ∷ ys) =
    if shallower x.rel_path y.rel_path then y ∷ insert_deep x ys else x ∷ y ∷ ys

unfoldable pub deepest_first : List Fingerprint → List Fingerprint
unfolding insert_deep shallower
deepest_first [] = []
deepest_first (x ∷ xs) = insert_deep x (deepest_first xs)

abbrev pub is_directory : FileType → Bool
is_directory FileType.directory = true
is_directory _ = false

abbrev pub is_link : FileType → Bool
is_link FileType.link = true
is_link _ = false

-- What the removal sees of an entry that is no directory.
abbrev pub actual_type : Stat → EntryType
actual_type info = if is_link info.file_type then EntryType.symlink else EntryType.file

abbrev pub actual_size : Stat → Option ℕ
actual_size info = if is_link info.file_type then none else some info.size

abbrev pub actual_target : Stat → Option Text
actual_target info = if is_link info.file_type then some info.link_target else none

abbrev pub retain_unless : Bool → Reason → Raises (Unit {0}) → Raises (Unit {0})
retain_unless true reason rest = rest
retain_unless false reason rest = err (retained_error reason)

abbrev pub compare_directory : Stat → Fingerprint → Raises (Unit {0})
compare_directory info expected =
    retain_unless
      (info.inode == expected.inode
        && (info.dev == expected.dev && type_eq expected.entry_type EntryType.dir))
      (identity_changed expected.rel_path) (ok tt)

abbrev pub compare_file : Stat → Fingerprint → Raises (Unit {0})
compare_file info expected =
    retain_unless (type_eq (actual_type info) expected.entry_type) (type_changed expected.rel_path)
      (retain_unless (size_eq (actual_size info) expected.size_bytes)
        (field_changed expected.rel_path (codes "size_bytes"))
        (retain_unless (info.mtime_ns == expected.mtime_ns)
          (field_changed expected.rel_path (codes "mtime_ns"))
          (retain_unless (info.ctime_ns == expected.ctime_ns)
            (field_changed expected.rel_path (codes "ctime_ns"))
            (retain_unless (info.inode == expected.inode)
              (field_changed expected.rel_path (codes "inode"))
              (retain_unless (info.dev == expected.dev)
                (field_changed expected.rel_path (codes "dev"))
                (retain_unless (opt_text_eq (actual_target info) expected.link_target)
                  (field_changed expected.rel_path (codes "link_target")) (ok tt)))))))

-- `_compare_entry`
unfoldable pub compare_entry : Stat → Fingerprint → Raises (Unit {0})
compare_entry info expected =
    if is_directory info.file_type
    then compare_directory info expected
    else compare_file info expected

-- `sorted(os.listdir(path))[0]`
unfoldable pub least_name : Text → List Text → Text
least_name n [] = n
least_name n (m ∷ rest) = least_name (if text_lt m n then m else n) rest

-- `os.path.join(spool_path, rel_path)`, for a spool path without a slash at its end and a relative
-- path that is not empty
abbrev pub join_path : Text → Text → Text
join_path spool_path rel_path = spool_path ++ (b'/' ∷ rel_path)

abbrev pub intent_is : Text → Intent → Bool
intent_is occ_id i = text_eq occ_id i.occ_id

-- `INSERT OR REPLACE INTO eviction_intent`
unfoldable pub put_intent : Intent → Store → Store
put_intent i db = record db { intents = i ∷ filter_by (λ j. not (intent_is i.occ_id j)) db.intents }

abbrev pub fingerprints_of : Text → List Fingerprint → List Fingerprint
fingerprints_of occ_id rows = filter_by (λ r. text_eq occ_id r.occ_id) rows

-- The intent and the state that `begin_eviction` commits.
unfoldable pub intended_store : Text → ℕ → Store → Store
unfolding put_intent
intended_store occ_id now db = set_state occ_id State.evicting none none now (
    put_intent
      (record {
        occ_id = occ_id;
        intent_at = now;
        fingerprint = fingerprints_of occ_id db.fingerprints;
        recovered_without_local_history = false;
      })
      db)

-- The transaction of `_finish`.
unfoldable pub finished_store : Text → ℕ → Store → Store
finished_store occ_id now db =
    set_state occ_id State.evicted none none now
      (record db { intents = filter_by (λ i. not (intent_is occ_id i)) db.intents })

-- An unsupported check, and any error of a removal, retains the item.
abbrev pub as_retained : {A W : Type 0} → Exn → Run W A
as_retained (unsupported m) = raise (retained_error (no_capability m))
as_retained x = raise x

abbrev pub as_not_removed : {A W : Type 0} → Text → Exn → Run W A
as_not_removed rel (os_error m) = raise (retained_error (not_removed rel m))
as_not_removed rel x = raise x

module _ {W : Type 0} (e : Env W) where
  abbrev pub capable : Capabilities → Run W (Unit {0})
  capable c =
      if c.ownership_check
      then pure tt
      else raise (retained_error (no_capability c.ownership_reason))

  -- `_require_capability`
  unfoldable pub require_capability : Run W (Unit {0})
  require_capability = do c ← ask e.capabilities; capable c

  abbrev pub no_holders : Text → List ℕ → Run W (Unit {0})
  no_holders rel [] = pure tt
  no_holders rel (p ∷ ps) = raise (retained_error (open_writer rel (p ∷ ps)))

  -- `_check`, and the refusal if it names a holder
  unfoldable pub check_writers : Text → Text → Bool → Run W (Unit {0})
  check_writers rel path is_dir = do
    holders ← catch (call (e.open_descriptors path is_dir)) as_retained
    no_holders rel holders

  abbrev pub dir_of : Option Stat → Bool
  dir_of none = false
  dir_of (some info) = is_directory info.file_type

  -- `_is_dir`
  unfoldable pub is_dir : Text → Run W Bool
  is_dir path = do info ← catch (call (e.lstat path)) (λ _. pure none); pure (dir_of info)

  unfoldable pub begin_eviction : Text → Text → Run W (Unit {0})
  begin_eviction occ_id spool_path = do
    require_capability
    dir ← is_dir spool_path
    check_writers [] spool_path dir
    transaction (do
      t ← ask (e.tree spool_path)
      db ← gets (λ s. s.db)
      lift (compare db.fingerprints occ_id (walk t))
      n ← gets (λ s. seconds_of (e.clock s.world))
      write (intended_store occ_id n))

  abbrev pub empty_or_refuse : Text → List Text → Run W (Unit {0})
  empty_or_refuse rel [] = pure tt
  empty_or_refuse rel (n ∷ rest) = raise (retained_error (not_empty rel (least_name n rest)))

  -- The removal of one entry, relative to its parent's descriptor.
  abbrev pub remove_now : Text → Text → Bool → Run W (Unit {0})
  remove_now rel path true = do
    names ← call (e.listdir path)
    empty_or_refuse rel names
    call (e.rmdir path)
  remove_now rel path false = call (e.unlink path)

  abbrev pub remove_found : Text → Fingerprint → Option Stat → Run W Bool
  remove_found path expected none = pure false
  remove_found path expected (some info) = do
    check_writers expected.rel_path path (is_directory info.file_type)
    lift (compare_entry info expected)
    call (e.open_dir path)
    catch (remove_now expected.rel_path path (is_directory info.file_type))
        (as_not_removed expected.rel_path)
    pure true

  -- `_remove` and `_remove_root`: one entry; an absent one has been removed before.
  unfoldable pub remove : Text → Fingerprint → Run W Bool
  remove path expected = do info ← call (e.lstat path); remove_found path expected info

  -- The loop over the entries below the root.
  unfoldable pub remove_all : Text → List Fingerprint → Run W (Unit {0})
  remove_all spool_path [] = pure tt
  remove_all spool_path (x ∷ xs) =
      let rest : Run W (Unit {0}) = remove_all spool_path xs in
      if text_eq x.rel_path [] then rest else (do remove (join_path spool_path x.rel_path) x; rest)

  -- `by_path[""]`
  abbrev pub remove_root : Text → Option Fingerprint → Run W (Unit {0})
  remove_root spool_path none = raise (lookup_error [])
  remove_root spool_path (some expected) = do remove spool_path expected; pure tt

  unfoldable pub finish : Text → Run W (Unit {0})
  finish occ_id = do n ← gets (λ s. seconds_of (e.clock s.world)); write (finished_store occ_id n)

  abbrev pub delete_tree : Text → Text → List Fingerprint → Run W (Unit {0})
  delete_tree occ_id spool_path entries = do
    dir ← is_dir spool_path
    check_writers [] spool_path dir
    remove_all spool_path (deepest_first entries)
    remove_root spool_path (find_by (λ r. text_eq [] r.rel_path) entries)
    finish occ_id

  abbrev pub evict_intended : Text → Text → Option Intent → Run W (Unit {0})
  evict_intended occ_id spool_path none = raise (retained_error no_intent)
  evict_intended occ_id spool_path (some i) = do
    require_capability
    exists ← ask (e.lexists spool_path)
    if exists
        then delete_tree occ_id spool_path i.fingerprint
        else if i.recovered_without_local_history
        then raise (retained_error recovered_absent)
        else finish occ_id

  unfoldable pub run_eviction : Text → Text → Run W (Unit {0})
  run_eviction occ_id spool_path = do
    db ← gets (λ s. s.db)
    evict_intended occ_id spool_path (find_by (intent_is occ_id) db.intents)
