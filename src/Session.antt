-- ===== src/Session.antt =====
-- The state of a run and the actions on it. What the program calls outside itself (the repository
-- engine, the file system, the ownership check, SQLite's backup, the clock and the source of
-- identifiers) is a parameter.
pub mod Triple
pub mod Rules
pub mod Result
use dropin.Prelude.{ℕ, ◌/◌, Bool, not, Option, List, ◌∷◌, Text, text_eq, filter_by, ok, err}
use dropin.Errors.{Exn, Raises}
use dropin.Gates.Catalog.{CatalogFile}
use dropin.Gates.Repository.{Snapshot, Node, BackupResult, Member, Stream}
use dropin.Report.{Report}
use dropin.Spool.{Stat, Tree}
use dropin.Store.{Store, EntryType}

pub record Capabilities : Type 0 where
  pub ownership_check : Bool
  pub ownership_reason : Text

-- `MANIFEST_FIELDS` of an entry.
pub record ManifestRow : Type 0 where
  pub rel_path : Text
  pub entry_type : EntryType
  pub size_bytes : Option ℕ
  pub sha256 : Option Text
  pub link_target : Option Text

-- Which sources of an item's metadata fail.
pub record MetadataFailures : Type 0 where
  pub mdls : Bool
  pub importer : Bool
  pub xattr : Bool
  pub finder : Bool

-- The nanoseconds of a second, and the whole seconds of a time.
abbrev pub nanoseconds : ℕ
nanoseconds = 1000000000

abbrev pub seconds_of : ℕ → ℕ
seconds_of n = n / nanoseconds

-- Everything outside the program, on an abstract world. Each call answers and leaves the world as
-- it is then, with what others did meanwhile. The clock, in
-- nanoseconds, stands still between two calls.
pub record Env (W : Type 0) : Type 0 where
  pub clock : W → ℕ
  pub sleep : ℕ → W → Unit {0} × W
  pub new_id : Text → W → Text × W
  pub build_export : Text → Text → Store → W → Raises Text × W
  pub snapshots : Text → W → Raises (List Snapshot) × W
  pub backup : List Text → List Text → W → Raises BackupResult × W
  pub ls : Text → Text → W → Stream Node × W
  pub dump_digest : Text → Text → W → Raises Text × W
  pub dump_tar : Text → Text → W → Stream Member × W
  pub dump_catalog : Text → Text → W → Raises CatalogFile × W
  pub manifest_digest : List ManifestRow → Text
  pub tree : Text → W → Tree × W
  pub list_drop : Text → W → Raises (Option (List Text)) × W
  pub sha256_stream : Text → W → Raises Text × W
  pub is_bundle : Text → W → Option Bool × W
  pub metadata : Text → W → MetadataFailures × W
  pub lexists : Text → W → Bool × W
  pub lstat : Text → W → Raises (Option Stat) × W
  pub listdir : Text → W → Raises (List Text) × W
  pub open_dir : Text → W → Raises (Unit {0}) × W
  pub unlink : Text → W → Raises (Unit {0}) × W
  pub rmdir : Text → W → Raises (Unit {0}) × W
  pub capabilities : W → Capabilities × W
  pub open_descriptors : Text → Bool → W → Raises (List ℕ) × W

-- The store, the export files on disk, the report, the occurrences visited, and the world.
pub record Session (W : Type 0) : Type 0 where
  pub db : Store
  pub exports : List Text
  pub report : Report
  pub visited : List Text
  pub world : W

-- What was written before a raise stays written, so the state comes back beside the error too.
abbrev pub Run : Type 0 → Type 0 → Type 0
Run W A = Session W → Raises A × Session W

module _ {W A : Type 0} where
  unfoldable pub pure : A → Run W A
  pure a s = (ok a, s)

  unfoldable pub raise : Exn → Run W A
  raise x s = (err x, s)

  unfoldable pub lift : Raises A → Run W A
  lift r s = (r, s)

  unfoldable pub gets : (Session W → A) → Run W A
  gets f s = (ok (f s), s)

  -- A call outside that cannot raise, and one that can.
  unfoldable pub ask : (W → A × W) → Run W A
  ask f s = (ok (f s.world).0, record s { world = (f s.world).1 })

  unfoldable pub call : (W → Raises A × W) → Run W A
  call f s = ((f s.world).0, record s { world = (f s.world).1 })

  abbrev handled : Raises A → (Exn → Run W A) → Run W A
  handled (ok a) h s = (ok a, s)
  handled (err x) h s = h x s

  -- `try: … except …`; the handler raises again what it does not name.
  unfoldable pub catch : Run W A → (Exn → Run W A) → Run W A
  catch m h s = handled (m s).0 h (m s).1

  abbrev pub rolled_back : Raises A → Store → Session W → Session W
  rolled_back (ok a) db s = s
  rolled_back (err x) db s = record s { db = db }

  -- `with transaction(db):` a raise rolls the store back.
  unfoldable pub transaction : Run W A → Run W A
  transaction m s = ((m s).0, rolled_back (m s).0 s.db (m s).1)

module _ {W A B : Type 0} where
  abbrev continue : Raises A → (A → Run W B) → Run W B
  continue (ok a) f s = f a s
  continue (err x) f s = (err x, s)

  infixl 5 ◌>>=◌ ◌>>◌
  unfoldable pub ◌>>=◌ : Run W A → (A → Run W B) → Run W B
  ◌>>=◌ m f s = continue (m s).0 f (m s).1

  abbrev pub ◌>>◌ : Run W A → Run W B → Run W B
  m >> n = m >>= λ _. n

module _ {W : Type 0} where
  -- Writes that cannot fail, one statement or one transaction.
  unfoldable pub write : (Store → Store) → Run W (Unit {0})
  write f s = (ok tt, record s { db = f s.db })

  abbrev committed : Raises Store → Session W → Raises (Unit {0}) × Session W
  committed (ok db) s = (ok tt, record s { db = db })
  committed (err x) s = (err x, s)

  -- One transaction of which a statement may be refused.
  unfoldable pub commit : (Store → Raises Store) → Run W (Unit {0})
  commit f s = committed (f s.db) s

  -- `discard_export`: a file that is not there is no error.
  unfoldable pub discard_export : Text → Run W (Unit {0})
  discard_export path s =
      (ok tt, record s { exports = filter_by (λ p. not (text_eq path p)) s.exports })

  unfoldable pub keep_export : Text → Run W (Unit {0})
  keep_export path s = (ok tt, record s { exports = path ∷ s.exports })
