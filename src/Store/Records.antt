-- ===== src/Store/Records.antt =====
-- dropin/store/records.py: the reads and writes of the store. A write that SQLite can refuse, or
-- that looks a row up, returns a result.
use Prim.Native.Nat.{max}
use dropin.Prelude.{
  ℕ, suc, ◌++◌, Bool, true, false, not, ◌&&◌, ◌||◌, Option, none, some, List, [], ◌∷◌, Text,
  text_eq, filter_by, find_by, any, ltb, if◌then◌else◌, ok, err, ◌==◌,
}
use dropin.Engine.Tags.{Identity, tag_set}
use dropin.Errors.{Reason, Raises, lookup_error, integrity_error, identity_collision}
use dropin.States.{State}
use dropin.Store.{Entry, Store, Occurrence, Attempt, AttemptOutcome, SnapshotRow, SnapshotStatus}

-- `UPDATE … WHERE`
module _ {A : Type 0} where
  abbrev pub update_where : (A → Bool) → (A → A) → List A → List A
  update_where p f [] = []
  update_where p f (x ∷ xs) = (if p x then f x else x) ∷ update_where p f xs

  -- A row that is looked up, or the `LookupError` that names the key.
  abbrev pub row_or_error : Text → Option A → Raises A
  row_or_error key none = err (lookup_error key)
  row_or_error key (some x) = ok x

abbrev pub is_pending : AttemptOutcome → Bool
is_pending AttemptOutcome.pending = true
is_pending _ = false

abbrev pub is_confirmed : AttemptOutcome → Bool
is_confirmed AttemptOutcome.confirmed = true
is_confirmed _ = false

abbrev pub is_failed : AttemptOutcome → Bool
is_failed AttemptOutcome.failed = true
is_failed _ = false

abbrev pub occ_is : Text → Occurrence → Bool
occ_is occ_id o = text_eq occ_id o.occ_id

abbrev pub attempt_is : Text → Attempt → Bool
attempt_is attempt_id a = text_eq attempt_id a.attempt_id

abbrev pub snapshot_is : Text → SnapshotRow → Bool
snapshot_is snapshot_id r = text_eq snapshot_id r.snapshot_id

unfoldable pub get_occurrence : Store → Text → Raises Occurrence
get_occurrence db occ_id = row_or_error occ_id (find_by (occ_is occ_id) db.occurrences)

unfoldable pub get_attempt : Store → Text → Raises Attempt
get_attempt db attempt_id = row_or_error attempt_id (find_by (attempt_is attempt_id) db.attempts)

unfoldable pub get_snapshot : Store → Text → Option SnapshotRow
get_snapshot db snapshot_id = find_by (snapshot_is snapshot_id) db.snapshots

-- `lineage(connection)[store_id]`
unfoldable pub merged_through : List (Text × ℕ) → Text → Option ℕ
merged_through [] store_id = none
merged_through ((s, n) ∷ rest) store_id =
    if text_eq store_id s then some n else merged_through rest store_id

unfoldable pub advance_frontier : ℕ → Store → Store
advance_frontier export_seq db = record db {
  published_frontier = max db.published_frontier export_seq;
}

unfoldable pub note_observed_sequence : ℕ → Store → Store
note_observed_sequence export_seq db = record db { export_seq = max db.export_seq export_seq }

unfoldable pub merge_pairs : Text → ℕ → List (Text × ℕ) → List (Text × ℕ)
merge_pairs store_id n [] = (store_id, n) ∷ []
merge_pairs store_id n ((s, m) ∷ rest) =
    if text_eq store_id s then (s, max m n) ∷ rest else (s, m) ∷ merge_pairs store_id n rest

unfoldable pub merge_lineage : Text → ℕ → Store → Store
unfolding merge_pairs
merge_lineage store_id n db = record db { lineage = merge_pairs store_id n db.lineage }

-- The time column of a state; `recorded` keeps its time.
unfoldable pub stamp : State → ℕ → Occurrence → Occurrence
stamp State.recorded now o = o
stamp State.transferred now o = record o { transferred_at = some now }
stamp State.verified now o = record o { verified_at = some now }
stamp State.recoverable now o = record o { recoverable_at = some now }
stamp State.evicting now o = record o { evicting_at = some now }
stamp State.evicted now o = record o { evicted_at = some now }
stamp State.abandoned now o = record o { abandoned_at = some now }

abbrev pub or_keep : Option Text → Option Text → Option Text
or_keep none old = old
or_keep (some new) old = some new

unfoldable pub with_state : State → Option Reason → Option Text → ℕ → Occurrence → Occurrence
with_state state error confirmed_attempt_id now o = record (stamp state now o) {
  state = state;
  last_error = error;
  confirmed_attempt_id = or_keep confirmed_attempt_id o.confirmed_attempt_id;
}

unfoldable pub set_state : Text → State → Option Reason → Option Text → ℕ → Store → Store
set_state occ_id state error confirmed_attempt_id now db = record db {
  occurrences =
      update_where (occ_is occ_id) (with_state state error confirmed_attempt_id now) db.occurrences;
}

unfoldable pub set_export_digest : Text → Text → Store → Store
set_export_digest attempt_id digest db = record db {
  attempts =
      update_where (attempt_is attempt_id) (λ a. record a { export_sha256 = some digest })
        db.attempts;
}

unfoldable pub set_export_path : Text → Text → Store → Store
set_export_path attempt_id path db = record db {
  attempts =
      update_where (attempt_is attempt_id) (λ a. record a { export_path = path }) db.attempts;
}

unfoldable pub set_attempt_snapshot : Text → Text → Store → Store
set_attempt_snapshot attempt_id snapshot_id db = record db {
  attempts =
      update_where (attempt_is attempt_id) (λ a. record a { snapshot_id = some snapshot_id })
        db.attempts;
}

abbrev pub finished : AttemptOutcome → Option Reason → ℕ → Attempt → Attempt
finished outcome reason now a = record a {
  outcome = outcome;
  reason = reason;
  finished_at = some now;
}

unfoldable pub set_outcome : Text → AttemptOutcome → Option Reason → ℕ → Store → Store
set_outcome attempt_id outcome reason now db = record db {
  attempts = update_where (attempt_is attempt_id) (finished outcome reason now) db.attempts;
}

-- The unique index `publication_attempt_confirmed`: one confirmed attempt for an occurrence.
abbrev pub confirmed_elsewhere : Text → Text → List Attempt → Bool
confirmed_elsewhere occ_id attempt_id attempts =
    any (λ a. text_eq occ_id a.occ_id && (is_confirmed a.outcome && not (attempt_is attempt_id a)))
      attempts

-- `finish_attempt(…, "failed", …)`
unfoldable pub fail_attempt : Text → Reason → ℕ → Store → Store
unfolding set_outcome
fail_attempt attempt_id reason now db =
    set_outcome attempt_id AttemptOutcome.failed (some reason) now db

-- `finish_attempt(…, "confirmed")`
unfoldable pub confirm_attempt : Text → Text → ℕ → Store → Raises Store
unfolding set_outcome
confirm_attempt occ_id attempt_id now db =
    if confirmed_elsewhere occ_id attempt_id db.attempts
    then err (integrity_error attempt_id)
    else ok (set_outcome attempt_id AttemptOutcome.confirmed none now db)

unfoldable pub attempts_for : Store → Text → List Attempt
attempts_for db occ_id = filter_by (λ a. text_eq occ_id a.occ_id) db.attempts

unfoldable pub set_snapshot_status : Text → SnapshotStatus → Option Reason → Store → Store
set_snapshot_status snapshot_id status reason db = record db {
  snapshots =
      update_where (snapshot_is snapshot_id) (λ r. record r { status = status; reason = reason })
        db.snapshots;
}

-- `==` on two canonical tag sets, which list the same keys in one order
unfoldable pub tag_sets_eq : List (Text × Text) → List (Text × Text) → Bool
tag_sets_eq [] [] = true
tag_sets_eq [] (y ∷ ys) = false
tag_sets_eq (x ∷ xs) [] = false
tag_sets_eq (x ∷ xs) (y ∷ ys) = text_eq x.0 y.0 && (text_eq x.1 y.1 && tag_sets_eq xs ys)

abbrev pub ledger_row : Text → Identity → SnapshotStatus → Option Reason → ℕ → SnapshotRow
ledger_row snapshot_id i status reason now = record {
  snapshot_id = snapshot_id;
  occ_id = i.occ_id;
  attempt_id = i.attempt_id;
  store_id = i.store_id;
  export_seq = i.export_seq;
  kind = i.kind;
  catalog_sha256 = i.catalog_sha256;
  tag_set = tag_set i;
  status = status;
  reason = reason;
  seen_at = now;
}

unfoldable pub observe_snapshot :
    Text → Identity → SnapshotStatus → Option Reason → ℕ → Store → Raises Store
unfolding get_snapshot
observe_snapshot snapshot_id i status reason now db = elim (get_snapshot db snapshot_id) [
  | some existing ↦
      if tag_sets_eq existing.tag_set (tag_set i)
      then ok (record db {
        snapshots =
            update_where (snapshot_is snapshot_id)
              (λ r. record r { status = status; reason = reason; seen_at = now }) db.snapshots;
      })
      else err (identity_collision snapshot_id)
  | none ↦
      ok (record db { snapshots = db.snapshots ++ ledger_row snapshot_id i status reason now ∷ [] })
]

abbrev pub new_attempt : Text → Text → Text → ℕ → Text → ℕ → Attempt
new_attempt attempt_id store_id occ_id export_seq export_path now = record {
  attempt_id = attempt_id;
  origin_store_id = store_id;
  occ_id = occ_id;
  export_seq = export_seq;
  export_sha256 = none;
  export_path = export_path;
  started_at = now;
  snapshot_id = none;
  outcome = AttemptOutcome.pending;
  reason = none;
  finished_at = none;
}

-- The primary key and the unique index on the sequence of an origin store.
abbrev pub attempt_clash : Text → Text → ℕ → List Attempt → Bool
attempt_clash attempt_id store_id export_seq attempts =
    any
      (λ a.
        attempt_is attempt_id a
        || (text_eq store_id a.origin_store_id && export_seq == a.export_seq))
      attempts

-- What the table refuses: a key that is taken, or an occurrence that is not there.
abbrev pub attempt_refused : Text → Text → Text → ℕ → Store → Bool
attempt_refused attempt_id occ_id store_id seq db =
    attempt_clash attempt_id store_id seq db.attempts || not (any (occ_is occ_id) db.occurrences)

-- The sequence of a new attempt: the next one, or the one that is given, which is noted.
abbrev pub allocated : Option ℕ → Store → ℕ × Store
allocated none db = (suc db.export_seq, record db { export_seq = suc db.export_seq })
allocated (some seq) db = (seq, note_observed_sequence seq db)

-- `start_attempt`, one transaction. `attempt_id` is what `new_id` made.
unfoldable pub start_attempt :
    Text → Text → Text → Text → Option ℕ → ℕ → Store → Raises (Attempt × Store)
start_attempt attempt_id occ_id store_id export_path export_seq now db =
    let (seq, db1) = allocated export_seq db in
    let row : Attempt = new_attempt attempt_id store_id occ_id seq export_path now in
    if attempt_refused attempt_id occ_id store_id seq db1
    then err (integrity_error attempt_id)
    else ok (row, record db1 { attempts = db1.attempts ++ row ∷ [] })

-- `iter_entries`: the rows of an occurrence. A table keeps the rows of one occurrence in the order
-- of their paths.
unfoldable pub iter_entries : Store → Text → List Entry
iter_entries db occ_id = filter_by (λ e. text_eq occ_id e.occ_id) db.entries

-- `started_at DESC, export_seq DESC`
abbrev starts_after : Attempt → Attempt → Bool
starts_after a b =
    ltb b.started_at a.started_at || (a.started_at == b.started_at && ltb b.export_seq a.export_seq)

-- The row that starts last of those that pass a test.
unfoldable pub latest_by : (Attempt → Bool) → List Attempt → Option Attempt
latest_by p [] = none
latest_by p (a ∷ rest) = elim (latest_by p rest) [
  | none ↦ if p a then some a else none
  | some b ↦ if p a then (if starts_after a b then some a else some b) else some b
]
