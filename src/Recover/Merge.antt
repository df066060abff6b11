-- ===== src/Recover/Merge.antt =====
-- dropin/recover.py: the other exports merged into a copy of the base. What raises ends the
-- recovery, so what a transaction rolls back there is never read.
pub mod Rows
pub mod Attempt
pub mod Lookup
pub mod Kept
pub mod Whole
use dropin.Prelude.{
  ℕ, Bool, true, false, not, ◌&&◌, ◌||◌, Option, none, some, List, [], ◌∷◌, ◌++◌, map, Text,
  text_eq, text_lt, any, ltb, ◌==◌, if◌then◌else◌, sort_by, filter_by, find_by, ok, err, bind,
}
use dropin.Errors.{Raises, identity_collision, integrity_error, type_error}
use dropin.Gates.Catalog.{CatalogFile, LineageRow}
use dropin.Recover.Base.{Observation, is_same, valid_of}
use dropin.Recover.Merge.Rows.{Work, same_identity, same_rows, entries_clash, base_seq_for}
use dropin.Recover.Merge.Attempt.{merge_attempts}
use dropin.States.{State, state_eq, order, order_index}
use dropin.Store.{Store, Occurrence, Intent}
use dropin.Store.Records.{occ_is, update_where, merge_lineage}

abbrev pub higher_rank : Option ℕ → Option ℕ → Bool
higher_rank none _ = false
higher_rank (some a) none = true
higher_rank (some a) (some b) = ltb b a

-- `_rank(a) > _rank(b)`; `none` is the rank of `abandoned`, below every other
unfoldable pub outranks : State → State → Bool
outranks a b = higher_rank (order_index a order) (order_index b order)

-- The columns of the row, and the rows of `entry` and `fingerprint`.
unfoldable pub insert_occurrence : Store → Occurrence → Work → Raises Work
insert_occurrence src incoming w =
    if any (λ o. text_eq incoming.archive_path o.archive_path) w.tables.occurrences
      || entries_clash (filter_by (λ r. text_eq incoming.occ_id r.occ_id) src.entries)
          w.tables.entries
    then err (integrity_error incoming.occ_id)
    else ok (record w {
      tables = record w.tables {
        occurrences = w.tables.occurrences ++ incoming ∷ [];
        entries = w.tables.entries ++ filter_by (λ r. text_eq incoming.occ_id r.occ_id) src.entries;
        fingerprints =
            w.tables.fingerprints
            ++ filter_by (λ r. text_eq incoming.occ_id r.occ_id) src.fingerprints;
      };
    })

-- An abandonment that a later export of the occurrence's own lineage records.
abbrev pub abandons : List LineageRow → Occurrence → Work → Raises Bool
abandons [] existing w = err (type_error existing.occ_id)
abandons (row ∷ _) existing w = ok (
    text_eq row.store_id existing.origin_store_id
    && ltb (base_seq_for existing.origin_store_id w.exported) row.export_seq)

unfoldable pub takes : List LineageRow → Occurrence → Occurrence → Work → Raises Bool
unfolding outranks
takes exported existing incoming w =
    if state_eq existing.state State.abandoned
    then ok false
    else if state_eq incoming.state State.abandoned
    then abandons exported existing w
    else ok (outranks incoming.state existing.state)

abbrev pub take_if : Occurrence → Work → Raises Bool → Raises Work
take_if incoming w (err x) = err x
take_if incoming w (ok false) = ok w
take_if incoming w (ok true) = ok (record w {
  tables = record w.tables {
    occurrences = update_where (occ_is incoming.occ_id) (λ _. incoming) w.tables.occurrences;
  };
})

-- `_merge_occurrence`
unfoldable pub merge_occurrence : CatalogFile → Occurrence → Work → Raises Work
unfolding insert_occurrence takes same_identity same_rows
merge_occurrence file incoming w = elim (find_by (occ_is incoming.occ_id) w.tables.occurrences) [
  | none ↦ insert_occurrence file.tables incoming w
  | some existing ↦
      if same_identity existing incoming && same_rows incoming.occ_id w.tables file.tables
      then take_if incoming w (takes file.lineage existing incoming w)
      else err (identity_collision incoming.occ_id)
]

unfoldable pub merge_occurrences : CatalogFile → List Occurrence → Work → Raises Work
unfolding merge_occurrence
merge_occurrences file [] w = ok w
merge_occurrences file (o ∷ rest) w = bind (merge_occurrence file o w) (merge_occurrences file rest)

-- `INSERT OR IGNORE INTO export_lineage`
unfoldable pub add_lineage_rows : List LineageRow → List LineageRow → List LineageRow
add_lineage_rows [] rows = rows
add_lineage_rows (r ∷ rest) rows = add_lineage_rows rest (
    if any
      (λ q.
        (text_eq r.store_id q.store_id && r.export_seq == q.export_seq)
        || text_eq r.attempt_id q.attempt_id)
      rows
    then rows
    else rows ++ r ∷ [])

abbrev pub marked : Intent → Intent
marked i = record i { recovered_without_local_history = true }

-- `INSERT OR IGNORE INTO eviction_intent`
unfoldable pub add_intents : List Intent → List Intent → List Intent
add_intents [] rows = rows
add_intents (i ∷ rest) rows =
    add_intents rest
      (if any (λ j. text_eq i.occ_id j.occ_id) rows then rows else rows ++ marked i ∷ [])

unfoldable pub merge_lineages : List (Text × ℕ) → Store → Store
merge_lineages [] db = db
merge_lineages ((s, n) ∷ rest) db = merge_lineages rest (merge_lineage s n db)

unfoldable pub with_intents : CatalogFile → Work → Store
unfolding add_intents
with_intents file w = record w.tables { intents = add_intents file.tables.intents w.tables.intents }

-- The rest of `_merge_export`, after the occurrences and the attempts.
unfoldable pub merge_rest : CatalogFile → Work → Raises Work
unfolding add_lineage_rows add_intents merge_lineages
merge_rest file w = ok (record {
  tables = merge_lineages file.tables.lineage (with_intents file w);
  exported = add_lineage_rows file.lineage w.exported;
})

-- `_merge_export`; what is not valid has no file.
unfoldable pub merge_export : Option CatalogFile → Observation → Work → Raises Work
unfolding merge_occurrences merge_rest
merge_export none o w = ok w
merge_export (some file) o w =
    bind (merge_occurrences file file.tables.occurrences w)
      λ w1. bind (merge_attempts o file.tables.attempts w1) (merge_rest file)

unfoldable pub merge_exports : List Observation → Work → Raises Work
unfolding merge_export
merge_exports [] w = ok w
merge_exports (o ∷ rest) w = bind (merge_export o.dumped o w) (merge_exports rest)

abbrev pub merged_before : Observation → Observation → Bool
merged_before a b =
    text_lt a.identity.store_id b.identity.store_id
    || (text_eq a.identity.store_id b.identity.store_id
        && ltb a.identity.export_seq b.identity.export_seq)

abbrev pub is_base : Option Observation → Observation → Bool
is_base none o = false
is_base (some base) o = is_same base o

unfoldable pub mark_intents : Work → Raises Work
mark_intents w =
    ok (record w { tables = record w.tables { intents = map marked w.tables.intents } })

-- The valid exports but the base, by store and sequence.
unfoldable pub others_of : Option Observation → List Observation → List Observation
unfolding sort_by
others_of base observations =
    sort_by merged_before (filter_by (λ o. not (is_base base o)) (valid_of observations))

-- `_merge`
unfoldable pub merge : List Observation → Option Observation → Work → Raises Work
unfolding merge_exports mark_intents others_of
merge observations base w = bind (merge_exports (others_of base observations) w) mark_intents
