-- ===== src/Recover/Merge/Whole.antt =====
-- `_merge` of dropin/recover.py as a whole.
use dropin.Prelude.{ℕ, ◌≡◌, refl, Option, none, some, List, [], ◌∷◌, Text, ok, bind, arith}
use dropin.Gates.Catalog.{CatalogFile}
use dropin.Recover.Base.{Observation}
use dropin.Recover.Merge.{
  merge_occurrences, merge_rest, with_intents, merge_lineages, merge_export, merge_exports,
  mark_intents, merge, others_of,
}
use dropin.Recover.Merge.Kept.{Holds, Follows-refl, bind-Holds, merge_occurrences-Holds}
use dropin.Recover.Merge.Rows.{Work}
use dropin.Recover.Merge.Attempt.{merge_attempt, merge_attempts, insert_attempt, update_attempt}
use dropin.Store.{Store, Occurrence, Entry, Attempt}
use dropin.Store.Laws.{find_occurrence}
use dropin.Store.Records.{iter_entries, merge_lineage}

-- The tables of occurrences and entries stay as they are.
abbrev Untouched : Store → Store → Type 0
Untouched a b = (b.occurrences ≡ a.occurrences) × (b.entries ≡ a.entries)

insert_attempt-Untouched :
    (a : Attempt) (w w' : Work) → insert_attempt a w ≡ ok w' → Untouched w.tables w'.tables
unfolding insert_attempt
insert_attempt-Untouched a w w' e = (ground (arith, e), ground (arith, e))

update_attempt-Untouched :
    (a : Attempt) (w w' : Work) → update_attempt a w ≡ ok w' → Untouched w.tables w'.tables
unfolding update_attempt
update_attempt-Untouched a w w' e = (ground (arith, e), ground (arith, e))

merge_attempt-Untouched :
    (p : Observation) (a : Attempt) (w w' : Work)
    → merge_attempt p a w ≡ ok w'
    → Untouched w.tables w'.tables
unfolding merge_attempt
merge_attempt-Untouched p a w w' e = (
  ground (arith, e, insert_attempt-Untouched a w w', update_attempt-Untouched a w w'),
  ground (arith, e, insert_attempt-Untouched a w w', update_attempt-Untouched a w w'),
)

merge_lineages-Untouched :
    (pairs : List (Text × ℕ)) (db : Store) → Untouched db (merge_lineages pairs db)
unfolding merge_lineages merge_lineage
merge_lineages-Untouched [] db = (refl, refl)
merge_lineages-Untouched ((s, n) ∷ rest) db = merge_lineages-Untouched rest _

module _ (o : Occurrence) (rows : List Entry) where
  Holds-Untouched : (w w' : Work) → Untouched w.tables w'.tables → Holds o rows w → Holds o rows w'
  unfolding iter_entries
  Holds-Untouched w w' u h = record {
    row = h.row;
    found = rw u.0 h.found;
    follows = h.follows;
    manifest = rw u.1 h.manifest;
  }

  merge_attempts-Holds :
      (p : Observation) (attempts : List Attempt) (w w' : Work)
      → Holds o rows w
      → merge_attempts p attempts w ≡ ok w'
      → Holds o rows w'
  unfolding merge_attempts
  merge_attempts-Holds p [] w w' h e = ground (arith, e)
  merge_attempts-Holds p (a ∷ rest) w w' h e =
      bind-Holds o rows _ _ w' (λ w1 f. Holds-Untouched w w1 (merge_attempt-Untouched p a w w1 f) h)
        (λ w1. merge_attempts-Holds p rest w1 w') e

  merge_rest-Holds :
      (file : CatalogFile) (w w' : Work)
      → Holds o rows w
      → merge_rest file w ≡ ok w'
      → Holds o rows w'
  unfolding merge_rest with_intents
  merge_rest-Holds file w w' h e =
      let same = merge_lineages-Untouched file.tables.lineage (with_intents file w) in
      Holds-Untouched w w' (ground (arith, e, same.0), ground (arith, e, same.1)) h

  merge_export-Holds :
      (dumped : Option CatalogFile) (p : Observation) (w w' : Work)
      → Holds o rows w
      → merge_export dumped p w ≡ ok w'
      → Holds o rows w'
  unfolding merge_export
  merge_export-Holds none p w w' h e = ground (arith, e)
  merge_export-Holds (some file) p w w' h e =
      bind-Holds o rows (merge_occurrences file file.tables.occurrences w)
        (λ w1. bind (merge_attempts p file.tables.attempts w1) (merge_rest file)) w'
        (λ w1. merge_occurrences-Holds o rows file file.tables.occurrences w w1 h)
        (λ w1 h1.
          bind-Holds o rows (merge_attempts p file.tables.attempts w1) (merge_rest file) w'
            (λ w2. merge_attempts-Holds p file.tables.attempts w1 w2 h1)
            (λ w2. merge_rest-Holds file w2 w'))
        e

  merge_exports-Holds :
      (ps : List Observation) (w w' : Work)
      → Holds o rows w
      → merge_exports ps w ≡ ok w'
      → Holds o rows w'
  unfolding merge_exports
  merge_exports-Holds [] w w' h e = ground (arith, e)
  merge_exports-Holds (p ∷ rest) w w' h e =
      bind-Holds o rows _ _ w' (λ w1. merge_export-Holds p.dumped p w w1 h)
        (λ w1. merge_exports-Holds rest w1 w') e

  mark_intents-Holds : (w w' : Work) → Holds o rows w → mark_intents w ≡ ok w' → Holds o rows w'
  unfolding mark_intents
  mark_intents-Holds w w' h e = Holds-Untouched w w' (ground (arith, e), ground (arith, e)) h

  merge-Holds :
      (ps : List Observation) (base : Option Observation) (w w' : Work)
      → Holds o rows w
      → merge ps base w ≡ ok w'
      → Holds o rows w'
  unfolding merge
  merge-Holds ps base w w' h e =
      bind-Holds o rows _ _ w' (λ w1. merge_exports-Holds (others_of base ps) w w1 h)
        (λ w1. mark_intents-Holds w1 w') e

-- If the merge of the other exports into the base succeeds, then an occurrence that the base
-- describes is still described: the columns that may not differ are as they were, its state is the
-- same or a later one in the order of the states, if it was abandoned then its row is exactly as it
-- was, and the manifest is that of the base.
pub merge_sound :
    (ps : List Observation) (base : Option Observation) (w w' : Work) (o : Occurrence)
    → find_occurrence o.occ_id w.tables.occurrences ≡ some o
    → merge ps base w ≡ ok w'
    → Holds o (iter_entries w.tables o.occ_id) w'
merge_sound ps base w w' o f e =
    merge-Holds o (iter_entries w.tables o.occ_id) ps base w w'
      (record { row = o; found = f; follows = Follows-refl o; manifest = refl }) e
