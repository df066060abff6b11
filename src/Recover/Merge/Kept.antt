-- ===== src/Recover/Merge/Kept.antt =====
-- `_merge` of dropin/recover.py never changes what an occurrence is.
use mathlib.Core.Path.{subst}
use dropin.Prelude.{
  ℕ, ◌≡◌, ◌≢◌, ◌≤◌, refl, ap, ◌∙◌, inl, inr, Bool, true, false, ◌&&◌, Option, none, some, List, [],
  ◌∷◌, Text, text_eq, text_eq_sound, filter_by, filter_by-append, append-nil, find_by,
  if◌then◌else◌, ==_iff, Bool-cases, ok, err, bind, arith,
}
use dropin.Errors.{Raises, identity_collision}
use dropin.Gates.Catalog.{CatalogFile, LineageRow}
use dropin.Recover.Merge.{
  outranks, insert_occurrence, takes, take_if, abandons, merge_occurrence, merge_occurrences,
}
use dropin.Recover.Merge.Rows.{Work, same_identity, same_rows}
use dropin.States.{State, index, state_eq}
use dropin.Store.{Store, Occurrence, Entry}
use dropin.Store.Laws.{find_occurrence}
use dropin.Store.Records.{occ_is, iter_entries}
use dropin.Recover.Merge.Lookup.{
  find_occurrence-append, find_occurrence-put, find_occurrence-put_other, filter_by-other, apart,
  same_row,
}

-- The columns that may never differ.
abbrev pub Columns : Type 0
Columns = Text × Text × Text × Text × Text × Text × ℕ × ℕ

abbrev pub columns : Occurrence → Columns
columns o = (
  o.origin_store_id, o.item_name, o.archive_path, o.kind, o.spool_path, o.root_sha256, o.size_bytes,
  o.entry_count,
)

-- How a row may follow another: it has the same columns, its state is not before in the order of
-- declaration, and an abandoned row stays as it is.
pub record Follows (o o' : Occurrence) : Type 0 where
  pub columns_eq : columns o' ≡ columns o
  pub state_le : index o.state ≤ index o'.state
  pub abandoned_stays : o.state ≡ State.abandoned → o' ≡ o

pub Follows-refl : (o : Occurrence) → Follows o o
Follows-refl o = record { columns_eq = refl; state_le = omega arith; abandoned_stays = λ _. refl }

-- A row of the work store, with the manifest of its occurrence.
pub record Holds (o : Occurrence) (rows : List Entry) (w : Work) : Type 0 where
  pub row : Occurrence
  pub found : find_occurrence o.occ_id w.tables.occurrences ≡ some row
  pub follows : Follows o row
  pub manifest : iter_entries w.tables o.occ_id ≡ rows

same_identity-columns : (a b : Occurrence) → same_identity a b ≡ true → columns b ≡ columns a
unfolding same_identity
same_identity-columns a b h = ground (
  arith,
  h,
  text_eq_sound a.origin_store_id b.origin_store_id,
  text_eq_sound a.item_name b.item_name,
  text_eq_sound a.archive_path b.archive_path,
  text_eq_sound a.kind b.kind,
  text_eq_sound a.spool_path b.spool_path,
  text_eq_sound a.root_sha256 b.root_sha256,
  ==_iff a.size_bytes b.size_bytes,
  ==_iff a.entry_count b.entry_count,
)

outranks-index :
    (a b : State) → state_eq b State.abandoned ≡ false → outranks a b ≡ true → index b ≤ index a
unfolding outranks
outranks-index a b k h = ground (arith, k, h)

not_abandoned : (a : State) → state_eq a State.abandoned ≡ false → a ≢ State.abandoned
not_abandoned a h e = ground (arith, h, e)

index_top : (a b : State) → state_eq b State.abandoned ≡ true → index a ≤ index b
index_top a b h = ground (arith, h)

takes-index :
    (exported : List LineageRow) (existing incoming : Occurrence) (w : Work)
    → takes exported existing incoming w ≡ ok true
    → (existing.state ≢ State.abandoned) × (index existing.state ≤ index incoming.state)
unfolding takes
takes-index exported existing incoming w h =
    go (state_eq existing.state State.abandoned) refl (state_eq incoming.state State.abandoned) refl
      h
  where
    go :
        (b : Bool)
        → state_eq existing.state State.abandoned ≡ b
        → (c : Bool) → state_eq incoming.state State.abandoned ≡ c
        → (if b
            then ok false
            else if c
            then abandons exported existing w
            else ok (outranks incoming.state existing.state))
          ≡ ok true
        → (existing.state ≢ State.abandoned) × (index existing.state ≤ index incoming.state)
    go true e c f h = cc
    go false e true f h = (not_abandoned _ e, index_top existing.state _ f)
    go false e false f h =
        (not_abandoned _ e, outranks-index incoming.state existing.state e (ground (arith, h)))

module _ (o : Occurrence) (rows : List Entry) where
  insert_occurrence-Holds :
      (src : Store) (incoming : Occurrence) (w w' : Work)
      → find_by (occ_is incoming.occ_id) w.tables.occurrences ≡ none
      → Holds o rows w
      → insert_occurrence src incoming w ≡ ok w'
      → Holds o rows w'
  unfolding insert_occurrence iter_entries
  insert_occurrence-Holds src incoming w w' n h e = record {
    row = h.row;
    found =
        ground
          (arith, e, find_occurrence-append o.occ_id w.tables.occurrences incoming h.row h.found);
    follows = h.follows;
    manifest = ground (
      arith,
      e,
      h.manifest,
      filter_by-append (λ r. text_eq o.occ_id r.occ_id) w.tables.entries
          (filter_by (λ r. text_eq incoming.occ_id r.occ_id) src.entries),
      filter_by-other o.occ_id incoming.occ_id src.entries
          (apart o.occ_id incoming.occ_id w.tables.occurrences h.row h.found n),
      append-nil (filter_by (λ r. text_eq o.occ_id r.occ_id) w.tables.entries),
    );
  }

  Follows-then :
      (row incoming : Occurrence)
      → Follows o row
      → columns incoming ≡ columns row
      → (row.state ≢ State.abandoned) × (index row.state ≤ index incoming.state)
      → Follows o incoming
  Follows-then row incoming f c t = record {
    columns_eq = c ∙ f.columns_eq;
    state_le = omega (arith, f.state_le, t.1);
    abandoned_stays = λ a. absurd (t.0 (ap (λ q. q.state) (f.abandoned_stays a) ∙ a));
  }

  take_if-Holds :
      (exported : List LineageRow) (existing incoming : Occurrence) (w w' : Work)
      → find_by (occ_is incoming.occ_id) w.tables.occurrences ≡ some existing
      → columns incoming ≡ columns existing
      → Holds o rows w
      → (r : Raises Bool) → takes exported existing incoming w ≡ r
      → take_if incoming w r ≡ ok w'
      → Holds o rows w'
  unfolding iter_entries
  take_if-Holds exported existing incoming w w' n c h (err x) t e = cc
  take_if-Holds exported existing incoming w w' n c h (ok false) t e = ground (arith, e)
  take_if-Holds exported existing incoming w w' n c h (ok true) t e =
      elim (Bool-cases (text_eq o.occ_id incoming.occ_id)) [
        | inl k ↦ record {
          row = incoming;
          found = ground (
            arith,
            e,
            find_occurrence-put o.occ_id incoming w.tables.occurrences h.row k h.found,
          );
          follows =
              Follows-then existing incoming
                (subst (Follows o)
                  (same_row o.occ_id incoming.occ_id w.tables.occurrences h.row existing k h.found
                    n)
                  h.follows)
                c (takes-index exported existing incoming w t);
          manifest = ground (arith, e, h.manifest);
        }
        | inr k ↦ record {
          row = h.row;
          found = ground (
            arith,
            e,
            h.found,
            find_occurrence-put_other o.occ_id incoming w.tables.occurrences k,
          );
          follows = h.follows;
          manifest = ground (arith, e, h.manifest);
        }
      ]

  merge_occurrence-Holds :
      (file : CatalogFile) (incoming : Occurrence) (w w' : Work)
      → Holds o rows w
      → merge_occurrence file incoming w ≡ ok w'
      → Holds o rows w'
  unfolding merge_occurrence
  merge_occurrence-Holds file incoming w w' h =
      go (find_by (occ_is incoming.occ_id) w.tables.occurrences) refl
    where
      same :
          (existing : Occurrence)
          → find_by (occ_is incoming.occ_id) w.tables.occurrences ≡ some existing
          → (b : Bool)
          → (same_identity existing incoming && same_rows incoming.occ_id w.tables file.tables) ≡ b
          → (if b
              then take_if incoming w (takes file.lineage existing incoming w)
              else err (identity_collision incoming.occ_id))
            ≡ ok w'
          → Holds o rows w'
      same existing n false b e = cc
      same existing n true b e =
          take_if-Holds file.lineage existing incoming w w' n
            (same_identity-columns existing incoming (ground (arith, b))) h
            (takes file.lineage existing incoming w) refl e

      go :
          (r : Option Occurrence)
          → find_by (occ_is incoming.occ_id) w.tables.occurrences ≡ r
          → elim r [
            | none ↦ insert_occurrence file.tables incoming w
            | some existing ↦
                if same_identity existing incoming && same_rows incoming.occ_id w.tables file.tables
                then take_if incoming w (takes file.lineage existing incoming w)
                else err (identity_collision incoming.occ_id)
          ]
            ≡ ok w'
          → Holds o rows w'
      go none n e = insert_occurrence-Holds file.tables incoming w w' n h e
      go (some existing) n e =
          same existing n
            (same_identity existing incoming && same_rows incoming.occ_id w.tables file.tables) refl
            e

  -- A chain of two steps of which the first keeps the row and so does the second.
  pub bind-Holds :
      (r : Raises Work) (f : Work → Raises Work) (w' : Work)
      → ((w1 : Work) → r ≡ ok w1 → Holds o rows w1)
      → ((w1 : Work) → Holds o rows w1 → f w1 ≡ ok w' → Holds o rows w')
      → bind r f ≡ ok w'
      → Holds o rows w'
  bind-Holds (err x) f w' first second e = cc
  bind-Holds (ok w1) f w' first second e = second w1 (first w1 refl) e

  pub merge_occurrences-Holds :
      (file : CatalogFile) (os : List Occurrence) (w w' : Work)
      → Holds o rows w
      → merge_occurrences file os w ≡ ok w'
      → Holds o rows w'
  unfolding merge_occurrences
  merge_occurrences-Holds file [] w w' h e = ground (arith, e)
  merge_occurrences-Holds file (x ∷ rest) w w' h e =
      bind-Holds _ _ w' (λ w1. merge_occurrence-Holds file x w w1 h)
        (λ w1. merge_occurrences-Holds file rest w1 w') e
