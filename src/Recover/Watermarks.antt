-- ===== src/Recover/Watermarks.antt =====
-- `_rebuild_meta` of dropin/recover.py: no sequence is given out twice.
use Prim.Native.Nat.{max}
use dropin.Prelude.{
  none, ℕ, suc, ◌++◌, ◌≡◌, ◌≤◌, ◌<◌, refl, Bool, true, false, ◌&&◌, List, [], ◌∷◌, Text, text_eq,
  any, All, All-map, ok, arith,
}
use dropin.Errors.{Raises}
use dropin.Recover.Base.{Observation}
use dropin.Recover.Merge.{merge_lineages}
use dropin.Recover.Meta.{top_seq, own_seq, foreign, rebuild_meta}
use dropin.Store.{Store, Attempt}
use dropin.Store.Records.{
  is_confirmed, merge_lineage, attempt_is, occ_is, attempt_clash, start_attempt, new_attempt,
}
use dropin.Recover.Lineage.{AtLeast, merge_lineages-own, is_foreign, foreign-own}

abbrev pub every : Attempt → Bool
every _ = true

-- No attempt of the store that passes the test is above the bound.
abbrev pub Under : Text → (Attempt → Bool) → ℕ → List Attempt → Type 0
Under store_id p n attempts =
    All (λ a. (text_eq store_id a.origin_store_id && p a) ≡ true → a.export_seq ≤ n) attempts

top_seq-upper :
    (store_id : Text) (p : Attempt → Bool) (rows : List Attempt) (n : ℕ)
    → top_seq store_id p rows ≤ n
    → Under store_id p n rows
unfolding top_seq
top_seq-upper store_id p [] n h = tt
top_seq-upper store_id p (a ∷ rest) n h =
    (λ t. ground (arith, h, t), top_seq-upper store_id p rest n (ground (arith, h)))

-- The highest of some is not above the highest of all.
top_seq-le :
    (store_id : Text) (p : Attempt → Bool) (rows : List Attempt)
    → top_seq store_id p rows ≤ top_seq store_id every rows
unfolding top_seq
top_seq-le store_id p [] = omega arith
top_seq-le store_id p (a ∷ rest) = ground (arith, top_seq-le store_id p rest)

own_seq-upper :
    (store_id : Text) (os : List Observation) (n : ℕ)
    → own_seq store_id os ≤ n
    → All (λ o. text_eq store_id o.identity.store_id ≡ true → o.identity.export_seq ≤ n) os
unfolding own_seq
own_seq-upper store_id [] n h = tt
own_seq-upper store_id (o ∷ rest) n h =
    (λ t. ground (arith, h, t), own_seq-upper store_id rest n (ground (arith, h)))

merge_lineages-rest :
    (pairs : List (Text × ℕ)) (db : Store)
    → ((merge_lineages pairs db).attempts ≡ db.attempts)
      × ((merge_lineages pairs db).export_seq ≡ db.export_seq)
      × ((merge_lineages pairs db).published_frontier ≡ db.published_frontier)
unfolding merge_lineages merge_lineage
merge_lineages-rest [] db = (refl, refl, refl)
merge_lineages-rest ((s, n) ∷ rest) db = merge_lineages-rest rest _

rebuild_meta_shape :
    (os : List Observation) (store_id : Text) (db : Store)
    → ((rebuild_meta os store_id db).attempts ≡ db.attempts)
      × ((rebuild_meta os store_id db).export_seq
          ≡ max (top_seq store_id every db.attempts) (own_seq store_id os))
      × ((rebuild_meta os store_id db).published_frontier
          ≡ top_seq store_id (λ a. is_confirmed a.outcome) db.attempts)
unfolding rebuild_meta
rebuild_meta_shape os store_id db = merge_lineages-rest (foreign store_id os []) _

rebuild_meta-foreign :
    (os : List Observation) (store_id : Text) (db : Store)
    → All
        (λ o.
          is_foreign store_id o ≡ true
          → AtLeast (rebuild_meta os store_id db).lineage o.identity.store_id o.identity.export_seq)
        os
unfolding rebuild_meta
rebuild_meta-foreign os store_id db =
    All-map (λ o k h. merge_lineages-own (foreign store_id os []) _ _ _ (k h)) os
      (foreign-own store_id os [])

-- What holds of the rebuilt store.
abbrev pub IsRebuilt : List Observation → Text → Store → Store → Type 0
IsRebuilt os store_id db db' =
    Under store_id every db'.export_seq db.attempts
    × All
        (λ o. text_eq store_id o.identity.store_id ≡ true → o.identity.export_seq ≤ db'.export_seq)
        os
    × Under store_id (λ a. is_confirmed a.outcome) db'.published_frontier db.attempts
    × (db'.published_frontier ≤ db'.export_seq)
    × All
        (λ o.
          is_foreign store_id o ≡ true
          → AtLeast db'.lineage o.identity.store_id o.identity.export_seq)
        os
    × (db'.attempts ≡ db.attempts)

-- After the watermarks are rebuilt for a store: no attempt of the store is above its sequence, nor
-- is any of its own observed snapshots; no confirmed attempt of the store is above its frontier,
-- which is not above its sequence; and every other store of which a valid snapshot was observed is
-- merged through the sequence of that snapshot at least. The attempts stay as they were.
pub rebuild_meta_bounds :
    (os : List Observation) (store_id : Text) (db : Store)
    → IsRebuilt os store_id db (rebuild_meta os store_id db)
rebuild_meta_bounds os store_id db =
    let shape = rebuild_meta_shape os store_id db in
    (
      top_seq-upper store_id every db.attempts _ (omega (arith, shape.1)),
      own_seq-upper store_id os _ (omega (arith, shape.1)),
      top_seq-upper store_id (λ a. is_confirmed a.outcome) db.attempts _ (omega (arith, shape.2)),
      omega
          (arith, shape.1, shape.2, top_seq-le store_id (λ a. is_confirmed a.outcome) db.attempts),
      rebuild_meta-foreign os store_id db,
      shape.0,
    )

-- A sequence above all of the store clashes with none.
unclashing :
    (attempt_id store_id : Text) (n : ℕ) (rows : List Attempt)
    → Under store_id every n rows
    → any (attempt_is attempt_id) rows ≡ false
    → attempt_clash attempt_id store_id (suc n) rows ≡ false
unclashing attempt_id store_id n [] u h = refl
unclashing attempt_id store_id n (a ∷ rest) u h =
    ground (arith, u.0, h, unclashing attempt_id store_id n rest u.1)

abbrev with_row : Text → Text → Text → Text → ℕ → Store → Store
with_row attempt_id occ_id store_id path now db = record db {
  export_seq = suc db.export_seq;
  attempts =
      db.attempts ++ new_attempt attempt_id store_id occ_id (suc db.export_seq) path now ∷ [];
}

start_attempt-fresh :
    (attempt_id occ_id store_id path : Text) (now : ℕ) (db : Store)
    → attempt_clash attempt_id store_id (suc db.export_seq) db.attempts ≡ false
    → any (occ_is occ_id) db.occurrences ≡ true
    → start_attempt attempt_id occ_id store_id path none now db
      ≡ ok (
        new_attempt attempt_id store_id occ_id (suc db.export_seq) path now,
        with_row attempt_id occ_id store_id path now db,
      )
unfolding start_attempt
start_attempt-fresh attempt_id occ_id store_id path now db h k = ground (arith, h, k)

-- The result is an attempt above every sequence of the store.
abbrev pub IsAbove : List Observation → Text → List Attempt → Raises (Attempt × Store) → Type 0
IsAbove os store_id attempts r =
    (row : Attempt) × (db' : Store) × (r ≡ ok (row, db'))
    × All (λ a. text_eq store_id a.origin_store_id ≡ true → a.export_seq < row.export_seq) attempts
    × All
        (λ o. text_eq store_id o.identity.store_id ≡ true → o.identity.export_seq < row.export_seq)
        os

merge_lineages-occurrences :
    (pairs : List (Text × ℕ)) (db : Store) → (merge_lineages pairs db).occurrences ≡ db.occurrences
unfolding merge_lineages merge_lineage
merge_lineages-occurrences [] db = refl
merge_lineages-occurrences ((s, n) ∷ rest) db = merge_lineages-occurrences rest _

rebuild_meta-occurrences :
    (os : List Observation) (store_id : Text) (db : Store)
    → (rebuild_meta os store_id db).occurrences ≡ db.occurrences
unfolding rebuild_meta
rebuild_meta-occurrences os store_id db = merge_lineages-occurrences (foreign store_id os []) _

-- After the watermarks are rebuilt for a store, a new attempt of an occurrence that the store has,
-- with an identifier that no attempt has, is not refused, and its sequence is above that of every
-- attempt of the store and of every snapshot that was observed of it.
pub start_attempt-rebuild_meta :
    (os : List Observation) (store_id : Text) (db : Store) (attempt_id occ_id path : Text) (now : ℕ)
    → any (attempt_is attempt_id) db.attempts ≡ false
    → any (occ_is occ_id) db.occurrences ≡ true
    → IsAbove os store_id db.attempts
        (start_attempt attempt_id occ_id store_id path none now (rebuild_meta os store_id db))
start_attempt-rebuild_meta os store_id db attempt_id occ_id path now h known =
    let bounds = rebuild_meta_bounds os store_id db in
    let db1 : Store = rebuild_meta os store_id db in
    (
      new_attempt attempt_id store_id occ_id (suc db1.export_seq) path now,
      with_row attempt_id occ_id store_id path now db1,
      start_attempt-fresh attempt_id occ_id store_id path now db1
          (rw bounds.5 (unclashing attempt_id store_id db1.export_seq db.attempts bounds.0 h))
          (rw (rebuild_meta-occurrences os store_id db) known),
      All-map (λ a k e. ground (arith, k, e)) db.attempts bounds.0,
      All-map (λ o k e. ground (arith, k, e)) os bounds.1,
    )
