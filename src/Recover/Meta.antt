-- ===== src/Recover/Meta.antt =====
-- dropin/recover.py: the watermarks and the lineage of the new store, from what was observed.
use Prim.Native.Nat.{max}
use dropin.Prelude.{ℕ, Bool, true, not, ◌&&◌, List, [], ◌∷◌, Text, text_eq, if◌then◌else◌}
use dropin.Recover.Base.{Observation}
use dropin.Recover.Merge.{merge_lineages}
use dropin.Store.{Store, Attempt}
use dropin.Store.Records.{is_confirmed, merge_pairs}

-- The highest sequence of a store among the attempts that pass a test; zero if there is none.
unfoldable pub top_seq : Text → (Attempt → Bool) → List Attempt → ℕ
top_seq store_id p [] = 0
top_seq store_id p (a ∷ rest) =
    let others : ℕ = top_seq store_id p rest in
    if text_eq store_id a.origin_store_id && p a then max a.export_seq others else others

-- The highest sequence that the store's own snapshots show.
unfoldable pub own_seq : Text → List Observation → ℕ
own_seq store_id [] = 0
own_seq store_id (o ∷ rest) =
    let others : ℕ = own_seq store_id rest in
    if text_eq store_id o.identity.store_id then max o.identity.export_seq others else others

-- `foreign`, where an entry is raised as in the table of lineages
unfoldable pub foreign : Text → List Observation → List (Text × ℕ) → List (Text × ℕ)
unfolding merge_pairs
foreign store_id [] found = found
foreign store_id (o ∷ rest) found = foreign store_id rest (
    if not (text_eq o.identity.store_id store_id) && o.valid
    then merge_pairs o.identity.store_id o.identity.export_seq found
    else found)

-- `_rebuild_meta`
unfoldable pub rebuild_meta : List Observation → Text → Store → Store
unfolding top_seq own_seq foreign merge_lineages
rebuild_meta observations store_id db =
    merge_lineages (foreign store_id observations []) (record db {
      store_id = store_id;
      export_seq = max (top_seq store_id (λ _. true) db.attempts) (own_seq store_id observations);
      published_frontier = top_seq store_id (λ a. is_confirmed a.outcome) db.attempts;
    })
