-- ===== src/Recover/Lineage.antt =====
-- The table of lineages that `_rebuild_meta` of dropin/recover.py writes.
use Prim.Native.Nat.{max}
use dropin.Prelude.{
  ℕ, ◌≡◌, ◌≤◌, refl, Bool, true, false, not, ◌&&◌, some, List, [], ◌∷◌, Text, text_eq, text_eq_refl,
  text_eq_sound, All, if◌then◌else◌, arith,
}
use dropin.Recover.Base.{Observation}
use dropin.Recover.Merge.{merge_lineages}
use dropin.Recover.Meta.{foreign}
use dropin.Store.{Store}
use dropin.Store.Records.{merge_pairs, merge_lineage, merged_through}

-- A store is merged through a sequence at least.
abbrev pub AtLeast : List (Text × ℕ) → Text → ℕ → Type 0
AtLeast pairs store_id n = (m : ℕ) × (merged_through pairs store_id ≡ some m) × (n ≤ m)

merge_pairs-own : (s : Text) (n : ℕ) (pairs : List (Text × ℕ)) → AtLeast (merge_pairs s n pairs) s n
unfolding merge_pairs merged_through
merge_pairs-own s n [] = (n, ground (arith, text_eq_refl s), omega arith)
merge_pairs-own s n ((t, m) ∷ rest) = go (text_eq s t) refl (merge_pairs-own s n rest)
  where
    go :
        (b : Bool)
        → text_eq s t ≡ b
        → AtLeast (merge_pairs s n rest) s n
        → AtLeast (if b then (t, max m n) ∷ rest else (t, m) ∷ merge_pairs s n rest) s n
    go true h r = (max m n, ground (arith, h), ground arith)
    go false h r = (r.0, ground (arith, h, r.1), r.2)

merge_pairs-keep :
    (s : Text) (n : ℕ) (pairs : List (Text × ℕ)) (k : Text) (l : ℕ)
    → AtLeast pairs k l
    → AtLeast (merge_pairs s n pairs) k l
unfolding merge_pairs merged_through
merge_pairs-keep s n [] k l h = cc
merge_pairs-keep s n ((t, m) ∷ rest) k l h =
    go (text_eq s t) (text_eq k t) refl h (λ r. merge_pairs-keep s n rest k l r)
  where
    go :
        (b c : Bool)
        → text_eq k t ≡ c
        → ((q : ℕ) × ((if c then some m else merged_through rest k) ≡ some q) × (l ≤ q))
        → (AtLeast rest k l → AtLeast (merge_pairs s n rest) k l)
        → AtLeast (if b then (t, max m n) ∷ rest else (t, m) ∷ merge_pairs s n rest) k l
    go true true e r keep = (max m n, ground (arith, e), ground (arith, r.1, r.2))
    go true false e r keep = (r.0, ground (arith, e, r.1), r.2)
    go false true e r keep = (r.0, ground (arith, e, r.1), r.2)
    go false false e r keep =
        let kept : AtLeast (merge_pairs s n rest) k l = keep r in
        (kept.0, ground (arith, e, kept.1), kept.2)

merge_lineages-keep :
    (pairs : List (Text × ℕ)) (db : Store) (k : Text) (l : ℕ)
    → AtLeast db.lineage k l
    → AtLeast (merge_lineages pairs db).lineage k l
unfolding merge_lineages merge_lineage
merge_lineages-keep [] db k l h = h
merge_lineages-keep ((s, n) ∷ rest) db k l h =
    merge_lineages-keep rest _ k l (merge_pairs-keep s n db.lineage k l h)

AtLeast-le :
    (pairs : List (Text × ℕ)) (k : Text) (l n : ℕ) → n ≤ l → AtLeast pairs k l → AtLeast pairs k n
AtLeast-le pairs k l n h (m, e, le) = (m, e, omega (arith, h, le))

-- Every pair that is found in the pairs is merged.
pub merge_lineages-own :
    (pairs : List (Text × ℕ)) (db : Store) (k : Text) (l : ℕ)
    → AtLeast pairs k l
    → AtLeast (merge_lineages pairs db).lineage k l
unfolding merge_lineages merge_lineage merged_through
merge_lineages-own [] db k l h = cc
merge_lineages-own ((s, n) ∷ rest) db k l h =
    go (text_eq k s) refl h (λ r. merge_lineages-own rest (merge_lineage s n db) k l r)
  where
    go :
        (c : Bool)
        → text_eq k s ≡ c
        → ((q : ℕ) × ((if c then some n else merged_through rest k) ≡ some q) × (l ≤ q))
        → (AtLeast rest k l → AtLeast (merge_lineages rest (merge_lineage s n db)).lineage k l)
        → AtLeast (merge_lineages rest (merge_lineage s n db)).lineage k l
    go true e (q, f, le) keep = merge_lineages-keep rest _ k l (
        rw (text_eq_sound k s e)
          (AtLeast-le _ s n l (ground (arith, f, le)) (merge_pairs-own s n db.lineage)))
    go false e h keep = keep h

foreign-keep :
    (store_id : Text) (os : List Observation) (found : List (Text × ℕ)) (k : Text) (l : ℕ)
    → AtLeast found k l
    → AtLeast (foreign store_id os found) k l
unfolding foreign
foreign-keep store_id [] found k l h = h
foreign-keep store_id (o ∷ rest) found k l h =
    foreign-keep store_id rest _ k l (go (not (text_eq o.identity.store_id store_id) && o.valid))
  where
    go :
        (b : Bool)
        → AtLeast
            (if b then merge_pairs o.identity.store_id o.identity.export_seq found else found)
            k
            l
    go true = merge_pairs-keep _ _ found k l h
    go false = h

-- A valid snapshot of another store.
abbrev pub is_foreign : Text → Observation → Bool
is_foreign store_id o = not (text_eq o.identity.store_id store_id) && o.valid

pub foreign-own :
    (store_id : Text) (os : List Observation) (found : List (Text × ℕ))
    → All
        (λ o.
          is_foreign store_id o ≡ true
          → AtLeast (foreign store_id os found) o.identity.store_id o.identity.export_seq)
        os
unfolding foreign
foreign-own store_id [] found = tt
foreign-own store_id (o ∷ rest) found = (own (is_foreign store_id o), foreign-own store_id rest _)
  where
    own :
        (b : Bool)
        → b ≡ true
        → AtLeast
            (foreign store_id rest
              (if b then merge_pairs o.identity.store_id o.identity.export_seq found else found))
            o.identity.store_id
            o.identity.export_seq
    own true h = foreign-keep store_id rest _ _ _ (merge_pairs-own _ _ found)
    own false h = cc
