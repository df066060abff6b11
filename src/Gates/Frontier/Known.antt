-- ===== src/Gates/Frontier/Known.antt =====
-- What a repository that passes the frontier check holds (dropin/pipeline/frontier.py).
use dropin.Prelude.{
  ℕ, ◌≡◌, refl, inl, inr, true, false, none, some, List, [], ◌∷◌, Text, text_eq, Result, ok, err,
  All, arith, Bool-cases, Option-cases,
}
use dropin.Engine.Tags.{Identity, TagError, int_limit, parse_tags, tag_set}
use dropin.Gates.Frontier.{
  Refusal, matching_attempt, require_known, is_merged, check_identity, check_parsed,
  check_snapshots, check_frontier,
}
use dropin.Gates.Repository.{Snapshot}
use dropin.Store.{Store, Attempt, SnapshotRow}
use dropin.Store.Records.{get_snapshot, merged_through, tag_sets_eq}

-- A snapshot of this store that its ledger has with the same tags, or of which the attempt matches;
-- or a snapshot of a store that is merged up to its sequence.
pub data IsKnown (db : Store) (store_id : Text) (s : Snapshot) (i : Identity) : Type 0 where
  ledgered :
      (row : SnapshotRow)
      → get_snapshot db s.id ≡ some row
      → tag_sets_eq row.tag_set (tag_set i) ≡ true
      → IsKnown db store_id s i
  attempted :
      (a : Attempt)
      → get_snapshot db s.id ≡ none
      → matching_attempt db i ≡ some a
      → IsKnown db store_id s i
  merged :
      text_eq i.store_id store_id ≡ false
      → is_merged (merged_through db.lineage i.store_id) i.export_seq ≡ true
      → IsKnown db store_id s i

-- The tags of the snapshot are the canonical ones, and the store knows it.
abbrev pub IsPlaced : Store → Text → Snapshot → Type 0
IsPlaced db store_id s = (i : Identity) × (parse_tags s.tags ≡ ok i) × IsKnown db store_id s i

require_known_sound :
    (store_id : Text) (s : Snapshot) (i : Identity) (now : ℕ) (db db' : Store)
    → require_known false s i now db ≡ ok db'
    → IsKnown db store_id s i × (db' ≡ db)
unfolding require_known
require_known_sound store_id s i now db db' h = elim (Option-cases (get_snapshot db s.id)) [
  | inl e ↦ elim (Option-cases (matching_attempt db i)) [
    | inl f ↦ cc (rw (require_known, e, f) at h)
    | inr (a, f) ↦ (attempted a e f, ground (arith, rw (require_known, e, f) at h))
  ]
  | inr (row, e) ↦ elim (Bool-cases (tag_sets_eq row.tag_set (tag_set i))) [
    | inl f ↦ (ledgered row e f, ground (arith, rw (require_known, e, f) at h))
    | inr f ↦ cc (rw (require_known, e, f) at h)
  ]
]

check_identity_sound :
    (store_id : Text) (s : Snapshot) (i : Identity) (now : ℕ) (db db' : Store)
    → check_identity false db.lineage store_id s i now db ≡ ok db'
    → IsKnown db store_id s i × (db' ≡ db)
unfolding check_identity
check_identity_sound store_id s i now db db' h = elim (Bool-cases (text_eq i.store_id store_id)) [
  | inl e ↦ require_known_sound store_id s i now db db' (rw e at h)
  | inr e ↦ elim (Bool-cases (is_merged (merged_through db.lineage i.store_id) i.export_seq)) [
    | inl f ↦ (merged e f, ground (arith, rw (e, f) at h))
    | inr f ↦ cc (rw (e, f) at h)
  ]
]

check_parsed_sound :
    (store_id : Text) (s : Snapshot) (r : Result TagError Identity) (now : ℕ) (db db' : Store)
    → parse_tags s.tags ≡ r
    → check_parsed false db.lineage store_id s r now db ≡ ok db'
    → IsPlaced db store_id s × (db' ≡ db)
unfolding check_parsed
check_parsed_sound store_id s (ok i) now db db' e h =
    let known = check_identity_sound store_id s i now db db' h in ((i, e, known.0), known.1)
check_parsed_sound store_id s (err int_limit) now db db' e h = cc
check_parsed_sound store_id s (err x) now db db' e h = cc

check_snapshots_sound :
    (store_id : Text) (now : ℕ) (snapshots : List Snapshot) (db db' : Store)
    → check_snapshots false db.lineage store_id now snapshots db ≡ (none, db')
    → All (IsPlaced db store_id) snapshots × (db' ≡ db)
unfolding check_snapshots
check_snapshots_sound store_id now [] db db' h = (tt, ground (arith, h))
check_snapshots_sound store_id now (s ∷ rest) db db' h =
    go (check_parsed false db.lineage store_id s (parse_tags s.tags) now db) refl
      (check_snapshots_sound store_id now rest db db')
  where
    go :
        (r : Result Refusal Store)
        → check_parsed false db.lineage store_id s (parse_tags s.tags) now db ≡ r
        → (check_snapshots false db.lineage store_id now rest db ≡ (none, db')
            → All (IsPlaced db store_id) rest × (db' ≡ db))
        → All (IsPlaced db store_id) (s ∷ rest) × (db' ≡ db)
    go (ok d) e ih =
        let first = check_parsed_sound store_id s (parse_tags s.tags) now db d refl e in
        let later = ih (rw first.1 at (rw (check_snapshots, e) at h)) in
        ((first.0, later.0), later.1)
    go (err x) e ih = absurd (cc (rw (check_snapshots, e) at h))

-- If `assess_frontier` passes, then every snapshot that the repository lists has canonical tags and
-- is in the ledger with those tags, is known by its attempt, or comes from a store that is merged
-- up to its sequence; and the store is left as it was.
pub assess_frontier_sound :
    (store_id : Text) (now : ℕ) (snapshots : List Snapshot) (db db' : Store)
    → check_frontier false store_id now snapshots db ≡ (none, db')
    → All (IsPlaced db store_id) snapshots × (db' ≡ db)
unfolding check_frontier
assess_frontier_sound store_id now snapshots db db' h =
    check_snapshots_sound store_id now snapshots db db' h
