-- ===== src/Gates/Fingerprint/Exact.antt =====
-- Exactly which walks pass the comparison (dropin/pipeline/fingerprint.py).
use dropin.Prelude.{
  ◌≡◌, refl, Bool, true, false, not, ◌&&◌, ◌||◌, Option, none, some, List, [], ◌∷◌, Text, text_eq,
  find_by, any, All-map, ok, err, arith, All, Option-cases, inl, inr, filter_by,
}
use dropin.Errors.{Exn, Raises}
use dropin.Gates.Equal.{type_eq_iff, size_eq_iff, opt_text_eq_iff}
use dropin.Gates.Fingerprint.{
  row_is, first_difference, check_entry, check_entries, least_path, removed_rows, check_end,
  compare,
}
use dropin.Spool.Walk.{WalkEntry}
use dropin.Store.{Fingerprint}

-- The fields of a fingerprint row are those of the live entry.
pub record IsSame (r : Fingerprint) (e : WalkEntry) : Type 0 where
  pub entry_type : r.entry_type ≡ e.entry_type
  pub size_bytes : r.size_bytes ≡ e.size_bytes
  pub mtime_ns : r.mtime_ns ≡ e.mtime_ns
  pub ctime_ns : r.ctime_ns ≡ e.ctime_ns
  pub inode : r.inode ≡ e.inode
  pub dev : r.dev ≡ e.dev
  pub link_target : r.link_target ≡ e.link_target

pub first_difference-none :
    (r : Fingerprint) (e : WalkEntry) → first_difference r e ≡ none → IsSame r e
unfolding first_difference
first_difference-none r e h = ground (
  arith,
  type_eq_iff r.entry_type e.entry_type,
  size_eq_iff r.size_bytes e.size_bytes,
  opt_text_eq_iff r.link_target e.link_target,
)

-- The live entry has a row of the occurrence, and is the same in every field.
abbrev pub IsRecorded : List Fingerprint → Text → WalkEntry → Type 0
IsRecorded rows occ_id e =
    (r : Fingerprint) × (find_by (row_is occ_id e.rel_path) rows ≡ some r) × IsSame r e

abbrev pub has_path : List WalkEntry → Text → Bool
has_path es p = any (λ e. text_eq p e.rel_path) es

check_entry_sound :
    (rows : List Fingerprint) (occ_id : Text) (seen : List Text) (e : WalkEntry) (seen' : List Text)
    → check_entry rows occ_id seen e ≡ ok seen'
    → IsRecorded rows occ_id e × (seen' ≡ e.rel_path ∷ seen)
unfolding check_entry
check_entry_sound rows occ_id seen e seen' h =
    elim (Option-cases (find_by (row_is occ_id e.rel_path) rows)) [
      | inl missing ↦ absurd (cc (rw (missing, check_entry) at h))
      | inr (r, found) ↦ elim (Option-cases (first_difference r e)) [
        | inr (field, differs) ↦
            absurd (cc (rw (differs, check_entry) at (rw (found, check_entry) at h)))
        | inl same ↦ (
          (r, found, first_difference-none r e same),
          ground (arith, rw (same, check_entry) at (rw (found, check_entry) at h)),
        )
      ]
    ]

check_entries_sound :
    (rows : List Fingerprint) (occ_id : Text) (seen : List Text) (es : List WalkEntry)
    (seen' : List Text)
    → check_entries rows occ_id seen es ≡ ok seen'
    → All (IsRecorded rows occ_id) es
      × ((p : Text) → any (text_eq p) seen' ≡ any (text_eq p) seen || has_path es p)
unfolding check_entries
check_entries_sound rows occ_id seen [] seen' h = (tt, λ p. ground arith)
check_entries_sound rows occ_id seen (e ∷ es) seen' h =
    go (check_entry rows occ_id seen e) refl λ s q. check_entries_sound rows occ_id s es seen' q
  where
    go :
        (r : Raises (List Text))
        → check_entry rows occ_id seen e ≡ r
        → ((s : List Text)
            → check_entries rows occ_id s es ≡ ok seen'
            → All (IsRecorded rows occ_id) es
              × ((p : Text) → any (text_eq p) seen' ≡ any (text_eq p) s || has_path es p))
        → All (IsRecorded rows occ_id) (e ∷ es)
          × ((p : Text) → any (text_eq p) seen' ≡ any (text_eq p) seen || has_path (e ∷ es) p)
    go (err x) q ih = absurd (cc (rw (q, check_entries) at h))
    go (ok s) q ih =
        let (recorded, same) = check_entry_sound rows occ_id seen e s q in
        let (rest, paths) = ih s (rw (q, check_entries) at h) in
        ((recorded, rest), λ p. ground (arith, paths p, same))

least_path-none : (rs : List Fingerprint) → least_path rs ≡ none → rs ≡ []
unfolding least_path
least_path-none [] h = refl
least_path-none (r ∷ rs) h = elim (Option-cases (least_path rs)) [
  | inl e ↦ absurd (cc (rw (e, least_path) at h))
  | inr (p, e) ↦ absurd (cc (rw (e, least_path) at h))
]

filter_by-nil :
    (p : Fingerprint → Bool) (rs : List Fingerprint)
    → filter_by p rs ≡ []
    → All (λ r. p r ≡ false) rs
filter_by-nil p [] h = tt
filter_by-nil p (r ∷ rs) h = ground (arith, filter_by-nil p rs)

-- Every row of the occurrence is met by a live entry.
abbrev pub IsMet : Text → List WalkEntry → Fingerprint → Type 0
IsMet occ_id es r = text_eq occ_id r.occ_id ≡ true → has_path es r.rel_path ≡ true

IsMet-of_seen :
    (occ_id : Text) (seen : List Text) (es : List WalkEntry)
    → ((p : Text) → any (text_eq p) seen ≡ has_path es p)
    → (r : Fingerprint) → (text_eq occ_id r.occ_id && not (any (text_eq r.rel_path) seen)) ≡ false
    → IsMet occ_id es r
IsMet-of_seen occ_id seen es paths r h own = ground (arith, paths r.rel_path)

check_end_sound :
    (rows : List Fingerprint) (occ_id : Text) (ended : Option Exn) (seen : List Text)
    → check_end rows occ_id ended seen ≡ ok tt
    → (ended ≡ none) × (removed_rows rows occ_id seen ≡ [])
check_end_sound rows occ_id none seen h =
    (refl, least_path-none (removed_rows rows occ_id seen) (ground arith))
check_end_sound rows occ_id (some x) seen h = absurd (ground arith)

-- The comparison passes only if the walk ended by itself, every live entry has a row of the
-- occurrence and is the same in every field, and every row of the occurrence is met.
pub compare_sound :
    (rows : List Fingerprint) (occ_id : Text) (es : List WalkEntry) (ended : Option Exn)
    → compare rows occ_id (es, ended) ≡ ok tt
    → (ended ≡ none) × All (IsRecorded rows occ_id) es × All (IsMet occ_id es) rows
unfolding compare
compare_sound rows occ_id es ended h = go (check_entries rows occ_id [] es) refl
  where
    go :
        (r : Raises (List Text))
        → check_entries rows occ_id [] es ≡ r
        → (ended ≡ none) × All (IsRecorded rows occ_id) es × All (IsMet occ_id es) rows
    go (err x) q = absurd (cc (rw (q, compare) at h))
    go (ok seen) q =
        let (recorded, paths) = check_entries_sound rows occ_id [] es seen q in
        let (done, gone) = check_end_sound rows occ_id ended seen (rw (q, compare) at h) in
        (
          done,
          recorded,
          All-map (IsMet-of_seen occ_id seen es paths) rows (filter_by-nil _ rows gone),
        )
