-- ===== src/Gates/Fingerprint/Passes.antt =====
-- An unchanged item passes the comparison (dropin/pipeline/fingerprint.py).
use dropin.Prelude.{◌≡◌, refl, false, ◌||◌, none, List, [], ◌∷◌, Text, text_eq, any, All, ok, arith}
use dropin.Gates.Equal.{type_eq_iff, size_eq_iff, opt_text_eq_iff}
use dropin.Gates.Fingerprint.{
  first_difference, check_entry, check_entries, least_path, removed_rows, check_end, compare,
}
use dropin.Gates.Fingerprint.Exact.{IsSame, IsRecorded, IsMet, has_path}
use dropin.Spool.Walk.{WalkEntry}
use dropin.Store.{Fingerprint}

first_difference_same : (r : Fingerprint) (e : WalkEntry) → IsSame r e → first_difference r e ≡ none
unfolding first_difference
first_difference_same r e s = ground (
  arith,
  type_eq_iff r.entry_type e.entry_type,
  size_eq_iff r.size_bytes e.size_bytes,
  opt_text_eq_iff r.link_target e.link_target,
)

-- No path of the walk is in `seen` or comes twice.
abbrev pub IsFresh : List Text → List WalkEntry → Type 0
IsFresh seen [] = Unit {0}
IsFresh seen (e ∷ es) = (any (text_eq e.rel_path) seen ≡ false) × IsFresh (e.rel_path ∷ seen) es

abbrev paths_onto : List WalkEntry → List Text → List Text
paths_onto [] seen = seen
paths_onto (e ∷ es) seen = paths_onto es (e.rel_path ∷ seen)

check_entry_pass :
    (rows : List Fingerprint) (occ_id : Text) (seen : List Text) (e : WalkEntry)
    → IsRecorded rows occ_id e
    → any (text_eq e.rel_path) seen ≡ false
    → check_entry rows occ_id seen e ≡ ok (e.rel_path ∷ seen)
unfolding check_entry
check_entry_pass rows occ_id seen e (r, found, same) new =
    rw (found, check_entry) (rw (first_difference_same r e same, check_entry) (rw new refl))

check_entries_pass :
    (rows : List Fingerprint) (occ_id : Text) (seen : List Text) (es : List WalkEntry)
    → All (IsRecorded rows occ_id) es
    → IsFresh seen es
    → check_entries rows occ_id seen es ≡ ok (paths_onto es seen)
unfolding check_entries
check_entries_pass rows occ_id seen [] h f = refl
check_entries_pass rows occ_id seen (e ∷ es) (h, rest) (new, f) =
    rw (check_entry_pass rows occ_id seen e h new, check_entries)
      (check_entries_pass rows occ_id (e.rel_path ∷ seen) es rest f)

any-paths_onto :
    (p : Text) (es : List WalkEntry) (seen : List Text)
    → any (text_eq p) (paths_onto es seen) ≡ any (text_eq p) seen || has_path es p
any-paths_onto p [] seen = ground arith
any-paths_onto p (e ∷ es) seen = ground (arith, any-paths_onto p es (e.rel_path ∷ seen))

none_removed :
    (occ_id : Text) (es : List WalkEntry) (rows : List Fingerprint)
    → All (IsMet occ_id es) rows
    → removed_rows rows occ_id (paths_onto es []) ≡ []
none_removed occ_id es [] h = refl
none_removed occ_id es (r ∷ rows) (met, rest) =
    ground (arith, any-paths_onto r.rel_path es [], none_removed occ_id es rows rest, met)

check_end_pass :
    (rows : List Fingerprint) (occ_id : Text) (seen : List Text)
    → removed_rows rows occ_id seen ≡ []
    → check_end rows occ_id none seen ≡ ok tt
unfolding least_path
check_end_pass rows occ_id seen h = ground (arith, h)

-- A walk that ends by itself, with every path once, passes the comparison if every entry is
-- recorded and every row of the occurrence is met.
pub compare_passes :
    (rows : List Fingerprint) (occ_id : Text) (es : List WalkEntry)
    → All (IsRecorded rows occ_id) es
    → All (IsMet occ_id es) rows
    → IsFresh [] es
    → compare rows occ_id (es, none) ≡ ok tt
unfolding compare
compare_passes rows occ_id es recorded met fresh =
    rw (check_entries_pass rows occ_id [] es recorded fresh, compare)
      (check_end_pass rows occ_id (paths_onto es []) (none_removed occ_id es rows met))
