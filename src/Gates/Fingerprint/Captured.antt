-- ===== src/Gates/Fingerprint/Captured.antt =====
-- `capture` and `compare` of dropin/pipeline/fingerprint.py on one walk.
use dropin.Prelude.{
  ◌≡◌, refl, ◌∙◌, not, Bool, true, false, ◌++◌, none, some, List, [], ◌∷◌, Text, text_eq,
  text_eq_refl, find_by, any, any-append, All, All-map, ok, arith, Bool-cases, inl, inr,
}
use dropin.Gates.Fingerprint.{row_is, compare, capture, fingerprint_row}
use dropin.Gates.Fingerprint.Exact.{IsSame, IsRecorded, IsMet, has_path}
use dropin.Gates.Fingerprint.Passes.{IsFresh, compare_passes}
use dropin.Spool.Walk.{WalkEntry}
use dropin.Store.{Fingerprint}

find_by-append :
    (p : Fingerprint → Bool) (xs ys : List Fingerprint) (r : Fingerprint)
    → find_by p xs ≡ some r
    → find_by p (xs ++ ys) ≡ some r
find_by-append p [] ys r h = cc
find_by-append p (x ∷ xs) ys r h = ground (arith, find_by-append p xs ys r)

find_by-last :
    (p : Fingerprint → Bool) (xs : List Fingerprint) (r : Fingerprint)
    → any p xs ≡ false
    → p r ≡ true
    → find_by p (xs ++ r ∷ []) ≡ some r
find_by-last p [] r h q = rw q refl
find_by-last p (x ∷ xs) r h q = ground (arith, find_by-last p xs r)

fingerprint_row-IsSame : (occ_id : Text) (e : WalkEntry) → IsSame (fingerprint_row occ_id e) e
fingerprint_row-IsSame occ_id e = record {
  entry_type = refl;
  size_bytes = refl;
  mtime_ns = refl;
  ctime_ns = refl;
  inode = refl;
  dev = refl;
  link_target = refl;
}

row_is-own :
    (occ_id : Text) (p : Text) (e : WalkEntry)
    → row_is occ_id p (fingerprint_row occ_id e) ≡ text_eq p e.rel_path
row_is-own occ_id p e = rw (text_eq_refl occ_id) refl

-- A row that is found stays found while more are captured.
capture-keeps :
    (occ_id : Text) (es : List WalkEntry) (rows rows' : List Fingerprint) (p : Fingerprint → Bool)
    (r : Fingerprint)
    → capture occ_id es rows ≡ ok rows'
    → find_by p rows ≡ some r
    → find_by p rows' ≡ some r
unfolding capture
capture-keeps occ_id [] rows rows' p r h f = ground (arith, h, f)
capture-keeps occ_id (e ∷ es) rows rows' p r h f =
    elim (Bool-cases (any (row_is occ_id e.rel_path) rows)) [
      | inl q ↦ cc (rw q at h)
      | inr q ↦
          capture-keeps occ_id es (rows ++ fingerprint_row occ_id e ∷ []) rows' p r (rw q at h)
            (find_by-append p rows (fingerprint_row occ_id e ∷ []) r f)
    ]

capture-IsRecorded :
    (occ_id : Text) (es : List WalkEntry) (rows rows' : List Fingerprint)
    → capture occ_id es rows ≡ ok rows'
    → All (IsRecorded rows' occ_id) es
unfolding capture
capture-IsRecorded occ_id [] rows rows' h = tt
capture-IsRecorded occ_id (e ∷ es) rows rows' h =
    elim (Bool-cases (any (row_is occ_id e.rel_path) rows)) [
      | inl q ↦ cc (rw q at h)
      | inr q ↦ (
        (
          fingerprint_row occ_id e,
          capture-keeps occ_id es (rows ++ fingerprint_row occ_id e ∷ []) rows'
              (row_is occ_id e.rel_path) (fingerprint_row occ_id e) (rw q at h)
              (find_by-last (row_is occ_id e.rel_path) rows (fingerprint_row occ_id e) q
                (row_is-own occ_id e.rel_path e ∙ text_eq_refl e.rel_path)),
          fingerprint_row-IsSame occ_id e,
        ),
        capture-IsRecorded occ_id es (rows ++ fingerprint_row occ_id e ∷ []) rows' (rw q at h),
      )
    ]

capture-IsFresh :
    (occ_id : Text) (es : List WalkEntry) (rows rows' : List Fingerprint) (seen : List Text)
    → capture occ_id es rows ≡ ok rows'
    → ((p : Text) → any (row_is occ_id p) rows ≡ any (text_eq p) seen)
    → IsFresh seen es
unfolding capture
capture-IsFresh occ_id [] rows rows' seen h s = tt
capture-IsFresh occ_id (e ∷ es) rows rows' seen h s =
    elim (Bool-cases (any (row_is occ_id e.rel_path) rows)) [
      | inl q ↦ cc (rw q at h)
      | inr q ↦ (
        ground (arith, q, s e.rel_path),
        capture-IsFresh occ_id es (rows ++ fingerprint_row occ_id e ∷ []) rows' (e.rel_path ∷ seen)
            (rw q at h)
            (λ p.
              any-append (row_is occ_id p) rows (fingerprint_row occ_id e ∷ [])
              ∙ ground (arith, s p, row_is-own occ_id p e)),
      )
    ]

All-append :
    (P : Fingerprint → Type 0) (xs ys : List Fingerprint) → All P xs → All P ys → All P (xs ++ ys)
All-append P [] ys p q = q
All-append P (x ∷ xs) ys p q = (p.0, All-append P xs ys p.1 q)

-- Every row of the occurrence is of an entry of the walk.
capture-IsMet :
    (occ_id : Text) (all es : List WalkEntry) (rows rows' : List Fingerprint)
    → capture occ_id es rows ≡ ok rows'
    → All (λ e. has_path all e.rel_path ≡ true) es
    → All (IsMet occ_id all) rows
    → All (IsMet occ_id all) rows'
unfolding capture
capture-IsMet occ_id all [] rows rows' h m p =
    let same : rows ≡ rows' = ground (arith, h) in rw same at p
capture-IsMet occ_id all (e ∷ es) rows rows' h m p =
    elim (Bool-cases (any (row_is occ_id e.rel_path) rows)) [
      | inl q ↦ cc (rw q at h)
      | inr q ↦
          capture-IsMet occ_id all es (rows ++ fingerprint_row occ_id e ∷ []) rows' (rw q at h) m.1
            (All-append (IsMet occ_id all) rows (fingerprint_row occ_id e ∷ []) p
              ((λ own. m.0), tt))
    ]

All-has_path : (es : List WalkEntry) → All (λ e. has_path es e.rel_path ≡ true) es
All-has_path [] = tt
All-has_path (e ∷ es) = (
  ground (arith, text_eq_refl e.rel_path),
  All-map (λ x h. ground (arith, h)) es (All-has_path es),
)

-- An occurrence that has no fingerprint yet.
abbrev pub has_none : Text → List Fingerprint → Bool
has_none occ_id rows = not (any (λ r. text_eq occ_id r.occ_id) rows)

has_none-IsMet :
    (occ_id : Text) (es : List WalkEntry) (rows : List Fingerprint)
    → has_none occ_id rows ≡ true
    → All (IsMet occ_id es) rows
has_none-IsMet occ_id es [] h = tt
has_none-IsMet occ_id es (r ∷ rows) h =
    (λ own. ground (arith, own, h), has_none-IsMet occ_id es rows (ground (arith, h)))

has_none-row_is :
    (occ_id p : Text) (rows : List Fingerprint)
    → has_none occ_id rows ≡ true
    → any (row_is occ_id p) rows ≡ false
has_none-row_is occ_id p [] h = refl
has_none-row_is occ_id p (r ∷ rows) h = ground (arith, h, has_none-row_is occ_id p rows)

-- If the fingerprints of a walk are captured for an occurrence that has none yet, then comparing
-- the same walk with them, if it ends by itself, finds no change.
pub compare-capture :
    (occ_id : Text) (es : List WalkEntry) (rows rows' : List Fingerprint)
    → has_none occ_id rows ≡ true
    → capture occ_id es rows ≡ ok rows'
    → compare rows' occ_id (es, none) ≡ ok tt
compare-capture occ_id es rows rows' fresh h =
    compare_passes rows' occ_id es (capture-IsRecorded occ_id es rows rows' h)
      (capture-IsMet occ_id es es rows rows' h (All-has_path es)
        (has_none-IsMet occ_id es rows fresh))
      (capture-IsFresh occ_id es rows rows' [] h (λ p. has_none-row_is occ_id p rows fresh))
