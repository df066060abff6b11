-- ===== src/Recover/Merge/Lookup.antt =====
-- How the writes of a merge change what is found of an occurrence (dropin/recover.py).
use dropin.Prelude.{
  ◌≡◌, refl, inl, inr, true, false, none, some, List, [], ◌∷◌, ◌++◌, Text, text_eq, text_eq_sound,
  filter_by, find_by, Bool-cases, arith,
}
use dropin.Store.{Occurrence, Entry}
use dropin.Store.Laws.{find_occurrence}
use dropin.Store.Records.{occ_is, update_where}

pub find_occurrence-append :
    (k : Text) (os : List Occurrence) (x o : Occurrence)
    → find_occurrence k os ≡ some o
    → find_occurrence k (os ++ x ∷ []) ≡ some o
unfolding find_occurrence
find_occurrence-append k [] x o h = cc
find_occurrence-append k (y ∷ os) x o h = ground (arith, h, find_occurrence-append k os x o)

-- A row that is put in place of those with its identifier.
pub find_occurrence-put :
    (k : Text) (x : Occurrence) (os : List Occurrence) (o : Occurrence)
    → text_eq k x.occ_id ≡ true
    → find_occurrence k os ≡ some o
    → find_occurrence k (update_where (occ_is x.occ_id) (λ _. x) os) ≡ some x
unfolding find_occurrence
find_occurrence-put k x [] o e h = cc
find_occurrence-put k x (y ∷ os) o e h = elim (Bool-cases (text_eq x.occ_id y.occ_id)) [
  | inl f ↦ ground (arith, e, f)
  | inr f ↦ ground (arith, e, f, h, text_eq_sound k x.occ_id e, find_occurrence-put k x os o e)
]

pub find_occurrence-put_other :
    (k : Text) (x : Occurrence) (os : List Occurrence)
    → text_eq k x.occ_id ≡ false
    → find_occurrence k (update_where (occ_is x.occ_id) (λ _. x) os) ≡ find_occurrence k os
unfolding find_occurrence
find_occurrence-put_other k x [] e = refl
find_occurrence-put_other k x (y ∷ os) e = elim (Bool-cases (text_eq x.occ_id y.occ_id)) [
  | inl f ↦
      ground (arith, e, f, text_eq_sound x.occ_id y.occ_id f, find_occurrence-put_other k x os e)
  | inr f ↦ ground (arith, f, find_occurrence-put_other k x os e)
]

-- Rows of another occurrence are not among those of this one.
pub filter_by-other :
    (k j : Text) (rows : List Entry)
    → text_eq k j ≡ false
    → filter_by (λ r. text_eq k r.occ_id) (filter_by (λ r. text_eq j r.occ_id) rows) ≡ []
filter_by-other k j [] e = refl
filter_by-other k j (r ∷ rows) e = elim (Bool-cases (text_eq j r.occ_id)) [
  | inl f ↦ ground (arith, e, f, text_eq_sound j r.occ_id f, filter_by-other k j rows e)
  | inr f ↦ ground (arith, f, filter_by-other k j rows e)
]

-- What was found under one identifier is not missing under an equal one.
pub apart :
    (k j : Text) (os : List Occurrence) (o : Occurrence)
    → find_occurrence k os ≡ some o
    → find_by (occ_is j) os ≡ none
    → text_eq k j ≡ false
unfolding find_occurrence
apart k j os o h n = elim (Bool-cases (text_eq k j)) [
  | inl e ↦ ground (arith, h, n, text_eq_sound k j e)
  | inr e ↦ e
]

-- Equal identifiers find one row.
pub same_row :
    (k j : Text) (os : List Occurrence) (a b : Occurrence)
    → text_eq k j ≡ true
    → find_occurrence k os ≡ some a
    → find_by (occ_is j) os ≡ some b
    → a ≡ b
unfolding find_occurrence
same_row k j os a b e f g = ground (arith, f, g, text_eq_sound k j e)
