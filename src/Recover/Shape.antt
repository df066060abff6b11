-- ===== src/Recover/Shape.antt =====
-- What the verdict on an occurrence changes of its row (dropin/recover.py).
use dropin.Prelude.{
  ℕ, ◌≡◌, ◌≢◌, refl, inl, inr, Bool, true, false, Option, none, some, List, [], ◌∷◌, map, Text,
  text_eq, text_eq_iff, Bool-cases, ok, err, bind, arith,
}
use dropin.Errors.{Raises, manual}
use dropin.Recover.Base.{Observation}
use dropin.Recover.Settle.{
  is_evicting, final, confirm_row, proven, unproven, fail_unproven, set_statuses, verdict_store,
  settled_store,
}
use dropin.States.{State, state_eq}
use dropin.Store.{Store, Occurrence}
use dropin.Store.Laws.{find_occurrence}
use dropin.Store.Records.{occ_is, update_where, set_snapshot_status}

-- What verification makes of an occurrence.
pub data Settled (o o' : Occurrence) : Type 0 where
  kept : o.state ≡ State.abandoned → o' ≡ o → Settled o o'
  retained :
      o.state ≡ State.evicting
      → o'.state ≡ State.evicting
      → o'.last_error ≡ some manual
      → Settled o o'
  recovered :
      (attempt_id : Text)
      → o.state ≢ State.abandoned
      → o.state ≢ State.evicting
      → o'.state ≡ State.recoverable
      → o'.confirmed_attempt_id ≡ some attempt_id
      → o'.evicted_at ≡ none
      → Settled o o'
  returned :
      o.state ≢ State.abandoned
      → o.state ≢ State.evicting
      → o'.state ≡ State.recorded
      → o'.confirmed_attempt_id ≡ none
      → Settled o o'

pub state_eq_sound : (a b : State) → state_eq a b ≡ true → a ≡ b
state_eq_sound a b h = ground arith

pub state_eq_neg : (a b : State) → state_eq a b ≡ false → a ≢ b
state_eq_neg a b h q = ground (arith, h, q)

-- The update of the one row, whatever the verdict.
pub record Shape (o : Occurrence) (os os' : List Occurrence) : Type 0 where
  pub change : Occurrence → Occurrence
  pub own : (q : Occurrence) → (change q).occ_id ≡ q.occ_id
  pub settled : Settled o (change o)
  pub rows : os' ≡ update_where (occ_is o.occ_id) change os

set_statuses-occurrences :
    (os : List Observation) (db : Store) → (set_statuses os db).occurrences ≡ db.occurrences
unfolding set_statuses set_snapshot_status
set_statuses-occurrences [] db = refl
set_statuses-occurrences (o ∷ rest) db = set_statuses-occurrences rest _

fail_unproven-occurrences :
    (b : Bool) (occ_id : Text) (n : ℕ) (db : Store)
    → (fail_unproven b occ_id n db).occurrences ≡ db.occurrences
unfolding fail_unproven
fail_unproven-occurrences true occ_id n db = refl
fail_unproven-occurrences false occ_id n db = refl

proven-Settled :
    (b : Bool) (attempt_id : Text) (n : ℕ) (o : Occurrence)
    → is_evicting o.state ≡ b
    → o.state ≢ State.abandoned
    → Settled o (proven b attempt_id n o)
unfolding proven
proven-Settled true attempt_id n o h live =
    retained (state_eq_sound _ _ h) (state_eq_sound _ _ h) refl
proven-Settled false attempt_id n o h live =
    recovered attempt_id live (state_eq_neg _ _ h) refl refl refl

unproven-Settled :
    (b : Bool) (o : Occurrence)
    → is_evicting o.state ≡ b
    → o.state ≢ State.abandoned
    → Settled o (unproven b o)
unfolding unproven
unproven-Settled true o h live = retained (state_eq_sound _ _ h) (state_eq_sound _ _ h) refl
unproven-Settled false o h live = returned live (state_eq_neg _ _ h) refl refl

proven-occ_id :
    (b : Bool) (attempt_id : Text) (n : ℕ) (o : Occurrence)
    → (proven b attempt_id n o).occ_id ≡ o.occ_id
unfolding proven
proven-occ_id true attempt_id n o = refl
proven-occ_id false attempt_id n o = refl

unproven-occ_id : (b : Bool) (o : Occurrence) → (unproven b o).occ_id ≡ o.occ_id
unfolding unproven
unproven-occ_id true o = refl
unproven-occ_id false o = refl

confirm_row-occurrences :
    (c : Observation) (n : ℕ) (db db' : Store)
    → confirm_row c n db ≡ ok db'
    → db'.occurrences ≡ db.occurrences
unfolding confirm_row
confirm_row-occurrences c n db db' h = ground (arith, h)

verdict_store-Shape :
    (occ : Occurrence) (confirmed : Option Observation) (n : ℕ) (db db' : Store)
    → occ.state ≢ State.abandoned
    → verdict_store occ confirmed n db ≡ ok db'
    → Shape occ db.occurrences db'.occurrences
unfolding verdict_store
verdict_store-Shape occ none n db db' live h = record {
  change = unproven (is_evicting occ.state);
  own = unproven-occ_id (is_evicting occ.state);
  settled = unproven-Settled (is_evicting occ.state) occ refl live;
  rows = ground (arith, h, fail_unproven-occurrences (is_evicting occ.state) occ.occ_id n);
}
verdict_store-Shape occ (some c) n db db' live h = go (confirm_row c n db) refl h
  where
    go :
        (r : Raises Store)
        → confirm_row c n db ≡ r
        → bind r (λ db1. ok (record db1 {
          occurrences =
              update_where
                (occ_is occ.occ_id)
                (proven (is_evicting occ.state) c.identity.attempt_id n)
                db1.occurrences;
        }))
          ≡ ok db'
        → Shape occ db.occurrences db'.occurrences
    go (err x) e h = cc
    go (ok db1) e h = record {
      change = proven (is_evicting occ.state) c.identity.attempt_id n;
      own = proven-occ_id (is_evicting occ.state) c.identity.attempt_id n;
      settled = proven-Settled (is_evicting occ.state) c.identity.attempt_id n occ refl live;
      rows = ground (arith, h, confirm_row-occurrences c n db db1 e);
    }

pub settled_store-Shape :
    (occ : Occurrence) (confirmed : Option Observation) (candidates : List Observation) (n : ℕ)
    (db db' : Store)
    → occ.state ≢ State.abandoned
    → settled_store occ confirmed candidates n db ≡ ok db'
    → Shape occ db.occurrences db'.occurrences
unfolding settled_store
settled_store-Shape occ confirmed candidates n db db' live h =
    go (verdict_store occ confirmed n db) refl h
  where
    go :
        (r : Raises Store)
        → verdict_store occ confirmed n db ≡ r
        → bind r (λ db1. ok (set_statuses (map (final confirmed) candidates) db1)) ≡ ok db'
        → Shape occ db.occurrences db'.occurrences
    go (err x) e h = cc
    go (ok db1) e h =
        let s : Shape occ db.occurrences db1.occurrences =
          verdict_store-Shape occ confirmed n db db1 live e in
        record {
          change = s.change;
          own = s.own;
          settled = s.settled;
          rows =
              ground
                (arith, h, s.rows, set_statuses-occurrences (map (final confirmed) candidates) db1);
        }

-- An update of another row is not seen.
pub find_occurrence-other :
    (k : Text) (j : Text) (f : Occurrence → Occurrence) (os : List Occurrence)
    → text_eq k j ≡ false
    → ((o : Occurrence) → (f o).occ_id ≡ o.occ_id)
    → find_occurrence k (update_where (occ_is j) f os) ≡ find_occurrence k os
unfolding find_occurrence
find_occurrence-other k j f [] h own = refl
find_occurrence-other k j f (o ∷ os) h own = elim (Bool-cases (text_eq j o.occ_id)) [
  | inl e ↦
      ground
        (arith, h, own o, e, (text_eq_iff j o.occ_id).0 e, find_occurrence-other k j f os h own)
  | inr e ↦ ground (arith, e, find_occurrence-other k j f os h own)
]
