-- ===== src/Recover/Marks.antt =====
-- What `_settle_occurrence` of dropin/recover.py writes of the attempts.
use mathlib.Core.Path.{subst}
use dropin.Prelude.{
  ℕ, ◌≡◌, ◌≢◌, refl, Bool, true, false, Option, none, some, List, [], ◌∷◌, map, text_eq,
  if◌then◌else◌, Bool-cases, inl, inr, ok, err, bind, arith,
}
use dropin.Errors.{Raises}
use dropin.Recover.Base.{Observation}
use dropin.Recover.Settle.{
  is_evicting, final, confirm_row, proven, fail_unproven, set_statuses, verdict_store,
  settled_store, confirmed_by, failed_for, unsettled,
}
use dropin.Recover.Shape.{state_eq_neg, state_eq_sound}
use dropin.States.{State, state_eq}
use dropin.Store.{Store, Occurrence, Attempt, AttemptOutcome}
use dropin.Store.Records.{attempt_is, occ_is, is_failed, update_where, set_snapshot_status}

unwrapped : {x y : Store} → ◌≡◌ {A = Raises Store} (ok x) (ok y) → x ≡ y
unwrapped h = cc

-- Row by row, in order.
abbrev pub EachRow : (Attempt → Attempt → Type 0) → List Attempt → List Attempt → Type 0
EachRow R [] [] = Unit {0}
EachRow R (a ∷ xs) (b ∷ ys) = R a b × EachRow R xs ys
EachRow R _ _ = ⊥

-- What becomes of a row, by the verdict on an occurrence.
abbrev pub Judged : Occurrence → Option Observation → Attempt → Attempt → Type 0
Judged o (some c) a b =
    (text_eq c.identity.attempt_id a.attempt_id ≡ true
      → (b.outcome ≡ AttemptOutcome.confirmed)
        × (b.attempt_id ≡ a.attempt_id)
        × (b.snapshot_id ≡ some c.snapshot_id)
        × (b.export_sha256 ≡ some c.identity.catalog_sha256))
    × (text_eq c.identity.attempt_id a.attempt_id ≡ false → b ≡ a)
Judged o none a b =
    (o.state ≡ State.evicting → b ≡ a)
    × (o.state ≢ State.evicting
        → text_eq o.occ_id a.occ_id ≡ true
        → (b.outcome ≡ AttemptOutcome.failed) × (b.attempt_id ≡ a.attempt_id))
    × (text_eq o.occ_id a.occ_id ≡ false → b ≡ a)

EachRow-update :
    (R : Attempt → Attempt → Type 0) (p : Attempt → Bool) (f : Attempt → Attempt)
    → ((a : Attempt) → R a (if p a then f a else a))
    → (xs : List Attempt) → EachRow R xs (update_where p f xs)
EachRow-update R p f k [] = tt
EachRow-update R p f k (a ∷ xs) = (k a, EachRow-update R p f k xs)

EachRow-refl :
    (R : Attempt → Attempt → Type 0)
    → ((a : Attempt) → R a a)
    → (xs : List Attempt) → EachRow R xs xs
EachRow-refl R k [] = tt
EachRow-refl R k (a ∷ xs) = (k a, EachRow-refl R k xs)

set_statuses-attempts :
    (os : List Observation) (db : Store) → (set_statuses os db).attempts ≡ db.attempts
unfolding set_statuses set_snapshot_status
set_statuses-attempts [] db = refl
set_statuses-attempts (o ∷ rest) db = set_statuses-attempts rest _

confirmed-Judged :
    (o : Occurrence) (c : Observation) (n : ℕ) (a : Attempt)
    → Judged o (some c) a (if attempt_is c.identity.attempt_id a then confirmed_by c n a else a)
confirmed-Judged o c n a = elim (Bool-cases (text_eq c.identity.attempt_id a.attempt_id)) [
  | inl e ↦ rw e ((λ _. (refl, refl, refl, refl)), (λ q. cc))
  | inr e ↦ rw e ((λ q. cc), (λ _. refl))
]

failed-Judged :
    (o : Occurrence) (n : ℕ)
    → state_eq o.state State.evicting ≡ false
    → (a : Attempt) → Judged o none a (if unsettled o.occ_id a then failed_for n a else a)
failed-Judged o n live a = go (text_eq o.occ_id a.occ_id) refl (is_failed a.outcome) refl
  where
    failed_is : (x : AttemptOutcome) → is_failed x ≡ true → x ≡ AttemptOutcome.failed
    failed_is x h = ground (arith, h)

    go :
        (b : Bool)
        → text_eq o.occ_id a.occ_id ≡ b
        → (f : Bool) → is_failed a.outcome ≡ f
        → Judged o none a (if unsettled o.occ_id a then failed_for n a else a)
    go false e f g = rw e ((λ _. refl), (λ _ q. cc), (λ _. refl))
    go true e true g = rw (e, g) ((λ _. refl), (λ _ _. (failed_is a.outcome g, refl)), (λ _. refl))
    go true e false g =
        rw (e, g) ((λ q. absurd (state_eq_neg _ _ live q)), (λ _ _. (refl, refl)), (λ q. cc))

evicting-Judged :
    (o : Occurrence) → state_eq o.state State.evicting ≡ true → (a : Attempt) → Judged o none a a
evicting-Judged o h a = ((λ _. refl), (λ n. absurd (n (state_eq_sound _ _ h))), (λ _. refl))

unproven-EachRow :
    (o : Occurrence) (b : Bool)
    → is_evicting o.state ≡ b
    → (n : ℕ) (db : Store)
    → EachRow (Judged o none) db.attempts (fail_unproven b o.occ_id n db).attempts
unfolding fail_unproven
unproven-EachRow o true h n db = EachRow-refl (Judged o none) (evicting-Judged o h) db.attempts
unproven-EachRow o false h n db =
    EachRow-update (Judged o none) (unsettled o.occ_id) (failed_for n) (failed-Judged o n h)
      db.attempts

confirm_row-EachRow :
    (o : Occurrence) (c : Observation) (n : ℕ) (db db' : Store)
    → confirm_row c n db ≡ ok db'
    → EachRow (Judged o (some c)) db.attempts db'.attempts
unfolding confirm_row
confirm_row-EachRow o c n db db' h = rw (confirmed h) (
    EachRow-update (Judged o (some c)) (attempt_is c.identity.attempt_id) (confirmed_by c n)
      (confirmed-Judged o c n) db.attempts)
  where
    confirmed :
        confirm_row c n db ≡ ok db'
        → db'.attempts
          ≡ update_where (attempt_is c.identity.attempt_id) (confirmed_by c n) db.attempts
    confirmed h = ground (arith, h)

verdict_store-EachRow :
    (o : Occurrence) (confirmed : Option Observation) (n : ℕ) (db db' : Store)
    → verdict_store o confirmed n db ≡ ok db'
    → EachRow (Judged o confirmed) db.attempts db'.attempts
unfolding verdict_store
verdict_store-EachRow o none n db db' h = same h
  where
    same : verdict_store o none n db ≡ ok db' → EachRow (Judged o none) db.attempts db'.attempts
    same h =
        subst (λ x. EachRow (Judged o none) db.attempts x.attempts) (unwrapped h)
          (unproven-EachRow o (is_evicting o.state) refl n _)
verdict_store-EachRow o (some c) n db db' h = go (confirm_row c n db) refl h
  where
    go :
        (r : Raises Store)
        → confirm_row c n db ≡ r
        → bind r (λ db1. ok (record db1 {
          occurrences =
              update_where
                (occ_is o.occ_id)
                (proven (is_evicting o.state) c.identity.attempt_id n)
                db1.occurrences;
        }))
          ≡ ok db'
        → EachRow (Judged o (some c)) db.attempts db'.attempts
    go (err x) e h = cc
    go (ok db1) e h =
        subst (λ x. EachRow (Judged o (some c)) db.attempts x.attempts) (unwrapped h)
          (confirm_row-EachRow o c n db db1 e)

-- If the transaction of a verdict succeeds, then it treats the attempts row by row. With a
-- confirmed snapshot, a row with the identifier of its attempt is confirmed with the snapshot and
-- the digest of its catalog, and every other row is as it was. With none, the rows of an occurrence
-- that is not evicting are failed, those of one that is evicting are as they were, and so are the
-- rows of every other occurrence.
pub settled_store_sound :
    (o : Occurrence) (confirmed : Option Observation) (candidates : List Observation) (n : ℕ)
    (db db' : Store)
    → settled_store o confirmed candidates n db ≡ ok db'
    → EachRow (Judged o confirmed) db.attempts db'.attempts
unfolding settled_store
settled_store_sound o confirmed candidates n db db' h = go (verdict_store o confirmed n db) refl h
  where
    go :
        (r : Raises Store)
        → verdict_store o confirmed n db ≡ r
        → bind r (λ db1. ok (set_statuses (map (final confirmed) candidates) db1)) ≡ ok db'
        → EachRow (Judged o confirmed) db.attempts db'.attempts
    go (err x) e h = cc
    go (ok db1) e h =
        subst (λ x. EachRow (Judged o confirmed) db.attempts x.attempts) (unwrapped h)
          (rw (set_statuses-attempts (map (final confirmed) candidates) db1)
            (verdict_store-EachRow o confirmed n db db1 e))
