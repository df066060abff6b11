-- ===== src/Store/Laws.antt =====
-- How the writes of the store change what the pipeline reads of one occurrence
-- (dropin/store/records.py).
use dropin.Prelude.{
  ℕ, ◌≡◌, ◌∙◌, refl, Bool, true, false, not, ◌&&◌, any, ◌++◌, Option, none, some, List, [], ◌∷◌,
  Text, text_eq, find_by, filter_by, filter_by-append, arith, Bool-cases, inl, inr,
}
use dropin.Errors.{Reason}
use dropin.States.{State}
use dropin.Store.{Occurrence, Attempt, AttemptOutcome}
use dropin.Store.Records.{
  update_where, is_pending, is_confirmed, occ_is, attempt_is, stamp, with_state, finished,
}

abbrev pub pending_row : Text → Attempt → Bool
pending_row occ_id a = text_eq occ_id a.occ_id && is_pending a.outcome

abbrev pub confirmed_row : Text → Attempt → Bool
confirmed_row occ_id a = text_eq occ_id a.occ_id && is_confirmed a.outcome

-- The pending and the confirmed attempts of an occurrence.
unfoldable pub pending_of : Text → List Attempt → List Attempt
pending_of occ_id attempts = filter_by (pending_row occ_id) attempts

unfoldable pub confirmed_of : Text → List Attempt → List Attempt
confirmed_of occ_id attempts = filter_by (confirmed_row occ_id) attempts

unfoldable pub find_occurrence : Text → List Occurrence → Option Occurrence
find_occurrence occ_id occurrences = find_by (occ_is occ_id) occurrences

abbrev pub map_option : (Occurrence → Occurrence) → Option Occurrence → Option Occurrence
map_option f none = none
map_option f (some x) = some (f x)

-- An update that keeps the identifier is seen by the next read of the row.
pub find_occurrence-update :
    (occ_id : Text) (f : Occurrence → Occurrence) (os : List Occurrence)
    → ((o : Occurrence) → (f o).occ_id ≡ o.occ_id)
    → find_occurrence occ_id (update_where (occ_is occ_id) f os)
      ≡ map_option f (find_occurrence occ_id os)
unfolding find_occurrence
find_occurrence-update occ_id f [] keep = refl
find_occurrence-update occ_id f (o ∷ os) keep = elim (Bool-cases (text_eq occ_id o.occ_id)) [
  | inl e ↦ rw (e, keep o) (rw e refl)
  | inr e ↦ rw (e, e) (find_occurrence-update occ_id f os keep)
]

pub occ_id-with_state :
    (state : State) (error : Option Reason) (attempt : Option Text) (now : ℕ) (o : Occurrence)
    → (with_state state error attempt now o).occ_id ≡ o.occ_id
unfolding with_state stamp
occ_id-with_state State.recorded error attempt now o = refl
occ_id-with_state _ error attempt now o = refl

pub state-with_state :
    (state : State) (error : Option Reason) (attempt : Option Text) (now : ℕ) (o : Occurrence)
    → (with_state state error attempt now o).state ≡ state
unfolding with_state
state-with_state state error attempt now o = refl

-- An attempt that is settled is no longer pending, and nothing else changes in the list of pending
-- attempts.
pub pending_of-finished :
    (occ_id attempt_id : Text) (outcome : AttemptOutcome) (reason : Option Reason) (now : ℕ)
    (rows : List Attempt)
    → is_pending outcome ≡ false
    → pending_of occ_id (update_where (attempt_is attempt_id) (finished outcome reason now) rows)
      ≡ filter_by (λ a. not (attempt_is attempt_id a)) (pending_of occ_id rows)
unfolding pending_of
pending_of-finished occ_id attempt_id outcome reason now [] s = refl
pending_of-finished occ_id attempt_id outcome reason now (a ∷ rows) s =
    ground (arith, pending_of-finished occ_id attempt_id outcome reason now rows s)

-- A failed attempt is not confirmed.
pub confirmed_of-failed :
    (occ_id attempt_id : Text) (reason : Option Reason) (now : ℕ) (rows : List Attempt)
    → confirmed_of occ_id rows ≡ []
    → confirmed_of occ_id
        (update_where (attempt_is attempt_id) (finished AttemptOutcome.failed reason now) rows)
      ≡ []
unfolding confirmed_of
confirmed_of-failed occ_id attempt_id reason now [] h = refl
confirmed_of-failed occ_id attempt_id reason now (a ∷ rows) h =
    ground (arith, confirmed_of-failed occ_id attempt_id reason now rows)

-- An update that keeps the occurrence and the outcome of every attempt.
module _ (f : Attempt → Attempt) (keep_occ : (a : Attempt) → (f a).occ_id ≡ a.occ_id)
    (keep_outcome : (a : Attempt) → (f a).outcome ≡ a.outcome) (occ_id attempt_id : Text) where
  pub pending_of-update :
      (rows : List Attempt)
      → pending_of occ_id (update_where (attempt_is attempt_id) f rows)
        ≡ update_where (attempt_is attempt_id) f (pending_of occ_id rows)
  unfolding pending_of
  pending_of-update [] = refl
  pending_of-update (a ∷ rows) = ground (arith, keep_occ a, keep_outcome a, pending_of-update rows)

  pub confirmed_of-update :
      (rows : List Attempt)
      → confirmed_of occ_id (update_where (attempt_is attempt_id) f rows)
        ≡ update_where (attempt_is attempt_id) f (confirmed_of occ_id rows)
  unfolding confirmed_of
  confirmed_of-update [] = refl
  confirmed_of-update (a ∷ rows) =
      ground (arith, keep_occ a, keep_outcome a, confirmed_of-update rows)

-- What `get_attempt` finds after an update that keeps the identifiers, and after a new row.
pub find_attempt-update :
    (attempt_id : Text) (f : Attempt → Attempt) (rows : List Attempt) (a : Attempt)
    → ((r : Attempt) → (f r).attempt_id ≡ r.attempt_id)
    → find_by (attempt_is attempt_id) rows ≡ some a
    → find_by (attempt_is attempt_id) (update_where (attempt_is attempt_id) f rows) ≡ some (f a)
find_attempt-update attempt_id f [] a keep h = cc
find_attempt-update attempt_id f (r ∷ rows) a keep h =
    elim (Bool-cases (text_eq attempt_id r.attempt_id)) [
      | inl e ↦
          let same : r ≡ a = ground (arith, rw e at h) in rw (← same) (ground (arith, keep r, e))
      | inr e ↦ rw (e, e) (find_attempt-update attempt_id f rows a keep (rw e at h))
    ]

pub find_attempt-new :
    (attempt_id : Text) (a : Attempt) (rows : List Attempt)
    → text_eq attempt_id a.attempt_id ≡ true
    → any (attempt_is attempt_id) rows ≡ false
    → find_by (attempt_is attempt_id) (rows ++ a ∷ []) ≡ some a
find_attempt-new attempt_id a [] e h = rw e refl
find_attempt-new attempt_id a (r ∷ rows) e h = ground (arith, find_attempt-new attempt_id a rows e)

pub pending_of-append :
    (occ_id : Text) (rows : List Attempt) (a : Attempt)
    → pending_row occ_id a ≡ true
    → pending_of occ_id (rows ++ a ∷ []) ≡ pending_of occ_id rows ++ a ∷ []
unfolding pending_of
pending_of-append occ_id rows a h =
    filter_by-append (pending_row occ_id) rows (a ∷ []) ∙ ground (arith, h)

-- A pending attempt of an occurrence is one of its attempts.
pub pending_of-head :
    (occ_id : Text) (rows : List Attempt) (a : Attempt)
    → pending_of occ_id rows ≡ a ∷ []
    → pending_row occ_id a ≡ true
unfolding pending_of
pending_of-head occ_id [] a h = cc
pending_of-head occ_id (r ∷ rows) a h = elim (Bool-cases (pending_row occ_id r)) [
  | inl e ↦ ground (arith, rw e at h, e)
  | inr e ↦ pending_of-head occ_id rows a (rw e at h)
]
