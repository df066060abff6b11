-- ===== src/States/Reach.antt =====
-- What a chain of permitted transitions can do (dropin/pipeline/states.py).
use dropin.Prelude.{◌≡◌, refl, ◌≢◌, ◌⊎◌, inl, inr, Bool, true, false, some, arith}
use dropin.States.{
  State, recorded, transferred, verified, recoverable, evicting, evicted, abandoned, can_transition,
  is_before,
}

-- A chain of permitted transitions.
pub data Reach (s : State) : State → Type 0 where
  here : Reach s s
  next : {t : State} (u : State) → Reach s t → can_transition t u ≡ true → Reach s u

-- The states of which the deletion has begun or is over.
abbrev pub is_deleting : State → Bool
is_deleting evicting = true
is_deleting evicted = true
is_deleting _ = false

is_deleting_step :
    (s t : State) → is_deleting s ≡ true → can_transition s t ≡ true → is_deleting t ≡ true
is_deleting_step evicting t d h = ground arith
is_deleting_step evicted t d h = ground arith
is_deleting_step _ t d h = ground arith

-- Once the deletion of an occurrence has begun, no chain of permitted transitions leaves
-- `evicting` and `evicted`: it is never recorded again and never abandoned.
pub Reach-is_deleting : (s t : State) → is_deleting s ≡ true → Reach s t → is_deleting t ≡ true
Reach-is_deleting s _ d here = d
Reach-is_deleting s _ d (next {t = t} u r h) = is_deleting_step t u (Reach-is_deleting s t d r) h

-- Every permitted transition goes one way: it raises the rank by the pipeline order, it returns to
-- `recorded` from `transferred` or `verified`, or it abandons a state from which no deletion has
-- begun.
pub can_transition_shape :
    (s t : State)
    → can_transition s t ≡ true
    → (is_before s t ≡ some true)
      ⊎ ((t ≡ recorded) × ((s ≡ transferred) ⊎ (s ≡ verified)))
      ⊎ ((t ≡ abandoned) × (is_before s evicting ≡ some true))
can_transition_shape recorded t h = ground arith
can_transition_shape transferred t h = ground arith
can_transition_shape verified t h = ground arith
can_transition_shape recoverable t h = ground arith
can_transition_shape evicting t h = ground arith
can_transition_shape evicted t h = ground arith
can_transition_shape abandoned t h = ground arith

only_from_evicting : (t : State) → can_transition t evicted ≡ true → t ≡ evicting
only_from_evicting recorded h = ground arith
only_from_evicting evicting h = refl
only_from_evicting _ h = ground arith

last_step : (s u : State) → Reach s u → u ≡ evicted → (s ≡ evicted) ⊎ Reach s evicting
last_step s _ here e = inl e
last_step s _ (next {t = t} u r h) e = inr (rw (only_from_evicting t (rw e at h)) at r)

-- A chain of permitted transitions that ends in `evicted` and began elsewhere has passed through
-- `evicting`.
pub evicted_through_evicting : (s : State) → s ≢ evicted → Reach s evicted → Reach s evicting
evicted_through_evicting s n r = elim (last_step s evicted r refl) [
  | inl e ↦ absurd (n e)
  | inr p ↦ p
]
