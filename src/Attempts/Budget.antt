-- ===== src/Attempts/Budget.antt =====
-- `retry_state` of dropin/pipeline/attempts.py: the budget and the backoff.
use dropin.Prelude.{
  ℕ, ◌≡◌, ◌≢◌, ◌+◌, ◌*◌, ◌-◌, suc, ◌≤◌, ◌<◌, ◌⊎◌, inl, inr, Bool, true, false, List, [], ◌∷◌, All,
  All-map, length, any, arith, Bool-cases, leb,
}
use dropin.Attempts.{Retry, retry_state, last_end, epoch, failures}
use dropin.Session.{nanoseconds, seconds_of}
use dropin.Errors.{Reason, backoff}
use dropin.Store.{Attempt}
use dropin.Store.Records.{is_failed, is_confirmed}

-- No failed attempt ended after the last end.
last_end-upper :
    (history : List Attempt) (bound : ℕ)
    → last_end (failures history) ≤ bound
    → All (λ a. is_failed a.outcome ≡ true → epoch a.finished_at ≤ bound) history
unfolding last_end
last_end-upper [] bound h = tt
last_end-upper (a ∷ rest) bound h =
    (λ f. ground (arith, f), last_end-upper rest bound (ground arith))

ended :
    (history : List Attempt) (now b : ℕ)
    → last_end (failures history) * nanoseconds + b ≤ now
    → All (λ a. is_failed a.outcome ≡ true → epoch a.finished_at * nanoseconds + b ≤ now) history
ended history now b h =
    All-map (λ a le f. ground (arith, le f, h)) history
      (last_end-upper history (last_end (failures history)) (omega arith))

none_failed :
    (history : List Attempt) (now b : ℕ)
    → length (failures history) ≡ 0
    → All (λ a. is_failed a.outcome ≡ true → epoch a.finished_at * nanoseconds + b ≤ now) history
none_failed [] now b h = tt
none_failed (a ∷ rest) now b h =
    (λ f. ground (arith, f, h), none_failed rest now b (ground (arith, h)))

-- If `retry_state` lets a new attempt start, then no attempt of the history is confirmed, each
-- failed one ended at least the backoff ago, and fewer than the budget have failed unless the run
-- retries exhausted items.
pub retry_state_ready :
    (history : List Attempt) (max_attempts retry_backoff now : ℕ) (retry_exhausted : Bool)
    → retry_state history max_attempts retry_backoff now retry_exhausted ≡ Retry.ready
    → (any (λ a. is_confirmed a.outcome) history ≡ false)
      × All
          (λ a.
            is_failed a.outcome ≡ true → epoch a.finished_at * nanoseconds + retry_backoff ≤ now)
          history
      × ((length (failures history) < max_attempts) ⊎ (retry_exhausted ≡ true))
unfolding retry_state
retry_state_ready history m b now ex h = (
  ground (arith, h),
  last_ended (elim (Bool-cases (leb 1 (length (failures history)))) [
    | inl e ↦ inl (ground (arith, h, e))
    | inr e ↦ inr (ground (arith, e))
  ]),
  ground (arith, h),
)
  where
    last_ended :
        (last_end (failures history) * nanoseconds + b ≤ now) ⊎ (length (failures history) ≡ 0)
        → All
            (λ a. is_failed a.outcome ≡ true → epoch a.finished_at * nanoseconds + b ≤ now)
            history
    last_ended (inl e) = ended history now b e
    last_ended (inr e) = none_failed history now b e

-- The wait that `retry_state` reports when it defers is right within a second. As long as fewer than
-- that many seconds have passed, with no new attempt, it defers again; and once one second more has
-- passed, it defers no more.
pub retry_state-deferred :
    (history : List Attempt) (max_attempts retry_backoff now : ℕ) (retry_exhausted : Bool) (n : ℕ)
    → retry_state history max_attempts retry_backoff now retry_exhausted
      ≡ Retry.deferred (backoff n)
    → ((d : ℕ)
        → d < n * nanoseconds
        → (m : ℕ) × (retry_state history max_attempts retry_backoff (now + d) retry_exhausted
            ≡ Retry.deferred (backoff m)))
      × ((reason : Reason)
          → retry_state history max_attempts retry_backoff
              (now + suc n * nanoseconds)
              retry_exhausted
            ≢ Retry.deferred reason)
unfolding retry_state
retry_state-deferred history m b now ex n h =
    let deadline : ℕ = last_end (failures history) * nanoseconds + b in
    (
      (λ d p. (seconds_of (deadline - (now + d)), ground (arith, h, p))),
      (λ r g. ground (arith, h, g)),
    )
