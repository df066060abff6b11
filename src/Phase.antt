-- ===== src/Phase.antt =====
-- Where an occurrence stands between two steps of the pipeline (dropin/pipeline/attempts.py): its
-- state, its pending attempts and its confirmed attempt.
pub mod Moves
pub mod Adopt
pub mod Settle
pub mod Gate
pub mod Publish
pub mod Prove
pub mod Removal
pub mod Loop
pub mod Ends
pub mod Start
use dropin.Prelude.{ℕ, ◌≤◌, ◌<◌, arith, ◌≡◌, Option, some, List, [], ◌∷◌, Text, find_by}
use dropin.Attempts.{is_text}
use dropin.States.{State}
use dropin.States.Reach.{Reach}
use dropin.Store.{Store, Occurrence, Attempt, AttemptOutcome}
use dropin.Store.Laws.{find_occurrence, pending_of}
use dropin.Store.Records.{attempt_is}

-- The row of the occurrence, in state `st`, which permitted transitions reach from `s0`.
pub record Row (s0 : State) (occ_id : Text) (st : State) (db : Store) : Type 0 where
  pub o : Occurrence
  pub found : find_occurrence occ_id db.occurrences ≡ some o
  pub own : o.occ_id ≡ occ_id
  pub state : o.state ≡ st
  pub reach : Reach s0 st

-- `get_attempt` finds the row.
abbrev pub IsKeyed : Store → Attempt → Type 0
IsKeyed db a = find_by (attempt_is a.attempt_id) db.attempts ≡ some a

-- No attempt is pending.
pub record Idle (s0 : State) (occ_id : Text) (st : State) (db : Store) : Type 0 where
  pub row : Row s0 occ_id st db
  pub pending : pending_of occ_id db.attempts ≡ []

-- One attempt is pending.
pub record Live (s0 : State) (occ_id : Text) (st : State) (a : Attempt) (db : Store) : Type 0 where
  pub row : Row s0 occ_id st db
  pub pending : pending_of occ_id db.attempts ≡ a ∷ []
  pub keyed : IsKeyed db a

-- No attempt is pending, and the row names a confirmed attempt of the occurrence.
pub record Proven (s0 : State) (occ_id : Text) (st : State) (db : Store) : Type 0 where
  pub idle : Idle s0 occ_id st db
  pub attempt : Attempt
  pub keyed : IsKeyed db attempt
  pub owner : attempt.occ_id ≡ occ_id
  pub outcome : attempt.outcome ≡ AttemptOutcome.confirmed
  pub named : idle.row.o.confirmed_attempt_id ≡ some attempt.attempt_id

-- What a state implies of the attempts: before the backup at most one attempt is pending, between
-- backup and proof one attempt is, after the proof none, and one is confirmed.
pub data IsConsistent (s0 : State) (occ_id : Text) (db : Store) : Type 0 where
  ready : Idle s0 occ_id State.recorded db → IsConsistent s0 occ_id db
  started : (a : Attempt) → Live s0 occ_id State.recorded a db → IsConsistent s0 occ_id db
  transferred : (a : Attempt) → Live s0 occ_id State.transferred a db → IsConsistent s0 occ_id db
  verified : (a : Attempt) → Live s0 occ_id State.verified a db → IsConsistent s0 occ_id db
  recoverable : Proven s0 occ_id State.recoverable db → IsConsistent s0 occ_id db
  evicting : Proven s0 occ_id State.evicting db → IsConsistent s0 occ_id db
  evicted : Proven s0 occ_id State.evicted db → IsConsistent s0 occ_id db
  abandoned : Idle s0 occ_id State.abandoned db → IsConsistent s0 occ_id db

-- How many rounds of the loop are left, at most: every round that returns lowers it.
abbrev pub rank : {s0 : State} {occ_id : Text} {db : Store} → IsConsistent s0 occ_id db → ℕ
rank (started a l) = 7
rank (ready i) = 6
rank (transferred a l) = 5
rank (verified a l) = 4
rank (recoverable p) = 3
rank (evicting p) = 2
rank (evicted p) = 1
rank (abandoned i) = 0

abbrev pub Below : ℕ → State → Text → Store → Type 0
Below n s0 occ_id db = (p : IsConsistent s0 occ_id db) × (rank p < n)

pub rank-lt : {s0 : State} {occ_id : Text} {db : Store} (p : IsConsistent s0 occ_id db) → rank p < 8
rank-lt (started a l) = omega arith
rank-lt (ready i) = omega arith
rank-lt (transferred a l) = omega arith
rank-lt (verified a l) = omega arith
rank-lt (recoverable p) = omega arith
rank-lt (evicting p) = omega arith
rank-lt (evicted p) = omega arith
rank-lt (abandoned i) = omega arith

pub Below-le :
    {s0 : State} {occ_id : Text} {db : Store} (m n : ℕ)
    → m ≤ n
    → Below m s0 occ_id db
    → Below n s0 occ_id db
Below-le m n h (p, q) = (p, omega (arith, h, q))
