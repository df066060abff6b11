-- ===== src/Phase/Loop.antt =====
-- The loop of `_advance` (dropin/pipeline/drain.py).
use mathlib.Core.Path.{subst}
use dropin.Prelude.{◌≤◌, ◌<◌, ◌+◌, refl, err, ℕ, zero, suc, ◌≡◌, ap, arith, ◌∙◌, sym, Text, ok}
use dropin.Drain.Base.{Settings}
use dropin.Errors.{Exn, Raises}
use dropin.Drain.Advance.{step, advance_loop}
use dropin.Phase.{
  Row, Idle, Live, Proven, IsConsistent, Below, Below-le, rank, rank-lt, ready, started,
  transferred, verified, recoverable, evicting, evicted, abandoned,
}
use dropin.Phase.Prove.{verify-Consistent, prove_recoverable-Consistent}
use dropin.Phase.Publish.{publish-ready, publish-started}
use dropin.Phase.Removal.{intend-Consistent, delete-Consistent}
use dropin.Phase.Settle.{Fine}
use dropin.Session.{Env, Session}
use dropin.Session.Triple.{Triple, Triple-pure, Triple-raise, Triple-weaken, Ends, Triple-bind}
use dropin.Session.Rules.{Triple-read, Triple-lifted}
use dropin.Store.Laws.{find_occurrence}
use dropin.States.{State}
use dropin.Store.{Store, Occurrence}
use dropin.Store.Records.{get_occurrence}

-- The row that the store has is the one that the loop reads.
read_row :
    {s0 : State} {occ_id : Text} {st : State} {db : Store} (o : Occurrence)
    → Row s0 occ_id st db
    → get_occurrence db occ_id ≡ ok o
    → (o.occ_id ≡ occ_id) × (o.state ≡ st)
unfolding get_occurrence find_occurrence
read_row o row h =
    let same : row.o ≡ o = ground (arith, rw row.found at h) in
    (ap (λ r. r.occ_id) (sym same) ∙ row.own, ap (λ r. r.state) (sym same) ∙ row.state)

module _ {W : Type 0} (e : Env W) (c : Settings) {s0 : State} where
  -- A round, proved of the row's own identifier and state, holds of those that the loop reads.
  carry :
      (o : Occurrence) (spool_path occ_id : Text) (st : State) (m n : ℕ) (P : Text → Store → Type 0)
      (s : Session W)
      → m ≤ n
      → (o.occ_id ≡ occ_id) × (o.state ≡ st)
      → Triple (P o.occ_id) (step e c o spool_path st) (λ _. Below m s0 o.occ_id) (Fine s0 o.occ_id)
      → P occ_id s.db
      → Ends
          (λ _. Below n s0 occ_id)
          (Fine s0 occ_id)
          (step e c o spool_path o.state s).0
          (step e c o spool_path o.state s).1.db
  carry o spool_path occ_id st m n P s le (own, at) t p =
      subst
        (λ u.
          Ends (λ _. Below n s0 occ_id) (Fine s0 occ_id) (step e c o spool_path u s).0
            (step e c o spool_path u s).1.db)
        (sym at)
        (subst
          (λ k.
            P k s.db
            → Ends (λ _. Below n s0 k) (Fine s0 k) (step e c o spool_path st s).0
                (step e c o spool_path st s).1.db)
          own ((Triple-weaken t (λ db p. p) (λ _ db p. Below-le m n le p) (λ x db p. p)).at s) p)

  -- A round that returns lowers the rank.
  step-Below :
      (n : ℕ) (o : Occurrence) (spool_path occ_id : Text)
      → Triple
          (λ db. Below (suc n) s0 occ_id db × (get_occurrence db occ_id ≡ ok o))
          (step e c o spool_path o.state)
          (λ _. Below n s0 occ_id)
          (Fine s0 occ_id)
  unfolding step
  step-Below n o spool_path occ_id = record { at = λ s p. go s p.0.0 p.0.1 p.1 }
    where
      go :
          (s : Session W)
          → (p : IsConsistent s0 occ_id s.db) → rank p < suc n
          → get_occurrence s.db occ_id ≡ ok o
          → Ends
              (λ _. Below n s0 occ_id)
              (Fine s0 occ_id)
              (step e c o spool_path o.state s).0
              (step e c o spool_path o.state s).1.db
      go s (ready i) le q =
          carry o spool_path occ_id State.recorded 6 n (λ k. Idle s0 k State.recorded) s
            (omega (arith, le)) (read_row o i.row q) (publish-ready e c o spool_path) i
      go s (started a l) le q =
          carry o spool_path occ_id State.recorded 7 n (λ k. Live s0 k State.recorded a) s
            (omega (arith, le)) (read_row o l.row q) (publish-started e c o spool_path a) l
      go s (transferred a l) le q =
          carry o spool_path occ_id State.transferred 5 n (λ k. Live s0 k State.transferred a) s
            (omega (arith, le)) (read_row o l.row q) (verify-Consistent e o a spool_path) l
      go s (verified a l) le q =
          carry o spool_path occ_id State.verified 4 n (λ k. Live s0 k State.verified a) s
            (omega (arith, le)) (read_row o l.row q) (prove_recoverable-Consistent e o a) l
      go s (recoverable p) le q =
          carry o spool_path occ_id State.recoverable 3 n (λ k. Proven s0 k State.recoverable) s
            (omega (arith, le)) (read_row o p.idle.row q) (intend-Consistent e o spool_path) p
      go s (evicting p) le q =
          carry o spool_path occ_id State.evicting 2 n (λ k. Proven s0 k State.evicting) s
            (omega (arith, le)) (read_row o p.idle.row q) (delete-Consistent e o spool_path) p
      go s (evicted p) le q =
          carry o spool_path occ_id State.evicted 0 n (λ k. Proven s0 k State.evicted) s
            (omega arith) (read_row o p.idle.row q) (Triple-raise _ (λ db p. evicted p)) p
      go s (abandoned i) le q =
          carry o spool_path occ_id State.abandoned 0 n (λ k. Idle s0 k State.abandoned) s
            (omega arith) (read_row o i.row q) (Triple-raise _ (λ db i. abandoned i)) i

  -- One round of the loop, and the rest of it.
  round-Below :
      {Q : Unit {0} → Store → Type 0} (n fuel : ℕ) (occ_id spool_path : Text)
      → Triple (Below n s0 occ_id) (advance_loop e c fuel occ_id spool_path) Q (Fine s0 occ_id)
      → Triple
          (Below (suc n) s0 occ_id)
          (advance_loop e c (suc fuel) occ_id spool_path)
          Q
          (Fine s0 occ_id)
  unfolding advance_loop
  round-Below n fuel occ_id spool_path rest = Triple-read _ _ λ s.
      Triple-lifted (get_occurrence s.db occ_id) _ (λ x db p. p.0.0)
        λ o q.
          Triple-bind
            (Triple-weaken (step-Below n o spool_path occ_id)
              (λ db p. (p.0, subst (λ d. get_occurrence d occ_id ≡ ok o) (sym p.1) q)) (λ _ db p. p)
              (λ x db p. p))
            (λ _. rest)

  -- With the rank below the fuel the loop does not run out of it.
  loop-ends :
      (fuel : ℕ) (occ_id spool_path : Text)
      → Triple
          (Below fuel s0 occ_id)
          (advance_loop e c fuel occ_id spool_path)
          (λ _ _. ⊥)
          (Fine s0 occ_id)
  unfolding advance_loop
  loop-ends zero occ_id spool_path = Triple-pure tt (λ db p. omega (arith, p.1))
  loop-ends (suc fuel) occ_id spool_path =
      round-Below fuel fuel occ_id spool_path (loop-ends fuel occ_id spool_path)

  pub loop-Consistent :
      (fuel : ℕ) (occ_id spool_path : Text)
      → Triple
          (IsConsistent s0 occ_id)
          (advance_loop e c fuel occ_id spool_path)
          (λ _. IsConsistent s0 occ_id)
          (Fine s0 occ_id)
  unfolding advance_loop
  loop-Consistent zero occ_id spool_path = Triple-pure tt (λ db p. p)
  loop-Consistent (suc fuel) occ_id spool_path =
      Triple-weaken
        (round-Below 7 fuel occ_id spool_path (
          Triple-weaken (loop-Consistent fuel occ_id spool_path) (λ db p. p.0) (λ _ db p. p)
            (λ x db p. p)))
        (λ db p. (p, rank-lt p)) (λ _ db p. p) (λ x db p. p)

-- From a store in which the occurrence stands where it may, the loop of `advance` on a fuel of eight
-- or more ends by an exception, so it does not run out of fuel, whatever the calls outside answer.
pub advance_loop-ends :
    {W : Type 0} (e : Env W) (c : Settings) (s0 : State) (occ_id : Text) (n : ℕ) (spool_path : Text)
    (s : Session W)
    → IsConsistent s0 occ_id s.db
    → (x : Exn) × ((advance_loop e c (8 + n) occ_id spool_path s).0 ≡ err x)
advance_loop-ends {W = W} e c s0 occ_id n spool_path s p =
    go (advance_loop e c (8 + n) occ_id spool_path s).0 refl
      ((loop-ends e c (8 + n) occ_id spool_path).at s (p, lt))
  where
    lt : rank p < 8 + n
    lt = omega (arith, rank-lt p)

    go :
        (r : Raises (Unit {0}))
        → (advance_loop e c (8 + n) occ_id spool_path s).0 ≡ r
        → Ends (λ _ _. ⊥) (Fine s0 occ_id) r (advance_loop e c (8 + n) occ_id spool_path s).1.db
        → (x : Exn) × ((advance_loop e c (8 + n) occ_id spool_path s).0 ≡ err x)
    go (ok a) q h = absurd h
    go (err x) q h = (x, q)
