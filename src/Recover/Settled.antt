-- ===== src/Recover/Settled.antt =====
-- `_verify_occurrences` of dropin/recover.py: what is left of each occurrence.
use dropin.Prelude.{
  ◌≡◌, ◌≢◌, refl, sym, ◌⊎◌, inl, inr, Bool, true, false, Option, some, List, [], ◌∷◌, Text, text_eq,
  filter_by, find_by-one, filter-sort_by-one, if◌then◌else◌, Bool-cases, ok, arith,
}
use dropin.Recover.Base.{Observation}
use dropin.Recover.Frame.{
  Any, Any-raise, confirm_one-same, refuse_candidates-same, report_occurrence-same,
  report_orphans-same,
}
use dropin.Recover.Settle.{settle_occurrence}
use dropin.Record.{by_recorded, recorded_before}
use dropin.Recover.Run.{verify_one, verify_all, verify_occurrences, refuse_unknown}
use dropin.Recover.Verify.{candidates_of, confirm_one}
use dropin.Session.{Env, Run, Session, pure, ◌>>=◌}
use dropin.Session.Triple.{Triple, Triple-ok, Triple-pure, Triple-weaken, Triple-bind}
use dropin.Session.Rules.{Triple-if, Triple-read, Triple-peek, Triple-committed}
use dropin.States.{State, state_eq}
use dropin.Store.{Store, Occurrence}
use dropin.Store.Laws.{find_occurrence, find_occurrence-update}
use dropin.Store.Records.{occ_is}
use dropin.Recover.Shape.{
  Settled, state_eq_sound, state_eq_neg, Shape, settled_store-Shape, find_occurrence-other, kept,
}

-- What is left of the occurrence is settled.
abbrev pub IsSettled : Occurrence → Store → Type 0
IsSettled o db =
    (o' : Occurrence) × (find_occurrence o.occ_id db.occurrences ≡ some o') × Settled o o'

-- An occurrence is settled, or it is still the one row of the list that has its identifier.
abbrev Waiting : Occurrence → List Occurrence → Store → Type 0
Waiting o todo db =
    ((filter_by (occ_is o.occ_id) todo ≡ []) × IsSettled o db)
    ⊎ ((filter_by (occ_is o.occ_id) todo ≡ o ∷ [])
        × (find_occurrence o.occ_id db.occurrences ≡ some o))

abbrev Found : Text → Option Occurrence → Store → Type 0
Found k r db = find_occurrence k db.occurrences ≡ r

module _ {W : Type 0} (e : Env W) where
  settle_occurrence-run :
      {P Q : Store → Type 0} (occ : Occurrence) (confirmed : Option Observation)
      (candidates : List Observation)
      → occ.state ≢ State.abandoned
      → ((db db' : Store) → P db → Shape occ db.occurrences db'.occurrences → Q db')
      → Triple P (settle_occurrence e occ confirmed candidates) (λ _. Q) Any
  unfolding settle_occurrence
  settle_occurrence-run occ confirmed candidates live k = Triple-peek _ _ λ n.
      Triple-committed _ (λ x db p. tt)
        (λ db db' p h. k db db' p (settled_store-Shape occ confirmed candidates n db db' live h))
        (Triple-bind (Any-raise (report_occurrence-same e _ occ confirmed))
          (λ _. Any-raise (report_orphans-same e occ _)))

  -- The round of an occurrence settles it.
  verify_one-own :
      (trust : Bool) (groups : List (Text × List Observation)) (o : Occurrence)
      → Triple (Found o.occ_id (some o)) (verify_one e trust groups o) (λ _. IsSettled o) Any
  unfolding verify_one
  verify_one-own trust groups o = go (state_eq o.state State.abandoned) refl
    where
      go :
          (b : Bool)
          → state_eq o.state State.abandoned ≡ b
          → Triple
              (Found o.occ_id (some o))
              (if b then pure tt else (do
                verdict ← confirm_one e trust o (candidates_of o.occ_id groups)
                settle_occurrence e o verdict.0 verdict.1))
              (λ _. IsSettled o)
              Any
      go true h = Triple-pure tt (λ db p. (o, p, kept (state_eq_sound _ _ h) refl))
      go false h = Triple-bind (Any-raise (confirm_one-same e trust o _)) (λ verdict.
          settle_occurrence-run o verdict.0 verdict.1 (state_eq_neg _ _ h) (λ db db' p s. (
            s.change o,
            rw s.rows
                (rw (find_occurrence-update o.occ_id s.change db.occurrences s.own) (rw p refl)),
            s.settled,
          )))

  -- The round of another occurrence leaves it alone.
  verify_one-other :
      (trust : Bool) (groups : List (Text × List Observation)) (x : Occurrence) (k : Text)
      (r : Option Occurrence)
      → text_eq k x.occ_id ≡ false
      → Triple (Found k r) (verify_one e trust groups x) (λ _. Found k r) Any
  unfolding verify_one
  verify_one-other trust groups x k r h = go (state_eq x.state State.abandoned) refl
    where
      go :
          (b : Bool)
          → state_eq x.state State.abandoned ≡ b
          → Triple
              (Found k r)
              (if b then pure tt else (do
                verdict ← confirm_one e trust x (candidates_of x.occ_id groups)
                settle_occurrence e x verdict.0 verdict.1))
              (λ _. Found k r)
              Any
      go true a = Triple-pure tt (λ db p. p)
      go false a = Triple-bind (Any-raise (confirm_one-same e trust x _)) (λ verdict.
          settle_occurrence-run x verdict.0 verdict.1 (state_eq_neg _ _ a) (λ db db' p s.
            rw s.rows (rw (find_occurrence-other k x.occ_id s.change db.occurrences h s.own) p)))

  -- A precondition that is known of the store that a run starts with.
  at_start :
      {A : Type 0} {P : Store → Type 0} {Q : A → Store → Type 0} (m : Run W A)
      → ((s : Session W) → P s.db → Triple (λ db. db ≡ s.db) m Q Any)
      → Triple P m Q Any
  at_start m t = record { at = λ s p. (t s p).at s refl }

  verify_one-Waiting :
      (trust : Bool) (groups : List (Text × List Observation)) (o x : Occurrence)
      (rest : List Occurrence)
      → Triple (Waiting o (x ∷ rest)) (verify_one e trust groups x) (λ _. Waiting o rest) Any
  verify_one-Waiting trust groups o x rest =
      at_start _ (λ s p. go s (Bool-cases (text_eq o.occ_id x.occ_id)) p)
    where
      first_is :
          filter_by (occ_is o.occ_id) (x ∷ rest) ≡ o ∷ [] → text_eq o.occ_id x.occ_id ≡ true → x ≡ o
      first_is n h = ground (arith, h, n)

      go :
          (s : Session W)
          → (text_eq o.occ_id x.occ_id ≡ true) ⊎ (text_eq o.occ_id x.occ_id ≡ false)
          → Waiting o (x ∷ rest) s.db
          → Triple (λ db. db ≡ s.db) (verify_one e trust groups x) (λ _. Waiting o rest) Any
      go s (inl h) (inl (n, d)) = ground (arith, h, n)
      go s (inl h) (inr (n, f)) = rw (first_is n h) (
          Triple-weaken (verify_one-own trust groups o) (λ db q. rw q f)
            (λ a db d. inl (ground (arith, h, n), d)) (λ a db d. tt))
      go s (inr h) (inl (n, (o', f, d))) =
          Triple-weaken (verify_one-other trust groups x o.occ_id (some o') h) (λ db q. rw q f)
            (λ a db g. inl (ground (arith, h, n), (o', g, d))) (λ a db d. tt)
      go s (inr h) (inr (n, f)) =
          Triple-weaken (verify_one-other trust groups x o.occ_id (some o) h) (λ db q. rw q f)
            (λ a db g. inr (ground (arith, h, n), g)) (λ a db d. tt)

  verify_all-IsSettled :
      (trust : Bool) (groups : List (Text × List Observation)) (o : Occurrence)
      (todo : List Occurrence)
      → Triple (Waiting o todo) (verify_all e trust groups todo) (λ _. IsSettled o) Any
  unfolding verify_all
  verify_all-IsSettled trust groups o [] = Triple-pure tt (λ db p. done db p)
    where
      done : (db : Store) → Waiting o [] db → IsSettled o db
      done db (inl p) = p.1
      done db (inr p) = cc
  verify_all-IsSettled trust groups o (x ∷ rest) =
      Triple-bind (verify_one-Waiting trust groups o x rest)
        (λ _. verify_all-IsSettled trust groups o rest)

  refuse_unknown-same :
      {P : Store → Type 0} (known : List Occurrence) (groups : List (Text × List Observation))
      → Triple P (refuse_unknown e known groups) (λ _. P) (λ _. P)
  unfolding refuse_unknown
  refuse_unknown-same known [] = Triple-pure tt (λ db p. p)
  refuse_unknown-same known ((occ_id, candidates) ∷ rest) =
      Triple-bind
        (Triple-if _ _ _ (Triple-pure tt (λ db p. p)) (refuse_candidates-same e occ_id candidates))
        (λ _. refuse_unknown-same known rest)

  verify_occurrences-Triple :
      (trust : Bool) (observations : List Observation) (o : Occurrence)
      → Triple
          (λ db. filter_by (occ_is o.occ_id) db.occurrences ≡ o ∷ [])
          (verify_occurrences e trust observations)
          (λ _. IsSettled o)
          Any
  unfolding verify_occurrences by_recorded find_occurrence
  verify_occurrences-Triple trust observations o = Triple-read _ _ λ s0.
      Triple-bind
        (Triple-weaken (verify_all-IsSettled trust _ o (by_recorded s0.db.occurrences))
          (λ db p. inr (
            rw (sym p.1) (filter-sort_by-one recorded_before _ _ o p.0),
            find_by-one (occ_is o.occ_id) db.occurrences o p.0,
          ))
          (λ a db d. d) (λ x db d. d))
        (λ _. Any-raise (refuse_unknown-same _ _))

  pub verify_occurrences-IsSettled :
      (trust : Bool) (observations : List Observation) (s : Session W) (o : Occurrence)
      → filter_by (occ_is o.occ_id) s.db.occurrences ≡ o ∷ []
      → (verify_occurrences e trust observations s).0 ≡ ok tt
      → IsSettled o (verify_occurrences e trust observations s).1.db
  verify_occurrences-IsSettled trust observations s o one h =
      Triple-ok (verify_occurrences-Triple trust observations o) s tt one h
