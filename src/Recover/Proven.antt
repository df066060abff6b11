-- ===== src/Recover/Proven.antt =====
-- `_confirm_one` of dropin/recover.py confirms what proves itself.
use dropin.Prelude.{
  ◌≡◌, refl, ◌⊎◌, inl, inr, Bool, true, false, ◌&&◌, Option, none, some, List, [], ◌∷◌, map,
  filter_by, any, All, All-sort_by, if◌then◌else◌, ==_refl, ok, err, arith,
}
use mathlib.Core.Path.{subst}
use dropin.Errors.{Exn, Raises, Reason}
use dropin.Recover.Base.{Observation, is_same}
use dropin.Recover.Frame.{prove-same, Any}
use dropin.Recover.Verify.{
  Verdict, attempt_failed, attempt_of, is_eligible, orphan_same, later_export_confirms, prove,
  evidence, as_evidence, try_candidate, decided, confirm_first, confirm_one,
}
use dropin.Session.{Env, Run, Session, pure, ◌>>=◌}
use dropin.Session.Triple.{
  Ends, Triple, Triple-ok, Triple-pure, Triple-raise, Triple-weaken, Triple-catch, Triple-bind,
}
use dropin.Session.Rules.{Triple-known}
use dropin.Store.{Store, Occurrence}

module _ {W : Type 0} (e : Env W) where
  -- A run of the proof on the store that passed.
  abbrev pub Passed : Store → Occurrence → Observation → Type 0
  Passed db occ o = (s : Session W) × (s.db ≡ db) × ((prove e occ o s).0 ≡ ok tt)

  abbrev pub IsProven : Bool → Store → Occurrence → Observation → Type 0
  IsProven trust db occ o = ((trust && later_export_confirms occ o) ≡ true) ⊎ Passed db occ o

  -- What a candidate is that history and its catalog leave to try.
  abbrev pub IsEligible : Store → List Observation → Observation → Type 0
  IsEligible db candidates o =
      (o.valid ≡ true)
      × (attempt_failed (attempt_of db o) ≡ false)
      × (any (is_same o) candidates ≡ true)

  -- A result comes from a run.
  Triple-ran :
      {A : Type 0} {P : Store → Type 0} {X : Exn → Store → Type 0} (m : Run W A)
      → Triple P m (λ _. P) X
      → Triple P m (λ a db. P db × ((s : Session W) × P s.db × ((m s).0 ≡ ok a))) X
  Triple-ran {A = A} {P = P} {X = X} m t = record { at = λ s p. go s p (m s).0 refl (t.at s p) }
    where
      go :
          (s : Session W)
          → P s.db
          → (r : Raises A) → (m s).0 ≡ r
          → Ends (λ _. P) X r (m s).1.db
          → Ends (λ a db. P db × ((s' : Session W) × P s'.db × ((m s').0 ≡ ok a))) X r (m s).1.db
      go s p (ok a) e q = (q, (s, p, e))
      go s p (err x) e q = q

  module _ (db0 : Store) (occ : Occurrence) where
    abbrev Same : Store → Type 0
    Same db = db ≡ db0

    abbrev Tried : Observation → Option Reason → Store → Type 0
    Tried o r db = Same db × (r ≡ none → Passed db0 occ o)

    evidence-Tried :
        (o : Observation) (x : Exn) (r : Option Reason) → Triple Same (evidence e x r) (Tried o) Any
    evidence-Tried o x none = Triple-raise x (λ db p. tt)
    evidence-Tried o x (some reason) = Triple-pure (some reason) (λ db p. (p, λ h. cc))

    try_candidate-Tried : (o : Observation) → Triple Same (try_candidate e occ o) (Tried o) Any
    try_candidate-Tried o =
        Triple-catch {X' = λ _. Same}
          (Triple-bind (Triple-ran (prove e occ o) (prove-same e occ o))
            (λ u. Triple-pure none (λ db p. (p.0, λ h. p.1))))
          (λ x. evidence-Tried o x (as_evidence x))

    abbrev Chosen : (Observation → Type 0) → Bool → Verdict → Store → Type 0
    Chosen E trust v db = (c : Observation) → v.0 ≡ some c → E c × IsProven trust db0 occ c

    confirm_first-Chosen :
        {E : Observation → Type 0} (trust : Bool) (todo candidates : List Observation)
        → All E todo
        → Triple Same (confirm_first e trust occ todo candidates) (Chosen E trust) Any
    unfolding confirm_first
    confirm_first-Chosen trust [] candidates es = Triple-pure _ (λ db p c h. cc)
    confirm_first-Chosen {E = E} trust (o ∷ rest) candidates es =
        go (trust && later_export_confirms occ o) refl
          (λ reason. confirm_first-Chosen trust rest (map (orphan_same o reason) candidates) es.1)
      where
        chosen :
            IsProven trust db0 occ o
            → (c : Observation) → ◌≡◌ {A = Option Observation} (some o) (some c)
            → E c × IsProven trust db0 occ c
        chosen v c h = subst (λ x. E x × IsProven trust db0 occ x) (same c h) (es.0, v)
          where
            same : (c : Observation) → ◌≡◌ {A = Option Observation} (some o) (some c) → o ≡ c
            same c h = cc

        after :
            ((reason : Reason)
              → Triple Same
                  (confirm_first e trust occ rest (map (orphan_same o reason) candidates))
                  (Chosen E trust)
                  Any)
            → (found : Option Reason)
            → Triple
                (Tried o found)
                (decided e o candidates (confirm_first e trust occ rest) found)
                (Chosen E trust)
                Any
        after k none = Triple-pure _ (λ db p. chosen (inr (p.1 refl)))
        after k (some reason) = Triple-weaken (k reason) (λ db p. p.0) (λ a db p. p) (λ x db p. tt)

        go :
            (b : Bool)
            → (trust && later_export_confirms occ o) ≡ b
            → ((reason : Reason)
                → Triple Same
                    (confirm_first e trust occ rest (map (orphan_same o reason) candidates))
                    (Chosen E trust)
                    Any)
            → Triple Same
                (if b then pure (some o, candidates) else (do
                  found ← try_candidate e occ o
                  decided e o candidates (confirm_first e trust occ rest) found))
                (Chosen E trust)
                Any
        go true h k = Triple-pure _ (λ db p. chosen (inl h))
        go false h k = Triple-bind (try_candidate-Tried o) (after k)

  -- The eligible candidates are valid, not recorded as failed, and candidates.
  eligible :
      (db : Store) (all todo : List Observation)
      → ((o : Observation) → any (is_same o) todo ≡ true → any (is_same o) all ≡ true)
      → All (IsEligible db all) (filter_by (is_eligible db) todo)
  eligible db all [] h = tt
  eligible db all (o ∷ rest) h =
      go (is_eligible db o) refl (eligible db all rest (λ q m. h q (ground (arith, m))))
    where
      go :
          (b : Bool)
          → is_eligible db o ≡ b
          → All (IsEligible db all) (filter_by (is_eligible db) rest)
          → All
              (IsEligible db all)
              (if b then o ∷ filter_by (is_eligible db) rest else filter_by (is_eligible db) rest)
      go true i r =
          ((ground (arith, i), ground (arith, i), h o (ground (arith, ==_refl o.place))), r)
      go false i r = r

  confirm_one-Chosen :
      (trust : Bool) (occ : Occurrence) (candidates : List Observation) (s : Session W)
      → Triple
          (λ db. db ≡ s.db)
          (confirm_one e trust occ candidates)
          (Chosen s.db occ (IsEligible s.db candidates) trust)
          Any
  unfolding confirm_one
  confirm_one-Chosen trust occ candidates s =
      Triple-known (λ db. db) _ s.db (λ db p. p)
        (confirm_first-Chosen s.db occ trust _ _
          (All-sort_by _ _ _ (eligible s.db candidates candidates (λ q m. m))))

  -- If a snapshot of an occurrence is confirmed, then it is one of the candidates, its catalog is
  -- valid, the store does not record its attempt as failed, and either later exports are trusted
  -- and the catalog confirms its attempt, or a run of the proof (the listing reconciled with the
  -- manifest and the payload verified) on this store ended without an error.
  pub confirm_one_sound :
      (trust : Bool) (occ : Occurrence) (candidates verdicts : List Observation) (c : Observation)
      (s : Session W)
      → (confirm_one e trust occ candidates s).0 ≡ ok (some c, verdicts)
      → IsEligible s.db candidates c × IsProven trust s.db occ c
  confirm_one_sound trust occ candidates verdicts c s h =
      Triple-ok (confirm_one-Chosen trust occ candidates s) s (some c, verdicts) refl h c refl
