-- ===== src/Recover/Frame.antt =====
-- The steps of dropin/recover.py that only read the store, or only report.
use dropin.Prelude.{Bool, true, false, Option, none, some, List, [], ◌∷◌, map, Text}
use dropin.Errors.{Exn, Reason}
use dropin.Outcome.{Outcome}
use dropin.Drain.Emit.{report_item, report_line}
use dropin.Phase.Prove.{verify_payload-same}
use dropin.Recover.Base.{Observation}
use dropin.Recover.Run.{refuse_candidates}
use dropin.Recover.Settle.{report_occurrence, report_orphans}
use dropin.Recover.Verify.{
  prove, orphan_same, evidence, as_evidence, try_candidate, decided, confirm_first, confirm_one,
}
use dropin.Report.{OutcomeRecord}
use dropin.Session.{Env, Run}
use dropin.Session.Triple.{
  Triple, Triple-pure, Triple-raise, Triple-bind, Triple-weaken, Triple-catch,
}
use dropin.Session.Rules.{Triple-if, Triple-peek, Triple-asked, Triple-lifted, Triple-lift-same}
use dropin.States.{State}
use dropin.Store.{Store, Occurrence}

-- Nothing is claimed where a run raises.
abbrev pub Any : Exn → Store → Type 0
Any x db = Unit {0}

pub Any-raise :
    {W A : Type 0} {P : Store → Type 0} {Q : A → Store → Type 0} {m : Run W A}
    → Triple P m Q (λ _. P)
    → Triple P m Q Any
Any-raise t = Triple-weaken t (λ db p. p) (λ a db p. p) (λ x db p. tt)

module _ {W : Type 0} (e : Env W) {P : Store → Type 0} where
  report_item-same : (r : OutcomeRecord) → Triple {W = W} P (report_item e r) (λ _. P) (λ _. P)
  unfolding report_item
  report_item-same r = record { at = λ s p. p }

  pub report_line-same :
      (outcome : Outcome) (name : Text) (path kind : Option Text) (state : Option State)
      (reason : Option Reason)
      → Triple P (report_line e outcome name path kind state reason) (λ _. P) (λ _. P)
  unfolding report_line
  report_line-same outcome name path kind state reason =
      Triple-peek _ _ λ report. report_item-same _

  pub report_occurrence-same :
      (was_evicting : Bool) (occ : Occurrence) (confirmed : Option Observation)
      → Triple P (report_occurrence e was_evicting occ confirmed) (λ _. P) (λ _. P)
  report_occurrence-same true occ confirmed = report_line-same _ _ _ _ _ _
  report_occurrence-same false occ (some c) = Triple-pure tt (λ db p. p)
  report_occurrence-same false occ none = report_line-same _ _ _ _ _ _

  pub report_orphans-same :
      (occ : Occurrence) (os : List Observation)
      → Triple P (report_orphans e occ os) (λ _. P) (λ _. P)
  unfolding report_orphans
  report_orphans-same occ [] = Triple-pure tt (λ db p. p)
  report_orphans-same occ (o ∷ rest) =
      Triple-bind (Triple-if _ _ _ (report_line-same _ _ _ _ _ _) (Triple-pure tt (λ db p. p)))
        (λ _. report_orphans-same occ rest)

  pub prove-same : (occ : Occurrence) (o : Observation) → Triple P (prove e occ o) (λ _. P) (λ _. P)
  unfolding prove
  prove-same occ o = Triple-peek _ _ λ db. Triple-asked _ _ λ nodes.
      Triple-bind (Triple-lift-same _ (λ x db p. p))
        (λ _. Triple-lifted _ _ (λ x db p. p) λ row q. verify_payload-same e _ _ _ _)

  evidence-same : (x : Exn) (r : Option Reason) → Triple P (evidence e x r) (λ _. P) (λ _. P)
  evidence-same x none = Triple-raise x (λ db p. p)
  evidence-same x (some reason) = Triple-pure (some reason) (λ db p. p)

  try_candidate-same :
      (occ : Occurrence) (o : Observation) → Triple P (try_candidate e occ o) (λ _. P) (λ _. P)
  try_candidate-same occ o =
      Triple-catch (Triple-bind (prove-same occ o) (λ _. Triple-pure none (λ db p. p)))
        (λ x. evidence-same x (as_evidence x))

  confirm_first-same :
      (trust : Bool) (occ : Occurrence) (todo candidates : List Observation)
      → Triple P (confirm_first e trust occ todo candidates) (λ _. P) (λ _. P)
  unfolding confirm_first
  confirm_first-same trust occ [] candidates = Triple-pure _ (λ db p. p)
  confirm_first-same trust occ (o ∷ rest) candidates =
      Triple-if _ _ _ (Triple-pure _ (λ db p. p)) (
        Triple-bind (try_candidate-same occ o) (go (λ reason. confirm_first-same trust occ rest _)))
    where
      go :
          ((reason : Reason)
            → Triple P
                (confirm_first e trust occ rest (map (orphan_same o reason) candidates))
                (λ _. P)
                (λ _. P))
          → (found : Option Reason)
          → Triple P
              (decided e o candidates (confirm_first e trust occ rest) found)
              (λ _. P)
              (λ _. P)
      go k none = Triple-pure _ (λ db p. p)
      go k (some reason) = k reason

  pub confirm_one-same :
      (trust : Bool) (occ : Occurrence) (candidates : List Observation)
      → Triple P (confirm_one e trust occ candidates) (λ _. P) (λ _. P)
  unfolding confirm_one
  confirm_one-same trust occ candidates = Triple-peek _ _ λ db. confirm_first-same trust occ _ _

  pub refuse_candidates-same :
      (occ_id : Text) (os : List Observation)
      → Triple P (refuse_candidates e occ_id os) (λ _. P) (λ _. P)
  unfolding refuse_candidates
  refuse_candidates-same occ_id [] = Triple-pure tt (λ db p. p)
  refuse_candidates-same occ_id (o ∷ rest) =
      Triple-bind (report_line-same _ _ _ _ _ _) (λ _. refuse_candidates-same occ_id rest)
