-- ===== src/Drain/Refused.antt =====
-- A drain that the frontier gate refuses (dropin/pipeline/drain.py).
use dropin.Prelude.{
  ℕ, ◌≡◌, ◌≢◌, ◌∙◌, refl, Bool, true, false, Option, none, some, List, [], ◌∷◌, Text, text_eq,
  Result, ok, err, Option-cases, Bool-cases, inl, inr, arith,
}
use dropin.Drain.Base.{Settings}
use dropin.Drain.Execute.{
  GateVerdict, verdict_of, as_unreachable, frontier, refuse_run, refuse_names, list_names,
  not_scanned, run_verdict, execute, passes,
}
use dropin.Drain.Emit.{emit_name, report_line, report_item, put_event}
use dropin.Engine.{EngineError}
use dropin.Engine.Tags.{Identity, TagError, int_limit, parse_tags, tag_set}
use dropin.Errors.{Exn, Reason, Raises, engine_error, os_error}
use dropin.Gates.Frontier.{
  Refusal, require_known, check_identity, check_parsed, check_snapshots, check_frontier,
  matching_attempt, is_merged, as_refusal, observed,
}
use dropin.Gates.Repository.{Snapshot}
use dropin.Outcome.{Outcome}
use dropin.Phase.Adopt.{observe_snapshot-rest}
use dropin.Session.{Env, Session, ◌>>=◌}
use dropin.Session.Triple.{
  Ends, Triple, Triple-pure, Triple-raise, Triple-catch, Triple-bind, Triple-write,
}
use dropin.Session.Rules.{Triple-peek, Triple-called, Triple-read, Triple-written}
use dropin.Store.{Store, SnapshotStatus}
use dropin.Store.Records.{get_snapshot, observe_snapshot, merged_through, tag_sets_eq}

-- No occurrence and no attempt differs.
abbrev pub Untouched : Store → Store → Type 0
Untouched a b = (b.occurrences ≡ a.occurrences) × (b.attempts ≡ a.attempts)

observed-Untouched :
    (observe : Bool) (s : Snapshot) (i : Identity) (n : ℕ) (db db' : Store)
    → as_refusal (observed observe s i n db) ≡ ok db'
    → Untouched db db'
observed-Untouched false s i n db db' h = (ground (arith, h), ground (arith, h))
observed-Untouched true s i n db db' h =
    go (observe_snapshot s.id i SnapshotStatus.pending none n db) refl h
  where
    go :
        (r : Raises Store)
        → observe_snapshot s.id i SnapshotStatus.pending none n db ≡ r
        → as_refusal r ≡ ok db'
        → Untouched db db'
    go (ok d) e k =
        let rest = observe_snapshot-rest s.id i SnapshotStatus.pending none n db d e in
        (ground (arith, k, rest.0), ground (arith, k, rest.1))
    go (err x) e k = cc

require_known-Untouched :
    (observe : Bool) (s : Snapshot) (i : Identity) (n : ℕ) (db db' : Store)
    → require_known observe s i n db ≡ ok db'
    → Untouched db db'
unfolding require_known
require_known-Untouched observe s i n db db' h = elim (Option-cases (get_snapshot db s.id)) [
  | inl e ↦ elim (Option-cases (matching_attempt db i)) [
    | inl f ↦ cc (rw (require_known, e, f) at h)
    | inr (a, f) ↦ observed-Untouched observe s i n db db' (rw (require_known, e, f) at h)
  ]
  | inr (row, e) ↦ elim (Bool-cases (tag_sets_eq row.tag_set (tag_set i))) [
    | inl f ↦ (
      ground (arith, rw (require_known, e, f) at h),
      ground (arith, rw (require_known, e, f) at h),
    )
    | inr f ↦ cc (rw (require_known, e, f) at h)
  ]
]

check_parsed-Untouched :
    (observe : Bool) (known : List (Text × ℕ)) (store_id : Text) (s : Snapshot)
    (r : Result TagError Identity) (n : ℕ) (db db' : Store)
    → check_parsed observe known store_id s r n db ≡ ok db'
    → Untouched db db'
unfolding check_parsed check_identity
check_parsed-Untouched observe known store_id s (ok i) n db db' h =
    elim (Bool-cases (text_eq i.store_id store_id)) [
      | inl e ↦ require_known-Untouched observe s i n db db' (rw e at h)
      | inr e ↦ elim (Bool-cases (is_merged (merged_through known i.store_id) i.export_seq)) [
        | inl f ↦ (ground (arith, rw (e, f) at h), ground (arith, rw (e, f) at h))
        | inr f ↦ cc (rw (e, f) at h)
      ]
    ]
check_parsed-Untouched observe known store_id s (err int_limit) n db db' h = cc
check_parsed-Untouched observe known store_id s (err x) n db db' h = cc

-- However the frontier check ends, it touches the ledger alone.
check_snapshots-Untouched :
    (observe : Bool) (known : List (Text × ℕ)) (store_id : Text) (n : ℕ) (snapshots : List Snapshot)
    (db : Store)
    → Untouched db (check_snapshots observe known store_id n snapshots db).1
unfolding check_snapshots
check_snapshots-Untouched observe known store_id n [] db = (refl, refl)
check_snapshots-Untouched observe known store_id n (s ∷ rest) db =
    go (check_parsed observe known store_id s (parse_tags s.tags) n db) refl
      (check_snapshots-Untouched observe known store_id n rest)
  where
    go :
        (r : Result Refusal Store)
        → check_parsed observe known store_id s (parse_tags s.tags) n db ≡ r
        → ((d : Store) → Untouched d (check_snapshots observe known store_id n rest d).1)
        → (let ends : Option Refusal × Store = elim r [
          | ok d ↦ check_snapshots observe known store_id n rest d
          | err x ↦ (some x, db)
        ] in
            Untouched db ends.1)
    go (ok d) e ih =
        let first = check_parsed-Untouched observe known store_id s (parse_tags s.tags) n db d e in
        ((ih d).0 ∙ first.0, (ih d).1 ∙ first.1)
    go (err x) e ih = (refl, refl)

Ends-either :
    {A : Type 0} (P : Store → Type 0) (r : Raises A) (db : Store)
    → Ends (λ _. P) (λ _. P) r db
    → P db
Ends-either P (ok a) db h = h
Ends-either P (err x) db h = h

module _ {W : Type 0} (e : Env W) (c : Settings) (fuel : ℕ) (db0 : Store) where
  abbrev Kept : Store → Type 0
  Kept db = Untouched db0 db

  verdict_of-Kept :
      (r : Option Refusal) → Triple Kept (verdict_of e c fuel r) (λ _. Kept) (λ _. Kept)
  verdict_of-Kept none = Triple-pure GateVerdict.passes (λ db p. p)
  verdict_of-Kept (some Refusal.value_error) = Triple-raise _ (λ db p. p)
  verdict_of-Kept (some (Refusal.raised x)) = Triple-raise x (λ db p. p)
  verdict_of-Kept (some (Refusal.malformed id x)) = Triple-pure _ (λ db p. p)
  verdict_of-Kept (some (Refusal.recorded_differently id)) = Triple-pure _ (λ db p. p)
  verdict_of-Kept (some (Refusal.unknown id)) = Triple-pure _ (λ db p. p)
  verdict_of-Kept (some (Refusal.not_merged id store_id seq)) = Triple-pure _ (λ db p. p)

  as_unreachable-Kept : (x : Exn) → Triple Kept (as_unreachable e c fuel x) (λ _. Kept) (λ _. Kept)
  as_unreachable-Kept (engine_error x) = Triple-pure _ (λ db p. p)
  as_unreachable-Kept x = Triple-raise x (λ db p. p)

  frontier-Kept : Triple Kept (frontier e c fuel) (λ _. Kept) (λ _. Kept)
  unfolding frontier check_frontier
  frontier-Kept =
      Triple-catch
        (Triple-called _ _ (λ x db p. p)
          λ found. Triple-peek _ _ λ n. Triple-read _ _ λ s.
            Triple-written _
              (λ db p.
                let same = check_snapshots-Untouched true s.db.lineage s.db.store_id n found s.db in
                (same.0 ∙ rw p.1 at p.0.0, same.1 ∙ rw p.1 at p.0.1))
              (verdict_of-Kept _))
        as_unreachable-Kept

  emit_name-Kept :
      (outcome : Outcome) (name : Text) (reason : Reason)
      → Triple Kept (emit_name e outcome name reason) (λ _. Kept) (λ _. Kept)
  unfolding emit_name report_line report_item put_event
  emit_name-Kept outcome name reason =
      Triple-bind (Triple-peek _ _ λ report. record { at = λ s p. p })
        (λ _. Triple-peek _ _ λ n. Triple-write _ (λ db p. p))

  refuse_run-Kept : (text : Text) → Triple Kept (refuse_run e c fuel text) (λ _. Kept) (λ _. Kept)
  unfolding refuse_run
  refuse_run-Kept text = record { at = λ s p. p }

  refuse_names-Kept :
      (x : EngineError) (names : List Text)
      → Triple Kept (refuse_names e c fuel x names) (λ _. Kept) (λ _. Kept)
  unfolding refuse_names
  refuse_names-Kept x [] = Triple-pure tt (λ db p. p)
  refuse_names-Kept x (name ∷ rest) =
      Triple-bind (emit_name-Kept Outcome.refused name _) (λ _. refuse_names-Kept x rest)

  not_scanned-Kept : (x : Exn) → Triple Kept (not_scanned e c fuel x) (λ _. Kept) (λ _. Kept)
  not_scanned-Kept (os_error m) =
      Triple-peek _ _ λ s. Triple-bind (refuse_run-Kept _) (λ _. Triple-pure [] (λ db p. p))
  not_scanned-Kept x = Triple-raise x (λ db p. p)

  list_names-Kept : Triple Kept (list_names e c fuel) (λ _. Kept) (λ _. Kept)
  unfolding list_names
  list_names-Kept = Triple-called _ _ (λ x db p. p) λ names. Triple-pure _ (λ db p. p)

  run_verdict-Kept :
      (v : GateVerdict) → v ≢ passes → Triple Kept (run_verdict e c fuel v) (λ _. Kept) (λ _. Kept)
  run_verdict-Kept GateVerdict.passes h = absurd (h refl)
  run_verdict-Kept (GateVerdict.refused text) h = refuse_run-Kept text
  run_verdict-Kept (GateVerdict.unreachable x) h = Triple-bind (refuse_run-Kept _) (λ _.
      Triple-bind (Triple-catch list_names-Kept not_scanned-Kept)
        (λ names. refuse_names-Kept x names))

module _ {W : Type 0} (e : Env W) (c : Settings) (fuel : ℕ) where
  -- If the frontier gate returns, but not with a pass, then the whole drain changes no occurrence
  -- and no attempt.
  pub execute_refused :
      (verdict : GateVerdict) (s : Session W)
      → (frontier e c fuel s).0 ≡ ok verdict
      → verdict ≢ passes
      → Untouched s.db (execute e c fuel s).1.db
  unfolding execute ◌>>=◌
  execute_refused verdict s h n = rw h (
      Ends-either (Untouched s.db) (run_verdict e c fuel verdict (frontier e c fuel s).1).0 _ (
        (run_verdict-Kept e c fuel s.db verdict n).at (frontier e c fuel s).1 (
          Ends-either (Untouched s.db) (frontier e c fuel s).0 _
            ((frontier-Kept e c fuel s.db).at s (refl, refl)))))
