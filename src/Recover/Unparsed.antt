-- ===== src/Recover/Unparsed.antt =====
-- A repository of which no snapshot has canonical tags, in `recover` of dropin/recover.py.
use dropin.Prelude.{
  ℕ, suc, ◌≡◌, ◌≢◌, ◌∙◌, refl, Bool, Option, none, some, List, [], ◌∷◌, Text, codes, All, ok, err,
}
use dropin.Drain.Emit.{report_line, report_item}
use dropin.Gates.Repository.{Snapshot}
use dropin.Outcome.{Outcome}
use dropin.Engine.Tags.{TagError, tag, parse_tags, k_version}
use dropin.Errors.{Reason, Raises, recover_refused, value_error}
use dropin.Recover.Base.{newest, choose_base}
use dropin.Recover.Observe.{
  Observed, as_skipped, skipped_with, observe, observe_all, dump_candidates,
}
use dropin.Recover.Run.{recover, rebuild, start_of}
use dropin.Session.{Env, Session, Run, pure, raise, call, lift, gets, ◌>>=◌, ◌>>◌}

-- The tags do not parse, and the error is one that the observation skips.
abbrev pub Unparsed : Snapshot → Type 0
Unparsed s = (x : TagError) × (parse_tags s.tags ≡ err x) × ((r : Reason) × (as_skipped x ≡ some r))

-- Nothing is observed, every snapshot is skipped, and the store is kept.
abbrev Skips : {W : Type 0} → List Snapshot → Session W → Raises Observed × Session W → Type 0
Skips found s r =
    (skipped : List (Text × Reason)) × (r.0 ≡ ok ([], skipped))
    × (r.1.db ≡ s.db)
    × (found ≡ [] → skipped ≡ [])
    × (skipped ≡ [] → found ≡ [])

bind-returns :
    {W A B : Type 0} (m : Run W A) (f : A → Run W B) (s : Session W) (a : A)
    → (m s).0 ≡ ok a
    → (m >>= f) s ≡ f a (m s).1
unfolding ◌>>=◌
bind-returns m f s a h = rw (◌>>=◌, h) refl

module _ {W : Type 0} (e : Env W) where
  report_line-returns :
      (name : Text) (reason : Option Reason) (s : Session W)
      → ((report_line e Outcome.orphaned name none none none reason s).0 ≡ ok tt)
        × ((report_line e Outcome.orphaned name none none none reason s).1.db ≡ s.db)
  unfolding report_line report_item gets ◌>>=◌
  report_line-returns name reason s = (refl, refl)

  -- The run of a snapshot that is skipped, before the rest of them.
  abbrev skipping : Text → Reason → Run W Observed → Run W Observed
  skipping name reason rest = do
    report_line e Outcome.orphaned name none none none (some reason)
    found ← rest
    pure (skipped_with name reason found)

  skipping-Skips :
      (x : Snapshot) (found : List Snapshot) (reason : Reason) (rest : Run W Observed)
      (s : Session W)
      → ((s1 : Session W) → Skips found s1 (rest s1))
      → Skips (x ∷ found) s (skipping x.id reason rest s)
  unfolding pure
  skipping-Skips x found reason rest s k =
      let line = report_line-returns x.id (some reason) s in
      let s1 : Session W = (report_line e Outcome.orphaned x.id none none none (some reason) s).1 in
      let (skipped, answer, db, _, _) = k s1 in
      rw
        (bind-returns (report_line e Outcome.orphaned x.id none none none (some reason)) _ s tt
          line.0)
        (rw
          (bind-returns rest (λ found. pure (skipped_with x.id reason found)) s1 ([], skipped)
            answer)
          ((x.id, reason) ∷ skipped, refl, db ∙ line.1, (λ q. cc), (λ q. cc)))

  observe_all-Skips :
      (n : ℕ) (found : List Snapshot) (s : Session W)
      → All Unparsed found
      → Skips found s (observe_all e n found s)
  unfolding observe_all pure
  observe_all-Skips n [] s u = ([], refl, refl, (λ q. refl), (λ q. refl))
  observe_all-Skips n (x ∷ rest) s u =
      let (err_x, parsed, (reason, skips)) = u.0 in
      rw (observe_all, parsed, skips)
        (skipping-Skips x rest reason (observe_all e (suc n) rest) s
          (λ s1. observe_all-Skips (suc n) rest s1 u.1))

  observe-Skips :
      (found : List Snapshot) (s : Session W)
      → (e.snapshots (tag k_version (codes "1")) s.world).0 ≡ ok found
      → All Unparsed found
      → Skips found s (observe e s)
  unfolding observe call
  observe-Skips found s h u =
      rw (bind-returns (call (e.snapshots (tag k_version (codes "1")))) (observe_all e 0) s found h)
        (observe_all-Skips 0 found _ u)

  -- How recovery ends when no snapshot has canonical tags.
  abbrev pub EndsEmpty : Bool → Session W → List Snapshot → Type 0
  EndsEmpty trust s found =
      (found ≡ [] → (recover e trust s).0 ≡ err (recover_refused (codes "no archiver snapshots")))
      × (found ≢ [] → (recover e trust s).0 ≡ err (value_error (codes "max")))
      × ((recover e trust s).1.db ≡ s.db)

  pub recover-EndsEmpty :
      (trust : Bool) (s : Session W) (found : List Snapshot)
      → (e.snapshots (tag k_version (codes "1")) s.world).0 ≡ ok found
      → All Unparsed found
      → EndsEmpty trust s found
  unfolding recover raise rebuild start_of choose_base newest lift pure dump_candidates ◌>>=◌
  recover-EndsEmpty trust s found h u = go (observe-Skips found s h u)
    where
      go : Skips found s (observe e s) → EndsEmpty trust s found
      go ([], answer, db, empty, nothing) =
          rw (recover, answer) ((λ q. refl), (λ q. absurd (q (nothing refl))), db)
      go (y ∷ skipped, answer, db, empty, nothing) =
          rw (recover, answer) ((λ q. cc (empty q)), (λ q. refl), db)
