-- ===== src/Session/Triple.antt =====
-- What an action does to the store: from stores with `P`, a result leaves one with `Q`, and a raise
-- one with `X`.
use mathlib.Core.Path.{subst}
use dropin.Prelude.{◌≡◌, refl, ok, err, Text}
use dropin.Errors.{Exn, Raises}
use dropin.Session.{
  Session, Run, pure, raise, lift, gets, ask, call, catch, ◌>>=◌, write, commit, discard_export,
  keep_export, continue, handled, committed,
}
use dropin.Store.{Store}

abbrev pub Ends :
    {A : Type 0} → (A → Store → Type 0) → (Exn → Store → Type 0) → Raises A → Store → Type 0
Ends Q X (ok a) db = Q a db
Ends Q X (err x) db = X x db

Ends-either :
    {A : Type 0} (Q : A → Store → Type 0) (X : Exn → Store → Type 0) (r : Raises A) (db : Store)
    → ((a : A) → Q a db)
    → ((x : Exn) → X x db)
    → Ends Q X r db
Ends-either Q X (ok a) db q x = q a
Ends-either Q X (err e) db q x = x e

weaken-Ends :
    {A : Type 0} (Q Q' : A → Store → Type 0) (X X' : Exn → Store → Type 0) (r : Raises A)
    (db : Store)
    → ((a : A) (db : Store) → Q' a db → Q a db)
    → ((x : Exn) (db : Store) → X' x db → X x db)
    → Ends Q' X' r db
    → Ends Q X r db
weaken-Ends Q Q' X X' (ok a) db q x h = q a db h
weaken-Ends Q Q' X X' (err e) db q x h = x e db h

pub record Triple {W A : Type 0} (P : Store → Type 0) (m : Run W A) (Q : A → Store → Type 0)
    (X : Exn → Store → Type 0) : Type 0 where
  pub at : (s : Session W) → P s.db → Ends Q X (m s).0 (m s).1.db

module _ {W A : Type 0} {P : Store → Type 0} {Q : A → Store → Type 0}
    {X : Exn → Store → Type 0} where
  pub Triple-pure : (a : A) → ((db : Store) → P db → Q a db) → Triple {W = W} P (pure a) Q X
  unfolding pure
  Triple-pure a h = record { at = λ s p. h s.db p }

  pub Triple-raise : (x : Exn) → ((db : Store) → P db → X x db) → Triple {W = W} P (raise x) Q X
  unfolding raise
  Triple-raise x h = record { at = λ s p. h s.db p }

  pub Triple-gets :
      (f : Session W → A) → ((s : Session W) → P s.db → Q (f s) s.db) → Triple P (gets f) Q X
  unfolding gets
  Triple-gets f h = record { at = λ s p. h s p }

  pub Triple-lift :
      (r : Raises A) → ((db : Store) → P db → Ends Q X r db) → Triple {W = W} P (lift r) Q X
  unfolding lift
  Triple-lift r h = record { at = λ s p. h s.db p }

  -- A call outside leaves the store alone, whatever it answers.
  pub Triple-ask : (f : W → A × W) → ((a : A) (db : Store) → P db → Q a db) → Triple P (ask f) Q X
  unfolding ask
  Triple-ask f h = record { at = λ s p. h (f s.world).0 s.db p }

  pub Triple-call :
      (f : W → Raises A × W)
      → ((a : A) (db : Store) → P db → Q a db)
      → ((x : Exn) (db : Store) → P db → X x db)
      → Triple P (call f) Q X
  unfolding call
  Triple-call f h k = record {
    at = λ s p. Ends-either Q X (f s.world).0 s.db (λ a. h a s.db p) (λ x. k x s.db p);
  }

  -- What a run that returns a result leaves.
  pub Triple-ok :
      {m : Run W A}
      → Triple P m Q X
      → (s : Session W) (a : A) → P s.db
      → (m s).0 ≡ ok a
      → Q a (m s).1.db
  Triple-ok {m = m} t s a p h = go (m s).0 (t.at s p) h
    where
      same : (b : A) → ◌≡◌ {A = Raises A} (ok b) (ok a) → b ≡ a
      same b e = cc

      go : (r : Raises A) → Ends Q X r (m s).1.db → r ≡ ok a → Q a (m s).1.db
      go (ok b) q e = subst (λ x. Q x (m s).1.db) (same b e) q
      go (err x) q e = cc

  pub Triple-weaken :
      {P' : Store → Type 0} {Q' : A → Store → Type 0} {X' : Exn → Store → Type 0} {m : Run W A}
      → Triple P' m Q' X'
      → ((db : Store) → P db → P' db)
      → ((a : A) (db : Store) → Q' a db → Q a db)
      → ((x : Exn) (db : Store) → X' x db → X x db)
      → Triple P m Q X
  Triple-weaken {Q' = Q'} {X' = X'} {m = m} t p q x = record {
    at = λ s h. weaken-Ends Q Q' X X' (m s).0 (m s).1.db q x (t.at s (p s.db h));
  }

  pub Triple-catch :
      {X' : Exn → Store → Type 0} {m : Run W A} {h : Exn → Run W A}
      → Triple P m Q X'
      → ((x : Exn) → Triple (X' x) (h x) Q X)
      → Triple P (catch m h) Q X
  unfolding catch
  Triple-catch {X' = X'} {m = m} {h = h} t k = record { at = λ s p. go (m s).0 (m s).1 (t.at s p) }
    where
      go :
          (r : Raises A) (s : Session W)
          → Ends Q X' r s.db
          → Ends Q X (handled r h s).0 (handled r h s).1.db
      go (ok a) s e = e
      go (err x) s e = (k x).at s e

module _ {W A B : Type 0} {P : Store → Type 0} {R : B → Store → Type 0}
    {X : Exn → Store → Type 0} where
  pub Triple-bind :
      {Q : A → Store → Type 0} {m : Run W A} {f : A → Run W B}
      → Triple P m Q X
      → ((a : A) → Triple (Q a) (f a) R X)
      → Triple P (m >>= f) R X
  unfolding ◌>>=◌
  Triple-bind {Q = Q} {m = m} {f = f} t k = record { at = λ s p. go (m s).0 (m s).1 (t.at s p) }
    where
      go :
          (r : Raises A) (s : Session W)
          → Ends Q X r s.db
          → Ends R X (continue r f s).0 (continue r f s).1.db
      go (ok a) s e = (k a).at s e
      go (err x) s e = e

module _ {W : Type 0} {P : Store → Type 0} {Q : Unit {0} → Store → Type 0}
    {X : Exn → Store → Type 0} where
  pub Triple-write :
      (f : Store → Store) → ((db : Store) → P db → Q tt (f db)) → Triple {W = W} P (write f) Q X
  unfolding write
  Triple-write f h = record { at = λ s p. h s.db p }

  -- A refused transaction leaves the store as it was.
  pub Triple-commit :
      (f : Store → Raises Store)
      → ((db db' : Store) → P db → f db ≡ ok db' → Q tt db')
      → ((x : Exn) (db : Store) → P db → f db ≡ err x → X x db)
      → Triple {W = W} P (commit f) Q X
  unfolding commit
  Triple-commit f h k = record { at = λ s p. go s (f s.db) refl p }
    where
      go :
          (s : Session W) (r : Raises Store)
          → f s.db ≡ r
          → P s.db
          → Ends Q X (committed r s).0 (committed r s).1.db
      go s (ok db) e p = h s.db db p e
      go s (err x) e p = k x s.db p e

  pub Triple-discard :
      (path : Text) → ((db : Store) → P db → Q tt db) → Triple {W = W} P (discard_export path) Q X
  unfolding discard_export
  Triple-discard path h = record { at = λ s p. h s.db p }

  pub Triple-keep :
      (path : Text) → ((db : Store) → P db → Q tt db) → Triple {W = W} P (keep_export path) Q X
  unfolding keep_export
  Triple-keep path h = record { at = λ s p. h s.db p }
