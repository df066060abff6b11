-- ===== src/Session/Rules.antt =====
-- Rules for the first step of a chain of actions: an action that reads, calls or writes, and the rest.
use dropin.Prelude.{◌≡◌, refl, ok, err, Text, Bool, true, false, if◌then◌else◌}
use dropin.Errors.{Exn, Raises}
use dropin.Session.{
  Session, Run, lift, gets, ask, call, transaction, rolled_back, ◌>>=◌, ◌>>◌, write, commit,
  discard_export, keep_export,
}
use dropin.Session.Triple.{
  Ends, Triple, Triple-lift, Triple-bind, Triple-ask, Triple-call, Triple-write, Triple-commit,
  Triple-discard, Triple-keep,
}
use dropin.Store.{Store}

module _ {W A B : Type 0} {P : Store → Type 0} {R : B → Store → Type 0}
    {X : Exn → Store → Type 0} where
  -- A read of the session.
  pub Triple-read :
      (g : Session W → A) (f : A → Run W B)
      → ((s0 : Session W) → Triple (λ db. P db × (db ≡ s0.db)) (f (g s0)) R X)
      → Triple P (gets g >>= f) R X
  unfolding gets ◌>>=◌
  Triple-read g f t = record { at = λ s p. (t s).at s (p, refl) }

  -- A read of which the rest does not need to know.
  pub Triple-peek :
      (g : Session W → A) (f : A → Run W B)
      → ((a : A) → Triple P (f a) R X)
      → Triple P (gets g >>= f) R X
  unfolding gets ◌>>=◌
  Triple-peek g f t = record { at = λ s p. (t (g s)).at s p }

  pub Triple-asked :
      (g : W → A × W) (f : A → Run W B)
      → ((a : A) → Triple P (f a) R X)
      → Triple P (ask g >>= f) R X
  Triple-asked g f t = Triple-bind (Triple-ask g (λ a db p. p)) t

  pub Triple-called :
      (g : W → Raises A × W) (f : A → Run W B)
      → ((x : Exn) (db : Store) → P db → X x db)
      → ((a : A) → Triple P (f a) R X)
      → Triple P (call g >>= f) R X
  Triple-called g f k t = Triple-bind (Triple-call g (λ a db p. p) k) t

  -- A value that was computed before, or its error.
  pub Triple-lifted :
      (r : Raises A) (f : A → Run W B)
      → ((x : Exn) (db : Store) → P db → X x db)
      → ((a : A) → r ≡ ok a → Triple P (f a) R X)
      → Triple P (lift r >>= f) R X
  unfolding lift ◌>>=◌
  Triple-lifted r f k t = go r refl
    where
      go : (r' : Raises A) → r ≡ r' → Triple P (lift r' >>= f) R X
      go (ok a) e = record { at = λ s p. (t a e).at s p }
      go (err x) e = record { at = λ s p. k x s.db p }

module _ {W B : Type 0} {P P' : Store → Type 0} {R : B → Store → Type 0} {X : Exn → Store → Type 0}
    {m : Run W B} where
  pub Triple-written :
      (f : Store → Store)
      → ((db : Store) → P db → P' (f db))
      → Triple P' m R X
      → Triple P (write f >> m) R X
  Triple-written f h t = Triple-bind (Triple-write f h) (λ _. t)

  pub Triple-committed :
      (f : Store → Raises Store)
      → ((x : Exn) (db : Store) → P db → X x db)
      → ((db db' : Store) → P db → f db ≡ ok db' → P' db')
      → Triple P' m R X
      → Triple P (commit f >> m) R X
  Triple-committed f k h t = Triple-bind (Triple-commit f h (λ x db p e. k x db p)) (λ _. t)

module _ {W B : Type 0} {P : Store → Type 0} {R : B → Store → Type 0} {X : Exn → Store → Type 0}
    {m : Run W B} where
  pub Triple-discarded : (path : Text) → Triple P m R X → Triple P (discard_export path >> m) R X
  Triple-discarded path t = Triple-bind (Triple-discard path (λ db p. p)) (λ _. t)

  pub Triple-kept : (path : Text) → Triple P m R X → Triple P (keep_export path >> m) R X
  Triple-kept path t = Triple-bind (Triple-keep path (λ db p. p)) (λ _. t)

module _ {A : Type 0} {P : Store → Type 0} {X : Exn → Store → Type 0} where
  Ends-same :
      (r : Raises A) (db : Store)
      → P db
      → ((x : Exn) (db : Store) → P db → X x db)
      → Ends (λ _. P) X r db
  Ends-same (ok a) db p k = p
  Ends-same (err x) db p k = k x db p

module _ {W A : Type 0} {P : Store → Type 0} {X : Exn → Store → Type 0} where
  -- A value that was computed before leaves the store alone.
  pub Triple-lift-same :
      (r : Raises A)
      → ((x : Exn) (db : Store) → P db → X x db)
      → Triple {W = W} P (lift r) (λ _. P) X
  Triple-lift-same r k = Triple-lift r (λ db p. Ends-same r db p k)

module _ {W A : Type 0} {P : Store → Type 0} {Q : A → Store → Type 0}
    {X : Exn → Store → Type 0} where
  -- A raise in a transaction leaves the store as it was.
  pub Triple-transaction :
      (m : Run W A)
      → Triple P m Q (λ x db. Unit {0})
      → ((x : Exn) (db : Store) → P db → X x db)
      → Triple P (transaction m) Q X
  unfolding transaction
  Triple-transaction m t k = record { at = λ s p. go (m s).0 (m s).1 s (t.at s p) p }
    where
      go :
          (r : Raises A) (s1 s : Session W)
          → Ends Q (λ x db. Unit {0}) r s1.db
          → P s.db
          → Ends Q X r (rolled_back r s.db s1).db
      go (ok a) s1 s e p = e
      go (err x) s1 s e p = k x s.db p

module _ {W B : Type 0} {P : Store → Type 0} {R : B → Store → Type 0}
    {X : Exn → Store → Type 0} where
  -- A read of the store whose answer is known.
  pub Triple-known :
      {A : Type 0} (g : Store → A) (f : A → Run W B) (v : A)
      → ((db : Store) → P db → g db ≡ v)
      → Triple P (f v) R X
      → Triple P (gets (λ s. s.db) >>= λ db. f (g db)) R X
  unfolding gets ◌>>=◌
  Triple-known g f v k t = record { at = λ s p. rw (k s.db p) (t.at s p) }

  -- A value that is known to be another.
  pub Triple-same :
      {A : Type 0} (f : A → Run W B) (a b : A)
      → Triple P (f a) R X
      → Triple (λ db. P db × (b ≡ a)) (f b) R X
  Triple-same f a b t = record { at = λ s p. rw p.1 (t.at s p.0) }

  pub Triple-if :
      (b : Bool) (m n : Run W B)
      → Triple P m R X
      → Triple P n R X
      → Triple P (if b then m else n) R X
  Triple-if true m n t u = t
  Triple-if false m n t u = u
