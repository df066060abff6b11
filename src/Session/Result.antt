-- ===== src/Session/Result.antt =====
-- What the parts of an action that returned a result returned.
use dropin.Prelude.{◌≡◌, refl, ok, err}
use dropin.Errors.{Raises}
use dropin.Session.{Session, Run, pure, call, continue, ◌>>=◌}

module _ {W A B : Type 0} where
  -- The first part of a chain that returned a result, and the rest.
  pub bind-ok :
      (m : Run W A) (f : A → Run W B) (s : Session W) (b : B)
      → ((m >>= f) s).0 ≡ ok b
      → (a : A) × ((m s).0 ≡ ok a) × ((f a (m s).1).0 ≡ ok b)
  unfolding ◌>>=◌
  bind-ok m f s b h = go (m s).0 refl h
    where
      go :
          (r : Raises A)
          → (m s).0 ≡ r
          → (continue r f (m s).1).0 ≡ ok b
          → (a : A) × ((m s).0 ≡ ok a) × ((f a (m s).1).0 ≡ ok b)
      go (ok a) e h = (a, e, h)
      go (err x) e h = cc

module _ {W A : Type 0} where
  pub pure-ok : (s : Session W) (a b : A) → (pure a s).0 ≡ ok b → a ≡ b
  unfolding pure
  pure-ok s a b h = cc

  pub call-ok :
      (f : W → Raises A × W) (s : Session W) (a : A) → (call f s).0 ≡ ok a → (f s.world).0 ≡ ok a
  unfolding call
  call-ok f s a h = h
