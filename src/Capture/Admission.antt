-- ===== src/Capture/Admission.antt =====
-- dropin/spool/admission.py: whether an item is quiet enough to be looked at. Times are
-- nanoseconds.
use Prim.Native.Nat.{max}
use dropin.Prelude.{
  ℕ, zero, suc, ◌+◌, Bool, true, false, none, some, List, [], ◌∷◌, Text, ltb, if◌then◌else◌,
}
use dropin.Attempts.{time_now}
use dropin.Capture.{same_walk}
use dropin.Errors.{Exn, special, os_error}
use dropin.Session.{Env, Run, pure, raise, ask, ◌>>=◌, ◌>>◌}
use dropin.Spool.Walk.{WalkEntry, Walked, walk}

-- The exceptions that mean "not yet".
abbrev pub is_unreadable : Exn → Bool
is_unreadable (special p t) = true
is_unreadable (os_error m) = true
is_unreadable _ = false

-- `max` of the times of modification
unfoldable pub newest_mtime : List WalkEntry → ℕ
newest_mtime [] = 0
newest_mtime (w ∷ rest) = max w.mtime_ns (newest_mtime rest)

-- `now() - newest / 1e9 < settle_seconds`, in nanoseconds
unfoldable pub is_young : ℕ → ℕ → List WalkEntry → Bool
unfolding newest_mtime
is_young n settle entries = ltb n (newest_mtime entries + settle)

module _ {W : Type 0} (e : Env W) where
  abbrev pub pause : ℕ → Run W (Unit {0})
  pause zero = pure tt
  pause (suc n) = ask (e.sleep (suc n))

  abbrev pub unread : Exn → Run W Bool
  unread x = if is_unreadable x then pure false else raise x

  abbrev pub second_sample : List WalkEntry → Walked → Run W Bool
  second_sample first (second, none) = pure (same_walk first second)
  second_sample first (second, some x) = unread x

  abbrev pub first_sample : Text → ℕ → ℕ → Walked → Run W Bool
  first_sample path settle gap (_, some x) = unread x
  first_sample path settle gap ([], none) = pure false
  first_sample path settle gap (w ∷ rest, none) = do
    n ← time_now e
    (if is_young n settle (w ∷ rest)
        then pure false
        else (do pause gap; tree ← ask (e.tree path); second_sample (w ∷ rest) (walk tree)))

  -- `admit`
  unfoldable pub admit : Text → ℕ → ℕ → Run W Bool
  unfolding walk is_young same_walk
  admit path settle gap = do tree ← ask (e.tree path); first_sample path settle gap (walk tree)
