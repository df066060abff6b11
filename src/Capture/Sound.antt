-- ===== src/Capture/Sound.antt =====
-- What dropin/spool/scan.py and dropin/spool/admission.py let through.
use dropin.Prelude.{
  ℕ, zero, suc, ◌≡◌, ◌≢◌, ◌∙◌, ◌≤◌, ◌+◌, refl, Bool, true, false, not, ◌&&◌, ◌||◌, none, some, List,
  [], ◌∷◌, Text, text_eq, text_eq_sound, text_lt, any, any-sort_by, filter_by, starts_with, codes,
  if◌then◌else◌, Bool-cases, inl, inr, ok, arith,
}
use dropin.Capture.{same_walk}
use dropin.Capture.Admission.{
  admit, first_sample, second_sample, unread, is_young, newest_mtime, pause,
}
use dropin.Capture.Scan.{scan, ignored}
use dropin.Errors.{Exn}
use dropin.Session.{Env, Session, pure, raise, ask, gets, ◌>>=◌, ◌>>◌}
use dropin.Spool.Walk.{WalkEntry, Walked, walk}

any-filter_by :
    (name : Text) (names : List Text)
    → any (text_eq name) (filter_by (λ n. not (ignored n)) names)
      ≡ (any (text_eq name) names && not (ignored name))
any-filter_by name [] = refl
any-filter_by name (n ∷ rest) = elim (Bool-cases (text_eq name n)) [
  | inl e ↦ ground (arith, e, text_eq_sound name n e, any-filter_by name rest)
  | inr e ↦ ground (arith, e, any-filter_by name rest)
]

ignored_names :
    (name : Text)
    → not (ignored name) ≡ (
        not (text_eq name (codes ".DS_Store"))
        && (not (text_eq name (codes ".localized")) && not (starts_with name (codes ".dropin-"))))
unfolding ignored
ignored_names name =
    table (text_eq name (codes ".DS_Store")) (text_eq name (codes ".localized"))
      (starts_with name (codes ".dropin-"))
  where
    table : (a b c : Bool) → not ((a || (b || false)) || (c || false)) ≡ (not a && (not b && not c))
    table true b c = refl
    table false true c = refl
    table false false true = refl
    table false false false = refl

-- A name is scanned exactly if the drop folder lists it, it is neither `.DS_Store` nor
-- `.localized`, and it does not begin with `.dropin-`.
pub scan_iff :
    (name : Text) (names : List Text)
    → any (text_eq name) (scan (some names)) ≡ (
        any (text_eq name) names
        && (not (text_eq name (codes ".DS_Store"))
            && (not (text_eq name (codes ".localized"))
                && not (starts_with name (codes ".dropin-")))))
unfolding scan
scan_iff name names =
    any-sort_by text_lt (text_eq name) (filter_by (λ n. not (ignored n)) names)
    ∙ any-filter_by name names
    ∙ ground (arith, ignored_names name)

module _ {W : Type 0} (e : Env W) where
  unread-false : (x : Exn) (s : Session W) → (unread e x s).0 ≢ ok true
  unfolding pure raise
  unread-false x s h = ground (arith, h)

  -- A walk that starts in a world and ends by itself.
  abbrev pub Walks : Text → W → List WalkEntry → Type 0
  Walks path w entries = walk (e.tree path w).0 ≡ (entries, none)

  second_sample_sound :
      (first : List WalkEntry) (w : Walked) (s : Session W)
      → (second_sample e first w s).0 ≡ ok true
      → (second : List WalkEntry) × (w ≡ (second, none)) × (same_walk first second ≡ true)
  unfolding pure
  second_sample_sound first (second, none) s h = (second, refl, ground (arith, h))
  second_sample_sound first (second, some x) s h = absurd (unread-false x s h)

  -- The walk after the pause sees the same.
  abbrev Again : Text → ℕ → Session W → List WalkEntry → Type 0
  Again path gap s first =
      (second : List WalkEntry) × Walks path (pause e gap s).1.world second
      × (same_walk first second ≡ true)

  first_sample_sound :
      (path : Text) (settle gap : ℕ) (w : Walked) (s : Session W)
      → (first_sample e path settle gap w s).0 ≡ ok true
      → (first : List WalkEntry) × (w ≡ (first, none))
        × (first ≢ [])
        × (is_young (e.clock s.world) settle first ≡ false)
        × Again path gap s first
  unfolding pure ask gets ◌>>=◌ raise
  first_sample_sound path settle gap (_, some x) s h = absurd (unread-false x s h)
  first_sample_sound path settle gap ([], none) s h = cc
  first_sample_sound path settle gap (x ∷ rest, none) s h =
      go (is_young (e.clock s.world) settle (x ∷ rest)) refl gap h
    where
      after :
          (s1 : Session W)
          → (second_sample e
              (x ∷ rest)
              (walk (e.tree path s1.world).0)
              (record s1 { world = (e.tree path s1.world).1 })).0
            ≡ ok true
          → (second : List WalkEntry) × Walks path s1.world second
            × (same_walk (x ∷ rest) second ≡ true)
      after s1 h1 =
          let second = second_sample_sound (x ∷ rest) (walk (e.tree path s1.world).0) _ h1 in
          (second.0, second.1, second.2)

      go :
          (b : Bool)
          → is_young (e.clock s.world) settle (x ∷ rest) ≡ b
          → (gap : ℕ)
          → ((if b then pure false else (do
            pause e gap
            tree ← ask (e.tree path)
            second_sample e (x ∷ rest) (walk tree)))
              s).0
            ≡ ok true
          → (first : List WalkEntry) × (◌≡◌ {A = Walked} (x ∷ rest, none) (first, none))
            × (first ≢ [])
            × (is_young (e.clock s.world) settle first ≡ false)
            × Again path gap s first
      go true y g k = cc
      go false y zero k = (x ∷ rest, refl, (λ q. cc), y, after s k)
      go false y (suc g) k = (x ∷ rest, refl, (λ q. cc), y, after _ k)

  old_enough :
      (n settle : ℕ) (entries : List WalkEntry)
      → is_young n settle entries ≡ false
      → newest_mtime entries + settle ≤ n
  unfolding is_young
  old_enough n settle entries h = ground (arith, h)

  -- Two walks that agree, a pause between them, and the first long after the last change.
  abbrev pub IsQuiet : Text → ℕ → ℕ → Session W → Type 0
  IsQuiet path settle gap s =
      (first : List WalkEntry) × Walks path s.world first
      × (first ≢ [])
      × (newest_mtime first + settle ≤ e.clock (e.tree path s.world).1)
      × ((second : List WalkEntry) × Walks path
            (pause e gap (record s { world = (e.tree path s.world).1 })).1.world second
          × (same_walk first second ≡ true))

  -- If an item is admitted, then the walk that starts at once ended by itself and saw something, of
  -- which nothing was modified later than the settle window before the time of the clock in the
  -- world that this walk left; and the walk that starts in the world after the pause that follows
  -- it ended by itself and saw the same.
  pub admit_sound :
      (path : Text) (settle gap : ℕ) (s : Session W)
      → (admit e path settle gap s).0 ≡ ok true
      → IsQuiet path settle gap s
  unfolding admit ask ◌>>=◌
  admit_sound path settle gap s h =
      let sample = first_sample_sound path settle gap (walk (e.tree path s.world).0) _ h in
      (sample.0, sample.1, sample.2, old_enough _ settle sample.0 sample.3, sample.4)
