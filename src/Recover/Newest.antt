-- ===== src/Recover/Newest.antt =====
-- `max` by time and identifier in dropin/recover.py: nothing is later than what it picks.
use mathlib.Core.List.{Mem, mem-cons_self, mem-cons_of_mem}
use dropin.Prelude.{
  ◌≡◌, refl, Bool, true, false, List, [], ◌∷◌, Text, text_eq_sound, text_lt, filter_by, max_from,
  All, All-map, if◌then◌else◌, Bool-cases, inl, inr, arith,
}
use dropin.Recover.Base.{Observation, older, newest_of}

text_lt_irrefl : (s : Text) → text_lt s s ≡ false
unfolding text_lt
text_lt_irrefl [] = refl
text_lt_irrefl (c ∷ s) = ground (arith, text_lt_irrefl s)

text_lt_asym : (s t : Text) → text_lt s t ≡ true → text_lt t s ≡ false
unfolding text_lt
text_lt_asym [] t h = refl
text_lt_asym (c ∷ s) [] h = cc
text_lt_asym (c ∷ s) (d ∷ t) h = ground (arith, h, text_lt_asym s t)

-- What is not before a text that is not before another is not before that either.
not_before_trans : (s t u : Text) → text_lt s t ≡ false → text_lt t u ≡ false → text_lt s u ≡ false
unfolding text_lt
not_before_trans s t [] h k = refl
not_before_trans [] [] (e ∷ u) h k = k
not_before_trans [] (d ∷ t) (e ∷ u) h k = cc
not_before_trans (c ∷ s) [] (e ∷ u) h k = cc
not_before_trans (c ∷ s) (d ∷ t) (e ∷ u) h k = ground (arith, h, k, not_before_trans s t u)

-- `a` is not before `b`.
abbrev pub NotBefore : Observation → Observation → Type 0
NotBefore a b = text_lt a.time b.time ≡ false

pick-NotBefore :
    (x y : Observation) (b : Bool)
    → older x y ≡ b
    → NotBefore (if b then y else x) x × NotBefore (if b then y else x) y
pick-NotBefore x y true h = (
  elim (Bool-cases (text_lt x.time y.time)) [
    | inl e ↦ text_lt_asym x.time y.time e
    | inr e ↦ rw (text_eq_sound x.time y.time (ground (arith, e, h))) (text_lt_irrefl y.time)
  ],
  text_lt_irrefl y.time,
)
pick-NotBefore x y false h = (text_lt_irrefl x.time, ground (arith, h))

pub newest_of-NotBefore :
    (x : Observation) (rest : List Observation)
    → NotBefore (newest_of x rest) x × All (NotBefore (newest_of x rest)) rest
unfolding max_from
newest_of-NotBefore x [] = (text_lt_irrefl x.time, tt)
newest_of-NotBefore x (y ∷ ys) =
    let p : Observation = if older x y then y else x in
    let rest = newest_of-NotBefore p ys in
    let pick = pick-NotBefore x y (older x y) refl in
    (
      not_before_trans (newest_of p ys).time p.time x.time rest.0 pick.0,
      (not_before_trans (newest_of p ys).time p.time y.time rest.0 pick.1, rest.1),
    )

-- What a filter keeps is of the list.
pub filtered-Mem :
    (p : Observation → Bool) (xs : List Observation) → All (λ x. Mem x xs) (filter_by p xs)
filtered-Mem p [] = tt
filtered-Mem p (x ∷ xs) =
    go (p x) (All-map (λ y m. mem-cons_of_mem x m) (filter_by p xs) (filtered-Mem p xs))
  where
    go :
        (b : Bool)
        → All (λ y. Mem y (x ∷ xs)) (filter_by p xs)
        → All (λ y. Mem y (x ∷ xs)) (if b then x ∷ filter_by p xs else filter_by p xs)
    go true r = (mem-cons_self, r)
    go false r = r
