-- ===== src/Prelude/Lists.antt =====
-- Lists over the native numbers, and Boolean filters, searches and quantifiers.
use Prim.Native.Nat.{ℕ, zero, suc, ◌+◌}
use mathlib.Core.Path.{◌≡◌, refl}
use mathlib.Core.Bool.{Bool, true, false, ◌&&◌, ◌||◌}
use mathlib.Core.Option.{Option, none, some}
use mathlib.Core.List.{List, [], ◌∷◌, ◌++◌}
use native.Mathlib.Omega.{arith}
use dropin.Prelude.Tests.{if◌then◌else◌}

module _ {ℓ} {A : Type ℓ} where
  abbrev pub length : List A → ℕ
  length [] = 0
  length (x ∷ xs) = suc (length xs)

  abbrev pub drop : ℕ → List A → List A
  drop zero xs = xs
  drop (suc n) [] = []
  drop (suc n) (x ∷ xs) = drop n xs

  -- The items that pass a Boolean test, in order.
  abbrev pub filter_by : (A → Bool) → List A → List A
  filter_by p [] = []
  filter_by p (x ∷ xs) = if p x then x ∷ filter_by p xs else filter_by p xs

  -- The first item that passes a Boolean test.
  abbrev pub find_by : (A → Bool) → List A → Option A
  find_by p [] = none
  find_by p (x ∷ xs) = if p x then some x else find_by p xs

  abbrev pub any : (A → Bool) → List A → Bool
  any p [] = false
  any p (x ∷ xs) = p x || any p xs

  abbrev pub all : (A → Bool) → List A → Bool
  all p [] = true
  all p (x ∷ xs) = p x && all p xs

  pub length-append : (xs ys : List A) → length (xs ++ ys) ≡ length xs + length ys
  length-append [] ys = omega arith
  length-append (x ∷ xs) ys = omega (arith, length-append xs ys)

  pub drop-append : (xs ys : List A) → drop (length xs) (xs ++ ys) ≡ ys
  drop-append [] ys = refl
  drop-append (x ∷ xs) ys = drop-append xs ys

  pub filter_by-append :
      (p : A → Bool) (xs ys : List A) → filter_by p (xs ++ ys) ≡ filter_by p xs ++ filter_by p ys
  filter_by-append p [] ys = refl
  filter_by-append p (x ∷ xs) ys = ground (arith, filter_by-append p xs ys)

  pub any-append : (p : A → Bool) (xs ys : List A) → any p (xs ++ ys) ≡ any p xs || any p ys
  any-append p [] ys = refl
  any-append p (x ∷ xs) ys = ground (arith, any-append p xs ys)

  pub find_by_holds : (p : A → Bool) (xs : List A) (x : A) → find_by p xs ≡ some x → p x ≡ true
  find_by_holds p [] x h = cc
  find_by_holds p (y ∷ xs) x h = ground (arith, find_by_holds p xs x)

  pub find_by-none : (p : A → Bool) (xs : List A) → find_by p xs ≡ none → any p xs ≡ false
  find_by-none p [] h = refl
  find_by-none p (y ∷ xs) h = ground (arith, find_by-none p xs)

  pub find_by-one :
      (p : A → Bool) (xs : List A) (x : A) → filter_by p xs ≡ x ∷ [] → find_by p xs ≡ some x
  find_by-one p [] x h = cc
  find_by-one p (y ∷ xs) x h = ground (arith, h, find_by-one p xs x)

  -- A predicate that holds of every item, by recursion.
  abbrev pub All {κ} : (A → Type κ) → List A → Type κ
  All P [] = Unit
  All P (x ∷ xs) = P x × All P xs

  pub All-map {κ η} :
      {P : A → Type κ} {Q : A → Type η} (f : (x : A) → P x → Q x) (xs : List A)
      → All P xs
      → All Q xs
  All-map f [] h = tt
  All-map f (x ∷ xs) h = (f x h.0, All-map f xs h.1)

-- Python's `sorted` is stable: an item goes before those that do not come before it.
module _ {ℓ} {A : Type ℓ} (before : A → A → Bool) where
  unfoldable pub insert_by : A → List A → List A
  insert_by x [] = x ∷ []
  insert_by x (y ∷ ys) = let rest = insert_by x ys in if before y x then y ∷ rest else x ∷ y ∷ ys

  unfoldable pub sort_by : List A → List A
  sort_by [] = []
  sort_by (x ∷ xs) = insert_by x (sort_by xs)

  any-insert_by : (p : A → Bool) (x : A) (xs : List A) → any p (insert_by x xs) ≡ p x || any p xs
  unfolding insert_by
  any-insert_by p x [] = refl
  any-insert_by p x (y ∷ ys) = ground (arith, any-insert_by p x ys)

  -- Sorting keeps the items.
  pub any-sort_by : (p : A → Bool) (xs : List A) → any p (sort_by xs) ≡ any p xs
  unfolding sort_by
  any-sort_by p [] = refl
  any-sort_by p (x ∷ xs) = ground (arith, any-insert_by p x (sort_by xs), any-sort_by p xs)

  filter-insert_by-none :
      (p : A → Bool) (x : A) (ys : List A)
      → p x ≡ false
      → filter_by p (insert_by x ys) ≡ filter_by p ys
  unfolding insert_by
  filter-insert_by-none p x [] h = rw h refl
  filter-insert_by-none p x (y ∷ ys) h = ground (arith, h, filter-insert_by-none p x ys h)

  filter-insert_by-one :
      (p : A → Bool) (x : A) (ys : List A)
      → p x ≡ true
      → filter_by p ys ≡ []
      → filter_by p (insert_by x ys) ≡ x ∷ []
  unfolding insert_by
  filter-insert_by-one p x [] h n = rw h refl
  filter-insert_by-one p x (y ∷ ys) h n = ground (arith, h, n, filter-insert_by-one p x ys h)

  filter-sort_by-none :
      (p : A → Bool) (xs : List A) → filter_by p xs ≡ [] → filter_by p (sort_by xs) ≡ []
  unfolding sort_by
  filter-sort_by-none p [] n = refl
  filter-sort_by-none p (x ∷ xs) n =
      ground (arith, n, filter-insert_by-none p x (sort_by xs), filter-sort_by-none p xs)

  All-insert_by {κ} :
      (P : A → Type κ) (x : A) (ys : List A) → P x → All P ys → All P (insert_by x ys)
  unfolding insert_by
  All-insert_by P x [] h k = (h, tt)
  All-insert_by P x (y ∷ ys) h k = go (before y x) (All-insert_by P x ys h k.1)
    where
      go :
          (b : Bool) → All P (insert_by x ys) → All P (if b then y ∷ insert_by x ys else x ∷ y ∷ ys)
      go true r = (k.0, r)
      go false r = (h, k)

  -- Sorting keeps what holds of every item.
  pub All-sort_by {κ} : (P : A → Type κ) (xs : List A) → All P xs → All P (sort_by xs)
  unfolding sort_by
  All-sort_by P [] h = tt
  All-sort_by P (x ∷ xs) h = All-insert_by P x (sort_by xs) h.0 (All-sort_by P xs h.1)

  -- Sorting keeps the one item that passes a test.
  pub filter-sort_by-one :
      (p : A → Bool) (xs : List A) (x : A)
      → filter_by p xs ≡ x ∷ []
      → filter_by p (sort_by xs) ≡ x ∷ []
  unfolding sort_by
  filter-sort_by-one p [] x h = cc
  filter-sort_by-one p (y ∷ xs) x h = ground (
    arith,
    h,
    filter-insert_by-none p y (sort_by xs),
    filter-insert_by-one p y (sort_by xs),
    filter-sort_by-none p xs,
    filter-sort_by-one p xs x,
  )

-- The first of the greatest items, as Python's `max` picks it.
module _ {ℓ} {A : Type ℓ} (below : A → A → Bool) where
  unfoldable pub max_from : A → List A → A
  max_from x [] = x
  max_from x (y ∷ ys) = max_from (if below x y then y else x) ys
