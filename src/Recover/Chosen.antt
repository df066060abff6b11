-- ===== src/Recover/Chosen.antt =====
-- The choice of the base in dropin/recover.py.
use mathlib.Core.List.{Mem}
use mathlib.Core.Path.{subst}
use dropin.Prelude.{
  ℕ, ◌≡◌, ◌∙◌, ◌≤◌, refl, sym, All-map, text_lt, text_eq_sound, text_eq_refl, Bool, true, false,
  some, List, [], ◌∷◌, filter_by, max_from, All, if◌then◌else◌, arith,
}
use dropin.Recover.Base.{
  Observation, older, lower, valid_of, of_store, newest_of, highest, choose_base,
}
use dropin.Recover.Newest.{NotBefore, newest_of-NotBefore, filtered-Mem}

module _ {A : Type 0} where
  All-filtered :
      (P : A → Type 0) (p : A → Bool) (xs : List A)
      → ((x : A) → p x ≡ true → P x)
      → All P (filter_by p xs)
  All-filtered P p [] h = tt
  All-filtered P p (x ∷ xs) h = go (p x) refl (All-filtered P p xs h)
    where
      go :
          (b : Bool)
          → p x ≡ b
          → All P (filter_by p xs)
          → All P (if b then x ∷ filter_by p xs else filter_by p xs)
      go true e r = (h x e, r)
      go false e r = r

  -- What passes a test, and what is known before it.
  All-pass :
      (P : A → Type 0) (p : A → Bool) (xs : List A)
      → All P xs
      → All (λ x. P x × (p x ≡ true)) (filter_by p xs)
  All-pass P p [] h = tt
  All-pass P p (x ∷ xs) h = go (p x) refl (All-pass P p xs h.1)
    where
      go :
          (b : Bool)
          → p x ≡ b
          → All (λ y. P y × (p y ≡ true)) (filter_by p xs)
          → All (λ y. P y × (p y ≡ true)) (if b then x ∷ filter_by p xs else filter_by p xs)
      go true e r = ((h.0, e), r)
      go false e r = r

  All-unfiltered :
      (P : A → Type 0) (p : A → Bool) (xs : List A)
      → All P (filter_by p xs)
      → All (λ x. p x ≡ true → P x) xs
  All-unfiltered P p [] h = tt
  All-unfiltered P p (x ∷ xs) h = go (p x) refl (λ r. All-unfiltered P p xs r) h
    where
      go :
          (b : Bool)
          → p x ≡ b
          → (All P (filter_by p xs) → All (λ y. p y ≡ true → P y) xs)
          → All P (if b then x ∷ filter_by p xs else filter_by p xs)
          → (p x ≡ true → P x) × All (λ y. p y ≡ true → P y) xs
      go true e k r = (λ t. r.0, k r.1)
      go false e k r = (λ t. ground (arith, t, e), k r)

  max_from-All :
      (P : A → Type 0) (below : A → A → Bool) (xs : List A) (x : A)
      → P x
      → All P xs
      → P (max_from below x xs)
  unfolding max_from
  max_from-All P below [] x h k = h
  max_from-All P below (y ∷ ys) x h k = max_from-All P below ys _ (go (below x y)) k.1
    where
      go : (b : Bool) → P (if b then y else x)
      go true = k.0
      go false = h

-- What the two filters let through.
All-both :
    (own : Observation → Bool) (os : List Observation)
    → All (λ o. (o.valid ≡ true) × (own o ≡ true)) (filter_by own (valid_of os))
All-both own os =
    All-pass (λ o. o.valid ≡ true) own (valid_of os)
      (All-filtered (λ o. o.valid ≡ true) (λ o. o.valid) os (λ o h. h))

abbrev pub seq_of : Observation → ℕ
seq_of o = o.identity.export_seq

max_from-upper :
    (o : Observation) (os : List Observation)
    → (seq_of o ≤ seq_of (max_from lower o os))
      × All (λ q. seq_of q ≤ seq_of (max_from lower o os)) os
unfolding max_from
max_from-upper o [] = (omega arith, tt)
max_from-upper o (q ∷ os) =
    let rest = max_from-upper (if lower o q then q else o) os in
    (ground (arith, rest.0), (ground (arith, rest.0), rest.1))

-- A valid snapshot after which there is no other valid one.
abbrev pub IsNewest : List Observation → Observation → Type 0
IsNewest observations n =
    Mem n observations
    × (n.valid ≡ true)
    × All (λ o. o.valid ≡ true → text_lt n.time o.time ≡ false) observations

newest_of-IsNewest :
    (first : Observation) (rest observations : List Observation)
    → valid_of observations ≡ first ∷ rest
    → IsNewest observations (newest_of first rest)
newest_of-IsNewest first rest observations v =
    let of = subst (All (λ x. Mem x observations)) v (filtered-Mem (λ o. o.valid) observations) in
    let valid =
      subst (All (λ x. x.valid ≡ true)) v
        (All-filtered (λ o. o.valid ≡ true) (λ o. o.valid) observations (λ o h. h)) in
    (
      max_from-All (λ x. Mem x observations) older rest first of.0 of.1,
      max_from-All (λ x. x.valid ≡ true) older rest first valid.0 valid.1,
      All-unfiltered (λ o. text_lt (newest_of first rest).time o.time ≡ false) (λ o. o.valid)
          observations
          (subst (All (NotBefore (newest_of first rest))) (sym v) (newest_of-NotBefore first rest)),
    )

chosen_of :
    (first : Observation) (rest observations : List Observation) (b : Observation)
    → valid_of observations ≡ first ∷ rest
    → choose_base observations ≡ some b
    → (b.valid ≡ true)
      × (of_store (newest_of first rest).identity.store_id b ≡ true)
      × All
          (λ o.
            o.valid ≡ true
            → of_store (newest_of first rest).identity.store_id o ≡ true
            → seq_of o ≤ seq_of b)
          observations
unfolding choose_base
chosen_of first rest observations b v h =
    go (filter_by own (valid_of observations)) refl
      (subst (λ l. highest (filter_by own l) ≡ some b) (sym v) (rw (choose_base, v) at h))
      (All-both own observations)
  where
    own : Observation → Bool
    own = of_store (newest_of first rest).identity.store_id

    Best : Observation → Type 0
    Best m =
        (m.valid ≡ true)
        × (own m ≡ true)
        × All (λ o. o.valid ≡ true → own o ≡ true → seq_of o ≤ seq_of m) observations

    go :
        (os : List Observation)
        → filter_by own (valid_of observations) ≡ os
        → highest os ≡ some b
        → All (λ o. (o.valid ≡ true) × (own o ≡ true)) (filter_by own (valid_of observations))
        → Best b
    go [] e k a = cc
    go (x ∷ xs) e k a =
        let both = rw e at a in
        let is_b : max_from lower x xs ≡ b = ground (arith, k) in
        let own_b =
          max_from-All (λ o. (o.valid ≡ true) × (own o ≡ true)) lower xs x both.0 both.1 in
        subst Best is_b (
          own_b.0,
          own_b.1,
          All-unfiltered (λ o. own o ≡ true → seq_of o ≤ seq_of (max_from lower x xs))
              (λ o. o.valid) observations
              (All-unfiltered (λ o. seq_of o ≤ seq_of (max_from lower x xs)) own
                (valid_of observations)
                (subst (All (λ o. seq_of o ≤ seq_of (max_from lower x xs))) (sym e)
                  (max_from-upper x xs))),
        )

-- If a base is chosen, then it is a valid snapshot of the store of one of the valid snapshots than
-- which no valid snapshot is later, and no valid snapshot of that store has a higher sequence.
pub choose_base_sound :
    (observations : List Observation) (b : Observation)
    → choose_base observations ≡ some b
    → (b.valid ≡ true)
      × ((n : Observation) × IsNewest observations n × (n.identity.store_id ≡ b.identity.store_id))
      × All
          (λ o.
            o.valid ≡ true
            → o.identity.store_id ≡ b.identity.store_id
            → o.identity.export_seq ≤ b.identity.export_seq)
          observations
unfolding choose_base
choose_base_sound observations b h = go (valid_of observations) refl
  where
    go :
        (valid : List Observation)
        → valid_of observations ≡ valid
        → (b.valid ≡ true)
          × ((n : Observation) × IsNewest observations n
              × (n.identity.store_id ≡ b.identity.store_id))
          × All
              (λ o.
                o.valid ≡ true
                → o.identity.store_id ≡ b.identity.store_id
                → o.identity.export_seq ≤ b.identity.export_seq)
              observations
    go [] v = cc (rw (choose_base, v) at h)
    go (first ∷ rest) v =
        let best = chosen_of first rest observations b v h in
        let same : (newest_of first rest).identity.store_id ≡ b.identity.store_id =
          text_eq_sound _ _ best.1 in
        (
          best.0,
          (newest_of first rest, newest_of-IsNewest first rest observations v, same),
          All-map (λ o k valid own. k valid (of_store-own o (own ∙ sym same))) observations best.2,
        )
      where
        of_store-own :
            (o : Observation)
            → o.identity.store_id ≡ (newest_of first rest).identity.store_id
            → of_store (newest_of first rest).identity.store_id o ≡ true
        of_store-own o e = rw e (text_eq_refl (newest_of first rest).identity.store_id)
