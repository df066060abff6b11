-- ===== src/States.antt =====
-- dropin/pipeline/states.py: the states of an occurrence and the permitted transitions.
pub mod Reach
use dropin.Prelude.{
  ℕ, suc, Bool, true, false, Option, none, some, List, [], ◌∷◌, any, ltb, if◌then◌else◌,
}

pub data State : Type 0 where
  recorded transferred verified recoverable evicting evicted abandoned : State

-- The index of a state in its declaration, by which states are compared.
abbrev pub index : State → ℕ
index recorded = 0
index transferred = 1
index verified = 2
index recoverable = 3
index evicting = 4
index evicted = 5
index abandoned = 6

-- `==` on the enumeration
abbrev pub state_eq : State → State → Bool
state_eq recorded recorded = true
state_eq transferred transferred = true
state_eq verified verified = true
state_eq recoverable recoverable = true
state_eq evicting evicting = true
state_eq evicted evicted = true
state_eq abandoned abandoned = true
state_eq _ _ = false

-- `ORDER`: the pipeline, without `abandoned`
abbrev pub order : List State
order = recorded ∷ transferred ∷ verified ∷ recoverable ∷ evicting ∷ evicted ∷ []

-- `ALLOWED`
abbrev pub allowed : State → List State
allowed recorded = transferred ∷ abandoned ∷ []
allowed transferred = verified ∷ recorded ∷ abandoned ∷ []
allowed verified = recoverable ∷ recorded ∷ abandoned ∷ []
allowed recoverable = evicting ∷ abandoned ∷ []
allowed evicting = evicted ∷ []
allowed evicted = []
allowed abandoned = []

abbrev pub can_transition : State → State → Bool
can_transition current target = any (state_eq target) (allowed current)

-- `ORDER.index`; `none` is the `ValueError`
abbrev pub order_index : State → List State → Option ℕ
order_index s [] = none
order_index s (t ∷ ts) =
    if state_eq s t then some 0 else elim (order_index s ts) [ none ↦ none | some n ↦ some (suc n) ]

abbrev both_ranks : Option ℕ → Option ℕ → Option Bool
both_ranks (some a) (some b) = some (ltb a b)
both_ranks _ _ = none

-- `none` is the `ValueError` for `abandoned`
abbrev pub is_before : State → State → Option Bool
is_before earlier later = both_ranks (order_index earlier order) (order_index later order)
