-- ===== src/Recover/Base.antt =====
-- dropin/recover.py: an observed snapshot, and the choice of the base among the valid exports.
use dropin.Prelude.{
  ℕ, Bool, ◌&&◌, ◌||◌, Option, none, some, List, [], ◌∷◌, Text, text_eq, text_lt, filter_by, ltb,
  ◌==◌, max_from, codes, ok, err,
}
use dropin.Engine.Tags.{Identity}
use dropin.Errors.{Reason, Raises, value_error}
use dropin.Gates.Catalog.{CatalogFile}
use dropin.Store.{SnapshotStatus}

-- `place` is the object's identity, by which the source asks `is`.
pub record Observation : Type 0 where
  pub place : ℕ
  pub snapshot_id : Text
  pub time : Text
  pub paths : List Text
  pub tags : List Text
  pub identity : Identity
  pub export_path : Option Text
  pub dumped : Option CatalogFile
  pub valid : Bool
  pub reason : Option Reason
  pub status : SnapshotStatus

abbrev pub is_same : Observation → Observation → Bool
is_same a b = a.place == b.place

-- `(a.time, a.snapshot_id) < (b.time, b.snapshot_id)`
abbrev pub older : Observation → Observation → Bool
older a b = text_lt a.time b.time || (text_eq a.time b.time && text_lt a.snapshot_id b.snapshot_id)

abbrev pub lower : Observation → Observation → Bool
lower a b = ltb a.identity.export_seq b.identity.export_seq

abbrev pub valid_of : List Observation → List Observation
valid_of observations = filter_by (λ o. o.valid) observations

abbrev pub of_store : Text → Observation → Bool
of_store store_id o = text_eq store_id o.identity.store_id

abbrev pub newest_of : Observation → List Observation → Observation
newest_of o rest = max_from older o rest

-- `_newest`; `max` of an empty list raises `ValueError`.
unfoldable pub newest : List Observation → Raises Observation
unfolding max_from
newest [] = err (value_error (codes "max"))
newest (o ∷ rest) = ok (newest_of o rest)

abbrev pub highest : List Observation → Option Observation
highest [] = none
highest (o ∷ rest) = some (max_from lower o rest)

-- `_choose_base`
unfoldable pub choose_base : List Observation → Option Observation
unfolding max_from
choose_base observations = elim (valid_of observations) [
  | [] ↦ none
  | o ∷ rest ↦ highest (filter_by (of_store (newest_of o rest).identity.store_id) (o ∷ rest))
]
