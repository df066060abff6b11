-- ===== src/Drain/Passes.antt =====
-- dropin/pipeline/drain.py: which occurrence an item of the drop folder is, and the pass over the
-- eviction intents.
use dropin.Prelude.{
  ℕ, Bool, true, false, not, ◌&&◌, ◌||◌, Option, none, some, List, [], ◌∷◌, Text, text_eq, text_lt,
  filter_by, find_by, any, ltb, sort_by, ◌==◌, if◌then◌else◌, ok,
}
use dropin.Attempts.{store}
use dropin.Drain.Base.{Settings}
use dropin.Drain.Advance.{advance}
use dropin.Session.{Env, Run, pure, gets, ◌>>=◌, ◌>>◌}
use dropin.States.{State}
use dropin.Store.{Store, Occurrence, Intent}
use dropin.Store.Records.{occ_is}

-- `ACTIVE_STATES`
abbrev pub is_active : State → Bool
is_active State.evicted = false
is_active State.abandoned = false
is_active _ = true

abbrev time_of : Option ℕ → ℕ
time_of none = 0
time_of (some t) = t

-- `ORDER BY recorded_at DESC, occ_id DESC`
abbrev recorded_after : Occurrence → Occurrence → Bool
recorded_after a b =
    ltb (time_of b.recorded_at) (time_of a.recorded_at)
    || (time_of a.recorded_at == time_of b.recorded_at && text_lt b.occ_id a.occ_id)

abbrev newer : Occurrence → Option Occurrence → Option Occurrence
newer a none = some a
newer a (some b) = if recorded_after b a then some b else some a

-- `_active_occurrence`, on the rows
unfoldable pub active_occurrence : Text → List Occurrence → Option Occurrence
active_occurrence spool_path [] = none
active_occurrence spool_path (a ∷ rest) =
    let later : Option Occurrence = active_occurrence spool_path rest in
    if text_eq spool_path a.spool_path && is_active a.state then newer a later else later

-- `ORDER BY o.item_name, o.occ_id`
abbrev named_before : Occurrence → Occurrence → Bool
named_before a b =
    text_lt a.item_name b.item_name
    || (text_eq a.item_name b.item_name && text_lt a.occ_id b.occ_id)

abbrev add_found : Option Occurrence → List Occurrence → List Occurrence
add_found none rows = rows
add_found (some o) rows = o ∷ rows

-- The intents, joined to their occurrences.
unfoldable pub joined_rows : Store → List Intent → List Occurrence
joined_rows db [] = []
joined_rows db (i ∷ is) = add_found (find_by (occ_is i.occ_id) db.occurrences) (joined_rows db is)

unfoldable pub intended : Store → List Intent → List Occurrence
unfolding joined_rows sort_by
intended db is = sort_by named_before (joined_rows db is)

abbrev is_evicting : State → Bool
is_evicting State.evicting = true
is_evicting _ = false

-- The rows that `_intent_pass` takes up.
unfoldable pub pending_intents : List Text → Store → List Occurrence
pending_intents visited db =
    filter_by (λ o. not (any (text_eq o.occ_id) visited) && is_evicting o.state)
      (intended db db.intents)

module _ {W : Type 0} (e : Env W) (c : Settings) (fuel : ℕ) where
  -- `self.visited.add`
  unfoldable pub visit : Text → Run W (Unit {0})
  visit occ_id s = (ok tt, record s { visited = occ_id ∷ s.visited })

  unfoldable pub resume_removals : List Occurrence → Run W (Unit {0})
  resume_removals [] = pure tt
  resume_removals (o ∷ rest) = do
    visit o.occ_id
    advance e c fuel o.occ_id o.spool_path o.item_name
    resume_removals rest

  -- `_intent_pass`
  unfoldable pub intent_pass : Run W (Unit {0})
  intent_pass = do
    db ← store e
    visited ← gets (λ s. s.visited)
    resume_removals (pending_intents visited db)
