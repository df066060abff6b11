-- ===== src/Capture/Scan.antt =====
-- dropin/spool/scan.py: the items of the drop folder. A name is its bytes.
use dropin.Prelude.{
  Bool, not, ◌||◌, Option, none, some, List, [], ◌∷◌, Text, codes, text_eq, text_lt, starts_with,
  any, filter_by, sort_by,
}

-- `IGNORED_EXACT`
abbrev pub ignored_exact : List Text
ignored_exact = codes ".DS_Store" ∷ codes ".localized" ∷ []

-- `IGNORED_PREFIXES`
abbrev pub ignored_prefixes : List Text
ignored_prefixes = codes ".dropin-" ∷ []

-- `_ignored`
unfoldable pub ignored : Text → Bool
ignored name = any (text_eq name) ignored_exact || any (starts_with name) ignored_prefixes

-- The names that `scan` yields; `none` is a folder that is not there.
unfoldable pub scan : Option (List Text) → List Text
unfolding sort_by ignored
scan none = []
scan (some names) = sort_by text_lt (filter_by (λ name. not (ignored name)) names)
