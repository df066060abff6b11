-- ===== src/Examples/Tags.antt =====
-- The tags of a snapshot at a concrete identity.
use dropin.Engine.Tags.{is_in}
use dropin.Engine.Tags.Pattern.{store_id_re, identifier_re, sha256_re}
use mathlib.Core.Path.{subst}
use dropin.Prelude.{
  sym, some, err, Option, Result, none, false, text_eq, starts_with, strip_prefix, arith, ◌≡◌, refl,
  List, [], ◌∷◌, ◌++◌, Text, codes, All, ok,
}
use dropin.Engine.Tags.{TagError, Identity, to_tags, parse_tags}
use dropin.Gates.Frontier.{Refusal, check_frontier, check_snapshots, check_parsed, check_identity}
use dropin.Gates.Frontier.Known.{IsPlaced, assess_frontier_sound}
use dropin.Gates.Repository.{Snapshot}
use dropin.Store.{Store}
use dropin.Store.Records.{merged_through}
use dropin.Engine.Tags.RoundTrip.{
  IsCanonical, parse_tags-to_tags, parse_tags-line_feed, line_feed_tags, IsForeign,
}
use dropin.Engine.Tags.Strict.{parse_tags_sound, IsAccepted, IsCarried}

abbrev store_id : Text
store_id = codes "0123456789abcdef0123456789abcdef"

abbrev identity : Identity
identity = record {
  store_id = store_id;
  occ_id = store_id ++ codes ".01ARZ3NDEKTSV4RRFFQ69G5FAV";
  attempt_id = store_id ++ codes ".01BX5ZZKBKACTAV9WEVGEMMVRZ";
  export_seq = 27;
  kind = codes "file";
  catalog_sha256 = store_id ++ store_id;
  version = codes "1";
}

identity-IsCanonical : IsCanonical identity
unfolding store_id_re is_in sha256_re identifier_re starts_with
identity-IsCanonical = record {
  version = refl;
  store = refl;
  kind = refl;
  digest = refl;
  seq_pos = omega arith;
  seq_max = omega arith;
  occ = refl;
  occ_store = refl;
  attempt = refl;
  attempt_store = refl;
}

abbrev extra : List Text
extra = codes "host:laptop" ∷ []

extra-IsForeign : All IsForeign extra
unfolding strip_prefix
extra-IsForeign = (refl, tt)

parse_tags-to_tags_example : parse_tags (extra ++ to_tags identity) ≡ ok identity
parse_tags-to_tags_example = parse_tags-to_tags identity extra identity-IsCanonical extra-IsForeign

parse_tags-line_feed_example : parse_tags (line_feed_tags identity) ≡ parse_tags (to_tags identity)
parse_tags-line_feed_example = parse_tags-line_feed identity identity-IsCanonical

parse_tags_sound_example : IsAccepted identity × IsCarried (extra ++ to_tags identity) identity
parse_tags_sound_example =
    parse_tags_sound (extra ++ to_tags identity) identity
      (parse_tags-to_tags identity extra identity-IsCanonical extra-IsForeign)

abbrev snapshot : Snapshot
snapshot = record { id = codes "n1"; time = codes "t"; paths = []; tags = to_tags identity }

abbrev merged_store : Store
merged_store = record {
  store_id = codes "s1";
  export_seq = 0;
  published_frontier = 0;
  lineage = (store_id, 30) ∷ [];
  occurrences = [];
  entries = [];
  fingerprints = [];
  attempts = [];
  snapshots = [];
  intents = [];
  events = [];
}

snapshot_parsed : parse_tags (to_tags identity) ≡ ok identity
snapshot_parsed = parse_tags-to_tags identity [] identity-IsCanonical tt

abbrev check_rest : Result TagError Identity → Result Refusal Store → Option Refusal × Store
check_rest r (ok db') = check_snapshots false merged_store.lineage (codes "s1") 7 [] db'
check_rest r (err x) = (some x, merged_store)

assessed : check_frontier false (codes "s1") 7 (snapshot ∷ []) merged_store ≡ (none, merged_store)
unfolding check_frontier check_snapshots check_parsed check_identity merged_through text_eq
assessed =
    subst
      (λ r.
        check_rest r
          (check_parsed false merged_store.lineage (codes "s1") snapshot r 7 merged_store)
        ≡ (none, merged_store))
      (sym snapshot_parsed) refl

assess_frontier_sound_example :
    All (IsPlaced merged_store (codes "s1")) (snapshot ∷ []) × (merged_store ≡ merged_store)
assess_frontier_sound_example =
    assess_frontier_sound (codes "s1") 7 (snapshot ∷ []) merged_store merged_store assessed
