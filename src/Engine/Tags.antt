-- ===== src/Engine/Tags.antt =====
-- dropin/engine/interface.py: the seven reserved tags, printed and strictly parsed.
pub mod Decimal
pub mod Pattern
pub mod RoundTrip
pub mod Strict
use dropin.Prelude.{
  ℕ, ◌-◌, ◌^◌, ◌++◌, Bool, true, false, not, Option, none, some, List, [], ◌∷◌, Text, codes,
  text_eq, strip_prefix, starts_with, any, filter_by, ltb, leb, ◌==◌, if◌then◌else◌, Result, ok,
  err, require,
}
use Decimal.{str, read_int, digit_count}
use Pattern.{store_id_re, identifier_re, seq_re, sha256_re}

pub record Identity : Type 0 where
  pub store_id : Text
  pub occ_id : Text
  pub attempt_id : Text
  pub export_seq : ℕ
  pub kind : Text
  pub catalog_sha256 : Text
  pub version : Text

-- `TAG_PREFIX`
abbrev pub tag_prefix : Text
tag_prefix = codes "dropin:"

abbrev pub k_version : Text
k_version = codes "v"

abbrev pub k_store : Text
k_store = codes "store"

abbrev pub k_occ : Text
k_occ = codes "occ"

abbrev pub k_attempt : Text
k_attempt = codes "attempt"

abbrev pub k_seq : Text
k_seq = codes "seq"

abbrev pub k_kind : Text
k_kind = codes "kind"

abbrev pub k_catalog : Text
k_catalog = codes "catalog-sha256"

-- `RESERVED_KEYS`
abbrev pub reserved_keys : List Text
reserved_keys = k_version ∷ k_store ∷ k_occ ∷ k_attempt ∷ k_seq ∷ k_kind ∷ k_catalog ∷ []

-- `KINDS`
abbrev pub kinds : List Text
kinds = codes "file" ∷ codes "dir" ∷ codes "bundle" ∷ []

-- `MAX_SEQ`
abbrev pub max_seq : ℕ
max_seq = 2 ^ 63 - 2

-- One tag, `dropin:<key>=<value>`.
abbrev pub tag : Text → Text → Text
tag key value = tag_prefix ++ (key ++ (b'=' ∷ value))

unfoldable pub to_tags : Identity → List Text
to_tags i =
    tag k_version i.version
    ∷ tag k_store i.store_id
    ∷ tag k_occ i.occ_id
    ∷ tag k_attempt i.attempt_id
    ∷ tag k_seq (str i.export_seq)
    ∷ tag k_kind i.kind
    ∷ tag k_catalog i.catalog_sha256
    ∷ []

-- `tag_set()`, the canonical comparison key
unfoldable pub tag_set : Identity → List (Text × Text)
tag_set i =
    (k_version, i.version)
    ∷ (k_store, i.store_id)
    ∷ (k_occ, i.occ_id)
    ∷ (k_attempt, i.attempt_id)
    ∷ (k_seq, str i.export_seq)
    ∷ (k_kind, i.kind)
    ∷ (k_catalog, i.catalog_sha256)
    ∷ []

-- The refusals of `parse_tags`, in place of their messages. `int_limit` is no `TagError`: Python's
-- `int` raises a plain `ValueError` for more than 4300 digits.
pub data TagError : Type 0 where
  no_value duplicate_tag : Text → TagError
  missing_tags : List Text → TagError
  bad_version bad_store bad_kind bad_digest bad_seq seq_range int_limit : TagError
  bad_identifier bad_namespace : Text → TagError

abbrev pub Seen : Type 0
Seen = List (Text × Text)

unfoldable pub is_in : Text → List Text → Bool
unfolding text_eq
is_in k ks = any (text_eq k) ks

-- `seen.get(k)`
unfoldable pub seen_at : Text → Seen → Option Text
seen_at k [] = none
seen_at k ((j, v) ∷ m) = if text_eq k j then some v else seen_at k m

abbrev pub has_key : Seen → Text → Bool
has_key m k = elim (seen_at k m) [ none ↦ false | some _ ↦ true ]

-- `seen[k]`, where the key is known to be there
abbrev pub value_at : Text → Seen → Text
value_at k m = elim (seen_at k m) [ none ↦ [] | some v ↦ v ]

-- `body.partition("=")`: the key, and the value if there is a separator
unfoldable pub partition : Text → Text × Option Text
partition [] = ([], none)
partition (c ∷ s) = if c == b'=' then ([], some s) else (c ∷ (partition s).0, (partition s).1)

-- One round of the loop on a reserved key.
unfoldable pub take_pair : Seen → Text → Option Text → Result TagError Seen
unfolding seen_at
take_pair seen key none = err (no_value key)
take_pair seen key (some value) =
    if has_key seen key then err (duplicate_tag key) else ok (seen ++ (key, value) ∷ [])

-- One round of the loop over the tags; tags that are not reserved are passed over.
unfoldable pub take_tag : Seen → Text → Result TagError Seen
unfolding is_in partition strip_prefix take_pair
take_tag seen t = elim (strip_prefix tag_prefix t) [
  | none ↦ ok seen
  | some body ↦
      if is_in (partition body).0 reserved_keys
      then take_pair seen (partition body).0 (partition body).1
      else ok seen
]

unfoldable pub take_tags : Seen → List Text → Result TagError Seen
unfolding take_tag
take_tags seen [] = ok seen
take_tags seen (t ∷ ts) = elim (take_tag seen t) [ ok seen' ↦ take_tags seen' ts | err e ↦ err e ]

abbrev pub missing_keys : Seen → List Text
missing_keys seen = filter_by (λ k. not (has_key seen k)) reserved_keys

-- The checks on an identifier of the store, `occ` or `attempt`.
abbrev pub check_identifier {ℓ} :
    {A : Type ℓ} → Text → Text → Text → Result TagError A → Result TagError A
check_identifier key store value rest =
    require (identifier_re value) (bad_identifier key)
      (require (starts_with value (store ++ b'.' ∷ [])) (bad_namespace key) rest)

-- The checks on the values, in the order of the source.
unfoldable pub check_values :
    Text → Text → Text → Text → Text → Text → Text → Result TagError Identity
check_values v store kind digest seq occ attempt = require (text_eq v (codes "1")) bad_version (
    require (store_id_re store) bad_store (
      require (is_in kind kinds) bad_kind (
        require (sha256_re digest) bad_digest (
          require (seq_re seq) bad_seq (
            require (leb (digit_count seq) 4300) int_limit (
              require (leb (read_int 0 seq) max_seq) seq_range (
                check_identifier k_occ store occ (
                  check_identifier k_attempt store attempt (
                    ok (record {
                      store_id = store;
                      occ_id = occ;
                      attempt_id = attempt;
                      export_seq = read_int 0 seq;
                      kind = kind;
                      catalog_sha256 = digest;
                      version = v;
                    }))))))))))

unfoldable pub check_seen : Seen → Result TagError Identity
unfolding check_values seen_at
check_seen seen = elim (missing_keys seen) [
  | k ∷ ks ↦ err (missing_tags (k ∷ ks))
  | [] ↦
      check_values (value_at k_version seen) (value_at k_store seen) (value_at k_kind seen)
        (value_at k_catalog seen) (value_at k_seq seen) (value_at k_occ seen)
        (value_at k_attempt seen)
]

unfoldable pub parse_tags : List Text → Result TagError Identity
unfolding take_tags check_seen
parse_tags tags = elim (take_tags [] tags) [ ok seen ↦ check_seen seen | err e ↦ err e ]
