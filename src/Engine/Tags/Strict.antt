-- ===== src/Engine/Tags/Strict.antt =====
-- What the parser accepts (dropin/engine/interface.py).
use dropin.Prelude.{
  ℕ, ◌+◌, ◌*◌, ◌-◌, All, text_eq_refl, List, if◌then◌else◌, Result, err, Option, none, refl, ap,
  ◌∙◌, List, ◌⊎◌, inl, inr, some, Bool-cases, Option-cases, strip_prefix, strip_prefix_sound,
  text_eq, ◌≤◌, ◌≡◌, ◌++◌, true, [], ◌∷◌, Text, codes, starts_with, text_eq_iff, ok, arith,
}
use dropin.Engine.Tags.{
  k_version, k_store, k_occ, k_attempt, k_seq, k_kind, k_catalog, missing_keys, value_at, take_tags,
  has_key, reserved_keys, TagError, seen_at, Seen, partition, take_pair, take_tag, take_tags, tag,
  tag_prefix, parse_tags, check_seen, Identity, is_in, kinds, max_seq, check_values,
}
use dropin.Engine.Tags.Pattern.{store_id_re, identifier_re, seq_re, sha256_re}
use dropin.Engine.Tags.Decimal.{read_int}

-- What holds of every identity that the parser hands on.
pub record IsAccepted (i : Identity) : Type 0 where
  pub version : i.version ≡ codes "1"
  pub store : store_id_re i.store_id ≡ true
  pub kind : is_in i.kind kinds ≡ true
  pub digest : sha256_re i.catalog_sha256 ≡ true
  pub seq_min : 1 ≤ i.export_seq
  pub seq_max : i.export_seq ≤ max_seq
  pub occ : identifier_re i.occ_id ≡ true
  pub occ_store : starts_with i.occ_id (i.store_id ++ b'.' ∷ []) ≡ true
  pub attempt : identifier_re i.attempt_id ≡ true
  pub attempt_store : starts_with i.attempt_id (i.store_id ++ b'.' ∷ []) ≡ true

read_int-le : (acc : ℕ) (s : Text) → acc ≤ read_int acc s
unfolding read_int
read_int-le acc [] = omega arith
read_int-le acc (c ∷ s) = ground (arith, read_int-le (acc * 10 + (c - b'0')) s)

-- What has the form of a sequence is positive.
seq_re-positive : (s : Text) → seq_re s ≡ true → 1 ≤ read_int 0 s
unfolding seq_re read_int
seq_re-positive [] h = cc
seq_re-positive (c ∷ s) h = ground (arith, h, read_int-le (c - b'0') s)

check_values-IsAccepted :
    (v store kind digest seq occ attempt : Text) (i : Identity)
    → check_values v store kind digest seq occ attempt ≡ ok i
    → IsAccepted i
unfolding check_values
check_values-IsAccepted v store kind digest seq occ attempt i h =
    ground (arith, text_eq_iff v (codes "1"), seq_re-positive seq)

partition_sound :
    (body v : Text) → (partition body).1 ≡ some v → body ≡ (partition body).0 ++ b'=' ∷ v
unfolding partition
partition_sound [] v h = cc
partition_sound (c ∷ s) v h = ground (arith, partition_sound s v)

seen_at-append :
    (k j v w : Text) (seen : Seen)
    → seen_at k (seen ++ (j, v) ∷ []) ≡ some w
    → (seen_at k seen ≡ some w) ⊎ ((k ≡ j) × (w ≡ v))
unfolding seen_at
seen_at-append k j v w [] h = ground (arith, text_eq_iff k j)
seen_at-append k j v w ((i, u) ∷ seen) h = elim (Bool-cases (text_eq k i)) [
  | inl e ↦ inl (rw e (rw e at h))
  | inr e ↦ rw e (seen_at-append k j v w seen (rw e at h))
]

-- What is seen after a tag was seen before, or the tag carries it.
take_pair_sound :
    (seen seen' : Seen) (key : Text) (value : Option Text) (k w : Text)
    → take_pair seen key value ≡ ok seen'
    → seen_at k seen' ≡ some w
    → (seen_at k seen ≡ some w) ⊎ ((k ≡ key) × (value ≡ some w))
unfolding take_pair
take_pair_sound seen seen' key none k w h e = cc
take_pair_sound seen seen' key (some v) k w h e = elim (Bool-cases (has_key seen key)) [
  | inl old ↦ absurd (cc (rw old at h))
  | inr new ↦
      let same : seen ++ (key, v) ∷ [] ≡ seen' = ground (arith, rw new at h) in
      elim (seen_at-append k key v w seen (rw same e)) [
        | inl before ↦ inl before
        | inr (a, b) ↦ inr (a, ground (arith, b))
      ]
]

take_tag_sound :
    (seen seen' : Seen) (t k w : Text)
    → take_tag seen t ≡ ok seen'
    → seen_at k seen' ≡ some w
    → (seen_at k seen ≡ some w) ⊎ (t ≡ tag k w)
unfolding take_tag
take_tag_sound seen seen' t k w h e = elim (Option-cases (strip_prefix tag_prefix t)) [
  | inl foreign ↦ inl (ground (arith, rw (foreign, take_tag) at h))
  | inr (body, split) ↦ reserved body split (rw (split, take_tag) at h)
]
  where
    reserved :
        (body : Text)
        → strip_prefix tag_prefix t ≡ some body
        → (if is_in (partition body).0 reserved_keys
            then take_pair seen (partition body).0 (partition body).1
            else ok seen)
          ≡ ok seen'
        → (seen_at k seen ≡ some w) ⊎ (t ≡ tag k w)
    reserved body split r = elim (Bool-cases (is_in (partition body).0 reserved_keys)) [
      | inr other ↦ inl (ground (arith, rw other at r))
      | inl key ↦
          elim (take_pair_sound seen seen' (partition body).0 (partition body).1 k w (rw key at r)
            e) [
              | inl before ↦ inl before
              | inr (a, b) ↦ inr (
                  strip_prefix_sound tag_prefix t body split
                  ∙ ap (λ x. tag_prefix ++ x) (rw a (partition_sound body w b)))
            ]
    ]

take_tags_sound :
    (seen seen' : Seen) (ts : List Text) (k w : Text)
    → take_tags seen ts ≡ ok seen'
    → seen_at k seen' ≡ some w
    → (seen_at k seen ≡ some w) ⊎ (is_in (tag k w) ts ≡ true)
unfolding take_tags is_in
take_tags_sound seen seen' [] k w h e = inl (ground arith)
take_tags_sound seen seen' (t ∷ ts) k w h e =
    next (take_tag seen t) refl λ s q. take_tags_sound s seen' ts k w q e
  where
    next :
        (r : Result TagError Seen)
        → take_tag seen t ≡ r
        → ((s : Seen)
            → take_tags s ts ≡ ok seen'
            → (seen_at k s ≡ some w) ⊎ (is_in (tag k w) ts ≡ true))
        → (seen_at k seen ≡ some w) ⊎ (is_in (tag k w) (t ∷ ts) ≡ true)
    next (err x) q ih = absurd (cc (rw (q, take_tags) at h))
    next (ok s) q ih = elim (ih s (rw (q, take_tags) at h)) [
      | inl a ↦ elim (take_tag_sound seen s t k w q a) [
        | inl before ↦ inl before
        | inr carried ↦ inr (ground (arith, carried, text_eq_refl (tag k w)))
      ]
      | inr b ↦ inr (ground (arith, b))
    ]

-- A tag of the list gives each value; that of the sequence is read as a decimal number.
pub record IsCarried (tags : List Text) (i : Identity) : Type 0 where
  pub version : is_in (tag k_version i.version) tags ≡ true
  pub store : is_in (tag k_store i.store_id) tags ≡ true
  pub occ : is_in (tag k_occ i.occ_id) tags ≡ true
  pub attempt : is_in (tag k_attempt i.attempt_id) tags ≡ true
  pub kind : is_in (tag k_kind i.kind) tags ≡ true
  pub catalog : is_in (tag k_catalog i.catalog_sha256) tags ≡ true
  pub seq : Text
  pub seq_tag : is_in (tag k_seq seq) tags ≡ true
  pub seq_form : seq_re seq ≡ true
  pub export_seq : i.export_seq ≡ read_int 0 seq

check_values_fields :
    (v store kind digest seq occ attempt : Text) (i : Identity)
    → check_values v store kind digest seq occ attempt ≡ ok i
    → (i.version ≡ v)
      × (i.store_id ≡ store)
      × (i.kind ≡ kind)
      × (i.catalog_sha256 ≡ digest)
      × (i.occ_id ≡ occ)
      × (i.attempt_id ≡ attempt)
      × (seq_re seq ≡ true)
      × (i.export_seq ≡ read_int 0 seq)
unfolding check_values
check_values_fields v store kind digest seq occ attempt i h = (
  ground arith,
  ground arith,
  ground arith,
  ground arith,
  ground arith,
  ground arith,
  ground arith,
  ground arith,
)

-- Past the test for missing keys every reserved key has a value.
check_seen_ok :
    (seen : Seen) (i : Identity)
    → check_seen seen ≡ ok i
    → (missing_keys seen ≡ [])
      × (check_values
            (value_at k_version seen)
            (value_at k_store seen)
            (value_at k_kind seen)
            (value_at k_catalog seen)
            (value_at k_seq seen)
            (value_at k_occ seen)
            (value_at k_attempt seen)
          ≡ ok i)
unfolding check_seen
check_seen_ok seen i h = go (missing_keys seen) refl
  where
    go :
        (ks : List Text)
        → missing_keys seen ≡ ks
        → (missing_keys seen ≡ [])
          × (check_values
                (value_at k_version seen)
                (value_at k_store seen)
                (value_at k_kind seen)
                (value_at k_catalog seen)
                (value_at k_seq seen)
                (value_at k_occ seen)
                (value_at k_attempt seen)
              ≡ ok i)
    go [] e = (e, rw (e, check_seen) at h)
    go (k ∷ ks) e = absurd (cc (rw (e, check_seen) at h))

-- A reserved key that is not missing has its value.
found : (seen : Seen) (k : Text) → has_key seen k ≡ true → seen_at k seen ≡ some (value_at k seen)
found seen k h = ground arith

parse_tags_seen :
    (tags : List Text) (i : Identity)
    → parse_tags tags ≡ ok i
    → (seen : Seen) × (take_tags [] tags ≡ ok seen) × (check_seen seen ≡ ok i)
unfolding parse_tags
parse_tags_seen tags i h = go (take_tags [] tags) refl
  where
    go :
        (r : Result TagError Seen)
        → take_tags [] tags ≡ r
        → (seen : Seen) × (take_tags [] tags ≡ ok seen) × (check_seen seen ≡ ok i)
    go (ok seen) e = (seen, e, rw (e, parse_tags) at h)
    go (err x) e = absurd (cc (rw (e, parse_tags) at h))

all_found : (seen : Seen) → missing_keys seen ≡ [] → All (λ k. has_key seen k ≡ true) reserved_keys
all_found seen e = ground arith

carried_by :
    (tags : List Text) (seen : Seen) (k v : Text)
    → take_tags [] tags ≡ ok seen
    → has_key seen k ≡ true
    → v ≡ value_at k seen
    → is_in (tag k v) tags ≡ true
carried_by tags seen k v e h q = elim (take_tags_sound [] seen tags k v e (rw q (found seen k h))) [
  | inl impossible ↦ absurd (unfold seen_at in cc)
  | inr c ↦ c
]

-- Parsing succeeds only with an identity whose values have their form, whose identifiers are in
-- its store and whose sequence is at least one and in range; each value stands in a tag of the
-- list, and the sequence is the number that a tag of the list is read as, whose value has the form
-- of a sequence.
pub parse_tags_sound :
    (tags : List Text) (i : Identity) → parse_tags tags ≡ ok i → IsAccepted i × IsCarried tags i
parse_tags_sound tags i h =
    let (seen, e, c) = parse_tags_seen tags i h in
    let (none_missing, values) = check_seen_ok seen i c in
    let (v, (s, (o, (a, (q, (d, (m, _))))))) = all_found seen none_missing in
    let (fv, fs, fk, fd, fo, fa, form, number) = check_values_fields _ _ _ _ _ _ _ i values in
    (
      check_values-IsAccepted _ _ _ _ _ _ _ i values,
      record {
        version = carried_by tags seen k_version i.version e v fv;
        store = carried_by tags seen k_store i.store_id e s fs;
        occ = carried_by tags seen k_occ i.occ_id e o fo;
        attempt = carried_by tags seen k_attempt i.attempt_id e a fa;
        kind = carried_by tags seen k_kind i.kind e d fk;
        catalog = carried_by tags seen k_catalog i.catalog_sha256 e m fd;
        seq = value_at k_seq seen;
        seq_tag = carried_by tags seen k_seq (value_at k_seq seen) e q refl;
        seq_form = form;
        export_seq = number;
      },
    )
