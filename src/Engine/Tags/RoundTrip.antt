-- ===== src/Engine/Tags/RoundTrip.antt =====
-- Parsing the tags that an identity prints gives the identity back (dropin/engine/interface.py).
use dropin.Prelude.{
  ℕ, zero, suc, ◌+◌, ◌/◌, ◌%◌, ◌≤◌, ◌<◌, ◌≡◌, refl, ◌∙◌, ◌++◌, append-nil, append_assoc, true, none,
  List, [], ◌∷◌, Text, codes, strip_prefix, starts_with, length, length-append, text_eq_iff, sym,
  ltb, leb, All, ok, arith, Bool-cases, inl, inr,
}
use dropin.Engine.Tags.{
  Identity, tag_prefix, tag, k_version, k_store, k_occ, k_attempt, k_seq, k_kind, k_catalog,
  to_tags, Seen, is_in, kinds, max_seq, take_tag, take_tags, check_values, check_seen, parse_tags,
  k_version,
}
use dropin.Engine.Tags.Decimal.{
  str, str_fuel, read_int, digit_count, read_int-str_fuel, digit_count-le, length-str_fuel,
}
use dropin.Engine.Tags.Pattern.{store_id_re, identifier_re, seq_re, sha256_re, digits_end}

-- What the program's own identities are: every value has its canonical form.
pub record IsCanonical (i : Identity) : Type 0 where
  pub version : i.version ≡ codes "1"
  pub store : store_id_re i.store_id ≡ true
  pub kind : is_in i.kind kinds ≡ true
  pub digest : sha256_re i.catalog_sha256 ≡ true
  pub seq_pos : 1 ≤ i.export_seq
  pub seq_max : i.export_seq ≤ max_seq
  pub occ : identifier_re i.occ_id ≡ true
  pub occ_store : starts_with i.occ_id (i.store_id ++ b'.' ∷ []) ≡ true
  pub attempt : identifier_re i.attempt_id ≡ true
  pub attempt_store : starts_with i.attempt_id (i.store_id ++ b'.' ∷ []) ≡ true

-- A tag without the reserved prefix.
abbrev pub IsForeign : Text → Type 0
IsForeign t = strip_prefix tag_prefix t ≡ none

seq_re-str_fuel :
    (f n : ℕ) (rest : Text)
    → n < f
    → 1 ≤ n
    → digits_end rest ≡ true
    → seq_re (str_fuel f n ++ rest) ≡ true
unfolding seq_re str_fuel
seq_re-str_fuel zero n rest h p e = absurd (omega arith)
seq_re-str_fuel (suc f) n rest h p e = elim (Bool-cases (ltb n 10)) [
  | inl small ↦ rw small (ground (arith, small))
  | inr big ↦ rw big (
      rw append_assoc (
        seq_re-str_fuel f (n / 10) ((b'0' + n % 10) ∷ rest) (ground arith) (ground arith)
          (ground arith)))
]

read_int-str : (n : ℕ) (rest : Text) → read_int 0 (str n ++ rest) ≡ read_int n rest
unfolding str
read_int-str n rest = read_int-str_fuel (suc n) n rest (omega arith)

-- `tail` is what may stand behind the digits under `SEQ_RE`: nothing, or one line feed.
module _ (tail : Text) (ends : digits_end tail ≡ true) (short : length tail ≤ 1) where
  seq_re-str : (n : ℕ) → 1 ≤ n → seq_re (str n ++ tail) ≡ true
  unfolding str
  seq_re-str n p = seq_re-str_fuel (suc n) n tail (omega arith) p ends

  digit_count-str : (n : ℕ) → n ≤ max_seq → leb (digit_count (str n ++ tail)) 4300 ≡ true
  unfolding str
  digit_count-str n h = ground (
    arith,
    digit_count-le (str_fuel (suc n) n ++ tail),
    length-append (str_fuel (suc n) n) tail,
    length-str_fuel 18 (suc n) n (omega arith),
  )

  check_values-IsCanonical :
      (i : Identity)
      → IsCanonical i
      → read_int i.export_seq tail ≡ i.export_seq
      → check_values i.version i.store_id i.kind i.catalog_sha256
          (str i.export_seq ++ tail)
          i.occ_id
          i.attempt_id
        ≡ ok i
  unfolding check_values
  check_values-IsCanonical i c e =
      rw
        (
          read_int-str i.export_seq tail,
          e,
          c.store,
          c.kind,
          c.digest,
          c.occ,
          c.occ_store,
          c.attempt,
          c.attempt_store,
          seq_re-str i.export_seq c.seq_pos,
          digit_count-str i.export_seq c.seq_max,
        )
        (ground (arith, text_eq_iff i.version (codes "1")))

-- Tags that are not reserved leave what was seen as it was.
take_tags-foreign :
    (seen : Seen) (extra ts : List Text)
    → All IsForeign extra
    → take_tags seen (extra ++ ts) ≡ take_tags seen ts
unfolding take_tags take_tag
take_tags-foreign seen [] ts h = refl
take_tags-foreign seen (t ∷ extra) ts h = rw h.0 (take_tags-foreign seen extra ts h.1)

-- The tags of an identity, with `tail` behind the digits of the sequence.
abbrev tags_with : Text → Identity → List Text
tags_with tail i =
    tag k_version i.version
    ∷ tag k_store i.store_id
    ∷ tag k_occ i.occ_id
    ∷ tag k_attempt i.attempt_id
    ∷ tag k_seq (str i.export_seq ++ tail)
    ∷ tag k_kind i.kind
    ∷ tag k_catalog i.catalog_sha256
    ∷ []

abbrev seen_of : Text → Identity → Seen
seen_of tail i =
    (codes "v", i.version)
    ∷ (codes "store", i.store_id)
    ∷ (codes "occ", i.occ_id)
    ∷ (codes "attempt", i.attempt_id)
    ∷ (codes "seq", str i.export_seq ++ tail)
    ∷ (codes "kind", i.kind)
    ∷ (codes "catalog-sha256", i.catalog_sha256)
    ∷ []

take_tags-tags_with :
    (tail : Text) (i : Identity) → take_tags [] (tags_with tail i) ≡ ok (seen_of tail i)
unfolding take_tags
take_tags-tags_with tail i = refl

parse_tags-tags_with :
    (tail : Text) (i : Identity) (extra : List Text)
    → digits_end tail ≡ true
    → length tail ≤ 1
    → read_int i.export_seq tail ≡ i.export_seq
    → IsCanonical i
    → All IsForeign extra
    → parse_tags (extra ++ tags_with tail i) ≡ ok i
unfolding parse_tags check_seen
parse_tags-tags_with tail i extra ends short e c h =
    rw (take_tags-foreign [] extra (tags_with tail i) h ∙ take_tags-tags_with tail i, parse_tags)
      (check_values-IsCanonical tail ends short i c e)

-- Parsing the seven tags that a canonical identity prints gives that identity back, whatever tags
-- without the reserved prefix stand before them.
pub parse_tags-to_tags :
    (i : Identity) (extra : List Text)
    → IsCanonical i
    → All IsForeign extra
    → parse_tags (extra ++ to_tags i) ≡ ok i
unfolding to_tags digits_end read_int
parse_tags-to_tags i extra c h =
    rw append-nil at (parse_tags-tags_with [] i extra refl (omega arith) refl c h)

-- The tags of an identity with a line feed behind the sequence.
abbrev pub line_feed_tags : Identity → List Text
line_feed_tags i = tags_with (10 ∷ []) i

-- The sequence tag with a line feed behind its digits is accepted too, and gives the identity of
-- the canonical tags.
pub parse_tags-line_feed :
    (i : Identity) → IsCanonical i → parse_tags (line_feed_tags i) ≡ parse_tags (to_tags i)
unfolding digits_end read_int
parse_tags-line_feed i c =
    parse_tags-tags_with (10 ∷ []) i [] refl (omega arith) refl c tt
    ∙ sym (parse_tags-to_tags i [] c tt)
