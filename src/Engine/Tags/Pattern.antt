-- ===== src/Engine/Tags/Pattern.antt =====
-- The regular expressions of dropin/engine/interface.py, as matchers. `$` matches at the end and
-- before a line feed that is the last character, as it does under Python's `re.match`.
use dropin.Prelude.{
  ℕ, zero, suc, ◌&&◌, ◌||◌, Bool, true, false, not, [], ◌∷◌, Text, leb, ◌==◌, if◌then◌else◌,
}
use dropin.Engine.Tags.Decimal.{is_digit}

-- `$`
abbrev pub at_end : Text → Bool
at_end [] = true
at_end (c ∷ []) = c == 10
at_end (c ∷ d ∷ s) = false

-- `[p]{n}` and what follows it
unfoldable pub repeat : ℕ → (ℕ → Bool) → (Text → Bool) → Text → Bool
repeat zero p k s = k s
repeat (suc n) p k [] = false
repeat (suc n) p k (c ∷ s) = p c && repeat n p k s

-- `[0-9a-f]`
abbrev pub is_hex : ℕ → Bool
is_hex c = is_digit c || (leb b'a' c && leb c b'f')

-- `[0-9ABCDEFGHJKMNPQRSTVWXYZ]`: no I, L, O and U
abbrev pub is_crockford : ℕ → Bool
is_crockford c =
    is_digit c
    || (leb b'A' c
        && leb c b'Z'
        && not (c == b'I')
        && not (c == b'L')
        && not (c == b'O')
        && not (c == b'U'))

abbrev pub dot : (Text → Bool) → Text → Bool
dot k [] = false
dot k (c ∷ s) = c == b'.' && k s

-- `[0-9]*$`
unfoldable pub digits_end : Text → Bool
digits_end [] = true
digits_end (c ∷ s) = if is_digit c then digits_end s else at_end (c ∷ s)

-- `STORE_ID_RE`
unfoldable pub store_id_re : Text → Bool
unfolding repeat
store_id_re s = repeat 32 is_hex at_end s

-- `IDENTIFIER_RE`
unfoldable pub identifier_re : Text → Bool
unfolding repeat
identifier_re s = repeat 32 is_hex (dot (repeat 26 is_crockford at_end)) s

-- `SEQ_RE`
unfoldable pub seq_re : Text → Bool
unfolding digits_end
seq_re [] = false
seq_re (c ∷ s) = leb b'1' c && leb c b'9' && digits_end s

-- `SHA256_RE`
unfoldable pub sha256_re : Text → Bool
unfolding repeat
sha256_re s = repeat 64 is_hex at_end s
