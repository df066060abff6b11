-- ===== src/Engine/Tags/Decimal.antt =====
-- Python's `str` and `int` between a number and its decimal digits.
use dropin.Prelude.{
  ℕ, zero, suc, ◌+◌, ◌-◌, ◌*◌, ◌/◌, ◌%◌, ◌^◌, ◌≤◌, ◌<◌, ◌≡◌, ◌∙◌, ◌++◌, append_assoc, Bool, ◌&&◌,
  [], ◌∷◌, Text, length, length-append, ltb, leb, if◌then◌else◌, arith, Bool-cases, inl, inr,
}
use native.Mathlib.Nat.{pow-suc}

abbrev pub is_digit : ℕ → Bool
is_digit c = leb b'0' c && leb c b'9'

-- `str(n)` on fuel, the most significant digit first
unfoldable pub str_fuel : ℕ → ℕ → Text
str_fuel zero n = []
str_fuel (suc f) n =
    let upper = str_fuel f (n / 10) in
    if ltb n 10 then (b'0' + n) ∷ [] else upper ++ (b'0' + n % 10) ∷ []

unfoldable pub str : ℕ → Text
unfolding str_fuel
str n = str_fuel (suc n) n

-- `int(s)` for a text of digits with at most a line feed behind them
unfoldable pub read_int : ℕ → Text → ℕ
read_int acc [] = acc
read_int acc (c ∷ s) = if is_digit c then read_int (acc * 10 + (c - b'0')) s else acc

-- How many digits a text begins with; `int` refuses more than 4300.
unfoldable pub digit_count : Text → ℕ
digit_count [] = 0
digit_count (c ∷ s) = if is_digit c then suc (digit_count s) else 0

digit_step : (n : ℕ) → is_digit (b'0' + n % 10) ≡ Bool.true
digit_step n = ground arith

pub read_int-str_fuel :
    (f n : ℕ) (rest : Text) → n < f → read_int 0 (str_fuel f n ++ rest) ≡ read_int n rest
unfolding read_int str_fuel
read_int-str_fuel zero n rest h = absurd (omega arith)
read_int-str_fuel (suc f) n rest h = elim (Bool-cases (ltb n 10)) [
  | inl small ↦ rw small (ground (arith, small))
  | inr big ↦ rw big (
      rw append_assoc
        (read_int-str_fuel f (n / 10) ((b'0' + n % 10) ∷ rest) (ground arith) ∙ ground arith))
]

pub digit_count-le : (s : Text) → digit_count s ≤ length s
unfolding digit_count
digit_count-le [] = omega arith
digit_count-le (c ∷ s) = ground (arith, digit_count-le s)

pub length-str_fuel : (k f n : ℕ) → n < 10 ^ suc k → length (str_fuel f n) ≤ suc k
unfolding str_fuel
length-str_fuel k zero n h = omega arith
length-str_fuel zero (suc f) n h = ground arith
length-str_fuel (suc k) (suc f) n h = elim (Bool-cases (ltb n 10)) [
  | inl small ↦ rw small (omega arith)
  | inr big ↦ rw big (
      rw length-append
        (omega (arith, length-str_fuel k f (n / 10) (omega (arith, pow-suc 10 (suc k))))))
]
