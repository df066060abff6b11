-- ===== src/Gates/Equal.antt =====
-- `==` and `!=` on the values of the rows, with what they decide.
use dropin.Prelude.{
  ℕ, ◌≡◌, ◌↔◌, refl, Bool, true, false, Option, none, some, Text, text_eq, text_eq_iff, ◌==◌, arith,
}
use dropin.Store.{EntryType}

abbrev pub type_eq : EntryType → EntryType → Bool
type_eq EntryType.file EntryType.file = true
type_eq EntryType.dir EntryType.dir = true
type_eq EntryType.symlink EntryType.symlink = true
type_eq _ _ = false

unfoldable pub size_eq : Option ℕ → Option ℕ → Bool
size_eq none none = true
size_eq (some a) (some b) = a == b
size_eq _ _ = false

unfoldable pub opt_text_eq : Option Text → Option Text → Bool
opt_text_eq none none = true
opt_text_eq (some a) (some b) = text_eq a b
opt_text_eq _ _ = false

pub type_eq_iff : (a b : EntryType) → (type_eq a b ≡ true) ↔ (a ≡ b)
type_eq_iff a b = (λ h. ground arith, λ h. ground arith)

pub size_eq_iff : (a b : Option ℕ) → (size_eq a b ≡ true) ↔ (a ≡ b)
unfolding size_eq
size_eq_iff a b = (λ h. ground arith, λ h. ground arith)

opt_text_eq_sound : (a b : Option Text) → opt_text_eq a b ≡ true → a ≡ b
unfolding opt_text_eq
opt_text_eq_sound none none h = refl
opt_text_eq_sound (some a) (some b) h = ground (arith, text_eq_iff a b)
opt_text_eq_sound none (some b) h = cc
opt_text_eq_sound (some a) none h = cc

opt_text_eq_refl : (a : Option Text) → opt_text_eq a a ≡ true
unfolding opt_text_eq
opt_text_eq_refl none = refl
opt_text_eq_refl (some a) = ground (arith, text_eq_iff a a)

pub opt_text_eq_iff : (a b : Option Text) → (opt_text_eq a b ≡ true) ↔ (a ≡ b)
opt_text_eq_iff a b = (opt_text_eq_sound a b, λ e. ground (arith, e, opt_text_eq_refl a))
