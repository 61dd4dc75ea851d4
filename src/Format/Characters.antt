-- ===== src/Format/Characters.antt =====
-- kernel/common/format.c: the characters of digits.
use ultra.Prelude.{
  ℕ, ◌+◌, ◌<◌, ◌≡◌, ◌⊎◌, ap, refl, Bool, true, false, ◌==◌, ltb, if◌then◌else◌, arith, inl, inr,
  Option, some, none, ==_of_eq, ==_of_ne, ==_iff,
}
use ultra.Text.Ctype.{isdigit, isxdigit, is_char_of_type, tolower, isupper}
use ultra.Text.Ctype.Laws.{all_below_lem}
use ultra.Text.Numbers.{digit_of}
use ultra.Text.Numbers.Digits.{digit}
use ultra.Format.{FmtSpec, hex_char, repr_char}

-- The bases that a conversion specifier gives.
abbrev pub IsFormatBase : ℕ → Type 0
IsFormatBase base = (base ≡ 8) ⊎ (base ≡ 10) ⊎ (base ≡ 16)

-- The character is the digit `d`.
abbrev pub IsDigitOf : ℕ → ℕ → Type 0
IsDigitOf c d = (digit_of c ≡ some d) × (digit c ≡ d)

digit_of-IsDigitOf : (c d : ℕ) → digit_of c ≡ some d → IsDigitOf c d
unfolding digit
digit_of-IsDigitOf c d e = (e, ground (arith, e))

abbrev is_some : Option ℕ → ℕ → Bool
is_some none d = false
is_some (some x) d = x == d

is_some_lem : (o : Option ℕ) (d : ℕ) → is_some o d ≡ true → o ≡ some d
is_some_lem none d e = cc
is_some_lem (some x) d e = let same : x ≡ d = ground arith in ap some same

table : Unit {0}
unfolding digit_of isdigit isxdigit is_char_of_type tolower isupper hex_char
table = tt

hex_char_lem : (upper : Bool) (d : ℕ) → d < 16 → digit_of (hex_char upper d) ≡ some d
unfolding table
hex_char_lem true d h =
    is_some_lem (digit_of (hex_char true d)) d
      (all_below_lem 16 (λ d. is_some (digit_of (hex_char true d)) d) d refl h)
hex_char_lem false d h =
    is_some_lem (digit_of (hex_char false d)) d
      (all_below_lem 16 (λ d. is_some (digit_of (hex_char false d)) d) d refl h)

decimal_lem : (d : ℕ) → d < 10 → digit_of (d + 48) ≡ some d
unfolding table
decimal_lem d h =
    is_some_lem (digit_of (d + 48)) d
      (all_below_lem 10 (λ d. is_some (digit_of (d + 48)) d) d refl h)

-- The character "0"
pub zero_digit : (digit_of 48 ≡ some (digit 48)) × (digit 48 ≡ 0)
unfolding table digit
zero_digit = (refl, refl)

-- The character of a digit, by its place in the character set.
abbrev pub numeral_char : Bool → ℕ → ℕ
numeral_char upper d = if ltb d 10 then d + 48 else d + (if upper then 55 else 87)

hex_char-numeral_char : (upper : Bool) (d : ℕ) → d < 16 → hex_char upper d ≡ numeral_char upper d
unfolding table
hex_char-numeral_char true d h =
    (==_iff _ _).0 (all_below_lem 16 (λ d. hex_char true d == numeral_char true d) d refl h)
hex_char-numeral_char false d h =
    (==_iff _ _).0 (all_below_lem 16 (λ d. hex_char false d == numeral_char false d) d refl h)

pub repr_char-numeral_char :
    (fm : FmtSpec) (d : ℕ)
    → IsFormatBase fm.base
    → d < fm.base
    → repr_char fm d ≡ numeral_char fm.uppercase d
unfolding repr_char
repr_char-numeral_char fm d (inl e) h = ground (arith, e, h)
repr_char-numeral_char fm d (inr (inl e)) h = ground (arith, e, h)
repr_char-numeral_char fm d (inr (inr e)) h =
    rw (==_of_eq fm.base 16 e) (hex_char-numeral_char fm.uppercase d (omega arith))

pub repr_char_lem :
    (fm : FmtSpec) (d : ℕ) → IsFormatBase fm.base → d < fm.base → IsDigitOf (repr_char fm d) d
unfolding repr_char
repr_char_lem fm d (inl e) h = digit_of-IsDigitOf _ d (
    rw (==_of_ne fm.base 16 (λ q. omega arith), ==_of_eq fm.base 8 e) (decimal_lem d (omega arith)))
repr_char_lem fm d (inr (inl e)) h = digit_of-IsDigitOf _ d (
    rw
      (
        ==_of_ne fm.base 16 (λ q. omega arith),
        ==_of_ne fm.base 8 (λ q. omega arith),
        ==_of_eq fm.base 10 e,
      )
      (decimal_lem d (omega arith)))
repr_char_lem fm d (inr (inr e)) h =
    digit_of-IsDigitOf _ d (rw (==_of_eq fm.base 16 e) (hex_char_lem fm.uppercase d (omega arith)))
