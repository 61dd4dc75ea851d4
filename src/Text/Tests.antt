-- ===== src/Text/Tests.antt =====
-- Runs of the functions on characters, strings and numbers.
use ultra.Prelude.{ℕ, ◌≡◌, refl, true, List, [], ◌∷◌, arith, Returns}
use ultra.Text.Ctype.{isupper, isdigit, isxdigit, tolower, is_char_of_type}
use ultra.Text.Strings.{str_equals_caseless, str_starts_with, str_find}
use ultra.Text.Strings.Find.{Finds, StandsAt, str_find-Finds}
use ultra.Text.Numbers.{
  ok, digit_of, consume_base, do_str_to_u64, do_str_to_u64_unchecked, str_to_u64_with_base,
  str_to_i64_with_base, str_to_i8_with_base, str_to_bool, skip, negate, check_positive,
  narrow_signed,
}
use ultra.Text.Numbers.Digits.{IsDigits, digit, value, checked}
use ultra.Text.Numbers.Base.{hexadecimal, str_to_u64-value}

-- "fF", "-128", "on"
abbrev ff : List ℕ
ff = 102 ∷ 70 ∷ []

abbrev minus_128 : List ℕ
minus_128 = 45 ∷ 49 ∷ 50 ∷ 56 ∷ []

abbrev on : List ℕ
on = 79 ∷ 110 ∷ []

runs : Unit {0}
unfolding digit digit_of isdigit isxdigit is_char_of_type tolower isupper str_to_i8_with_base
    narrow_signed str_to_i64_with_base negate check_positive skip do_str_to_u64 consume_base
    do_str_to_u64_unchecked str_starts_with str_to_bool str_equals_caseless
runs = tt

-- The least number of an `i8`.
str_to_i8_test : str_to_i8_with_base minus_128 0 ≡ ok 128
unfolding runs
str_to_i8_test = refl

str_to_bool_test : str_to_bool on ≡ ok true
unfolding runs
str_to_bool_test = refl

ff-IsDigits : IsDigits 16 ff
unfolding runs
ff-IsDigits = (refl, omega arith, (refl, omega arith, tt))

str_to_u64-value_example : str_to_u64_with_base (48 ∷ 120 ∷ ff) 0 ≡ checked (value 16 0 ff)
str_to_u64-value_example = str_to_u64-value hexadecimal ff ff-IsDigits

str_find-Finds_example :
    Returns (str_find minus_128 (50 ∷ 56 ∷ []) 1) (Finds (StandsAt (50 ∷ 56 ∷ []) minus_128) 1 5)
str_find-Finds_example = str_find-Finds minus_128 (50 ∷ 56 ∷ []) 1 (omega arith)
