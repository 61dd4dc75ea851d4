-- ===== src/Text/Numbers.antt =====
-- kernel/common/conversions.c: numbers and Booleans from strings. An `i64` is its two's complement, a
-- number below 2^64, and so for the other signed types.
pub mod Digits
pub mod Base
pub mod Signed
pub mod Truth
use ultra.Prelude.{
  ℕ, zero, suc, ◌+◌, ◌-◌, ◌*◌, ◌/◌, ◌%◌, ◌^◌, Bool, true, false, not, ◌&&◌, Option, none, some,
  List, [], ◌∷◌, ltb, leb, ◌==◌, if◌then◌else◌, length, drop,
}
use ultra.Text.Ctype.{isdigit, isxdigit, tolower}
use ultra.Text.Strings.{str_starts_with, str_equals_caseless}

-- `error_t` with the result of a call: `EOK` and what it wrote, or an error
pub data Result {ℓ} (A : Type ℓ) : Type ℓ where
  ok : A → Result A
  error : ℕ → Result A

-- kernel/include/common/error.h
abbrev pub einval : ℕ
einval = 28

abbrev pub erange : ℕ
erange = 72

abbrev pub word : ℕ
word = 2 ^ 64

-- The base that the prefix stands for, 0 for none, and the string after the prefix.
unfoldable pub consume_base : List ℕ → ℕ × List ℕ
consume_base [] = (0, [])
consume_base (c ∷ rest) =
    let str : List ℕ = c ∷ rest in
    if str_starts_with str (48 ∷ 120 ∷ [])
    then (16, drop 2 str)
    else if str_starts_with str (48 ∷ 98 ∷ [])
    then (2, drop 2 str)
    else if str_starts_with str (48 ∷ [])
    then (8, rest)
    else if isdigit c
    then (10, str)
    else (0, str)

-- `next` for a character, `none` for `return EINVAL`
unfoldable pub digit_of : ℕ → Option ℕ
digit_of c =
    if isdigit c
    then some (c - 48)
    else if not (isxdigit c)
    then none
    else some (10 + tolower c - 97)

-- The loop, from `number` on, for a base that is not 0.
unfoldable pub do_str_to_u64_unchecked : List ℕ → ℕ → ℕ → Result ℕ
do_str_to_u64_unchecked [] number base = ok number
do_str_to_u64_unchecked (c ∷ str) number base = elim (digit_of c) [
  | none ↦ error einval
  | some digit ↦
      let next = (number * base + digit) % word in
      let later = do_str_to_u64_unchecked str next base in
      if not (next / base == number) then error erange else later
]

unfoldable pub do_str_to_u64 : List ℕ → ℕ → Result ℕ
do_str_to_u64 str base =
    let (cb, rest) = consume_base str in
    if base == 0 && cb == 0
    then error einval
    else do_str_to_u64_unchecked rest 0 (if base == 0 then cb else base)

-- a one-character prefix that is skipped
unfoldable pub skip : List ℕ → ℕ → List ℕ
skip str c = if str_starts_with str (c ∷ []) then drop 1 str else str

-- the test of a negative number, and its two's complement
unfoldable pub negate : Result ℕ → Result ℕ
negate (error e) = error e
negate (ok ures) =
    let negated = (word - ures) % word in
    if ltb 0 negated && ltb negated (2 ^ 63) then error erange else ok negated

-- the test against `INT64_MAX`
unfoldable pub check_positive : Result ℕ → Result ℕ
check_positive (error e) = error e
check_positive (ok ures) = if ltb (2 ^ 63 - 1) ures then error erange else ok ures

unfoldable pub str_to_i64_with_base : List ℕ → ℕ → Result ℕ
unfolding negate check_positive
str_to_i64_with_base str base =
    if str_starts_with str (45 ∷ [])
    then negate (do_str_to_u64 (drop 1 str) base)
    else check_positive (do_str_to_u64 (skip str 43) base)

unfoldable pub str_to_u64_with_base : List ℕ → ℕ → Result ℕ
str_to_u64_with_base str base =
    let str' = skip str 43 in
    if str_starts_with str' (45 ∷ []) then error einval else do_str_to_u64 str' base

-- An `i64` cast to a signed type of `bits` bits and back.
abbrev pub sign_extend : ℕ → ℕ → ℕ
sign_extend bits x =
    let low = x % 2 ^ bits in if ltb low (2 ^ (bits - 1)) then low else low + (word - 2 ^ bits)

-- `(i32)ires != ires`, and the same test for the other widths
unfoldable pub narrow_signed : ℕ → Result ℕ → Result ℕ
narrow_signed bits (error e) = error e
narrow_signed bits (ok ires) =
    if not (sign_extend bits ires == ires) then error erange else ok (ires % 2 ^ bits)

unfoldable pub narrow_unsigned : ℕ → Result ℕ → Result ℕ
narrow_unsigned bits (error e) = error e
narrow_unsigned bits (ok ures) =
    if not (ures % 2 ^ bits == ures) then error erange else ok (ures % 2 ^ bits)

unfoldable pub str_to_i32_with_base : List ℕ → ℕ → Result ℕ
str_to_i32_with_base str base = narrow_signed 32 (str_to_i64_with_base str base)

unfoldable pub str_to_u32_with_base : List ℕ → ℕ → Result ℕ
str_to_u32_with_base str base = narrow_unsigned 32 (str_to_u64_with_base str base)

unfoldable pub str_to_i16_with_base : List ℕ → ℕ → Result ℕ
str_to_i16_with_base str base = narrow_signed 16 (str_to_i64_with_base str base)

unfoldable pub str_to_u16_with_base : List ℕ → ℕ → Result ℕ
str_to_u16_with_base str base = narrow_unsigned 16 (str_to_u64_with_base str base)

unfoldable pub str_to_i8_with_base : List ℕ → ℕ → Result ℕ
str_to_i8_with_base str base = narrow_signed 8 (str_to_i64_with_base str base)

unfoldable pub str_to_u8_with_base : List ℕ → ℕ → Result ℕ
str_to_u8_with_base str base = narrow_unsigned 8 (str_to_u64_with_base str base)

-- `options`: y, t, on, 1, n, f, off, 0
abbrev pub options : List (List ℕ)
options =
    (121 ∷ [])
    ∷ (116 ∷ [])
    ∷ (111 ∷ 110 ∷ [])
    ∷ (49 ∷ [])
    ∷ (110 ∷ [])
    ∷ (102 ∷ [])
    ∷ (111 ∷ 102 ∷ 102 ∷ [])
    ∷ (48 ∷ [])
    ∷ []

abbrev pub num_true_options : ℕ
num_true_options = 4

-- The loop over the options from `i` on.
unfoldable pub find_option : List ℕ → List (List ℕ) → ℕ → Result Bool
find_option str [] i = error einval
find_option str (option ∷ rest) i =
    let later = find_option str rest (i + 1) in
    if not (str_equals_caseless str option) then later else ok (ltb i num_true_options)

unfoldable pub str_to_bool : List ℕ → Result Bool
unfolding find_option
str_to_bool str = find_option str options 0
