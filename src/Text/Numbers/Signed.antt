-- ===== src/Text/Numbers/Signed.antt =====
-- The signed and the narrow conversions against the 64-bit ones.
use ultra.Prelude.{
  ℕ, ◌+◌, ◌-◌, ◌*◌, ◌/◌, ◌%◌, ◌^◌, ◌<◌, ◌≡◌, refl, Bool, true, false, not, ◌&&◌, ◌||◌, Option, none,
  some, List, [], ◌∷◌, ltb, leb, ◌==◌, if◌then◌else◌, drop, arith,
}
use ultra.Text.Strings.{str_starts_with}
use ultra.Text.Numbers.{
  Result, ok, error, einval, erange, word, skip, digit_of, consume_base, do_str_to_u64,
  do_str_to_u64_unchecked, str_to_i64_with_base, str_to_u64_with_base, negate, check_positive,
  narrow_signed, narrow_unsigned, str_to_i32_with_base, str_to_i16_with_base, str_to_i8_with_base,
  str_to_u32_with_base, str_to_u16_with_base, str_to_u8_with_base,
}
use ultra.Text.Numbers.Base.{starts_1}

-- The two's complement of minus `v`, in 64 bits.
abbrev pub minus : ℕ → ℕ
minus v = (word - v) % word

-- The result for a magnitude and a sign.
abbrev pub signed_result : Bool → ℕ → Result ℕ
signed_result negative v =
    if negative
    then (if leb v (2 ^ 63) then ok (minus v) else error erange)
    else if ltb v (2 ^ 63)
    then ok v
    else error erange

-- A 64-bit two's complement whose number a signed type of `bits` bits can hold.
abbrev pub fits_signed : ℕ → ℕ → Bool
fits_signed bits x = ltb x (2 ^ (bits - 1)) || leb (word - 2 ^ (bits - 1)) x

-- The result of a narrow conversion, for the result of the 64-bit one and a test of its range.
abbrev pub narrowed : ℕ → (ℕ → Bool) → Result ℕ → Result ℕ
narrowed bits test (error e) = error e
narrowed bits test (ok x) = if test x then ok (x % 2 ^ bits) else error erange

abbrev pub Bounded : Result ℕ → Type 0
Bounded (error e) = Unit
Bounded (ok x) = x < word

signed_32 : (r : Result ℕ) → Bounded r → narrow_signed 32 r ≡ narrowed 32 (fits_signed 32) r
unfolding narrow_signed
signed_32 (error e) b = refl
signed_32 (ok x) b = ground arith

signed_16 : (r : Result ℕ) → Bounded r → narrow_signed 16 r ≡ narrowed 16 (fits_signed 16) r
unfolding narrow_signed
signed_16 (error e) b = refl
signed_16 (ok x) b = ground arith

signed_8 : (r : Result ℕ) → Bounded r → narrow_signed 8 r ≡ narrowed 8 (fits_signed 8) r
unfolding narrow_signed
signed_8 (error e) b = refl
signed_8 (ok x) b = ground arith

unsigned_32 : (r : Result ℕ) → narrow_unsigned 32 r ≡ narrowed 32 (λ x. ltb x (2 ^ 32)) r
unfolding narrow_unsigned
unsigned_32 (error e) = refl
unsigned_32 (ok x) = ground arith

unsigned_16 : (r : Result ℕ) → narrow_unsigned 16 r ≡ narrowed 16 (λ x. ltb x (2 ^ 16)) r
unfolding narrow_unsigned
unsigned_16 (error e) = refl
unsigned_16 (ok x) = ground arith

unsigned_8 : (r : Result ℕ) → narrow_unsigned 8 r ≡ narrowed 8 (λ x. ltb x (2 ^ 8)) r
unfolding narrow_unsigned
unsigned_8 (error e) = refl
unsigned_8 (ok x) = ground arith

if-Bounded : (b : Bool) (x y : Result ℕ) → Bounded x → Bounded y → Bounded (if b then x else y)
if-Bounded true x y p q = p
if-Bounded false x y p q = q

unchecked-Bounded :
    (str : List ℕ) (number base : ℕ)
    → number < word
    → Bounded (do_str_to_u64_unchecked str number base)
unfolding do_str_to_u64_unchecked
unchecked-Bounded [] number base h = h
unchecked-Bounded (c ∷ str) number base h =
    go (digit_of c)
      (λ digit. unchecked-Bounded str ((number * base + digit) % word) base (omega arith))
  where
    go :
        (d : Option ℕ)
        → ((digit : ℕ)
            → Bounded (do_str_to_u64_unchecked str ((number * base + digit) % word) base))
        → Bounded (elim d [
          | none ↦ error einval
          | some digit ↦
              let next = (number * base + digit) % word in
              let later = do_str_to_u64_unchecked str next base in
              if not (next / base == number) then error erange else later
        ])
    go none h = tt
    go (some digit) h =
        if-Bounded (not ((number * base + digit) % word / base == number)) (error erange)
          (do_str_to_u64_unchecked str ((number * base + digit) % word) base) tt (h digit)

u64-Bounded : (str : List ℕ) (base : ℕ) → Bounded (do_str_to_u64 str base)
unfolding do_str_to_u64
u64-Bounded str base =
    let (cb, rest) = consume_base str in
    if-Bounded (base == 0 && cb == 0) (error einval)
      (do_str_to_u64_unchecked rest 0 (if base == 0 then cb else base)) tt
      (unchecked-Bounded rest 0 (if base == 0 then cb else base) (omega arith))

negate-Bounded : (r : Result ℕ) → Bounded (negate r)
unfolding negate
negate-Bounded (error e) = tt
negate-Bounded (ok x) =
    if-Bounded (ltb 0 ((word - x) % word) && ltb ((word - x) % word) (2 ^ 63)) (error erange)
      (ok ((word - x) % word)) tt (omega arith)

check_positive-Bounded : (r : Result ℕ) → Bounded r → Bounded (check_positive r)
unfolding check_positive
check_positive-Bounded (error e) h = tt
check_positive-Bounded (ok x) h = if-Bounded (ltb (2 ^ 63 - 1) x) (error erange) (ok x) tt h

-- Every result is a 64-bit number.
i64-Bounded : (str : List ℕ) (base : ℕ) → Bounded (str_to_i64_with_base str base)
unfolding str_to_i64_with_base
i64-Bounded str base =
    if-Bounded (str_starts_with str (45 ∷ [])) (negate (do_str_to_u64 (drop 1 str) base))
      (check_positive (do_str_to_u64 (skip str 43) base))
      (negate-Bounded (do_str_to_u64 (drop 1 str) base))
      (check_positive-Bounded (do_str_to_u64 (skip str 43) base) (u64-Bounded (skip str 43) base))

abbrev pub signed_of : Bool → Result ℕ → Result ℕ
signed_of negative (error e) = error e
signed_of negative (ok v) = signed_result negative v

negate_lem : (r : Result ℕ) → Bounded r → negate r ≡ signed_of true r
unfolding negate
negate_lem (error e) b = refl
negate_lem (ok v) b = ground arith

check_positive_lem : (r : Result ℕ) → Bounded r → check_positive r ≡ signed_of false r
unfolding check_positive
check_positive_lem (error e) b = refl
check_positive_lem (ok v) b = ground arith

drop_0 : (l : List ℕ) → drop 0 l ≡ l
drop_0 [] = refl
drop_0 (x ∷ l) = refl

-- `str_to_i64_with_base` reads what follows a sign as a number without one. For the value `v` the
-- result is minus `v` in two's complement after `-` where `v` is at most 2^63, `v` itself after `+` where
-- it is below 2^63, and ERANGE for larger values; an error stays the same error.
pub str_to_i64-sign :
    (str : List ℕ) (base : ℕ)
    → (str_to_i64_with_base (45 ∷ str) base ≡ signed_of true (do_str_to_u64 str base))
      × (str_to_i64_with_base (43 ∷ str) base ≡ signed_of false (do_str_to_u64 str base))
unfolding str_to_i64_with_base skip
str_to_i64-sign str base = (
  rw (starts_1 45 45 str, drop_0 str) (negate_lem (do_str_to_u64 str base) (u64-Bounded str base)),
  rw (starts_1 43 45 str, starts_1 43 43 str, drop_0 str)
      (check_positive_lem (do_str_to_u64 str base) (u64-Bounded str base)),
)

-- The conversions to 32, 16 and 8 bits give the 64-bit result cut to their width where their type can
-- hold it, and ERANGE where it can not; an error of the 64-bit conversion stays.
pub narrow :
    (str : List ℕ) (base : ℕ)
    → (str_to_i32_with_base str base ≡ narrowed 32 (fits_signed 32) (str_to_i64_with_base str base))
      × (str_to_i16_with_base str base
          ≡ narrowed 16 (fits_signed 16) (str_to_i64_with_base str base))
      × (str_to_i8_with_base str base ≡ narrowed 8 (fits_signed 8) (str_to_i64_with_base str base))
      × (str_to_u32_with_base str base
          ≡ narrowed 32 (λ x. ltb x (2 ^ 32)) (str_to_u64_with_base str base))
      × (str_to_u16_with_base str base
          ≡ narrowed 16 (λ x. ltb x (2 ^ 16)) (str_to_u64_with_base str base))
      × (str_to_u8_with_base str base
          ≡ narrowed 8 (λ x. ltb x (2 ^ 8)) (str_to_u64_with_base str base))
unfolding str_to_i32_with_base str_to_i16_with_base str_to_i8_with_base str_to_u32_with_base
    str_to_u16_with_base str_to_u8_with_base
narrow str base = (
  signed_32 (str_to_i64_with_base str base) (i64-Bounded str base),
  signed_16 (str_to_i64_with_base str base) (i64-Bounded str base),
  signed_8 (str_to_i64_with_base str base) (i64-Bounded str base),
  unsigned_32 (str_to_u64_with_base str base),
  unsigned_16 (str_to_u64_with_base str base),
  unsigned_8 (str_to_u64_with_base str base),
)
