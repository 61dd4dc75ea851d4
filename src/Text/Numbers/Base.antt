-- ===== src/Text/Numbers/Base.antt =====
-- The prefix of a number decides its base.
use ultra.Prelude.{
  ℕ, ◌<◌, ◌≡◌, ◌≢◌, ◌∙◌, ap, sym, inl, inr, refl, true, false, ◌&&◌, none, some, List, [], ◌∷◌,
  ◌++◌, ◌==◌, drop, arith, ==_of_ne,
}
use ultra.Text.Ctype.{isdigit, isxdigit, is_char_of_type, tolower, isupper}
use ultra.Text.Ctype.Laws.{isdigit_lem}
use ultra.Text.Strings.{str_starts_with, equal_with}
use ultra.Text.Numbers.{
  consume_base, digit_of, skip, do_str_to_u64, do_str_to_u64_unchecked, str_to_u64_with_base,
}
use ultra.Text.Numbers.Digits.{
  IsBase, IsDigits, digit, value, checked, do_str_to_u64_unchecked-value,
}

pub starts_1 : (c p : ℕ) (str : List ℕ) → str_starts_with (c ∷ str) (p ∷ []) ≡ (c == p)
unfolding str_starts_with equal_with
starts_1 c p str = ground arith

starts_2 :
    (c d p q : ℕ) (str : List ℕ) → str_starts_with (c ∷ d ∷ str) (p ∷ q ∷ []) ≡ (c == p && d == q)
unfolding str_starts_with equal_with
starts_2 c d p q str = ground arith

starts_short : (c p q : ℕ) → str_starts_with (c ∷ []) (p ∷ q ∷ []) ≡ false
unfolding str_starts_with equal_with
starts_short c p q = ground arith

-- What `consume_base` makes of a string.
hex_base : (str : List ℕ) → consume_base (48 ∷ 120 ∷ str) ≡ (16, str)
unfolding consume_base
hex_base str = rw (starts_2 48 120 48 120 str) (drop_0 str)
  where
    drop_0 : (l : List ℕ) → ◌≡◌ {A = ℕ × List ℕ} (16, drop 0 l) (16, l)
    drop_0 [] = refl
    drop_0 (x ∷ l) = refl

binary_base : (str : List ℕ) → consume_base (48 ∷ 98 ∷ str) ≡ (2, str)
unfolding consume_base
binary_base str = rw (starts_2 48 98 48 120 str, starts_2 48 98 48 98 str) (drop_0 str)
  where
    drop_0 : (l : List ℕ) → ◌≡◌ {A = ℕ × List ℕ} (2, drop 0 l) (2, l)
    drop_0 [] = refl
    drop_0 (x ∷ l) = refl

x_digit : digit_of 120 ≡ none
unfolding digit_of isdigit isxdigit is_char_of_type
x_digit = refl

b_digit : digit 98 ≡ 11
unfolding digit digit_of isdigit isxdigit is_char_of_type tolower isupper
b_digit = refl

octal_base : (str : List ℕ) → IsDigits 8 str → consume_base (48 ∷ str) ≡ (8, str)
unfolding consume_base
octal_base [] d = rw (starts_short 48 48 120, starts_short 48 48 98, starts_1 48 48 []) refl
octal_base (c ∷ str) (e, k, d) =
    rw
      (
        starts_2 48 c 48 120 str,
        starts_2 48 c 48 98 str,
        starts_1 48 48 (c ∷ str),
        ==_of_ne c 120 not_x,
        ==_of_ne c 98 not_b,
      )
      refl
  where
    cc_none : digit_of 120 ≡ some (digit c) → ⊥
    cc_none q = ground (arith, x_digit, q)

    not_x : c ≡ 120 → ⊥
    not_x p = let q : digit_of 120 ≡ some (digit c) = ap digit_of (sym p) ∙ e in cc_none q

    not_b : c ≡ 98 → ⊥
    not_b p = let q : digit c ≡ digit 98 = ap digit p in omega (arith, q, b_digit)

decimal_base :
    (c : ℕ) (str : List ℕ) → isdigit c ≡ true → c ≢ 48 → consume_base (c ∷ str) ≡ (10, c ∷ str)
unfolding consume_base
decimal_base c [] e n =
    rw (starts_short c 48 120, starts_short c 48 98, starts_1 c 48 [], ==_of_ne c 48 n, e) refl
decimal_base c (d ∷ str) e n =
    rw
      (starts_2 c d 48 120 str, starts_2 c d 48 98 str, starts_1 c 48 (d ∷ str), ==_of_ne c 48 n, e)
      refl

u64_zero :
    (str rest : List ℕ) (base : ℕ)
    → consume_base str ≡ (base, rest)
    → 0 < base
    → do_str_to_u64 str 0 ≡ do_str_to_u64_unchecked rest 0 base
unfolding do_str_to_u64
u64_zero str rest base e p = rw (e, ==_of_ne base 0 (λ q. omega arith)) refl

no_sign :
    (c : ℕ) (str : List ℕ) (base : ℕ)
    → c ≢ 43
    → c ≢ 45
    → str_to_u64_with_base (c ∷ str) base ≡ do_str_to_u64 (c ∷ str) base
unfolding str_to_u64_with_base skip
no_sign c str base p m =
    rw (starts_1 c 43 str, ==_of_ne c 43 p, starts_1 c 45 str, ==_of_ne c 45 m) refl

prefixed :
    (c : ℕ) (str rest : List ℕ) (base : ℕ)
    → c ≢ 43
    → c ≢ 45
    → consume_base (c ∷ str) ≡ (base, rest)
    → IsBase base
    → IsDigits base rest
    → str_to_u64_with_base (c ∷ str) 0 ≡ checked (value base 0 rest)
prefixed c str rest base p m e b d =
    no_sign c str 0 p m
    ∙ u64_zero (c ∷ str) rest base e (positive b)
    ∙ do_str_to_u64_unchecked-value base 0 rest b (omega arith) d
  where
    positive : IsBase base → 0 < base
    positive (inl e) = omega arith
    positive (inr (inl e)) = omega arith
    positive (inr (inr (inl e))) = omega arith
    positive (inr (inr (inr e))) = omega arith

-- The ways to write a number.
pub data Notation : Type 0 where
  hexadecimal binary octal decimal : Notation

abbrev pub radix : Notation → ℕ
radix hexadecimal = 16
radix binary = 2
radix octal = 8
radix decimal = 10

abbrev pub prefix_of : Notation → List ℕ
prefix_of hexadecimal = 48 ∷ 120 ∷ []
prefix_of binary = 48 ∷ 98 ∷ []
prefix_of octal = 48 ∷ []
prefix_of decimal = []

-- Digits of the notation; a decimal number does not start with 0.
abbrev pub IsNumeral : Notation → List ℕ → Type 0
IsNumeral hexadecimal str = IsDigits 16 str
IsNumeral binary str = IsDigits 2 str
IsNumeral octal str = IsDigits 8 str
IsNumeral decimal [] = ⊥
IsNumeral decimal (c ∷ str) = (48 < c) × (c < 58) × IsDigits 10 (c ∷ str)

-- Without a base, `str_to_u64_with_base` gives the value of the digits, or ERANGE exactly where a u64
-- cannot hold it: hexadecimal digits after 0x, binary digits after 0b, octal digits after 0, and
-- decimal digits that start with another one than 0.
pub str_to_u64-value :
    (n : Notation) (str : List ℕ)
    → IsNumeral n str
    → str_to_u64_with_base (prefix_of n ++ str) 0 ≡ checked (value (radix n) 0 str)
str_to_u64-value hexadecimal str d =
    prefixed 48 (120 ∷ str) str 16 (λ e. omega arith) (λ e. omega arith) (hex_base str)
      (inr (inr (inr refl))) d
str_to_u64-value binary str d =
    prefixed 48 (98 ∷ str) str 2 (λ e. omega arith) (λ e. omega arith) (binary_base str) (inl refl)
      d
str_to_u64-value octal str d =
    prefixed 48 str str 8 (λ e. omega arith) (λ e. omega arith) (octal_base str d) (inr (inl refl))
      d
str_to_u64-value decimal [] d = absurd d
str_to_u64-value decimal (c ∷ str) (a, b, d) =
    prefixed c str (c ∷ str) 10 (λ e. omega arith) (λ e. omega arith)
      (decimal_base c str (ground (arith, isdigit_lem c)) (λ e. omega arith)) (inr (inr (inl refl)))
      d

u64_given :
    (str rest : List ℕ) (taken base : ℕ)
    → consume_base str ≡ (taken, rest)
    → 0 < base
    → do_str_to_u64 str base ≡ do_str_to_u64_unchecked rest 0 base
unfolding do_str_to_u64
u64_given str rest taken base e p = rw (e, ==_of_ne base 0 (λ q. omega arith)) refl

hex_digits : (digit_of 48 ≡ some 0) × (digit_of 98 ≡ some 11) × (digit 48 ≡ 0)
unfolding digit digit_of isdigit isxdigit is_char_of_type tolower isupper
hex_digits = (refl, refl, refl)

-- The prefix is taken off the string even where the caller gives the base: in base 16 the digits
-- after 0b are the whole number, although b is a digit of that base.
pub str_to_u64_base_16 :
    (str : List ℕ)
    → IsDigits 16 str
    → (str_to_u64_with_base (48 ∷ 98 ∷ str) 16 ≡ checked (value 16 0 str))
      × IsDigits 16 (48 ∷ 98 ∷ str)
str_to_u64_base_16 str d = (
  no_sign 48 (98 ∷ str) 16 (λ e. omega arith) (λ e. omega arith)
      ∙ u64_given (48 ∷ 98 ∷ str) str 2 16 (binary_base str) (omega arith)
      ∙ do_str_to_u64_unchecked-value 16 0 str (inr (inr (inr refl))) (omega arith) d,
  (
    ground (arith, hex_digits),
    omega (arith, hex_digits),
    (ground (arith, hex_digits, b_digit), omega (arith, b_digit), d),
  ),
)
