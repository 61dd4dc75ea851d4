-- ===== src/Format/Tests.antt =====
-- Runs of the writers.
use ultra.Prelude.{
  ℕ, ◌≡◌, ◌-◌, ◌^◌, refl, inl, inr, true, false, List, [], ◌∷◌, ◌++◌, done, Returns, arith, some,
  min,
}
use ultra.Text.Numbers.{
  ok, str_to_u64_with_base, do_str_to_u64, do_str_to_u64_unchecked, consume_base, digit_of, skip,
}
use ultra.Text.Ctype.{isdigit, isxdigit, is_char_of_type, tolower}
use ultra.Text.Strings.{str_starts_with, str_empty, str_find_one, equal_with, find_char}
use ultra.Format.Spec.{
  int_arg, chars_arg, consume_digits, parse_number, consume, consume_one_of, base_from_specifier,
  is_uppercase_specifier, flags_loop, star_or_number, parse_precision, parse_width,
}
use ultra.Format.Conversions.{
  write_int, consume_signed, convert_unsigned, convert_integer, convert_char, chars_loop,
  convert_chars, convert_string, convert_pointer, convert_spec, convert,
}
use ultra.Format.Print.{write_text, print_loop, terminate, vsnprintf, vscnprintf}
use ultra.Format.Prints.{chars, integer, IsFormat}
use ultra.Format.Directives.{int_length, decimal_d}
use ultra.Format.Output.{Outputs, vsnprintf-Outputs, vscnprintf-Outputs}
use ultra.Format.{
  FmtBufState, FmtSpec, write_one, write_many, write_padding, write_integer, repr_of, repr_loop,
  repr_char, put, put_zero, put_prefix, hex_char, pad_loop,
}
use ultra.Format.Buffer.{Holds, shown, padding}
use ultra.Format.Digits.{IsNumeral}
use ultra.Format.Integer.{magnitude, sign_text, layout, prefix_text, write_integer-Holds}
use ultra.Format.RoundTrip.{str_to_u64-repr_of}

-- A buffer of 4 bytes in memory of 6.
abbrev memory : List ℕ
memory = 0 ∷ 0 ∷ 0 ∷ 0 ∷ 9 ∷ 9 ∷ []

abbrev start : FmtBufState
start = record { buffer = memory; capacity = 4; bytes_written = 0 }

-- "%#x"
abbrev hex_spec : FmtSpec
hex_spec = record {
  is_signed = false;
  prepend = false;
  uppercase = false;
  left_justify = false;
  alternate_form = true;
  pad_char = 32;
  prepend_char = 0;
  min_width = 0;
  base = 16;
}

-- "%5d"
abbrev signed_spec : FmtSpec
signed_spec = record {
  is_signed = true;
  prepend = false;
  uppercase = false;
  left_justify = false;
  alternate_form = false;
  pad_char = 32;
  prepend_char = 0;
  min_width = 5;
  base = 10;
}

runs : Unit {0}
unfolding consume_digits parse_number consume consume_one_of base_from_specifier
    is_uppercase_specifier flags_loop star_or_number parse_precision parse_width write_int
    consume_signed convert_unsigned convert_integer convert_char chars_loop convert_chars
    convert_string convert_pointer convert_spec convert write_text print_loop terminate vsnprintf
    vscnprintf isdigit isxdigit is_char_of_type tolower str_starts_with str_empty str_find_one
    equal_with find_char str_to_u64_with_base do_str_to_u64 do_str_to_u64_unchecked consume_base
    digit_of skip write_one write_many write_padding write_integer repr_of repr_loop repr_char put
    put_zero put_prefix hex_char pad_loop shown
runs = tt

-- Of "-   42" the buffer holds 4 bytes, and the sign stands before the padding.
write_integer_test :
    write_integer start signed_spec (2 ^ 64 - 42)
    ≡ done (record { buffer = 45 ∷ 32 ∷ 32 ∷ 32 ∷ 9 ∷ 9 ∷ []; capacity = 4; bytes_written = 6 })
unfolding runs
write_integer_test = refl

start-Holds : Holds 4 memory [] start
unfolding runs
start-Holds = record { capacity = refl; buffer = refl; bytes_written = refl }

write_integer-Holds_example : Returns (write_integer start signed_spec 42) (λ s'.
    (digits : List ℕ) × IsNumeral false 10 (magnitude signed_spec 42) digits
    × Holds 4 memory
        ([] ++ (sign_text signed_spec 42 ++ layout signed_spec (prefix_text signed_spec ++ digits)))
        s')
write_integer-Holds_example =
    write_integer-Holds 4 memory [] start signed_spec 42 (omega arith) start-Holds (inr (inl refl))
      (omega arith) (omega arith)

str_to_u64-repr_of_example :
    Returns (repr_of hex_spec 48879) (λ repr. str_to_u64_with_base repr 0 ≡ ok 48879)
str_to_u64-repr_of_example = str_to_u64-repr_of hex_spec 48879 refl refl (inr refl) (omega arith)

-- "%#x|%05u|%s|%c%%|%hhd" with 255, 42, "ab", "!" and 200
vsnprintf_test :
    vsnprintf
      (padding 32 9)
      24
      (37 ∷ 35 ∷ 120 ∷ 124 ∷ 37 ∷ 48 ∷ 53 ∷ 117 ∷ 124 ∷ 37 ∷ 115 ∷ 124 ∷ 37 ∷ 99 ∷ 37 ∷ 37 ∷ 124
        ∷ 37 ∷ 104 ∷ 104 ∷ 100 ∷ [])
      (int_arg 255
        ∷ int_arg 42
        ∷ chars_arg (some (97 ∷ 98 ∷ 0 ∷ []))
        ∷ int_arg 33
        ∷ int_arg 200
        ∷ [])
    ≡ done (
      20,
      48
          ∷ 120
          ∷ 102
          ∷ 102
          ∷ 124
          ∷ 48
          ∷ 48
          ∷ 48
          ∷ 52
          ∷ 50
          ∷ 124
          ∷ 97
          ∷ 98
          ∷ 124
          ∷ 33
          ∷ 37
          ∷ 124
          ∷ 45
          ∷ 53
          ∷ 54
          ∷ 0
          ∷ padding 11 9,
    )
unfolding runs
vsnprintf_test = refl

-- An unknown specifier is refused, and the buffer is left without a terminating 0.
vsnprintf_unknown_test :
    vsnprintf (padding 4 9) 4 (97 ∷ 37 ∷ 121 ∷ []) [] ≡ done (2 ^ 32 - 28, 97 ∷ 9 ∷ 9 ∷ 9 ∷ [])
unfolding runs
vsnprintf_unknown_test = refl

-- "n=%-5d %s!" with -42 and "ab"
one-IsFormat :
    IsFormat
      ((110 ∷ 61 ∷ [], integer (45 ∷ []) (53 ∷ []) 5 int_length decimal_d (2 ^ 32 - 42))
        ∷ (32 ∷ [], chars (97 ∷ 98 ∷ []))
        ∷ [])
      (33 ∷ [])
unfolding runs
one-IsFormat = (
  (refl, (refl, tt)),
  ((refl, tt), ((refl, tt), omega arith, omega arith, refl)),
  ((refl, tt), (omega arith, (omega arith, tt)), (refl, tt)),
)

vsnprintf-Outputs_example :
    Returns
      (vsnprintf
        (padding 12 9)
        8
        (110 ∷ 61 ∷ 37 ∷ 45 ∷ 53 ∷ 100 ∷ 32 ∷ 37 ∷ 115 ∷ 33 ∷ [])
        (int_arg (2 ^ 32 - 42) ∷ chars_arg (some (97 ∷ 98 ∷ 0 ∷ [])) ∷ []))
      (Outputs 8
        (padding 12 9)
        ((110 ∷ 61 ∷ [], integer (45 ∷ []) (53 ∷ []) 5 int_length decimal_d (2 ^ 32 - 42))
          ∷ (32 ∷ [], chars (97 ∷ 98 ∷ []))
          ∷ [])
        (33 ∷ [])
        (λ n. n))
vsnprintf-Outputs_example =
    vsnprintf-Outputs
      ((110 ∷ 61 ∷ [], integer (45 ∷ []) (53 ∷ []) 5 int_length decimal_d (2 ^ 32 - 42))
        ∷ (32 ∷ [], chars (97 ∷ 98 ∷ []))
        ∷ [])
      (33 ∷ []) (padding 12 9) 8 one-IsFormat (omega arith) (omega arith)

vscnprintf-Outputs_example :
    Returns
      (vscnprintf
        (padding 12 9)
        8
        (110 ∷ 61 ∷ 37 ∷ 45 ∷ 53 ∷ 100 ∷ 32 ∷ 37 ∷ 115 ∷ 33 ∷ [])
        (int_arg (2 ^ 32 - 42) ∷ chars_arg (some (97 ∷ 98 ∷ 0 ∷ [])) ∷ []))
      (Outputs 8
        (padding 12 9)
        ((110 ∷ 61 ∷ [], integer (45 ∷ []) (53 ∷ []) 5 int_length decimal_d (2 ^ 32 - 42))
          ∷ (32 ∷ [], chars (97 ∷ 98 ∷ []))
          ∷ [])
        (33 ∷ [])
        (λ n. min n 7))
vscnprintf-Outputs_example =
    vscnprintf-Outputs
      ((110 ∷ 61 ∷ [], integer (45 ∷ []) (53 ∷ []) 5 int_length decimal_d (2 ^ 32 - 42))
        ∷ (32 ∷ [], chars (97 ∷ 98 ∷ []))
        ∷ [])
      (33 ∷ []) (padding 12 9) 8 one-IsFormat (omega arith) (omega arith) (omega arith)
