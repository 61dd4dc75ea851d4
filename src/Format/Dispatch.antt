-- ===== src/Format/Dispatch.antt =====
-- kernel/common/format.c: which conversion an integer directive gets.
use ultra.Prelude.{
  ℕ, ◌%◌, ◌^◌, ◌≡◌, refl, ap, ◌∙◌, false, List, ◌∷◌, ◌++◌, ◌==◌, Outcome, done, ◌>>=◌,
}
use ultra.Format.{FmtSpec, FmtBufState, write_integer}
use ultra.Format.Spec.{
  Arg, arg_int, arg_long, PrecisionSpec, Printing, Step, go_on, consume_one_of, base_from_specifier,
  is_uppercase_specifier,
}
use ultra.Format.Conversions.{
  consume_signed, write_int, convert_unsigned, convert_integer, convert_spec,
}
use ultra.Format.Parse.{consume_one, consume_two, consume_two_of_ne}
use ultra.Text.Strings.{find_char, str_find_one}
use ultra.Format.Directives.{
  char_length, short_length, int_length, long_length, long_long_length, size_length, decimal_d,
  decimal_i, unsigned_u, hex_x, upper_hex_x, octal_o, Length, length_text, length_bits, length_arg,
  arg_bits, Specifier, specifier_char, specified, value_of, specified_value,
}

-- The number is written, and the loop goes on behind the directive.
abbrev pub written_number : FmtSpec → ℕ → Printing → Outcome (Step Printing)
written_number fm value p = write_integer p.fb_state fm value >>= λ fb_state.
    done (go_on (record p { fb_state = fb_state }))

integer_lem :
    (read : List Arg → Outcome (ℕ × List Arg)) (bits : ℕ) (fm : FmtSpec) (s : Specifier)
    (rest : List ℕ) (args : List Arg) (fb_state : FmtBufState)
    → convert_integer read bits fm
        (record { fmt = specifier_char s ∷ rest; args = args; fb_state = fb_state })
      ≡ (read args >>= λ r.
          written_number
            (specified fm s)
            (value_of bits s r.0)
            (record { fmt = rest; args = r.1; fb_state = fb_state }))
unfolding convert_integer consume_signed convert_unsigned consume_one_of str_find_one find_char
    write_int base_from_specifier is_uppercase_specifier
integer_lem read bits fm decimal_d rest args fb_state = rw (consume_one 100 100 rest) refl
integer_lem read bits fm decimal_i rest args fb_state =
    rw (consume_one 105 100 rest, consume_one 105 105 rest) refl
integer_lem read bits fm unsigned_u rest args fb_state =
    rw (consume_one 117 100 rest, consume_one 117 105 rest) refl
integer_lem read bits fm hex_x rest args fb_state =
    rw (consume_one 120 100 rest, consume_one 120 105 rest) refl
integer_lem read bits fm upper_hex_x rest args fb_state =
    rw (consume_one 88 100 rest, consume_one 88 105 rest) refl
integer_lem read bits fm octal_o rest args fb_state =
    rw (consume_one 111 100 rest, consume_one 111 105 rest) refl

-- `convert_spec` on an integer directive without flags and width.
int_spec_lem :
    (s : Specifier) (spec : PrecisionSpec) (args : List Arg) (fb_state : FmtBufState)
    (rest : List ℕ)
    → convert_spec spec (record { fmt = specifier_char s ∷ rest; args = args; fb_state = fb_state })
      ≡ convert_integer arg_int 32 spec.fm
          (record { fmt = specifier_char s ∷ rest; args = args; fb_state = fb_state })
unfolding convert_spec
int_spec_lem decimal_d spec args fb_state rest =
    rw
      (
        consume_one 100 99 rest,
        consume_one 100 115 rest,
        consume_one 100 112 rest,
        consume_two_of_ne 100 104 rest refl,
        consume_one 100 104 rest,
        consume_two_of_ne 100 108 rest refl,
        consume_one 100 122 rest,
        consume_one 100 108 rest,
      )
      refl
int_spec_lem decimal_i spec args fb_state rest =
    rw
      (
        consume_one 105 99 rest,
        consume_one 105 115 rest,
        consume_one 105 112 rest,
        consume_two_of_ne 105 104 rest refl,
        consume_one 105 104 rest,
        consume_two_of_ne 105 108 rest refl,
        consume_one 105 122 rest,
        consume_one 105 108 rest,
      )
      refl
int_spec_lem unsigned_u spec args fb_state rest =
    rw
      (
        consume_one 117 99 rest,
        consume_one 117 115 rest,
        consume_one 117 112 rest,
        consume_two_of_ne 117 104 rest refl,
        consume_one 117 104 rest,
        consume_two_of_ne 117 108 rest refl,
        consume_one 117 122 rest,
        consume_one 117 108 rest,
      )
      refl
int_spec_lem hex_x spec args fb_state rest =
    rw
      (
        consume_one 120 99 rest,
        consume_one 120 115 rest,
        consume_one 120 112 rest,
        consume_two_of_ne 120 104 rest refl,
        consume_one 120 104 rest,
        consume_two_of_ne 120 108 rest refl,
        consume_one 120 122 rest,
        consume_one 120 108 rest,
      )
      refl
int_spec_lem upper_hex_x spec args fb_state rest =
    rw
      (
        consume_one 88 99 rest,
        consume_one 88 115 rest,
        consume_one 88 112 rest,
        consume_two_of_ne 88 104 rest refl,
        consume_one 88 104 rest,
        consume_two_of_ne 88 108 rest refl,
        consume_one 88 122 rest,
        consume_one 88 108 rest,
      )
      refl
int_spec_lem octal_o spec args fb_state rest =
    rw
      (
        consume_one 111 99 rest,
        consume_one 111 115 rest,
        consume_one 111 112 rest,
        consume_two_of_ne 111 104 rest refl,
        consume_one 111 104 rest,
        consume_two_of_ne 111 108 rest refl,
        consume_one 111 122 rest,
        consume_one 111 108 rest,
      )
      refl

-- The character of a specifier is not that of a length.
specifier_no_length :
    (s : Specifier) → ((specifier_char s == 104) ≡ false) × ((specifier_char s == 108) ≡ false)
specifier_no_length decimal_d = (refl, refl)
specifier_no_length decimal_i = (refl, refl)
specifier_no_length unsigned_u = (refl, refl)
specifier_no_length hex_x = (refl, refl)
specifier_no_length upper_hex_x = (refl, refl)
specifier_no_length octal_o = (refl, refl)

abbrev read_of : Length → List Arg → Outcome (ℕ × List Arg)
read_of char_length = arg_int
read_of short_length = arg_int
read_of int_length = arg_int
read_of long_length = arg_long
read_of long_long_length = arg_long
read_of size_length = arg_long

spec_lem :
    (len : Length) (s : Specifier) (spec : PrecisionSpec) (args : List Arg) (fb_state : FmtBufState)
    (rest : List ℕ)
    → convert_spec spec (record {
      fmt = length_text len ++ (specifier_char s ∷ rest);
      args = args;
      fb_state = fb_state;
    })
      ≡ convert_integer
          (read_of len)
          (length_bits len)
          spec.fm
          (record { fmt = specifier_char s ∷ rest; args = args; fb_state = fb_state })
unfolding convert_spec
spec_lem char_length s spec args fb_state rest =
    rw
      (
        consume_one 104 99 (104 ∷ specifier_char s ∷ rest),
        consume_one 104 115 (104 ∷ specifier_char s ∷ rest),
        consume_one 104 112 (104 ∷ specifier_char s ∷ rest),
        consume_two 104 104 104 (specifier_char s ∷ rest),
      )
      refl
spec_lem short_length s spec args fb_state rest =
    rw
      (
        consume_one 104 99 (specifier_char s ∷ rest),
        consume_one 104 115 (specifier_char s ∷ rest),
        consume_one 104 112 (specifier_char s ∷ rest),
        consume_two 104 (specifier_char s) 104 rest,
        (specifier_no_length s).0,
        consume_one 104 104 (specifier_char s ∷ rest),
      )
      refl
spec_lem int_length s spec args fb_state rest = int_spec_lem s spec args fb_state rest
spec_lem long_length s spec args fb_state rest =
    rw
      (
        consume_one 108 99 (specifier_char s ∷ rest),
        consume_one 108 115 (specifier_char s ∷ rest),
        consume_one 108 112 (specifier_char s ∷ rest),
        consume_two_of_ne 108 104 (specifier_char s ∷ rest) refl,
        consume_one 108 104 (specifier_char s ∷ rest),
        consume_two 108 (specifier_char s) 108 rest,
        (specifier_no_length s).1,
        consume_one 108 122 (specifier_char s ∷ rest),
        consume_one 108 108 (specifier_char s ∷ rest),
      )
      refl
spec_lem long_long_length s spec args fb_state rest =
    rw
      (
        consume_one 108 99 (108 ∷ specifier_char s ∷ rest),
        consume_one 108 115 (108 ∷ specifier_char s ∷ rest),
        consume_one 108 112 (108 ∷ specifier_char s ∷ rest),
        consume_two_of_ne 108 104 (108 ∷ specifier_char s ∷ rest) refl,
        consume_one 108 104 (108 ∷ specifier_char s ∷ rest),
        consume_two 108 108 108 (specifier_char s ∷ rest),
      )
      refl
spec_lem size_length s spec args fb_state rest =
    rw
      (
        consume_one 122 99 (specifier_char s ∷ rest),
        consume_one 122 115 (specifier_char s ∷ rest),
        consume_one 122 112 (specifier_char s ∷ rest),
        consume_two_of_ne 122 104 (specifier_char s ∷ rest) refl,
        consume_one 122 104 (specifier_char s ∷ rest),
        consume_two_of_ne 122 108 (specifier_char s ∷ rest) refl,
        consume_one 122 122 (specifier_char s ∷ rest),
      )
      refl

taken :
    (len : Length) (x : ℕ) (args : List Arg)
    → read_of len (length_arg len x ∷ args) ≡ done (x % 2 ^ arg_bits len, args)
taken char_length x args = refl
taken short_length x args = refl
taken int_length x args = refl
taken long_length x args = refl
taken long_long_length x args = refl
taken size_length x args = refl

-- An integer directive without flags and width takes its argument, and writes the low bits of it.
pub convert_spec-integer :
    (len : Length) (s : Specifier) (spec : PrecisionSpec) (x : ℕ) (args : List Arg)
    (fb_state : FmtBufState) (rest : List ℕ)
    → convert_spec spec (record {
      fmt = length_text len ++ (specifier_char s ∷ rest);
      args = length_arg len x ∷ args;
      fb_state = fb_state;
    })
      ≡ written_number
          (specified spec.fm s)
          (specified_value len s x)
          (record { fmt = rest; args = args; fb_state = fb_state })
convert_spec-integer len s spec x args fb_state rest =
    spec_lem len s spec (length_arg len x ∷ args) fb_state rest
    ∙ integer_lem (read_of len) (length_bits len) spec.fm s rest (length_arg len x ∷ args) fb_state
    ∙ ap
        (λ (r : Outcome (ℕ × List Arg)). r >>= λ r.
          written_number (specified spec.fm s) (value_of (length_bits len) s r.0)
            (record { fmt = rest; args = r.1; fb_state = fb_state }))
        (taken len x args)
