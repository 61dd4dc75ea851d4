-- ===== src/Format/Directives.antt =====
-- kernel/common/format.c: the directives for integers, as text, as arguments, and by what they stand for.
use ultra.Prelude.{ℕ, ◌%◌, ◌^◌, true, false, List, [], ◌∷◌}
use ultra.Format.{FmtSpec}
use ultra.Format.Spec.{Arg, int_arg, long_arg}
use ultra.Text.Numbers.{sign_extend}

-- "hh", "h", "", "l", "ll" and "z"
pub data Length : Type 0 where
  char_length short_length int_length long_length long_long_length size_length : Length

abbrev pub length_text : Length → List ℕ
length_text char_length = 104 ∷ 104 ∷ []
length_text short_length = 104 ∷ []
length_text int_length = []
length_text long_length = 108 ∷ []
length_text long_long_length = 108 ∷ 108 ∷ []
length_text size_length = 122 ∷ []

abbrev pub length_bits : Length → ℕ
length_bits char_length = 8
length_bits short_length = 16
length_bits int_length = 32
length_bits long_length = 64
length_bits long_long_length = 64
length_bits size_length = 64

-- The type of the argument, by the default promotions.
abbrev pub length_arg : Length → ℕ → Arg
length_arg char_length x = int_arg x
length_arg short_length x = int_arg x
length_arg int_length x = int_arg x
length_arg long_length x = long_arg x
length_arg long_long_length x = long_arg x
length_arg size_length x = long_arg x

abbrev pub arg_bits : Length → ℕ
arg_bits char_length = 32
arg_bits short_length = 32
arg_bits int_length = 32
arg_bits long_length = 64
arg_bits long_long_length = 64
arg_bits size_length = 64

pub data Specifier : Type 0 where
  decimal_d decimal_i unsigned_u hex_x upper_hex_x octal_o : Specifier

abbrev pub specifier_char : Specifier → ℕ
specifier_char decimal_d = 100
specifier_char decimal_i = 105
specifier_char unsigned_u = 117
specifier_char hex_x = 120
specifier_char upper_hex_x = 88
specifier_char octal_o = 111

-- How the number is written.
abbrev pub specified : FmtSpec → Specifier → FmtSpec
specified fm decimal_d = record fm { is_signed = true }
specified fm decimal_i = record fm { is_signed = true }
specified fm unsigned_u = record fm { base = 10; uppercase = false }
specified fm hex_x = record fm { base = 16; uppercase = false }
specified fm upper_hex_x = record fm { base = 16; uppercase = true }
specified fm octal_o = record fm { base = 8; uppercase = false }

-- The low bits of an argument, as a signed or an unsigned number.
abbrev pub value_of : ℕ → Specifier → ℕ → ℕ
value_of bits decimal_d x = sign_extend bits x
value_of bits decimal_i x = sign_extend bits x
value_of bits unsigned_u x = x % 2 ^ bits
value_of bits hex_x x = x % 2 ^ bits
value_of bits upper_hex_x x = x % 2 ^ bits
value_of bits octal_o x = x % 2 ^ bits

abbrev pub specified_value : Length → Specifier → ℕ → ℕ
specified_value len s x = value_of (length_bits len) s (x % 2 ^ arg_bits len)
