-- ===== src/Format/Values.antt =====
-- kernel/common/format.c: the bounds of the numbers and texts that a directive prints.
use ultra.Prelude.{
  ℕ, ◌+◌, ◌-◌, ◌%◌, ◌^◌, ◌≤◌, ◌<◌, ◌≡◌, inl, inr, refl, ◌∙◌, arith, Bool, true, false, List, [],
  ◌∷◌, ◌++◌, length, length-append, if◌then◌else◌,
}
use ultra.Format.{FmtSpec, word}
use ultra.Format.Buffer.{padding_of, length-padding}
use ultra.Format.Characters.{IsFormatBase}
use ultra.Format.Integer.{sign_text, layout, prefix_text, prefix-length}
use ultra.Format.Spec.{initial_fm, set_flag}
use ultra.Format.Parse.{set_flags, IsLetter}
use ultra.Format.Directives.{
  Length, Specifier, length_text, length_bits, arg_bits, specifier_char, specified_value,
  char_length, short_length, int_length, long_length, long_long_length, size_length, decimal_d,
  decimal_i, unsigned_u, hex_x, upper_hex_x, octal_o,
}
use ultra.Format.Prints.{spec_of}
use ultra.Text.Ctype.{isdigit, is_char_of_type}
use ultra.Text.Numbers.{sign_extend}

set_flags-base : (flags : List ℕ) (fm : FmtSpec) → (set_flags flags fm).base ≡ fm.base
set_flags-base [] fm = refl
set_flags-base (c ∷ flags) fm = set_flags-base flags (set_flag c fm) ∙ set_flag-base c fm
  where
    set_flag-base : (c : ℕ) (fm : FmtSpec) → (set_flag c fm).base ≡ fm.base
    set_flag-base c fm = ground arith

pub spec_of-IsFormatBase :
    (flags : List ℕ) (w : ℕ) (s : Specifier) → IsFormatBase (spec_of flags w s).base
spec_of-IsFormatBase flags w decimal_d = inr (inl (set_flags-base flags initial_fm.fm))
spec_of-IsFormatBase flags w decimal_i = inr (inl (set_flags-base flags initial_fm.fm))
spec_of-IsFormatBase flags w unsigned_u = inr (inl refl)
spec_of-IsFormatBase flags w hex_x = inr (inr refl)
spec_of-IsFormatBase flags w upper_hex_x = inr (inr refl)
spec_of-IsFormatBase flags w octal_o = inl refl

pub spec_of-min_width : (flags : List ℕ) (w : ℕ) (s : Specifier) → (spec_of flags w s).min_width ≡ w
spec_of-min_width flags w decimal_d = refl
spec_of-min_width flags w decimal_i = refl
spec_of-min_width flags w unsigned_u = refl
spec_of-min_width flags w hex_x = refl
spec_of-min_width flags w upper_hex_x = refl
spec_of-min_width flags w octal_o = refl

signed_lt : (len : Length) (x : ℕ) → x < word → sign_extend (length_bits len) x < word
signed_lt char_length x h = ground arith
signed_lt short_length x h = ground arith
signed_lt int_length x h = ground arith
signed_lt long_length x h = ground arith
signed_lt long_long_length x h = ground arith
signed_lt size_length x h = ground arith

unsigned_lt : (len : Length) (x : ℕ) → x % 2 ^ length_bits len < word
unsigned_lt char_length x = ground arith
unsigned_lt short_length x = ground arith
unsigned_lt int_length x = ground arith
unsigned_lt long_length x = ground arith
unsigned_lt long_long_length x = ground arith
unsigned_lt size_length x = ground arith

arg_lt : (len : Length) (x : ℕ) → x % 2 ^ arg_bits len < word
arg_lt char_length x = ground arith
arg_lt short_length x = ground arith
arg_lt int_length x = ground arith
arg_lt long_length x = ground arith
arg_lt long_long_length x = ground arith
arg_lt size_length x = ground arith

pub specified_value-lt : (len : Length) (s : Specifier) (x : ℕ) → specified_value len s x < word
specified_value-lt len decimal_d x = signed_lt len (x % 2 ^ arg_bits len) (arg_lt len x)
specified_value-lt len decimal_i x = signed_lt len (x % 2 ^ arg_bits len) (arg_lt len x)
specified_value-lt len unsigned_u x = unsigned_lt len (x % 2 ^ arg_bits len)
specified_value-lt len hex_x x = unsigned_lt len (x % 2 ^ arg_bits len)
specified_value-lt len upper_hex_x x = unsigned_lt len (x % 2 ^ arg_bits len)
specified_value-lt len octal_o x = unsigned_lt len (x % 2 ^ arg_bits len)

-- An integer directive goes on with a letter behind its width.
pub letter :
    (len : Length) (s : Specifier) (rest : List ℕ)
    → (c : ℕ) × (tail : List ℕ) × (length_text len ++ (specifier_char s ∷ rest) ≡ c ∷ tail)
      × IsLetter c
unfolding isdigit is_char_of_type
letter char_length s rest = (104, 104 ∷ specifier_char s ∷ rest, refl, (refl, omega arith))
letter short_length s rest = (104, specifier_char s ∷ rest, refl, (refl, omega arith))
letter int_length decimal_d rest = (100, rest, refl, (refl, omega arith))
letter int_length decimal_i rest = (105, rest, refl, (refl, omega arith))
letter int_length unsigned_u rest = (117, rest, refl, (refl, omega arith))
letter int_length hex_x rest = (120, rest, refl, (refl, omega arith))
letter int_length upper_hex_x rest = (88, rest, refl, (refl, omega arith))
letter int_length octal_o rest = (111, rest, refl, (refl, omega arith))
letter long_length s rest = (108, specifier_char s ∷ rest, refl, (refl, omega arith))
letter long_long_length s rest = (108, 108 ∷ specifier_char s ∷ rest, refl, (refl, omega arith))
letter size_length s rest = (122, specifier_char s ∷ rest, refl, (refl, omega arith))

length-if :
    (b : Bool) (x y : List ℕ) (n : ℕ)
    → length x ≤ n
    → length y ≤ n
    → length (if b then x else y) ≤ n
length-if true x y n h k = h
length-if false x y n h k = k

layout-length :
    (fm : FmtSpec) (repr : List ℕ) → length (layout fm repr) ≤ fm.min_width + length repr
layout-length fm repr =
    let pad = padding_of fm (length repr) in
    let size =
      length-padding (fm.min_width - length repr) (if fm.left_justify then 32 else fm.pad_char) in
    length-if fm.left_justify (repr ++ pad) (pad ++ repr) (fm.min_width + length repr)
      (omega (arith, length-append repr pad, size)) (omega (arith, length-append pad repr, size))

sign-length : (fm : FmtSpec) (value : ℕ) → length (sign_text fm value) ≤ 1
sign-length fm value = ground arith

-- A sign, a prefix and 22 digits are 25 characters at most, and the width adds what they lack.
pub shown-length :
    (fm : FmtSpec) (value : ℕ) (digits : List ℕ)
    → length digits ≤ 22
    → length (sign_text fm value ++ layout fm (prefix_text fm ++ digits)) ≤ fm.min_width + 25
shown-length fm value digits h = omega (
  arith,
  length-append (sign_text fm value) (layout fm (prefix_text fm ++ digits)),
  sign-length fm value,
  layout-length fm (prefix_text fm ++ digits),
  length-append (prefix_text fm) digits,
  prefix-length fm,
)
