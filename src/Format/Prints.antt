-- ===== src/Format/Prints.antt =====
-- kernel/common/format.c: what `vsnprintf` prints for a format, directive by directive.
use ultra.Prelude.{ℕ, ◌+◌, ◌%◌, ◌^◌, ◌<◌, ◌≡◌, false, some, List, [], ◌∷◌, ◌++◌, length, ◌==◌}
use ultra.Format.{FmtSpec}
use ultra.Format.Digits.{IsNumeral}
use ultra.Format.Integer.{magnitude, sign_text, layout, prefix_text}
use ultra.Format.Spec.{Arg, int_arg, chars_arg, initial_fm}
use ultra.Format.Parse.{AllFlags, set_flags, IsWidth}
use ultra.Format.Directives.{
  Length, Specifier, length_text, length_arg, specifier_char, specified, specified_value,
}

-- "%%", "%c", "%s", and an integer with flags, the digits of a width and the width, a length and a specifier.
pub data Directive : Type 0 where
  percent : Directive
  char : ℕ → Directive
  chars : List ℕ → Directive
  integer : List ℕ → List ℕ → ℕ → Length → Specifier → ℕ → Directive

-- What stands behind the "%".
abbrev pub directive_text : Directive → List ℕ
directive_text percent = 37 ∷ []
directive_text (char x) = 99 ∷ []
directive_text (chars string) = 115 ∷ []
directive_text (integer flags width w len s x) =
    flags ++ (width ++ (length_text len ++ (specifier_char s ∷ [])))

-- A string ends with a 0.
abbrev pub directive_args : Directive → List Arg
directive_args percent = []
directive_args (char x) = int_arg x ∷ []
directive_args (chars string) = chars_arg (some (string ++ (0 ∷ []))) ∷ []
directive_args (integer flags width w len s x) = length_arg len x ∷ []

abbrev pub NonZero : List ℕ → Type 0
NonZero [] = Unit
NonZero (c ∷ string) = (0 < c) × NonZero string

abbrev pub IsDirective : Directive → Type 0
IsDirective percent = Unit
IsDirective (char x) = Unit
IsDirective (chars string) = NonZero string
IsDirective (integer flags width w len s x) = AllFlags flags × IsWidth width w

abbrev pub spec_of : List ℕ → ℕ → Specifier → FmtSpec
spec_of flags w s = specified (record (set_flags flags initial_fm.fm) { min_width = w }) s

-- What a directive prints: of an integer, the sign, the prefix and the numeral, padded to the width.
abbrev pub Shows : Directive → List ℕ → Type 0
Shows percent o = o ≡ 37 ∷ []
Shows (char x) o = o ≡ (x % 2 ^ 32 % 256) ∷ []
Shows (chars string) o = o ≡ string
Shows (integer flags width w len s x) o =
    let fm = spec_of flags w s in
    let value = specified_value len s x in
    (digits : List ℕ) × IsNumeral fm.uppercase fm.base (magnitude fm value) digits
    × (o ≡ sign_text fm value ++ layout fm (prefix_text fm ++ digits))

-- At most so many bytes are printed.
abbrev pub room : Directive → ℕ
room percent = 1
room (char x) = 1
room (chars string) = length string
room (integer flags width w len s x) = w + 25

-- A format is texts, each before a directive, and a last text.
abbrev pub format_text : List (List ℕ × Directive) → List ℕ → List ℕ
format_text [] last = last
format_text ((t, d) ∷ ds) last = t ++ (37 ∷ (directive_text d ++ format_text ds last))

abbrev pub format_args : List (List ℕ × Directive) → List Arg
format_args [] = []
format_args ((t, d) ∷ ds) = directive_args d ++ format_args ds

abbrev pub NoPercent : List ℕ → Type 0
NoPercent [] = Unit
NoPercent (c ∷ t) = ((c == 37) ≡ false) × NoPercent t

abbrev pub IsFormat : List (List ℕ × Directive) → List ℕ → Type 0
IsFormat [] last = NoPercent last
IsFormat ((t, d) ∷ ds) last = NoPercent t × IsDirective d × IsFormat ds last

abbrev pub Prints : List (List ℕ × Directive) → List ℕ → List ℕ → Type 0
Prints [] last out = out ≡ last
Prints ((t, d) ∷ ds) last out =
    (o : List ℕ) × (rest : List ℕ) × (out ≡ t ++ (o ++ rest)) × Shows d o × Prints ds last rest

abbrev pub room_of : List (List ℕ × Directive) → List ℕ → ℕ
room_of [] last = length last
room_of ((t, d) ∷ ds) last = length t + room d + room_of ds last
