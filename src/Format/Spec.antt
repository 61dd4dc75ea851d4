-- ===== src/Format/Spec.antt =====
-- kernel/common/format.c: the arguments of `vsnprintf`, and the flags, the width and the precision of a directive. The format
-- string is the list of its bytes without the terminating 0; an `int` is its 32 bits.
use ultra.Prelude.{
  ℕ, ◌%◌, ◌^◌, Bool, true, false, ◌||◌, Option, none, some, List, [], ◌∷◌, ◌==◌, if◌then◌else◌,
  length, drop, Outcome, done, fault, ◌>>=◌,
}
use ultra.Format.{FmtBufState, FmtSpec, word}
use ultra.Text.Ctype.{isdigit}
use ultra.Text.Strings.{str_starts_with, str_find_one, str_empty}
use ultra.Text.Numbers.{einval, ok, error, Result, sign_extend, str_to_u64_with_base}

-- An argument: the bits of an `int`, those of a `long` or a `long long`, the bytes from a `char` pointer on,
-- a `struct string`, or another pointer. A null pointer is `none`.
pub data Arg : Type 0 where
  int_arg long_arg pointer_arg : ℕ → Arg
  chars_arg string_arg : Option (List ℕ) → Arg

-- `struct fmt_spec` with the two fields of the precision
pub record PrecisionSpec : Type 0 where
  pub fm : FmtSpec
  pub has_precision : Bool
  pub precision : ℕ

-- What the loop changes: the rest of the format, the arguments that `va_arg` has not taken, and the buffer.
pub record Printing : Type 0 where
  pub fmt : List ℕ
  pub args : List Arg
  pub fb_state : FmtBufState

-- How a part of the loop ends: it goes on with a value, or `return -ret` ends the function.
pub data Step {ℓ} (A : Type ℓ) : Type ℓ where
  go_on : A → Step A
  return_error : ℕ → Step A

abbrev pub or_else {ℓ} : {A : Type ℓ} → A → Option A → A
or_else other none = other
or_else other (some a) = a

abbrev pub digits_loop : List ℕ → List ℕ × List ℕ
digits_loop [] = ([], [])
digits_loop (c ∷ fmt) =
    let (digits, rest) = digits_loop fmt in if isdigit c then (c ∷ digits, rest) else ([], c ∷ fmt)

-- The digits at the start, and the rest.
unfoldable pub consume_digits : List ℕ → List ℕ × List ℕ
consume_digits fmt = digits_loop fmt

abbrev pub converted_digits : List ℕ → Result ℕ → Step (ℕ × List ℕ)
converted_digits rest (ok value) = go_on (value, rest)
converted_digits rest (error ret) = return_error ret

-- `out_value` and the rest of the format; `must` is `PARSE_NUMBER_MODE_MUST`.
unfoldable pub parse_number : List ℕ → Bool → ℕ → Step (ℕ × List ℕ)
parse_number fmt must out_value =
    let (digits, rest) = consume_digits fmt in
    if str_empty digits
    then (if must then return_error einval else go_on (out_value, rest))
    else converted_digits rest (str_to_u64_with_base digits 10)

-- The rest of the format behind the token.
unfoldable pub consume : List ℕ → List ℕ → Option (List ℕ)
consume fmt tok = if str_starts_with fmt tok then some (drop (length tok) fmt) else none

unfoldable pub consume_one_of : List ℕ → List ℕ → Option (ℕ × List ℕ)
consume_one_of [] tok_list = none
consume_one_of (c ∷ str) tok_list = elim (str_find_one tok_list c 0) [
  | none ↦ none
  | some i ↦ some (c, str)
]

unfoldable pub base_from_specifier : ℕ → ℕ
base_from_specifier specifier =
    if specifier == 120 || specifier == 88 then 16 else if specifier == 111 then 8 else 10

unfoldable pub is_uppercase_specifier : ℕ → Bool
is_uppercase_specifier specifier = specifier == 88

-- The initial `fm`
abbrev pub initial_fm : PrecisionSpec
initial_fm = record {
  fm = record {
    is_signed = false;
    prepend = false;
    uppercase = false;
    left_justify = false;
    alternate_form = false;
    pad_char = 32;
    prepend_char = 0;
    min_width = 0;
    base = 10;
  };
  has_precision = false;
  precision = 0;
}

-- The `switch` on a flag of "+- 0#"
abbrev pub set_flag : ℕ → FmtSpec → FmtSpec
set_flag flag fm =
    if flag == 43 || flag == 32
    then record fm { prepend = true; prepend_char = flag }
    else if flag == 45
    then record fm { left_justify = true }
    else if flag == 48
    then record fm { pad_char = 48 }
    else record fm { alternate_form = true }

abbrev pub on_flag {ℓ κ} : {A : Type ℓ} {B : Type κ} → Option A → B → B → B
on_flag none found otherwise = otherwise
on_flag (some _) found otherwise = found

unfoldable pub flags_loop : List ℕ → FmtSpec → FmtSpec × List ℕ
flags_loop [] fm = (fm, [])
flags_loop (c ∷ fmt) fm =
    let later = flags_loop fmt (set_flag c fm) in
    on_flag (consume_one_of (c ∷ fmt) (43 ∷ 45 ∷ 32 ∷ 48 ∷ 35 ∷ [])) later (fm, c ∷ fmt)

-- `va_arg(vlist, int)` and the others; an argument of another type is not to be read.
abbrev pub arg_int : List Arg → Outcome (ℕ × List Arg)
arg_int (int_arg x ∷ args) = done (x % 2 ^ 32, args)
arg_int _ = fault

abbrev pub arg_long : List Arg → Outcome (ℕ × List Arg)
arg_long (long_arg x ∷ args) = done (x % word, args)
arg_long _ = fault

abbrev pub arg_pointer : List Arg → Outcome (ℕ × List Arg)
arg_pointer (pointer_arg x ∷ args) = done (x % word, args)
arg_pointer _ = fault

abbrev pub arg_chars : List Arg → Outcome (Option (List ℕ) × List Arg)
arg_chars (chars_arg x ∷ args) = done (x, args)
arg_chars _ = fault

abbrev pub arg_string : List Arg → Outcome (Option (List ℕ) × List Arg)
arg_string (string_arg x ∷ args) = done (x, args)
arg_string _ = fault

-- An error ends the function.
abbrev pub go_then {ℓ κ} :
    {A : Type ℓ} {B : Type κ} → Step A → (A → Outcome (Step B)) → Outcome (Step B)
go_then (go_on a) f = f a
go_then (return_error ret) f = done (return_error ret)

abbrev pub on_token {ℓ} : {A : Type ℓ} → Option (List ℕ) → (List ℕ → A) → A → A
on_token none found otherwise = otherwise
on_token (some rest) found otherwise = found rest

-- `*` or a number: the number or `out_value`, and the rest of the format and of the arguments
unfoldable pub star_or_number :
    List ℕ → List Arg → Bool → ℕ → Outcome (Step (ℕ × List ℕ × List Arg))
star_or_number fmt args must out_value =
    on_token (consume fmt (42 ∷ []))
      (λ rest. do (x, args) ← arg_int args; done (go_on (sign_extend 32 x, rest, args)))
      (go_then (parse_number fmt must out_value) (λ r. done (go_on (r.0, r.1, args))))

-- The precision behind a `.`
unfoldable pub parse_precision :
    PrecisionSpec → Printing → Outcome (Step (PrecisionSpec × Printing))
parse_precision spec p =
    on_token (consume p.fmt (46 ∷ []))
      (λ rest. do
        s ← star_or_number rest p.args true 0
        go_then s (λ r. done (
            go_on (
              record spec { has_precision = true; precision = r.0 },
              record p { fmt = r.1; args = r.2 },
            ))))
      (done (go_on (spec, p)))

unfoldable pub parse_width : FmtSpec → Printing → Outcome (Step (PrecisionSpec × Printing))
parse_width fm p = do
  s ← star_or_number p.fmt p.args false 0
  go_then s (λ r.
      parse_precision (record initial_fm { fm = record fm { min_width = r.0 } })
        (record p { fmt = r.1; args = r.2 }))
