-- ===== src/Format/Conversions.antt =====
-- kernel/common/format.c: the conversions of `vsnprintf`.
use ultra.Prelude.{
  ℕ, ◌+◌, ◌-◌, ◌%◌, ◌^◌, true, not, ◌&&◌, ◌||◌, Option, none, some, List, [], ◌∷◌, ltb, ◌==◌, min,
  if◌then◌else◌, length, take, Outcome, done, fault, unfinished, ◌>>=◌,
}
use ultra.Format.{FmtBufState, FmtSpec, write_one, write_many, pad_loop, write_integer}
use ultra.Text.Numbers.{einval, sign_extend}
use ultra.Format.Spec.{
  Arg, PrecisionSpec, Printing, Step, go_on, return_error, or_else, consume, consume_one_of,
  base_from_specifier, is_uppercase_specifier, initial_fm, flags_loop, arg_int, arg_long,
  arg_pointer, arg_chars, arg_string, go_then, on_token, parse_width,
}

-- `write_int`; a flag of 0 leaves the base as it is.
unfoldable pub write_int : FmtSpec → ℕ → ℕ → Printing → Outcome (Step Printing)
write_int fm flag value p = do
  let based : FmtSpec = record fm {
    base = base_from_specifier flag;
    uppercase = is_uppercase_specifier flag;
  }
  fb_state ← write_integer p.fb_state (if not (flag == 0) then based else fm) value
  done (go_on (record p { fb_state = fb_state }))

-- `d` or `i`
unfoldable pub consume_signed : List ℕ → Option (List ℕ)
consume_signed fmt = on_token (consume fmt (100 ∷ [])) some (consume fmt (105 ∷ []))

-- An unsigned number of so many bits, by a specifier of "oxXu".
unfoldable pub convert_unsigned :
    (List Arg → Outcome (ℕ × List Arg))
    → ℕ
    → FmtSpec
    → Printing
    → Option (ℕ × List ℕ)
    → Outcome (Step Printing)
convert_unsigned read bits fm p none = done (return_error einval)
convert_unsigned read bits fm p (some (flag, rest)) = do
  (x, args) ← read p.args
  write_int fm flag (x % 2 ^ bits) (record p { fmt = rest; args = args })

-- The conversions of one length of integers, of so many bits, whose arguments are read by `va_arg` of
-- one type.
unfoldable pub convert_integer :
    (List Arg → Outcome (ℕ × List Arg)) → ℕ → FmtSpec → Printing → Outcome (Step Printing)
convert_integer read bits fm p =
    on_token (consume_signed p.fmt)
      (λ rest. do
        (x, args) ← read p.args
        write_int (record fm { is_signed = true }) 0 (sign_extend bits x)
            (record p { fmt = rest; args = args }))
      (convert_unsigned read bits fm p (consume_one_of p.fmt (111 ∷ 120 ∷ 88 ∷ 117 ∷ [])))

unfoldable pub convert_char : Printing → Outcome (Step Printing)
convert_char p = do
  (c, args) ← arg_int p.args
  done (go_on (record p { args = args; fb_state = write_one p.fb_state (c % 256) }))

-- The first loop of `%s`: the buffer and `i` behind it. A byte is read where the precision allows it.
unfoldable pub chars_loop : PrecisionSpec → FmtBufState → ℕ → List ℕ → Outcome (FmtBufState × ℕ)
chars_loop spec fb_state i [] =
    if not spec.has_precision || ltb i spec.precision then fault else done (fb_state, i)
chars_loop spec fb_state i (c ∷ string) =
    let later = chars_loop spec (write_one fb_state c) (i + 1) string in
    if (not spec.has_precision || ltb i spec.precision) && not (c == 0)
    then later
    else done (fb_state, i)

abbrev pub null_text : List ℕ
null_text = 60 ∷ 110 ∷ 117 ∷ 108 ∷ 108 ∷ 62 ∷ 0 ∷ []

unfoldable pub convert_chars : PrecisionSpec → Printing → Outcome (Step Printing)
convert_chars spec p = do
  (string, args) ← arg_chars p.args
  (fb_state, i) ← chars_loop spec p.fb_state 0 (or_else null_text string)
  done (go_on (record p { args = args; fb_state = pad_loop (spec.fm.min_width - i) fb_state 32 }))

-- "<null-string>"
abbrev pub null_string : List ℕ
null_string = 60 ∷ 110 ∷ 117 ∷ 108 ∷ 108 ∷ 45 ∷ 115 ∷ 116 ∷ 114 ∷ 105 ∷ 110 ∷ 103 ∷ 62 ∷ []

-- `%pS`; the loop that pads does not change `size`. What `WARN_ON` prints is left out.
unfoldable pub convert_string : PrecisionSpec → Printing → Outcome (Step Printing)
convert_string spec p = do
  (given, args) ← arg_string p.args
  let string = or_else null_string given
  let size = if spec.has_precision then min spec.precision (length string) else length string
  let written : Printing = record p {
    args = args;
    fb_state = write_many p.fb_state (take size string);
  }
  if ltb size spec.precision then unfinished else done (go_on written)

unfoldable pub convert_pointer : FmtSpec → Printing → Outcome (Step Printing)
convert_pointer fm p = do
  (value, args) ← arg_pointer p.args
  write_int (record fm { base = 16; min_width = 16; pad_char = 48 }) 0 value
      (record p { args = args })

-- The conversion that the rest of the format starts with. A `z` stands for `ll`.
unfoldable pub convert_spec : PrecisionSpec → Printing → Outcome (Step Printing)
convert_spec spec p =
    on_token (consume p.fmt (99 ∷ [])) (λ rest. convert_char (record p { fmt = rest }))
      (on_token (consume p.fmt (115 ∷ [])) (λ rest. convert_chars spec (record p { fmt = rest }))
        (on_token (consume p.fmt (112 ∷ []))
          (λ rest.
            on_token (consume rest (83 ∷ []))
              (λ rest. convert_string spec (record p { fmt = rest }))
              (convert_pointer spec.fm (record p { fmt = rest })))
          (on_token (consume p.fmt (104 ∷ 104 ∷ []))
            (λ rest. convert_integer arg_int 8 spec.fm (record p { fmt = rest }))
            (on_token (consume p.fmt (104 ∷ []))
              (λ rest. convert_integer arg_int 16 spec.fm (record p { fmt = rest }))
              (on_token (on_token (consume p.fmt (108 ∷ 108 ∷ [])) some (consume p.fmt (122 ∷ [])))
                (λ rest. convert_integer arg_long 64 spec.fm (record p { fmt = rest }))
                (on_token (consume p.fmt (108 ∷ []))
                  (λ rest. convert_integer arg_long 64 spec.fm (record p { fmt = rest }))
                  (convert_integer arg_int 32 spec.fm p)))))))

-- What stands behind a `%`.
unfoldable pub convert : Printing → Outcome (Step Printing)
convert p = do
  let (fm, fmt) = flags_loop p.fmt initial_fm.fm
  s ← parse_width fm (record p { fmt = fmt })
  go_then s (λ r. convert_spec r.0 r.1)
