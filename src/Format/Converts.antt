-- ===== src/Format/Converts.antt =====
-- kernel/common/format.c: one directive, converted.
use ultra.Prelude.{
  ℕ, ◌+◌, ◌-◌, ◌%◌, ◌^◌, ◌≤◌, ◌<◌, ◌≡◌, refl, sym, ap, subst, ◌∙◌, arith, false, List, [], ◌∷◌,
  ◌++◌, append_assoc, append-nil, length, length-append, ==_of_ne, Outcome, Returns, Returns_mono,
  Returns-bind,
}
use ultra.Format.{FmtBufState, word, write_one, write_integer, pad_loop}
use ultra.Format.Buffer.{Holds, write_one-Holds}
use ultra.Format.Integer.{sign_text, layout, prefix_text, write_integer-Holds}
use ultra.Format.Spec.{Arg, PrecisionSpec, Printing, Step, go_on, initial_fm}
use ultra.Format.Conversions.{chars_loop, convert_char, convert_chars, convert_spec, convert}
use ultra.Format.Parse.{AllFlags, set_flags, IsWidth, consume_one, convert_lem}
use ultra.Format.Directives.{
  Length, Specifier, length_text, length_arg, specifier_char, specified_value,
}
use ultra.Format.Dispatch.{convert_spec-integer, written_number}
use ultra.Format.Prints.{
  Directive, char, chars, integer, directive_text, directive_args, NonZero, spec_of, Shows, room,
}
use ultra.Text.Ctype.{isdigit, is_char_of_type}
use ultra.Format.Values.{
  spec_of-IsFormatBase, spec_of-min_width, specified_value-lt, letter, shown-length,
}

-- The loop goes on behind the directive, and the buffer holds what it prints after what it held.
abbrev pub Converted : ℕ → List ℕ → List ℕ → Directive → List ℕ → List Arg → Step Printing → Type 0
Converted cap mem out d rest args st =
    (fb_state : FmtBufState) × (o : List ℕ) × (st
      ≡ go_on (record { fmt = rest; args = args; fb_state = fb_state }))
    × Shows d o
    × (length o ≤ room d)
    × Holds cap mem (out ++ o) fb_state

directive-append :
    (flags width lens rest : List ℕ) (c : ℕ)
    → (flags ++ (width ++ (lens ++ (c ∷ [])))) ++ rest ≡ flags ++ (width ++ (lens ++ (c ∷ rest)))
directive-append flags width lens rest c =
    append_assoc flags (width ++ (lens ++ (c ∷ []))) rest
    ∙ ap (λ l. flags ++ l)
        (append_assoc width (lens ++ (c ∷ [])) rest
          ∙ ap (λ l. width ++ l) (append_assoc lens (c ∷ []) rest))

integer_convert :
    (flags width rest : List ℕ) (w : ℕ) (len : Length) (s : Specifier) (x : ℕ) (args : List Arg)
    (fb_state : FmtBufState)
    → AllFlags flags
    → IsWidth width w
    → convert (record {
      fmt = directive_text (integer flags width w len s x) ++ rest;
      args = length_arg len x ∷ args;
      fb_state = fb_state;
    })
      ≡ written_number
          (spec_of flags w s)
          (specified_value len s x)
          (record { fmt = rest; args = args; fb_state = fb_state })
integer_convert flags width rest w len s x args fb_state a b =
    let (c, tail, e, l) = letter len s rest in
    let spec : PrecisionSpec = record initial_fm {
      fm = record (set_flags flags initial_fm.fm) { min_width = w };
    } in
    let text = directive-append flags width (length_text len) rest (specifier_char s) in
    convert_lem flags width tail c w
      (record {
        fmt = directive_text (integer flags width w len s x) ++ rest;
        args = length_arg len x ∷ args;
        fb_state = fb_state;
      })
      a b l (text ∙ ap (λ l. flags ++ (width ++ l)) e)
    ∙ ap
        (λ (l : List ℕ).
          convert_spec spec
            (record { fmt = l; args = length_arg len x ∷ args; fb_state = fb_state }))
        (sym e)
    ∙ convert_spec-integer len s spec x args fb_state rest

module _ (cap : ℕ) (mem : List ℕ) (fits : cap ≤ length mem) where
  chars_loop-Holds :
      (string out : List ℕ) (spec : PrecisionSpec) (fb_state : FmtBufState) (i : ℕ)
      → spec.has_precision ≡ false
      → NonZero string
      → Holds cap mem out fb_state
      → length out + length string < word
      → Returns
          (chars_loop spec fb_state i (string ++ (0 ∷ [])))
          (λ r. Holds cap mem (out ++ string) r.0)
  unfolding chars_loop
  chars_loop-Holds [] out spec fb_state i e z v h =
      rw e (subst (λ l. Holds cap mem l fb_state) (sym (append-nil out)) v)
  chars_loop-Holds (c ∷ string) out spec fb_state i e z v h =
      rw (e, ==_of_ne c 0 (λ q. omega (arith, z.0)))
        (Returns_mono _
          (λ (r : FmtBufState × ℕ) w.
            subst (λ l. Holds cap mem l r.0) (append_assoc out (c ∷ []) string) w)
          (chars_loop-Holds string (out ++ (c ∷ [])) spec (write_one fb_state c) (i + 1) e z.1
            (write_one-Holds cap mem fits out fb_state c v (omega arith))
            (omega (arith, length-append out (c ∷ [])))))

  -- The state before the directive.
  abbrev before : Directive → List ℕ → List Arg → FmtBufState → Printing
  before d rest args fb_state = record {
    fmt = directive_text d ++ rest;
    args = directive_args d ++ args;
    fb_state = fb_state;
  }

  module _ (out rest : List ℕ) (args : List Arg) (fb_state : FmtBufState)
      (v : Holds cap mem out fb_state) where
    pub char-Converted :
        (x : ℕ)
        → length out + 1 < word
        → Returns
            (convert (before (char x) rest args fb_state))
            (Converted cap mem out (char x) rest args)
    unfolding convert_spec convert_char isdigit is_char_of_type
    char-Converted x h =
        rw
          (
            convert_lem [] [] rest 99 0 (before (char x) rest args fb_state) tt refl
                (refl, omega arith) refl,
            consume_one 99 99 rest,
          )
          (
            write_one fb_state (x % 2 ^ 32 % 256),
            (x % 2 ^ 32 % 256) ∷ [],
            refl,
            refl,
            omega arith,
            write_one-Holds cap mem fits out fb_state (x % 2 ^ 32 % 256) v h,
          )

    pub chars-Converted :
        (string : List ℕ)
        → NonZero string
        → length out + length string < word
        → Returns
            (convert (before (chars string) rest args fb_state))
            (Converted cap mem out (chars string) rest args)
    unfolding convert_spec convert_chars isdigit is_char_of_type pad_loop
    chars-Converted string z h =
        rw
          (
            convert_lem [] [] rest 115 0 (before (chars string) rest args fb_state) tt refl
                (refl, omega arith) refl,
            consume_one 115 99 rest,
            consume_one 115 115 rest,
          )
          (Returns-bind (λ (r : FmtBufState × ℕ). Holds cap mem (out ++ string) r.0) _
            (chars_loop initial_fm fb_state 0 (string ++ (0 ∷ []))) _
            (chars_loop-Holds string out initial_fm fb_state 0 refl z v h)
            (λ r w.
              let none_left : 0 - r.1 ≡ 0 = omega arith in
              rw none_left (r.0, string, refl, refl, omega arith, w)))

    pub integer-Converted :
        (flags width : List ℕ) (w : ℕ) (len : Length) (s : Specifier) (x : ℕ)
        → AllFlags flags
        → IsWidth width w
        → length out + w + 25 < word
        → Returns
            (convert (before (integer flags width w len s x) rest args fb_state))
            (Converted cap mem out (integer flags width w len s x) rest args)
    integer-Converted flags width w len s x a b h =
        let fm = spec_of flags w s in
        let value = specified_value len s x in
        let p = before (integer flags width w len s x) rest args fb_state in
        subst
          (λ (o : Outcome (Step Printing)).
            Returns o (Converted cap mem out (integer flags width w len s x) rest args))
          (sym (integer_convert flags width rest w len s x args fb_state a b))
          (Returns-bind _ _ (write_integer fb_state fm value) _
            (write_integer-Holds cap mem out fb_state fm value fits v
              (spec_of-IsFormatBase flags w s) (specified_value-lt len s x)
              (omega (arith, spec_of-min_width flags w s)))
            (λ fb_state' (digits, r, w'). (
              fb_state',
              sign_text fm value ++ layout fm (prefix_text fm ++ digits),
              refl,
              (digits, r, refl),
              omega (arith, shown-length fm value digits r.short, spec_of-min_width flags w s),
              w',
            )))
