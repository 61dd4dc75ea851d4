-- ===== src/Format/Rounds.antt =====
-- kernel/common/format.c: the loop of `vsnprintf` over a format, and the calls around it.
use ultra.Prelude.{
  ℕ, zero, suc, ◌+◌, ◌≤◌, ◌<◌, ◌≡◌, ◌⊎◌, inl, inr, refl, sym, ap, subst, ◌∙◌, arith, false, none,
  some, List, [], ◌∷◌, ◌++◌, append_assoc, append-nil, length, length-append, take, drop, ltb, ◌==◌,
  ==_of_ne, if◌then◌else◌, le→ltb, done, ◌>>=◌, Returns, Returns_mono, Returns-bind,
}
use ultra.Format.{FmtBufState, word, write_one, write_many}
use ultra.Format.Buffer.{Holds, write_one-Holds, write_many-Holds}
use ultra.Format.Spec.{Arg}
use ultra.Format.Conversions.{convert}
use ultra.Format.Print.{next_offset, write_text, on_step, print_loop}
use ultra.Format.Prints.{
  Directive, percent, char, chars, integer, directive_text, directive_args, IsDirective, Shows,
  room, format_text, format_args, NoPercent, IsFormat, Prints, room_of,
}
use ultra.Format.Directives.{length_text, specifier_char}
use ultra.Format.Converts.{Converted, char-Converted, chars-Converted, integer-Converted}
use ultra.Format.Values.{letter}
use ultra.Text.Strings.{str_empty, str_starts_with, equal_with, find_char, str_find_one}

take-append : (t rest : List ℕ) → take (length t) (t ++ rest) ≡ t
take-append [] rest = refl
take-append (c ∷ t) rest = ap (λ l. c ∷ l) (take-append t rest)

drop-append : (t rest : List ℕ) → drop (length t) (t ++ rest) ≡ rest
drop-append [] rest = refl
drop-append (c ∷ t) rest = drop-append t rest

find_percent :
    (t rest : List ℕ) (i : ℕ)
    → NoPercent t
    → find_char (t ++ (37 ∷ rest)) 37 i ≡ some (i + length t)
unfolding find_char
find_percent [] rest i n = ap some (omega arith)
find_percent (c ∷ t) rest i n = rw (n.0) (find_percent t rest (i + 1) n.1 ∙ ap some (omega arith))

find-NoPercent : (t : List ℕ) (i : ℕ) → NoPercent t → find_char t 37 i ≡ none
unfolding find_char
find-NoPercent [] i n = refl
find-NoPercent (c ∷ t) i n = rw (n.0) (find-NoPercent t (i + 1) n.1)

take-length : (t : List ℕ) → take (length t) t ≡ t
take-length [] = refl
take-length (c ∷ t) = ap (λ l. c ∷ l) (take-length t)

drop-length : (t : List ℕ) → drop (length t) t ≡ []
drop-length [] = refl
drop-length (c ∷ t) = drop-length t

offset_directive : (t rest : List ℕ) → NoPercent t → next_offset (t ++ (37 ∷ rest)) ≡ length t
unfolding str_find_one
offset_directive t rest n = rw (find_percent t rest 0 n) (omega arith)

offset_last : (t : List ℕ) → NoPercent t → next_offset t ≡ length t
unfolding str_find_one
offset_last t n = rw (find-NoPercent t 0 n) refl

-- The buffer behind a text.
abbrev text_state : FmtBufState → List ℕ → FmtBufState
text_state fb_state t = if length t == 0 then fb_state else write_many fb_state t

write_text-directive :
    (t rest : List ℕ) (args : List Arg) (fb_state : FmtBufState)
    → NoPercent t
    → write_text (record { fmt = t ++ (37 ∷ rest); args = args; fb_state = fb_state })
      ≡ record { fmt = 37 ∷ rest; args = args; fb_state = text_state fb_state t }
unfolding write_text
write_text-directive t rest args fb_state n =
    rw (offset_directive t rest n, take-append t (37 ∷ rest), drop-append t (37 ∷ rest)) refl

write_text-last :
    (t : List ℕ) (args : List Arg) (fb_state : FmtBufState)
    → NoPercent t
    → write_text (record { fmt = t; args = args; fb_state = fb_state })
      ≡ record { fmt = []; args = args; fb_state = text_state fb_state t }
unfolding write_text
write_text-last t args fb_state n = rw (offset_last t n, take-length t, drop-length t) refl

-- A directive of which the first character is not "%".
abbrev NotPercent : List ℕ → Type 0
NotPercent l = (c : ℕ) × (tail : List ℕ) × (l ≡ c ∷ tail) × ((c == 37) ≡ false)

module _ (fuel : ℕ) (t rest : List ℕ) (args : List Arg) (fb_state : FmtBufState)
    (n : NoPercent t) where
  not_empty : (length (t ++ (37 ∷ rest)) == 0) ≡ false
  not_empty =
      ==_of_ne (length (t ++ (37 ∷ rest))) 0 (λ e. omega (arith, length-append t (37 ∷ rest)))

  print_loop-percent :
      (tail : List ℕ)
      → rest ≡ 37 ∷ tail
      → print_loop (suc fuel) (record { fmt = t ++ (37 ∷ rest); args = args; fb_state = fb_state })
        ≡ print_loop fuel
            (record { fmt = tail; args = args; fb_state = write_one (text_state fb_state t) 37 })
  unfolding print_loop str_empty str_starts_with equal_with
  print_loop-percent tail e =
      let two : (suc (suc (length tail)) == 0) ≡ false = ==_of_ne _ 0 (λ e. omega arith) in
      let long : ltb (suc (suc (length tail))) 2 ≡ false = le→ltb _ 2 (omega arith) in
      rw (write_text-directive t rest args fb_state n, not_empty, e, two, long) refl

  print_loop-convert :
      NotPercent rest
      → print_loop (suc fuel) (record { fmt = t ++ (37 ∷ rest); args = args; fb_state = fb_state })
        ≡ (convert (record { fmt = rest; args = args; fb_state = text_state fb_state t }) >>= λ s.
            on_step s (λ q. print_loop fuel q) (λ ret. done (ret, text_state fb_state t)))
  unfolding print_loop str_empty str_starts_with equal_with
  print_loop-convert (c, tail, e, p) =
      let two : (suc (suc (length tail)) == 0) ≡ false = ==_of_ne _ 0 (λ e. omega arith) in
      let long : ltb (suc (suc (length tail))) 2 ≡ false = le→ltb _ 2 (omega arith) in
      rw (write_text-directive t rest args fb_state n, not_empty, e, two, long, p) refl

print_loop-last :
    (fuel : ℕ) (t : List ℕ) (args : List Arg) (fb_state : FmtBufState)
    → NoPercent t
    → print_loop (suc fuel) (record { fmt = t; args = args; fb_state = fb_state })
      ≡ done (0, text_state fb_state t)
unfolding print_loop str_empty
print_loop-last fuel [] args fb_state n = refl
print_loop-last fuel (c ∷ t) args fb_state n =
    let one : (suc (length t) == 0) ≡ false = ==_of_ne _ 0 (λ e. omega arith) in
    rw (write_text-last (c ∷ t) args fb_state n, one) refl

directive-NotPercent :
    (d : Directive) (rest : List ℕ)
    → IsDirective d
    → (d ≡ percent) ⊎ NotPercent (directive_text d ++ rest)
directive-NotPercent percent rest i = inl refl
directive-NotPercent (char x) rest i = inr (99, rest, refl, refl)
directive-NotPercent (chars string) rest i = inr (115, rest, refl, refl)
directive-NotPercent (integer (f ∷ flags) width w len s x) rest i =
    inr (f, _, refl, ground (arith, i.0.0))
directive-NotPercent (integer [] (c ∷ width) w len s x) rest i = inr (c, _, refl, ground (arith, i))
directive-NotPercent (integer [] [] w len s x) rest i =
    let (c, tail, e, l) = letter len s rest in
    inr (
      c,
      tail,
      append_assoc (length_text len) (specifier_char s ∷ []) rest ∙ e,
      ground (arith, l.1),
    )

regroup : (out t o rest : List ℕ) → ((out ++ t) ++ o) ++ rest ≡ out ++ (t ++ (o ++ rest))
regroup out t o rest = append_assoc (out ++ t) o rest ∙ append_assoc out t (o ++ rest)

module _ (cap : ℕ) (mem : List ℕ) (fits : cap ≤ length mem) where
  text_state-Holds :
      (t out : List ℕ) (fb_state : FmtBufState)
      → Holds cap mem out fb_state
      → length out + length t < word
      → Holds cap mem (out ++ t) (text_state fb_state t)
  text_state-Holds [] out fb_state v h =
      subst (λ l. Holds cap mem l fb_state) (sym (append-nil out)) v
  text_state-Holds (c ∷ t) out fb_state v h =
      let one : (suc (length t) == 0) ≡ false = ==_of_ne _ 0 (λ e. omega arith) in
      rw one (write_many-Holds cap mem fits out fb_state (c ∷ t) v h)

  -- The loop prints what a format stands for.
  abbrev pub Printed : List (List ℕ × Directive) → List ℕ → List ℕ → ℕ × FmtBufState → Type 0
  Printed ds last out r = (r.0 ≡ 0) × (o : List ℕ) × Prints ds last o × Holds cap mem (out ++ o) r.1

  -- Any directive but "%%".
  directive-Converted :
      (d : Directive) (out rest : List ℕ) (args : List Arg) (fb_state : FmtBufState)
      → IsDirective d
      → NotPercent (directive_text d ++ rest)
      → Holds cap mem out fb_state
      → length out + room d < word
      → Returns
          (convert (record {
            fmt = directive_text d ++ rest;
            args = directive_args d ++ args;
            fb_state = fb_state;
          }))
          (Converted cap mem out d rest args)
  directive-Converted percent out rest args fb_state i (c, tail, e, p) v h =
      let q : 37 ≡ c = cc in absurd (ground arith)
  directive-Converted (char x) out rest args fb_state i n v h =
      char-Converted cap mem fits out rest args fb_state v x h
  directive-Converted (chars string) out rest args fb_state i n v h =
      chars-Converted cap mem fits out rest args fb_state v string i h
  directive-Converted (integer flags width w len s x) out rest args fb_state i n v h =
      integer-Converted cap mem fits out rest args fb_state v flags width w len s x i.0 i.1
        (omega arith)

  Printed-on :
      (t : List ℕ) (d : Directive) (ds : List (List ℕ × Directive)) (last out o : List ℕ)
      (r : ℕ × FmtBufState)
      → Shows d o
      → Printed ds last ((out ++ t) ++ o) r
      → Printed ((t, d) ∷ ds) last out r
  Printed-on t d ds last out o r s (z, rest, p, v) = (
    z,
    t ++ (o ++ rest),
    (o, rest, refl, s, p),
    subst (λ l. Holds cap mem l r.1) (regroup out t o rest) v,
  )

  pub print_loop-Prints :
      (ds : List (List ℕ × Directive)) (fuel : ℕ) (last out : List ℕ) (fb_state : FmtBufState)
      → IsFormat ds last
      → Holds cap mem out fb_state
      → length out + room_of ds last < word
      → length (format_text ds last) < fuel
      → Returns
          (print_loop fuel
            (record { fmt = format_text ds last; args = format_args ds; fb_state = fb_state }))
          (Printed ds last out)
  print_loop-Prints ds zero last out fb_state i v h f = absurd (omega arith)
  print_loop-Prints [] (suc fuel) last out fb_state i v h f =
      rw (print_loop-last fuel last [] fb_state i)
        (refl, last, refl, text_state-Holds last out fb_state v h)
  print_loop-Prints ((t, d) ∷ ds) (suc fuel) last out fb_state i v h f =
      let rest = format_text ds last in
      let w = text_state-Holds t out fb_state v (omega arith) in
      let shorter : length rest < fuel = omega (
        arith,
        length-append t (37 ∷ (directive_text d ++ rest)),
        length-append (directive_text d) rest,
      ) in
      elim (directive-NotPercent d rest i.1) [
        | inl e ↦
            rw (e, print_loop-percent fuel t (37 ∷ rest) (format_args ds) fb_state i.0 rest refl)
              (let fb = write_one (text_state fb_state t) 37 in
                let one : room d ≡ 1 = ap room e in
                let x =
                  write_one-Holds cap mem fits (out ++ t) (text_state fb_state t) 37 w
                    (omega (arith, length-append out t)) in
                Returns_mono _
                  (λ (r : ℕ × FmtBufState) q. Printed-on t percent ds last out (37 ∷ []) r refl q)
                  (print_loop-Prints ds fuel last ((out ++ t) ++ (37 ∷ [])) fb i.2 x
                    (omega (arith, length-append (out ++ t) (37 ∷ []), length-append out t))
                    shorter))
        | inr n ↦
            rw
              (print_loop-convert fuel t (directive_text d ++ rest)
                (directive_args d ++ format_args ds) fb_state i.0 n)
              (Returns-bind (Converted cap mem (out ++ t) d rest (format_args ds)) _ _ _
                (directive-Converted d (out ++ t) rest (format_args ds) (text_state fb_state t) i.1
                  n w (omega (arith, length-append out t)))
                (λ st (fb, o, e, s, b, x). rw e (
                  Returns_mono _ (λ (r : ℕ × FmtBufState) q. Printed-on t d ds last out o r s q)
                    (print_loop-Prints ds fuel last ((out ++ t) ++ o) fb i.2 x
                      (omega (arith, b, length-append (out ++ t) o, length-append out t))
                      shorter))))
      ]
