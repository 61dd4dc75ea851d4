-- ===== src/Format/Output.antt =====
-- kernel/common/format.c and kernel/include/common/format.h: what `vsnprintf` and `vscnprintf` leave in the
-- buffer, and what they return.
use ultra.Prelude.{
  ℕ, zero, suc, ◌+◌, ◌-◌, ◌^◌, ◌≤◌, ◌<◌, ◌≡◌, refl, sym, ap, ◌∙◌, arith, false, List, [], ◌∷◌, ◌++◌,
  length, length-append, set, take, min, ◌==◌, ==_of_ne, if◌then◌else◌, le→ltb, lt→ltb,
  le→leb_false, Returns, Returns-bind,
}
use native.Mathlib.Decide.{dec_lt}
use ultra.Format.{FmtBufState}
use ultra.Format.Buffer.{Holds, shown, shown_nil}
use ultra.Format.Print.{terminate, vsnprintf, vscnprintf}
use ultra.Format.Prints.{
  Directive, percent, char, chars, integer, IsFormat, Shows, room, room_of, Prints, format_text,
  format_args, spec_of,
}
use ultra.Format.Directives.{specified_value}
use ultra.Format.Values.{shown-length, spec_of-min_width}
use ultra.Format.Rounds.{Printed, print_loop-Prints}

-- The memory with the output in the buffer, cut so that the terminating 0 fits.
abbrev pub ended : ℕ → List ℕ → List ℕ → List ℕ
ended zero mem out = mem
ended (suc cap) mem out = shown (suc cap) mem (take cap out ++ (0 ∷ []))

ended_shown :
    (cap : ℕ) (mem out : List ℕ)
    → suc cap ≤ length mem
    → set (shown (suc cap) mem out) (min (length out) cap) 0
      ≡ shown (suc cap) mem (take cap out ++ (0 ∷ []))
unfolding shown
ended_shown cap [] out h = absurd (omega arith)
ended_shown zero (m ∷ mem) [] h = refl
ended_shown zero (m ∷ mem) (o ∷ out) h =
    let e : min (suc (length out)) 0 ≡ 0 = omega arith in rw e refl
ended_shown (suc cap) (m ∷ mem) [] h =
    let e : min 0 (suc cap) ≡ 0 = omega arith in
    rw e (ap (λ l. 0 ∷ l) (sym (shown_nil (suc cap) mem (omega arith))))
ended_shown (suc cap) (m ∷ mem) (o ∷ out) h =
    let e : min (suc (length out)) (suc cap) ≡ suc (min (length out) cap) = omega arith in
    rw e (ap (λ l. o ∷ l) (ended_shown cap mem out (omega arith)))

-- What `terminate` makes of the three fields.
abbrev terminated : ℕ → List ℕ → ℕ → List ℕ
terminated capacity buffer written =
    if capacity == 0 then buffer else set buffer (min written (capacity - 1)) 0

terminated-shown :
    (cap : ℕ) (mem out : List ℕ)
    → cap ≤ length mem
    → terminated cap (shown cap mem out) (length out) ≡ ended cap mem out
unfolding shown
terminated-shown zero mem out h = refl
terminated-shown (suc cap) mem out h =
    let e : (suc cap == 0) ≡ false = ==_of_ne _ 0 (λ q. omega arith) in
    let f : suc cap - 1 ≡ cap = omega arith in rw (e, f) (ended_shown cap mem out h)

terminate-Holds :
    (cap : ℕ) (mem out : List ℕ) (s : FmtBufState)
    → cap ≤ length mem
    → Holds cap mem out s
    → terminate s ≡ ended cap mem out
unfolding terminate
terminate-Holds cap mem out s h v =
    (λ i. terminated (v.capacity i) (v.buffer i) (v.bytes_written i))
    ∙ terminated-shown cap mem out h

Shows-room : (d : Directive) (o : List ℕ) → Shows d o → length o ≤ room d
Shows-room percent o e = rw e (omega arith)
Shows-room (char x) o e = rw e (omega arith)
Shows-room (chars string) o e = rw e (omega arith)
Shows-room (integer flags width w len s x) o (digits, r, e) = rw e (
    omega (
      arith,
      shown-length (spec_of flags w s) (specified_value len s x) digits r.short,
      spec_of-min_width flags w s,
    ))

Prints-room :
    (ds : List (List ℕ × Directive)) (last out : List ℕ)
    → Prints ds last out
    → length out ≤ room_of ds last
Prints-room [] last out e = rw e (omega arith)
Prints-room ((t, d) ∷ ds) last out (o, rest, e, s, p) = rw e (
    omega (
      arith,
      length-append t (o ++ rest),
      length-append o rest,
      Shows-room d o s,
      Prints-room ds last rest p,
    ))

-- The call returns this many, and the buffer has the output.
abbrev pub Outputs : ℕ → List ℕ → List (List ℕ × Directive) → List ℕ → (ℕ → ℕ) → ℕ × List ℕ → Type 0
Outputs cap mem ds last count r =
    (out : List ℕ) × Prints ds last out × (r.0 ≡ count (length out)) × (r.1 ≡ ended cap mem out)

empty-Holds :
    (cap : ℕ) (mem : List ℕ)
    → cap ≤ length mem
    → Holds cap mem [] (record { buffer = mem; capacity = cap; bytes_written = 0 })
empty-Holds cap mem h = record {
  capacity = refl;
  buffer = sym (shown_nil cap mem h);
  bytes_written = refl;
}

-- Texts without "%", and between them "%%", "%c", "%s" and integers with any flags, a width, a length and a
-- specifier, with the arguments that they ask for: `vsnprintf` returns the number of bytes of the
-- output, and leaves in the buffer the output up to one byte less than the capacity, and a 0 behind it. The
-- output is the texts and what the directives stand for, in order: of an integer its sign, its prefix and its
-- numeral ("0" for 0, and else without a leading 0), padded to the width. The capacity is inside the memory, and the
-- room for the output, with the width and 25 bytes for an integer, is below 2^31.
pub vsnprintf-Outputs :
    (ds : List (List ℕ × Directive)) (last mem : List ℕ) (cap : ℕ)
    → IsFormat ds last
    → cap ≤ length mem
    → room_of ds last < 2 ^ 31
    → Returns
        (vsnprintf mem cap (format_text ds last) (format_args ds))
        (Outputs cap mem ds last (λ n. n))
unfolding vsnprintf
vsnprintf-Outputs ds last mem cap i h b =
    Returns-bind (Printed cap mem h ds last []) (Outputs cap mem ds last (λ n. n)) _ _
      (print_loop-Prints cap mem h ds (length (format_text ds last) + 1) last [] _ i
        (empty-Holds cap mem h) (omega arith) (omega arith))
      (λ r (z, out, p, v). rw (z) (
        out,
        p,
        omega (arith, v.bytes_written, Prints-room ds last out p),
        terminate-Holds cap mem out r.1 h v,
      ))

-- On the same formats, `vscnprintf` returns the number of bytes before the terminating 0.
pub vscnprintf-Outputs :
    (ds : List (List ℕ × Directive)) (last mem : List ℕ) (cap : ℕ)
    → IsFormat ds last
    → cap ≤ length mem
    → room_of ds last < 2 ^ 31
    → cap < 2 ^ 31
    → Returns
        (vscnprintf mem cap (format_text ds last) (format_args ds))
        (Outputs cap mem ds last (λ n. min n (cap - 1)))
unfolding vscnprintf
vscnprintf-Outputs ds last mem cap i h b c =
    Returns-bind (Outputs cap mem ds last (λ n. n)) (Outputs cap mem ds last (λ n. min n (cap - 1)))
      (vsnprintf mem cap (format_text ds last) (format_args ds)) _
      (vsnprintf-Outputs ds last mem cap i h b)
      (λ r (out, p, n, e).
        let small : r.0 < 2 ^ 31 = omega (arith, n, Prints-room ds last out p) in
        elim (dec_lt r.0 cap) [
          | yes q ↦
              rw (le→leb_false r.0 (2 ^ 31) small, lt→ltb r.0 cap q) (out, p, omega (arith, n), e)
          | no q ↦
              rw (le→leb_false r.0 (2 ^ 31) small, le→ltb r.0 cap (omega arith))
                (out, p, ground (arith, n), e)
        ])
