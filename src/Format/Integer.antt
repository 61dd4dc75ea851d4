-- ===== src/Format/Integer.antt =====
-- kernel/common/format.c: `write_integer` writes the numeral of the integer.
use ultra.Prelude.{
  ℕ, ◌+◌, ◌-◌, ◌%◌, ◌≤◌, ◌<◌, ◌≡◌, ◌∙◌, ap, sym, subst, refl, Bool, true, false, ◌&&◌, ◌||◌, List,
  [], ◌∷◌, ◌++◌, ◌==◌, if◌then◌else◌, length, arith, append_assoc, append-nil, length-append,
  Bool-cases, inl, inr, done, Returns, Returns-bind, ◌>>=◌,
}
use ultra.Text.Numbers.Digits.{value}
use ultra.Format.{
  FmtBufState, FmtSpec, word, put, put_zero, put_prefix, repr_loop, repr_of, is_negative, write_one,
  write_many, write_padding, write_integer,
}
use ultra.Format.Buffer.{
  Holds, padding_of, write_one-Holds, write_many-Holds, write_padding-Holds, length-padding,
}
use ultra.Format.Characters.{IsFormatBase}
use ultra.Format.Digits.{Represents, IsNumeral, digits-Represents, put_zero-IsNumeral}

-- The prefix of the alternate form
abbrev pub prefix_text : FmtSpec → List ℕ
prefix_text fm =
    if fm.alternate_form && fm.base == 16
    then 48 ∷ (if fm.uppercase then 88 else 120) ∷ []
    else if fm.alternate_form && fm.base == 8
    then 48 ∷ []
    else []

put_prefix_lem :
    (fm : FmtSpec) (r : List ℕ) → length r ≤ 22 → put_prefix fm r ≡ done (prefix_text fm ++ r)
unfolding put_prefix put
put_prefix_lem fm r h = ground arith

abbrev pub Represented : FmtSpec → ℕ → List ℕ → Type 0
Represented fm v repr =
    (digits : List ℕ) × (repr ≡ prefix_text fm ++ digits) × IsNumeral fm.uppercase fm.base v digits

pub repr_of-Represented :
    (fm : FmtSpec) (v : ℕ)
    → IsFormatBase fm.base
    → v < word
    → Returns (repr_of fm v) (Represented fm v)
unfolding repr_of
repr_of-Represented fm v b h =
    Returns-bind (Represents fm.uppercase fm.base v 22) (Represented fm v) (repr_loop 65 fm v [])
      (λ r. put_zero r >>= λ r'. put_prefix fm r') (digits-Represents fm b v h)
      λ r p.
        Returns-bind (IsNumeral fm.uppercase fm.base v) (Represented fm v) (put_zero r)
          (λ r'. put_prefix fm r') (put_zero-IsNumeral fm b v r p)
          λ r' q. rw (put_prefix_lem fm r' q.short) (r', refl, q)

abbrev pub magnitude : FmtSpec → ℕ → ℕ
magnitude fm value = if is_negative fm value then (word - value) % word else value

abbrev pub sign_text : FmtSpec → ℕ → List ℕ
sign_text fm value =
    if fm.prepend || is_negative fm value
    then (if is_negative fm value then 45 else fm.prepend_char) ∷ []
    else []

-- The text of a representation with its padding
abbrev pub layout : FmtSpec → List ℕ → List ℕ
layout fm repr =
    if fm.left_justify
    then repr ++ padding_of fm (length repr)
    else padding_of fm (length repr) ++ repr

pub prefix-length : (fm : FmtSpec) → length (prefix_text fm) ≤ 2
prefix-length fm = ground arith

either-done :
    (P : FmtBufState → Type 0) (a b : FmtBufState) (left : Bool)
    → P (if left then a else b)
    → Returns (if left then done a else done b) P
either-done P a b true p = p
either-done P a b false p = p

abbrev laid : FmtSpec → List ℕ → FmtBufState → FmtBufState
laid fm repr s =
    if fm.left_justify
    then write_padding (write_many s repr) fm (length repr)
    else write_many (write_padding s fm (length repr)) repr

module _ (cap : ℕ) (mem out : List ℕ) (s : FmtBufState) (fm : FmtSpec) (value : ℕ) where
  sign-Holds :
      cap ≤ length mem
      → Holds cap mem out s
      → length out + 1 < word
      → Holds cap mem (out ++ sign_text fm value) (
          if fm.prepend || is_negative fm value
          then write_one s (if is_negative fm value then 45 else fm.prepend_char)
          else s)
  sign-Holds fits v h = elim (Bool-cases (fm.prepend || is_negative fm value)) [
    | inl e ↦ rw e (
        write_one-Holds cap mem fits out s (if is_negative fm value then 45 else fm.prepend_char) v
          h)
    | inr e ↦ rw e (subst (λ l. Holds cap mem l s) (sym (append-nil out)) v)
  ]

  layout-Holds :
      cap ≤ length mem
      → Holds cap mem out s
      → (repr : List ℕ) → length out + length repr + fm.min_width < word
      → Holds cap mem (out ++ layout fm repr) (
          if fm.left_justify
          then write_padding (write_many s repr) fm (length repr)
          else write_many (write_padding s fm (length repr)) repr)
  layout-Holds fits v repr h = go fm.left_justify
    where
      pad : List ℕ
      pad = padding_of fm (length repr)

      pad_size : length pad ≤ fm.min_width
      pad_size = omega (
        arith,
        length-padding (fm.min_width - length repr) (if fm.left_justify then 32 else fm.pad_char),
      )

      go :
          (left : Bool)
          → Holds cap mem (out ++ (if left then repr ++ pad else pad ++ repr)) (
              if left
              then write_padding (write_many s repr) fm (length repr)
              else write_many (write_padding s fm (length repr)) repr)
      go true =
          subst (λ l. Holds cap mem l (write_padding (write_many s repr) fm (length repr)))
            (append_assoc out repr pad)
            (write_padding-Holds cap mem fits (out ++ repr) (write_many s repr) fm (length repr)
              (write_many-Holds cap mem fits out s repr v (omega arith))
              (omega (arith, length-append out repr)))
      go false =
          subst (λ l. Holds cap mem l (write_many (write_padding s fm (length repr)) repr))
            (append_assoc out pad repr)
            (write_many-Holds cap mem fits (out ++ pad) (write_padding s fm (length repr)) repr
              (write_padding-Holds cap mem fits out s fm (length repr) v (omega arith))
              (omega (arith, pad_size, length-append out pad)))

-- Into a buffer of any capacity in its memory, `write_integer` returns and appends a sign, then the
-- prefix of the alternate form and the numeral of the magnitude in the base (in upper or lower case as the
-- flags say, "0" for 0, and else without a leading 0), padded to the width on the side that is not justified; the buffer holds as much of it as the capacity allows, and
-- all of it is counted. The base is 8, 10 or 16, the value a u64, and the count stays below 2^64.
pub write_integer-Holds :
    (cap : ℕ) (mem out : List ℕ) (s : FmtBufState) (fm : FmtSpec) (value : ℕ)
    → cap ≤ length mem
    → Holds cap mem out s
    → IsFormatBase fm.base
    → value < word
    → length out + fm.min_width + 25 < word
    → Returns (write_integer s fm value) (λ s'.
      (digits : List ℕ) × IsNumeral fm.uppercase fm.base (magnitude fm value) digits
      × Holds cap mem (out ++ (sign_text fm value ++ layout fm (prefix_text fm ++ digits))) s')
unfolding write_integer
write_integer-Holds cap mem out s fm value fits v b w h =
    Returns-bind (Represented fm (magnitude fm value)) _ (repr_of fm (magnitude fm value)) _
      (repr_of-Represented fm (magnitude fm value) b small)
      λ repr (digits, e, r).
        either-done _ (write_padding (write_many signed repr) fm (length repr))
          (write_many (write_padding signed fm (length repr)) repr) fm.left_justify
          (
            digits,
            r,
            subst (λ l. Holds cap mem l (laid fm repr signed)) (text digits repr e)
                (layout-Holds cap mem (out ++ sign_text fm value) signed fm value fits
                  (sign-Holds cap mem out s fm value fits v (omega arith)) repr
                  (omega (
                    arith,
                    ap (λ (l : List ℕ). length l) e,
                    length-append (prefix_text fm) digits,
                    prefix-length fm,
                    r.short,
                    sign-length,
                    length-append out (sign_text fm value),
                  ))),
          )
  where
    small : magnitude fm value < word
    small = ground (arith, w)

    sign-length : length (sign_text fm value) ≤ 1
    sign-length = ground arith

    signed : FmtBufState
    signed =
        if fm.prepend || is_negative fm value
        then write_one s (if is_negative fm value then 45 else fm.prepend_char)
        else s

    text :
        (digits repr : List ℕ)
        → repr ≡ prefix_text fm ++ digits
        → (out ++ sign_text fm value) ++ layout fm repr
          ≡ out ++ (sign_text fm value ++ layout fm (prefix_text fm ++ digits))
    text digits repr e =
        append_assoc out (sign_text fm value) (layout fm repr)
        ∙ ap (λ l. out ++ (sign_text fm value ++ layout fm l)) e
