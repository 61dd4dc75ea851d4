-- ===== src/Format/Digits.antt =====
-- The digits of an integer, as `write_integer` makes them.
use ultra.Prelude.{
  ℕ, zero, suc, ◌+◌, ◌*◌, ◌/◌, ◌%◌, ◌≤◌, ◌<◌, ◌≡◌, ◌⊎◌, ◌∙◌, ap, ap₂, sym, subst, refl, Bool, List,
  [], ◌∷◌, ◌++◌, length, arith, append_assoc, append-nil, length-append, inl, inr, some, done,
  Returns, Returns_mono,
}
use native.Mathlib.Decide.{dec_lt}
use ultra.Text.Numbers.{digit_of}
use ultra.Text.Numbers.Digits.{IsDigits, digit, value}
use ultra.Format.{FmtSpec, word, put, put_zero, repr_char, repr_loop}
use ultra.Format.Characters.{
  IsFormatBase, numeral_char, zero_digit, repr_char_lem, repr_char-numeral_char,
}

-- Division by the base.
divides :
    (base v : ℕ)
    → IsFormatBase base
    → (v / base * base + v % base ≡ v) × (v % base < base) × (v / base * 8 ≤ v)
divides base v (inl e) = rw e (omega arith)
divides base v (inr (inl e)) = rw e (omega arith)
divides base v (inr (inr e)) = rw e (omega arith)

abbrev power : ℕ → ℕ
power zero = 1
power (suc k) = 8 * power k

value-append :
    (base number c : ℕ) (str : List ℕ)
    → value base number (str ++ (c ∷ [])) ≡ value base number str * base + digit c
unfolding value
value-append base number c [] = refl
value-append base number c (x ∷ str) = value-append base (number * base + digit x) c str

IsDigits-append :
    (base c : ℕ) (str : List ℕ)
    → IsDigits base str
    → digit_of c ≡ some (digit c)
    → digit c < base
    → IsDigits base (str ++ (c ∷ []))
IsDigits-append base c [] h e k = (e, k, tt)
IsDigits-append base c (x ∷ str) (a, b, h) e k = (a, b, IsDigits-append base c str h e k)

-- Every character is the one of its digit, in upper or in lower case.
abbrev pub AreDrawn : Bool → List ℕ → Type 0
AreDrawn upper [] = Unit
AreDrawn upper (c ∷ str) = (c ≡ numeral_char upper (digit c)) × AreDrawn upper str

AreDrawn-append :
    (upper : Bool) (c : ℕ) (str : List ℕ)
    → AreDrawn upper str
    → c ≡ numeral_char upper (digit c)
    → AreDrawn upper (str ++ (c ∷ []))
AreDrawn-append upper c [] h e = (e, tt)
AreDrawn-append upper c (x ∷ str) h e = (h.0, AreDrawn-append upper c str h.1 e)

-- The first digit is not 0.
abbrev pub NoLeadingZero : List ℕ → Type 0
NoLeadingZero [] = Unit
NoLeadingZero (c ∷ str) = 0 < digit c

leading-append :
    (c : ℕ) (str : List ℕ)
    → NoLeadingZero str
    → (str ≡ [] → 0 < digit c)
    → NoLeadingZero (str ++ (c ∷ []))
leading-append c [] h k = k refl
leading-append c (x ∷ str) h k = h

-- Digits of the base, at most `k` of them, that stand for the number, without a leading 0: none for 0.
pub record Represents (upper : Bool) (base v k : ℕ) (digits : List ℕ) : Type 0 where
  pub are : IsDigits base digits
  pub stands : value base 0 digits ≡ v
  pub short : length digits ≤ k
  pub drawn : AreDrawn upper digits
  pub leading : NoLeadingZero digits

-- The numeral of a number in a base: its digits in upper or in lower case, "0" for 0, and else without a
-- leading 0.
pub record IsNumeral (upper : Bool) (base v : ℕ) (digits : List ℕ) : Type 0 where
  pub are : IsDigits base digits
  pub stands : value base 0 digits ≡ v
  pub short : length digits ≤ 22
  pub drawn : AreDrawn upper digits
  pub leading : (digits ≡ 48 ∷ []) ⊎ ((0 < length digits) × NoLeadingZero digits)

module _ (fm : FmtSpec) (b : IsFormatBase fm.base) where
  loop_end : (fuel : ℕ) (repr : List ℕ) → repr_loop (suc fuel) fm 0 repr ≡ done repr
  unfolding repr_loop
  loop_end fuel repr = refl

  loop_step :
      (fuel v : ℕ) (repr : List ℕ)
      → 0 < v
      → length repr < 32
      → repr_loop (suc fuel) fm v repr
        ≡ repr_loop fuel fm (v / fm.base) (repr_char fm (v % fm.base) ∷ repr)
  unfolding repr_loop put
  loop_step fuel v repr h k = ground arith

  nothing_left :
      (k fuel v : ℕ) (repr : List ℕ)
      → v ≡ 0
      → Returns (repr_loop (suc fuel) fm v repr) (λ r.
        (digits : List ℕ) × (r ≡ digits ++ repr) × Represents fm.uppercase fm.base v k digits)
  unfolding value
  nothing_left k fuel v repr z =
      rw (z, loop_end fuel repr)
        (
          [],
          refl,
          record { are = tt; stands = refl; short = omega arith; drawn = tt; leading = tt },
        )

  -- Where nothing is left of the value, the last digit is the first one.
  first_digit :
      (v c : ℕ) (digits : List ℕ)
      → 0 < v
      → value fm.base 0 digits ≡ v / fm.base
      → v / fm.base * fm.base + digit c ≡ v
      → digits ≡ []
      → 0 < digit c
  unfolding value
  first_digit v c digits p e q z =
      let none : v / fm.base ≡ 0 = sym e ∙ ap (value fm.base 0) z in
      let all : 0 * fm.base + digit c ≡ v = ap (λ (t : ℕ). t * fm.base + digit c) (sym none) ∙ q in
      omega (arith, all)

  -- The loop puts the digits of the value before those that are there.
  repr_loop-Represents :
      (k fuel v : ℕ) (repr : List ℕ)
      → v < power k
      → k < fuel
      → k + length repr ≤ 32
      → Returns (repr_loop fuel fm v repr) (λ r.
        (digits : List ℕ) × (r ≡ digits ++ repr) × Represents fm.uppercase fm.base v k digits)
  repr_loop-Represents k zero v repr h f l = absurd (omega arith)
  repr_loop-Represents zero (suc fuel) v repr h f l = nothing_left 0 fuel v repr (omega arith)
  repr_loop-Represents (suc k) (suc fuel) v repr h f l = elim (dec_lt 0 v) [
    | no z ↦ nothing_left (suc k) fuel v repr (omega arith)
    | yes p ↦
        let d = divides fm.base v b in
        let c = repr_char_lem fm (v % fm.base) b d.1 in
        rw (loop_step fuel v repr p (omega arith)) (
          Returns_mono (repr_loop fuel fm (v / fm.base) (repr_char fm (v % fm.base) ∷ repr))
            (λ r (digits, e, h). (
              digits ++ (repr_char fm (v % fm.base) ∷ []),
              e ∙ sym (append_assoc digits (repr_char fm (v % fm.base) ∷ []) repr),
              record {
                are =
                    IsDigits-append fm.base (repr_char fm (v % fm.base)) digits h.are
                      (c.0 ∙ ap some (sym c.1)) (omega (arith, c.1, d));
                stands =
                    value-append fm.base 0 (repr_char fm (v % fm.base)) digits
                    ∙ ap₂ (λ x y. x * fm.base + y) h.stands c.1
                    ∙ d.0;
                short =
                    omega (arith, h.short, length-append digits (repr_char fm (v % fm.base) ∷ []));
                drawn = AreDrawn-append fm.uppercase (repr_char fm (v % fm.base)) digits h.drawn (
                    repr_char-numeral_char fm (v % fm.base) b d.1
                    ∙ ap (numeral_char fm.uppercase) (sym c.1));
                leading = leading-append (repr_char fm (v % fm.base)) digits h.leading (
                    first_digit v (repr_char fm (v % fm.base)) digits p h.stands
                      (ap (λ (t : ℕ). v / fm.base * fm.base + t) c.1 ∙ d.0));
              },
            ))
            (repr_loop-Represents k fuel (v / fm.base) (repr_char fm (v % fm.base) ∷ repr)
              (omega (arith, d)) (omega arith) (omega arith)))
  ]

  -- A value below 2^64 has at most 22 digits, the fuel is enough, and so is the buffer.
  pub digits-Represents :
      (v : ℕ) → v < word → Returns (repr_loop 65 fm v []) (Represents fm.uppercase fm.base v 22)
  digits-Represents v h =
      Returns_mono (repr_loop 65 fm v [])
        (λ r (digits, e, p).
          subst (Represents fm.uppercase fm.base v 22) (sym (e ∙ append-nil digits)) p)
        (repr_loop-Represents 22 65 v [] (omega arith) (omega arith) (omega arith))

  pub put_zero-IsNumeral :
      (v : ℕ) (r : List ℕ)
      → Represents fm.uppercase fm.base v 22 r
      → Returns (put_zero r) (IsNumeral fm.uppercase fm.base v)
  unfolding put_zero put value
  put_zero-IsNumeral v [] h = record {
    are = (zero_digit.0, omega (arith, zero_digit.1, b), tt);
    stands = omega (arith, zero_digit.1, h.stands);
    short = omega arith;
    drawn = (sym (ap (numeral_char fm.uppercase) zero_digit.1), tt);
    leading = inl refl;
  }
  put_zero-IsNumeral v (c ∷ r) h = record {
    are = h.are;
    stands = h.stands;
    short = h.short;
    drawn = h.drawn;
    leading = inr (omega arith, h.leading);
  }
