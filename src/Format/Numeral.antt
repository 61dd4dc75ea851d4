-- ===== src/Format/Numeral.antt =====
-- kernel/common/format.c: the numeral that `write_integer` writes is the only one of its number.
use ultra.Prelude.{
  ℕ, zero, suc, ◌+◌, ◌-◌, ◌*◌, ◌<◌, ◌≡◌, inl, inr, refl, sym, ap, ap₂, ◌∙◌, arith, Bool, List, [],
  ◌∷◌, length,
}
use native.Mathlib.Decide.{dec_le}
use ultra.Text.Numbers.Digits.{IsDigits, digit, value}
use ultra.Format.Characters.{IsFormatBase, numeral_char, zero_digit}
use ultra.Format.Digits.{IsNumeral, AreDrawn, NoLeadingZero}

-- One step of the value tells the digit and the number before it.
step_unique :
    (base n m x y : ℕ)
    → IsFormatBase base
    → x < base
    → y < base
    → n * base + x ≡ m * base + y
    → (n ≡ m) × (x ≡ y)
step_unique base n m x y (inl e) h k q =
    let p : n * 8 + x ≡ m * 8 + y = rw e at q in (omega (arith, e), omega (arith, e))
step_unique base n m x y (inr (inl e)) h k q =
    let p : n * 10 + x ≡ m * 10 + y = rw e at q in (omega (arith, e), omega (arith, e))
step_unique base n m x y (inr (inr e)) h k q =
    let p : n * 16 + x ≡ m * 16 + y = rw e at q in (omega (arith, e), omega (arith, e))

module _ (upper : Bool) (base : ℕ) (b : IsFormatBase base) where
  -- As many digits for the same value are the same digits.
  same-length :
      (n m : ℕ) (x y : List ℕ)
      → length x ≡ length y
      → IsDigits base x
      → IsDigits base y
      → AreDrawn upper x
      → AreDrawn upper y
      → value base n x ≡ value base m y
      → (n ≡ m) × (x ≡ y)
  unfolding value
  same-length n m [] [] l i j d e v = (v, refl)
  same-length n m [] (c ∷ y) l i j d e v = absurd (omega arith)
  same-length n m (c ∷ x) [] l i j d e v = absurd (omega arith)
  same-length n m (a ∷ x) (c ∷ y) l i j d e v =
      let rest =
        same-length (n * base + digit a) (m * base + digit c) x y (omega arith) i.2 j.2 d.1 e.1 v in
      let first = step_unique base n m (digit a) (digit c) b i.1 j.1 rest.0 in
      (
        first.0,
        ap₂ (λ (c : ℕ) (l : List ℕ). c ∷ l) (d.0 ∙ ap (numeral_char upper) first.1 ∙ sym e.0)
            rest.1,
      )

  -- The digits behind so many zeros.
  abbrev zeros_before : ℕ → List ℕ → List ℕ
  zeros_before zero x = x
  zeros_before (suc k) x = 48 ∷ zeros_before k x

  length-zeros_before : (k : ℕ) (x : List ℕ) → length (zeros_before k x) ≡ k + length x
  length-zeros_before zero x = omega arith
  length-zeros_before (suc k) x = omega (arith, length-zeros_before k x)

  value-zeros_before : (k : ℕ) (x : List ℕ) → value base 0 (zeros_before k x) ≡ value base 0 x
  unfolding value
  value-zeros_before zero x = refl
  value-zeros_before (suc k) x =
      let none : 0 * base + digit 48 ≡ 0 = omega (arith, zero_digit.1) in
      ap (λ (n : ℕ). value base n (zeros_before k x)) none ∙ value-zeros_before k x

  zeros_before-IsDigits : (k : ℕ) (x : List ℕ) → IsDigits base x → IsDigits base (zeros_before k x)
  zeros_before-IsDigits zero x i = i
  zeros_before-IsDigits (suc k) x i =
      (zero_digit.0, omega (arith, zero_digit.1, b), zeros_before-IsDigits k x i)

  zeros_before-AreDrawn :
      (k : ℕ) (x : List ℕ) → AreDrawn upper x → AreDrawn upper (zeros_before k x)
  zeros_before-AreDrawn zero x d = d
  zeros_before-AreDrawn (suc k) x d =
      (sym (ap (numeral_char upper) zero_digit.1), zeros_before-AreDrawn k x d)

  -- A list that starts with "0" has no other first digit.
  not_leading : (x y : List ℕ) → 48 ∷ x ≡ y → NoLeadingZero y → ⊥
  not_leading x [] e h = cc
  not_leading x (c ∷ y) e h =
      let same : 48 ≡ c = cc in omega (arith, zero_digit.1, ap digit same, h)

  not_empty : (x : List ℕ) {v : ℕ} → IsNumeral upper base v x → 0 < length x
  not_empty x p = elim p.leading [
    | inl z ↦ omega (arith, ap (λ (d : List ℕ). length d) z)
    | inr n ↦ n.0
  ]

  shorter_unique :
      (v k : ℕ) (x y : List ℕ)
      → IsNumeral upper base v x
      → IsNumeral upper base v y
      → k + length x ≡ length y
      → x ≡ y
  shorter_unique v k x y p q l =
      let padded =
        same-length 0 0 (zeros_before k x) y (length-zeros_before k x ∙ l)
          (zeros_before-IsDigits k x p.are) q.are (zeros_before-AreDrawn k x p.drawn) q.drawn
          (value-zeros_before k x ∙ p.stands ∙ sym q.stands) in
      same k l padded.1
    where
      same : (k : ℕ) → k + length x ≡ length y → zeros_before k x ≡ y → x ≡ y
      same zero l e = e
      same (suc k) l e = elim q.leading [
        | inl z ↦ absurd (omega (arith, not_empty x p, l, ap (λ (d : List ℕ). length d) z))
        | inr n ↦ absurd (not_leading (zeros_before k x) y e n.1)
      ]

-- Two numerals of a number in a base of a conversion, in the same case, are the same text.
pub IsNumeral-unique :
    (upper : Bool) (base v : ℕ) (x y : List ℕ)
    → IsFormatBase base
    → IsNumeral upper base v x
    → IsNumeral upper base v y
    → x ≡ y
IsNumeral-unique upper base v x y b p q = elim (dec_le (length x) (length y)) [
  | yes l ↦ shorter_unique upper base b v (length y - length x) x y p q (omega arith)
  | no l ↦ sym (shorter_unique upper base b v (length x - length y) y x q p (omega arith))
]
