-- ===== src/Format/RoundTrip.antt =====
-- What the writer prints, the conversions of kernel/common/conversions.c read back.
use ultra.Prelude.{
  ℕ, ◌≡◌, ◌<◌, ◌⊎◌, ◌∙◌, ap, inl, inr, true, false, List, ◌++◌, arith, Returns, Returns_mono,
}
use ultra.Text.Numbers.{ok, str_to_u64_with_base}
use ultra.Text.Numbers.Digits.{value, checked}
use ultra.Text.Numbers.Base.{hexadecimal, octal, prefix_of, str_to_u64-value}
use ultra.Format.{FmtSpec, word, repr_of}
use ultra.Format.Digits.{IsNumeral}
use ultra.Format.Integer.{prefix_text, repr_of-Represented}

checked_lem : (v w : ℕ) → v ≡ w → w < word → checked v ≡ ok w
checked_lem v w e h = ground arith

module _ (fm : FmtSpec) (alternate : fm.alternate_form ≡ true) (lower : fm.uppercase ≡ false) where
  hex_text : fm.base ≡ 16 → prefix_text fm ≡ prefix_of hexadecimal
  hex_text e = ground (arith, alternate, lower, e)

  octal_text : fm.base ≡ 8 → prefix_text fm ≡ prefix_of octal
  octal_text e = ground (arith, alternate, lower, e)

  read_hex :
      (v : ℕ) (digits : List ℕ)
      → fm.base ≡ 16
      → v < word
      → IsNumeral fm.uppercase fm.base v digits
      → str_to_u64_with_base (prefix_text fm ++ digits) 0 ≡ ok v
  read_hex v digits e h r =
      let k : IsNumeral fm.uppercase 16 v digits = rw e at r in
      ap (λ p. str_to_u64_with_base (p ++ digits) 0) (hex_text e)
      ∙ str_to_u64-value hexadecimal digits k.are
      ∙ checked_lem (value 16 0 digits) v k.stands h

  read_octal :
      (v : ℕ) (digits : List ℕ)
      → fm.base ≡ 8
      → v < word
      → IsNumeral fm.uppercase fm.base v digits
      → str_to_u64_with_base (prefix_text fm ++ digits) 0 ≡ ok v
  read_octal v digits e h r =
      let k : IsNumeral fm.uppercase 8 v digits = rw e at r in
      ap (λ p. str_to_u64_with_base (p ++ digits) 0) (octal_text e)
      ∙ str_to_u64-value octal digits k.are
      ∙ checked_lem (value 8 0 digits) v k.stands h

-- In the alternate form, in lower case and in base 8 or 16, the representation of a u64 is made without
-- leaving its buffer, and `str_to_u64_with_base` without a base reads the same number from it.
pub str_to_u64-repr_of :
    (fm : FmtSpec) (v : ℕ)
    → fm.alternate_form ≡ true
    → fm.uppercase ≡ false
    → (fm.base ≡ 8) ⊎ (fm.base ≡ 16)
    → v < word
    → Returns (repr_of fm v) (λ repr. str_to_u64_with_base repr 0 ≡ ok v)
str_to_u64-repr_of fm v a l (inl e) h =
    Returns_mono (repr_of fm v)
      (λ repr (digits, p, r).
        ap (λ t. str_to_u64_with_base t 0) p ∙ read_octal fm a l v digits e h r)
      (repr_of-Represented fm v (inl e) h)
str_to_u64-repr_of fm v a l (inr e) h =
    Returns_mono (repr_of fm v)
      (λ repr (digits, p, r). ap (λ t. str_to_u64_with_base t 0) p ∙ read_hex fm a l v digits e h r)
      (repr_of-Represented fm v (inr (inr e)) h)
