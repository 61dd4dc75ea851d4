-- ===== src/Format/Parse.antt =====
-- kernel/common/format.c: how `vsnprintf` takes a directive apart.
use ultra.Prelude.{
  ℕ, suc, ◌≤◌, ◌<◌, ◌≡◌, inl, inr, refl, arith, Bool, true, false, ◌||◌, none, some, List, [], ◌∷◌,
  ◌++◌, ◌==◌, if◌then◌else◌, ==_of_ne, le→ltb, Bool-cases, length, done,
}
use ultra.Format.{FmtSpec}
use ultra.Format.Spec.{
  Arg, PrecisionSpec, Printing, go_on, digits_loop, consume_digits, parse_number, consume,
  consume_one_of, initial_fm, set_flag, flags_loop, star_or_number, parse_precision, parse_width,
}
use ultra.Format.Conversions.{convert_spec, convert}
use ultra.Text.Ctype.{isdigit}
use ultra.Text.Strings.{equal_with, str_starts_with, str_empty, find_char, str_find_one}
use ultra.Text.Numbers.{ok, str_to_u64_with_base}

pub consume_one :
    (c t : ℕ) (rest : List ℕ) → consume (c ∷ rest) (t ∷ []) ≡ (if c == t then some rest else none)
unfolding consume str_starts_with equal_with
consume_one c t rest =
    rw (le→ltb (length (c ∷ rest)) 1 (omega arith))
      (elim (Bool-cases (c == t)) [ inl e ↦ rw e refl | inr e ↦ rw e refl ])

pub consume_two :
    (c d t : ℕ) (rest : List ℕ)
    → consume (c ∷ d ∷ rest) (t ∷ t ∷ [])
      ≡ (if c == t then (if d == t then some rest else none) else none)
unfolding consume str_starts_with equal_with
consume_two c d t rest =
    rw (le→ltb (length (c ∷ d ∷ rest)) 2 (omega arith)) (elim (Bool-cases (c == t)) [
      | inl e ↦ elim (Bool-cases (d == t)) [ inl f ↦ rw (e, f) refl | inr f ↦ rw (e, f) refl ]
      | inr e ↦ rw e refl
    ])

abbrev pub AllDigits : List ℕ → Type 0
AllDigits [] = Unit
AllDigits (c ∷ digits) = (isdigit c ≡ true) × AllDigits digits

pub consume_two_of_ne :
    (c t : ℕ) (rest : List ℕ) → (c == t) ≡ false → consume (c ∷ rest) (t ∷ t ∷ []) ≡ none
unfolding consume str_starts_with
consume_two_of_ne c t [] e = refl
consume_two_of_ne c t (d ∷ rest) e = rw (consume_two c d t rest, e) refl

-- The head of a list is not the character.
abbrev pub HeadNot : (ℕ → Bool) → List ℕ → Type 0
HeadNot p [] = Unit
HeadNot p (c ∷ rest) = p c ≡ false

digits_loop_lem :
    (digits rest : List ℕ)
    → AllDigits digits
    → HeadNot isdigit rest
    → digits_loop (digits ++ rest) ≡ (digits, rest)
digits_loop_lem [] [] a h = refl
digits_loop_lem [] (c ∷ rest) a h = rw h refl
digits_loop_lem (c ∷ digits) rest a h = rw (a.0, digits_loop_lem digits rest a.1 h) refl

-- A flag of "+- 0#"
abbrev pub is_flag : ℕ → Bool
is_flag c = c == 43 || (c == 45 || (c == 32 || (c == 48 || c == 35)))

abbrev pub AllFlags : List ℕ → Type 0
AllFlags [] = Unit
AllFlags (c ∷ flags) = (is_flag c ≡ true) × AllFlags flags

-- The flags set one after the other.
abbrev pub set_flags : List ℕ → FmtSpec → FmtSpec
set_flags [] fm = fm
set_flags (c ∷ flags) fm = set_flags flags (set_flag c fm)

one_of_flags :
    (c : ℕ) (rest : List ℕ)
    → consume_one_of (c ∷ rest) (43 ∷ 45 ∷ 32 ∷ 48 ∷ 35 ∷ [])
      ≡ (if is_flag c then some (c, rest) else none)
unfolding consume_one_of str_find_one find_char
one_of_flags c rest = ground arith

flags_loop_lem :
    (flags rest : List ℕ) (fm : FmtSpec)
    → AllFlags flags
    → HeadNot is_flag rest
    → flags_loop (flags ++ rest) fm ≡ (set_flags flags fm, rest)
unfolding flags_loop
flags_loop_lem [] [] fm a h = refl
flags_loop_lem [] (c ∷ rest) fm a h = rw (one_of_flags c rest, h) refl
flags_loop_lem (c ∷ flags) rest fm a h =
    rw (one_of_flags c (flags ++ rest), a.0) (flags_loop_lem flags rest (set_flag c fm) a.1 h)

-- A letter that ends the flags, the width and the precision.
abbrev pub IsLetter : ℕ → Type 0
IsLetter c = (isdigit c ≡ false) × (58 ≤ c)

-- The digits of a minimal width, which start with no 0, or nothing.
abbrev pub IsWidth : List ℕ → ℕ → Type 0
IsWidth [] w = w ≡ 0
IsWidth (c ∷ digits) w =
    AllDigits (c ∷ digits) × (48 < c) × (c < 58) × (str_to_u64_with_base (c ∷ digits) 10 ≡ ok w)

width_lem :
    (width rest : List ℕ) (c w : ℕ) (args : List Arg)
    → IsWidth width w
    → IsLetter c
    → star_or_number (width ++ (c ∷ rest)) args false 0 ≡ done (go_on (w, c ∷ rest, args))
unfolding star_or_number parse_number consume_digits str_empty
width_lem [] rest c w args h l =
    rw (consume_one c 42 rest, ==_of_ne c 42 (λ e. omega (arith, l)), l.0, h) refl
width_lem (d ∷ digits) rest c w args h l =
    rw
      (
        consume_one d 42 (digits ++ (c ∷ rest)),
        ==_of_ne d 42 (λ e. omega (arith, h)),
        h.0.0,
        digits_loop_lem digits (c ∷ rest) h.0.1 l.0,
        ==_of_ne (suc (length digits)) 0 (λ e. omega arith),
        h.3,
      )
      refl

precision_lem :
    (spec : PrecisionSpec) (p : Printing) (c : ℕ) (rest : List ℕ)
    → 58 ≤ c
    → p.fmt ≡ c ∷ rest
    → parse_precision spec p ≡ done (go_on (spec, p))
unfolding parse_precision
precision_lem spec p c rest h e =
    rw (e, consume_one c 46 rest, ==_of_ne c 46 (λ q. omega arith)) refl

-- The flags and the width in front of a letter.
pub convert_lem :
    (flags width rest : List ℕ) (c w : ℕ) (p : Printing)
    → AllFlags flags
    → IsWidth width w
    → IsLetter c
    → p.fmt ≡ flags ++ (width ++ (c ∷ rest))
    → convert p
      ≡ convert_spec
          (record initial_fm { fm = record (set_flags flags initial_fm.fm) { min_width = w } })
          (record p { fmt = c ∷ rest })
unfolding convert parse_width
convert_lem flags width rest c w p a h l e =
    let fm = set_flags flags initial_fm.fm in
    rw
      (
        e,
        flags_loop_lem flags (width ++ (c ∷ rest)) initial_fm.fm a (no_flag width w h),
        width_lem width rest c w p.args h l,
        precision_lem (record initial_fm { fm = record fm { min_width = w } })
            (record p { fmt = c ∷ rest }) c rest l.1 refl,
      )
      refl
  where
    no_flag : (width : List ℕ) (w : ℕ) → IsWidth width w → HeadNot is_flag (width ++ (c ∷ rest))
    no_flag [] w h = ground (arith, l.1)
    no_flag (d ∷ digits) w h = ground (arith, h)
