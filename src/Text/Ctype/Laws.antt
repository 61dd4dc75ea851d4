-- ===== src/Text/Ctype/Laws.antt =====
-- The classes of characters as ranges of bytes.
use ultra.Prelude.{
  ℕ, zero, suc, ◌+◌, ◌-◌, ◌≡◌, ◌<◌, refl, Bool, true, false, not, ◌&&◌, ◌||◌, leb, ◌==◌,
  if◌then◌else◌, arith,
}
use native.Mathlib.Decide.{dec_lt}
use ultra.Text.Ctype.{
  is_char_of_type, isupper, islower, isalnum, isspace, isdigit, isxdigit, tolower, toupper,
}

-- The test holds of all numbers below the bound.
abbrev pub all_below : ℕ → (ℕ → Bool) → Bool
all_below zero test = true
all_below (suc n) test = test n && all_below n test

pub all_below_lem :
    (n : ℕ) (test : ℕ → Bool) (c : ℕ) → all_below n test ≡ true → c < n → test c ≡ true
all_below_lem zero test c h p = absurd (omega arith)
all_below_lem (suc n) test c h p = elim (dec_lt c n) [
  | yes q ↦ all_below_lem n test c (ground arith) q
  | no q ↦ let e : c ≡ n = omega arith in rw e (ground arith)
]

same : Bool → Bool → Bool
same a b = if a then b else not b

same_lem : (a b : Bool) → same a b ≡ true → a ≡ b
unfolding same
same_lem true b h = ground arith
same_lem false b h = ground arith

abbrev pub is_between : ℕ → ℕ → ℕ → Bool
is_between lo hi c = leb lo c && leb c hi

table : Unit {0}
unfolding same isupper islower isalnum isspace isdigit isxdigit is_char_of_type
table = tt

abbrev pub is_hex : ℕ → Bool
is_hex c = is_between 48 57 c || is_between 65 70 c || is_between 97 102 c

abbrev pub is_white : ℕ → Bool
is_white c = is_between 9 13 c || c == 32

agree :
    (f g : ℕ → Bool) (c : ℕ) → all_below 256 (λ c. same (f c) (g c)) ≡ true → c < 256 → f c ≡ g c
agree f g c h p = same_lem (f c) (g c) (all_below_lem 256 (λ c. same (f c) (g c)) c h p)

module _ (c : ℕ) (byte : c < 256) where
  pub isupper_lem : isupper c ≡ is_between 65 90 c
  unfolding table
  isupper_lem = agree isupper (is_between 65 90) c refl byte

  pub islower_lem : islower c ≡ is_between 97 122 c
  unfolding table
  islower_lem = agree islower (is_between 97 122) c refl byte

  pub isdigit_lem : isdigit c ≡ is_between 48 57 c
  unfolding table
  isdigit_lem = agree isdigit (is_between 48 57) c refl byte

  pub isxdigit_lem : isxdigit c ≡ is_hex c
  unfolding table
  isxdigit_lem = agree isxdigit is_hex c refl byte

  pub isspace_lem : isspace c ≡ is_white c
  unfolding table
  isspace_lem = agree isspace is_white c refl byte

  -- Every byte is classified by its range: `isupper` holds of A to Z, `islower` of a to z, `isdigit` of
  -- 0 to 9, `isxdigit` of 0 to 9, A to F and a to f, `isspace` of 9 to 13 and of the space.
  pub classes :
      (isupper c ≡ is_between 65 90 c)
      × (islower c ≡ is_between 97 122 c)
      × (isdigit c ≡ is_between 48 57 c)
      × (isxdigit c ≡ is_hex c)
      × (isspace c ≡ is_white c)
  classes = (isupper_lem, islower_lem, isdigit_lem, isxdigit_lem, isspace_lem)

  -- `isalnum` holds of no byte, since `is_char_of_type` asks for all bits of the class at once.
  pub isalnum_never : isalnum c ≡ false
  unfolding table
  isalnum_never = agree isalnum (λ c. false) c refl byte

  pub tolower_lem : tolower c ≡ (if is_between 65 90 c then c + 32 else c)
  unfolding tolower
  tolower_lem = ground (arith, isupper_lem)

  pub toupper_lem : toupper c ≡ (if is_between 97 122 c then c - 32 else c)
  unfolding toupper
  toupper_lem = ground (arith, islower_lem)

-- For every byte, `toupper` undoes `tolower` up to case and the other way around, and a letter of one
-- case has the other case after it.
pub toupper-tolower :
    (c : ℕ)
    → c < 256
    → (toupper (tolower c) ≡ toupper c)
      × (tolower (toupper c) ≡ tolower c)
      × (islower (tolower c) ≡ (isupper c || islower c))
      × (isupper (toupper c) ≡ (isupper c || islower c))
toupper-tolower c byte = (
  ground (arith, low, up, toupper_lem (tolower c)),
  ground (arith, low, up, tolower_lem (toupper c)),
  ground (arith, low, up, isupper_lem c byte, islower_lem c byte, islower_lem (tolower c)),
  ground (arith, low, up, isupper_lem c byte, islower_lem c byte, isupper_lem (toupper c)),
)
  where
    low : tolower c ≡ (if is_between 65 90 c then c + 32 else c)
    low = tolower_lem c byte

    up : toupper c ≡ (if is_between 97 122 c then c - 32 else c)
    up = toupper_lem c byte
