-- ===== src/Text/Numbers/Digits.antt =====
-- The loop of `do_str_to_u64_unchecked` computes the value of its digits, or notices that it is too large.
use ultra.Prelude.{
  ℕ, ◌+◌, ◌*◌, ◌/◌, ◌%◌, ◌<◌, ◌≤◌, ◌≡◌, ◌≢◌, ◌⊎◌, inl, inr, none, some, List, [], ◌∷◌, ltb,
  if◌then◌else◌, arith,
}
use native.Mathlib.Decide.{dec_lt}
use ultra.Text.Numbers.{Result, ok, error, erange, word, digit_of, do_str_to_u64_unchecked}

-- The bases that a prefix stands for.
abbrev pub IsBase : ℕ → Type 0
IsBase base = (base ≡ 2) ⊎ (base ≡ 8) ⊎ (base ≡ 10) ⊎ (base ≡ 16)

unfoldable pub digit : ℕ → ℕ
digit c = elim (digit_of c) [ none ↦ 0 | some d ↦ d ]

-- Every character is a digit of the base.
abbrev pub IsDigits : ℕ → List ℕ → Type 0
IsDigits base [] = Unit
IsDigits base (c ∷ str) = (digit_of c ≡ some (digit c)) × (digit c < base) × IsDigits base str

-- The value of the digits behind a number.
unfoldable pub value : ℕ → ℕ → List ℕ → ℕ
value base number [] = number
value base number (c ∷ str) = value base (number * base + digit c) str

value_ge : (base number : ℕ) (str : List ℕ) → IsBase base → number ≤ value base number str
unfolding value
value_ge base number [] b = omega arith
value_ge base number (c ∷ str) b =
    omega (arith, value_ge base (number * base + digit c) str b, grows b)
  where
    grows : IsBase base → number ≤ number * base
    grows (inl e) = rw e (omega arith)
    grows (inr (inl e)) = rw e (omega arith)
    grows (inr (inr (inl e))) = rw e (omega arith)
    grows (inr (inr (inr e))) = rw e (omega arith)

module _ (number d : ℕ) (h : number < word) where
  abbrev Wraps : ℕ → Type 0
  Wraps base =
      (number * base + d < word
        → ((number * base + d) % word ≡ number * base + d)
          × ((number * base + d) % word / base ≡ number))
      × (word ≤ number * base + d → (number * base + d) % word / base ≢ number)

  base_2_Wraps : d < 2 → Wraps 2
  base_2_Wraps k = ((λ p. (omega arith, omega arith)), λ p q. omega arith)

  base_8_Wraps : d < 8 → Wraps 8
  base_8_Wraps k = ((λ p. (omega arith, omega arith)), λ p q. omega arith)

  base_10_Wraps : d < 10 → Wraps 10
  base_10_Wraps k = ((λ p. (omega arith, omega arith)), λ p q. omega arith)

  base_16_Wraps : d < 16 → Wraps 16
  base_16_Wraps k = ((λ p. (omega arith, omega arith)), λ p q. omega arith)

-- One round: the division tells whether the sum was too large.
wraps : (base number d : ℕ) → IsBase base → (h : number < word) → d < base → Wraps number d h base
wraps base number d (inl e) h k = rw e (base_2_Wraps number d h (rw e at k))
wraps base number d (inr (inl e)) h k = rw e (base_8_Wraps number d h (rw e at k))
wraps base number d (inr (inr (inl e))) h k = rw e (base_10_Wraps number d h (rw e at k))
wraps base number d (inr (inr (inr e))) h k = rw e (base_16_Wraps number d h (rw e at k))

-- The value of the digits if a u64 can hold it, else ERANGE.
abbrev pub checked : ℕ → Result ℕ
checked v = if ltb v word then ok v else error erange

-- For a base of a prefix and digits of that base, the loop gives the value of the digits behind the
-- number so far, or ERANGE exactly where a u64 cannot hold it.
pub do_str_to_u64_unchecked-value :
    (base number : ℕ) (str : List ℕ)
    → IsBase base
    → number < word
    → IsDigits base str
    → do_str_to_u64_unchecked str number base ≡ checked (value base number str)
unfolding do_str_to_u64_unchecked value
do_str_to_u64_unchecked-value base number [] b h d = ground arith
do_str_to_u64_unchecked-value base number (c ∷ str) b h (e, k, d) =
    let w = wraps base number (digit c) b h k in
    elim (dec_lt (number * base + digit c) word) [
      | yes p ↦
          ground (
            arith,
            e,
            w.0 p,
            do_str_to_u64_unchecked-value base (number * base + digit c) str b p d,
          )
      | no p ↦ ground (arith, e, w.1 (omega arith), value_ge base (number * base + digit c) str b)
    ]
