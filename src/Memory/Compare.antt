-- ===== src/Memory/Compare.antt =====
-- `memcmp` and `strlen` against the bytes they read.
use ultra.Prelude.{
  ℕ, zero, suc, ◌+◌, ◌≤◌, ◌<◌, ◌≡◌, ◌≢◌, ◌∙◌, ap, sym, refl, Option, none, some, arith, ==_of_ne,
  ==_of_eq, done,
}
use native.Mathlib.Decide.{ℕ_discrete}
use ultra.Memory.{Memory, compare_loop, memcmp, strlen_loop, strlen}

-- The two bytes at the first index where the ranges differ, or none where they are the same.
abbrev pub Compared : Memory → ℕ → ℕ → ℕ → Option (ℕ × ℕ) → Type 0
Compared memory lhs rhs count none = (i : ℕ) → i < count → memory (lhs + i) ≡ memory (rhs + i)
Compared memory lhs rhs count (some (x, y)) =
    (i : ℕ) × (i < count)
    × (memory (lhs + i) ≡ x)
    × (memory (rhs + i) ≡ y)
    × (x ≢ y)
    × ((j : ℕ) → j < i → memory (lhs + j) ≡ memory (rhs + j))

module _ (memory : Memory) (lhs rhs : ℕ) (same : memory lhs ≡ memory rhs) where
  one_more :
      (n : ℕ)
      → ((i : ℕ) → i < n → memory (lhs + 1 + i) ≡ memory (rhs + 1 + i))
      → (i : ℕ) → i < suc n
      → memory (lhs + i) ≡ memory (rhs + i)
  one_more n h zero p =
      let a : lhs + 0 ≡ lhs = omega arith in
      let b : rhs + 0 ≡ rhs = omega arith in ap memory a ∙ same ∙ ap memory (sym b)
  one_more n h (suc i) p =
      let a : lhs + suc i ≡ lhs + 1 + i = omega arith in
      let b : rhs + 1 + i ≡ rhs + suc i = omega arith in
      ap memory a ∙ h i (omega arith) ∙ ap memory b

  later-Compared :
      (count : ℕ) (r : Option (ℕ × ℕ))
      → Compared memory (lhs + 1) (rhs + 1) count r
      → Compared memory lhs rhs (suc count) r
  later-Compared count none h = one_more count h
  later-Compared count (some (x, y)) (i, p, a, b, n, h) =
      let l : lhs + suc i ≡ lhs + 1 + i = omega arith in
      let r : rhs + suc i ≡ rhs + 1 + i = omega arith in
      (suc i, omega arith, ap memory l ∙ a, ap memory r ∙ b, n, one_more i h)

-- `memcmp` gives the difference of the first two bytes that differ, and 0 where all are the same.
pub memcmp-Compared :
    (memory : Memory) (lhs rhs count : ℕ)
    → Compared memory lhs rhs count (memcmp memory lhs rhs count)
unfolding memcmp compare_loop
memcmp-Compared memory lhs rhs zero = λ i p. absurd (omega arith)
memcmp-Compared memory lhs rhs (suc count) = elim (ℕ_discrete (memory lhs) (memory rhs)) [
  | yes e ↦ rw (==_of_eq (memory lhs) (memory rhs) e) (
      later-Compared memory lhs rhs e count (compare_loop memory (lhs + 1) (rhs + 1) count)
        (memcmp-Compared memory (lhs + 1) (rhs + 1) count))
  | no n ↦
      let a : lhs + 0 ≡ lhs = omega arith in
      let b : rhs + 0 ≡ rhs = omega arith in
      rw (==_of_ne (memory lhs) (memory rhs) n)
        (0, omega arith, ap memory a, ap memory b, n, λ j p. absurd (omega arith))
]

strlen_loop_lem :
    (k fuel : ℕ) (memory : Memory) (str n : ℕ)
    → k < fuel
    → memory (str + (n + k)) ≡ 0
    → ((j : ℕ) → n ≤ j → j < n + k → memory (str + j) ≢ 0)
    → strlen_loop fuel memory str n ≡ done (n + k)
unfolding strlen_loop
strlen_loop_lem k zero memory str n f e h = absurd (omega arith)
strlen_loop_lem zero (suc fuel) memory str n f e h =
    let z : n + 0 ≡ n = omega arith in
    let zero_byte : memory (str + n) ≡ 0 = ap (λ i. memory (str + i)) (sym z) ∙ e in
    rw (==_of_eq (memory (str + n)) 0 zero_byte, z) refl
strlen_loop_lem (suc k) (suc fuel) memory str n f e h =
    let z : n + suc k ≡ n + 1 + k = omega arith in
    rw (==_of_ne (memory (str + n)) 0 (h n (omega arith) (omega arith)), z)
      (strlen_loop_lem k fuel memory str (n + 1) (omega arith)
        (ap (λ i. memory (str + i)) (sym z) ∙ e) (λ j p q. h j (omega arith) (omega arith)))

-- `strlen` ends at the first 0 byte and gives the number of bytes before it.
pub strlen-first :
    (fuel : ℕ) (memory : Memory) (str n : ℕ)
    → n < fuel
    → memory (str + n) ≡ 0
    → ((j : ℕ) → j < n → memory (str + j) ≢ 0)
    → strlen fuel memory str ≡ done n
unfolding strlen
strlen-first fuel memory str n f e h =
    let z : 0 + n ≡ n = omega arith in
    strlen_loop_lem n fuel memory str 0 f (ap (λ i. memory (str + i)) z ∙ e)
      (λ j p q. h j (omega arith))
    ∙ ap done z
