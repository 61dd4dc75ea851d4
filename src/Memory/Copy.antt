-- ===== src/Memory/Copy.antt =====
-- What the copies and `memset` leave at every address.
use ultra.Prelude.{
  ℕ, zero, suc, ◌+◌, ◌-◌, ◌%◌, ◌≤◌, ◌<◌, ◌≡◌, ◌≢◌, ◌⊎◌, ◌∙◌, ap, sym, lt→ltb, le→ltb, inl, inr,
  refl, true, false, ◌&&◌, ltb, leb, if◌then◌else◌, arith, ==_of_ne, ==_of_eq,
}
use native.Mathlib.Decide.{dec_lt, ℕ_discrete}
use ultra.Memory.{Memory, poke, memcpy, copy_backwards, memmove, set_loop, memset}

poke_same :
    (memory : Memory) (address value k : ℕ) → k ≡ address → poke memory address value k ≡ value
poke_same memory address value k e = rw (==_of_eq k address e) refl

poke_other :
    (memory : Memory) (address value k : ℕ) → k ≢ address → poke memory address value k ≡ memory k
poke_other memory address value k n = rw (==_of_ne k address n) refl

-- The memory after `count` bytes at `dest` got the values that a function gives.
abbrev pub replaced : Memory → ℕ → ℕ → (ℕ → ℕ) → ℕ → ℕ
replaced memory dest count value a =
    if leb dest a && ltb a (dest + count) then value (a - dest) else memory a

inside :
    (dest count a : ℕ) → dest ≤ a → a < dest + count → (leb dest a && ltb a (dest + count)) ≡ true
inside dest count a p q = ground arith

outside_below : (dest count a : ℕ) → a < dest → (leb dest a && ltb a (dest + count)) ≡ false
outside_below dest count a p = ground arith

outside_above : (dest count a : ℕ) → dest + count ≤ a → (leb dest a && ltb a (dest + count)) ≡ false
outside_above dest count a p = ground arith

module _ (memory : Memory) (dest count : ℕ) (value : ℕ → ℕ) (a : ℕ) where
  replaced_in : dest ≤ a → a < dest + count → replaced memory dest count value a ≡ value (a - dest)
  replaced_in p q = rw (inside dest count a p q) refl

  replaced_below : a < dest → replaced memory dest count value a ≡ memory a
  replaced_below p = rw (outside_below dest count a p) refl

  replaced_above : dest + count ≤ a → replaced memory dest count value a ≡ memory a
  replaced_above p = rw (outside_above dest count a p) refl

-- `memcpy` leaves the bytes of the source at the destination and all others as they were, where the
-- destination does not start inside the source behind its first byte.
pub memcpy-replaced :
    (memory : Memory) (dest src count a : ℕ)
    → (dest ≤ src) ⊎ (src + count ≤ dest)
    → memcpy memory dest src count a ≡ replaced memory dest count (λ i. memory (src + i)) a
unfolding memcpy
memcpy-replaced memory dest src zero a d = elim (dec_lt a dest) [
  | yes p ↦ sym (replaced_below memory dest 0 (λ i. memory (src + i)) a p)
  | no p ↦ sym (replaced_above memory dest 0 (λ i. memory (src + i)) a (omega arith))
]
memcpy-replaced memory dest src (suc count) a d =
    memcpy-replaced memory' (dest + 1) (src + 1) count a (later d) ∙ elim (dec_lt a dest) [
      | yes p ↦
          replaced_below memory' (dest + 1) count value' a (omega arith)
          ∙ poke_other memory dest (memory src) a (λ e. omega arith)
          ∙ sym (replaced_below memory dest (suc count) value a p)
      | no p ↦ elim (dec_lt a (dest + suc count)) [
        | no q ↦
            replaced_above memory' (dest + 1) count value' a (omega arith)
            ∙ poke_other memory dest (memory src) a (λ e. omega arith)
            ∙ sym (replaced_above memory dest (suc count) value a (omega arith))
        | yes q ↦ elim (ℕ_discrete a dest) [
          | yes e ↦
              let same : src ≡ src + (a - dest) = omega arith in
              replaced_below memory' (dest + 1) count value' a (omega arith)
              ∙ poke_same memory dest (memory src) a e
              ∙ ap memory same
              ∙ sym (replaced_in memory dest (suc count) value a (omega arith) q)
          | no e ↦
              let same : src + 1 + (a - (dest + 1)) ≡ src + (a - dest) = omega arith in
              replaced_in memory' (dest + 1) count value' a (omega arith) (omega arith)
              ∙ poke_other memory dest (memory src) (src + 1 + (a - (dest + 1)))
                  (λ k. apart d k (omega arith) q)
              ∙ ap memory same
              ∙ sym (replaced_in memory dest (suc count) value a (omega arith) q)
        ]
      ]
    ]
  where
    memory' : Memory
    memory' = poke memory dest (memory src)

    value : ℕ → ℕ
    value i = memory (src + i)

    value' : ℕ → ℕ
    value' i = memory' (src + 1 + i)

    later :
        (dest ≤ src) ⊎ (src + suc count ≤ dest)
        → (dest + 1 ≤ src + 1) ⊎ (src + 1 + count ≤ dest + 1)
    later (inl h) = inl (omega arith)
    later (inr h) = inr (omega arith)

    apart :
        (dest ≤ src) ⊎ (src + suc count ≤ dest)
        → src + 1 + (a - (dest + 1)) ≡ dest
        → dest < a
        → a < dest + suc count
        → ⊥
    apart (inl h) k p q = omega arith
    apart (inr h) k p q = omega arith

copy_backwards-replaced :
    (memory : Memory) (dest src count a : ℕ)
    → src < dest
    → copy_backwards memory dest src count a ≡ replaced memory dest count (λ i. memory (src + i)) a
unfolding copy_backwards
copy_backwards-replaced memory dest src zero a d = elim (dec_lt a dest) [
  | yes p ↦ sym (replaced_below memory dest 0 (λ i. memory (src + i)) a p)
  | no p ↦ sym (replaced_above memory dest 0 (λ i. memory (src + i)) a (omega arith))
]
copy_backwards-replaced memory dest src (suc count) a d =
    copy_backwards-replaced memory' dest src count a d ∙ elim (dec_lt a dest) [
      | yes p ↦
          replaced_below memory' dest count value' a p
          ∙ poke_other memory (dest + count) (memory (src + count)) a (λ e. omega arith)
          ∙ sym (replaced_below memory dest (suc count) value a p)
      | no p ↦ elim (dec_lt a (dest + suc count)) [
        | no q ↦
            replaced_above memory' dest count value' a (omega arith)
            ∙ poke_other memory (dest + count) (memory (src + count)) a (λ e. omega arith)
            ∙ sym (replaced_above memory dest (suc count) value a (omega arith))
        | yes q ↦ elim (ℕ_discrete a (dest + count)) [
          | yes e ↦
              let same : src + count ≡ src + (a - dest) = omega arith in
              replaced_above memory' dest count value' a (omega arith)
              ∙ poke_same memory (dest + count) (memory (src + count)) a e
              ∙ ap memory same
              ∙ sym (replaced_in memory dest (suc count) value a (omega arith) q)
          | no e ↦
              replaced_in memory' dest count value' a (omega arith) (omega arith)
              ∙ poke_other memory (dest + count) (memory (src + count)) (src + (a - dest))
                  (λ k. omega arith)
              ∙ sym (replaced_in memory dest (suc count) value a (omega arith) q)
        ]
      ]
    ]
  where
    memory' : Memory
    memory' = poke memory (dest + count) (memory (src + count))

    value : ℕ → ℕ
    value i = memory (src + i)

    value' : ℕ → ℕ
    value' i = memory' (src + i)

-- `memmove` leaves the bytes that the source had at the destination and all others as they were, however
-- the two overlap.
pub memmove-replaced :
    (memory : Memory) (dest src count a : ℕ)
    → memmove memory dest src count a ≡ replaced memory dest count (λ i. memory (src + i)) a
unfolding memmove
memmove-replaced memory dest src count a = elim (dec_lt src dest) [
  | yes p ↦ rw (lt→ltb src dest p) (copy_backwards-replaced memory dest src count a p)
  | no p ↦
      rw (le→ltb src dest (omega arith))
        (memcpy-replaced memory dest src count a (inl (omega arith)))
]

set_loop-replaced :
    (memory : Memory) (dest fill count a : ℕ)
    → set_loop memory dest fill count a ≡ replaced memory dest count (λ i. fill) a
unfolding set_loop
set_loop-replaced memory dest fill zero a = elim (dec_lt a dest) [
  | yes p ↦ sym (replaced_below memory dest 0 (λ i. fill) a p)
  | no p ↦ sym (replaced_above memory dest 0 (λ i. fill) a (omega arith))
]
set_loop-replaced memory dest fill (suc count) a =
    set_loop-replaced memory' (dest + 1) fill count a ∙ elim (dec_lt a dest) [
      | yes p ↦
          replaced_below memory' (dest + 1) count (λ i. fill) a (omega arith)
          ∙ poke_other memory dest fill a (λ e. omega arith)
          ∙ sym (replaced_below memory dest (suc count) (λ i. fill) a p)
      | no p ↦ elim (dec_lt a (dest + suc count)) [
        | no q ↦
            replaced_above memory' (dest + 1) count (λ i. fill) a (omega arith)
            ∙ poke_other memory dest fill a (λ e. omega arith)
            ∙ sym (replaced_above memory dest (suc count) (λ i. fill) a (omega arith))
        | yes q ↦ elim (ℕ_discrete a dest) [
          | yes e ↦
              replaced_below memory' (dest + 1) count (λ i. fill) a (omega arith)
              ∙ poke_same memory dest fill a e
              ∙ sym (replaced_in memory dest (suc count) (λ i. fill) a (omega arith) q)
          | no e ↦
              replaced_in memory' (dest + 1) count (λ i. fill) a (omega arith) (omega arith)
              ∙ sym (replaced_in memory dest (suc count) (λ i. fill) a (omega arith) q)
        ]
      ]
    ]
  where
    memory' : Memory
    memory' = poke memory dest fill

-- `memset` leaves the lowest byte of its argument at every address of the range, and all other addresses
-- as they were.
pub memset-replaced :
    (memory : Memory) (dest ch count a : ℕ)
    → memset memory dest ch count a ≡ replaced memory dest count (λ i. ch % 256) a
unfolding memset
memset-replaced memory dest ch count a = set_loop-replaced memory dest (ch % 256) count a
