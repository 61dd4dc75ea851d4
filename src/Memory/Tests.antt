-- ===== src/Memory/Tests.antt =====
-- Runs of the functions on memory.
use ultra.Prelude.{ℕ, ◌<◌, ◌+◌, ◌≡◌, refl, arith, if◌then◌else◌, ltb}
use ultra.Memory.{Memory, memmove, copy_backwards}
use ultra.Memory.Copy.{replaced, memmove-replaced}

-- Every byte has its address, up to 100.
abbrev ramp : Memory
ramp a = if ltb a 100 then a else 0

-- The ranges overlap.
memmove_test : memmove ramp 11 10 3 13 ≡ 12
unfolding memmove copy_backwards
memmove_test = refl

memmove-replaced_example : memmove ramp 11 10 3 13 ≡ replaced ramp 11 3 (λ i. ramp (10 + i)) 13
memmove-replaced_example = memmove-replaced ramp 11 10 3 13

two_left : (j : ℕ) → j < 2 → ramp (98 + j) ≡ 0 → ⊥
two_left j h e = ground arith
