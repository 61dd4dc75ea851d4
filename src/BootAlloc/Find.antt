-- ===== src/BootAlloc/Find.antt =====
-- `find_range` of kernel/memory/boot_alloc.c: the binary search for the range of an address.
pub mod Laws
pub mod Scan
use ultra.Prelude.{
  ℕ, zero, suc, ◌+◌, ◌-◌, ◌/◌, Bool, true, false, ◌&&◌, Option, none, some, List, ltb, ◌==◌,
  if◌then◌else◌, length, get_elem?, Outcome, done, fault, unfinished, ◌>>=◌,
}
use ultra.BootAlloc.Range.{MemoryRange, mr_end}

pub data AllowOneAbove : Type 0 where
  allow_one_above_no allow_one_above_yes : AllowOneAbove

-- How the `while` loop ends: by `return middle`, or with the final `left` and `right + 1`.
pub data Found : Type 0 where
  hit : ℕ → Found
  miss : ℕ → ℕ → Found

-- `hi` is `right + 1`, so that the signed `right`, which may be -1, is a number; `left <= right` is
-- `left < hi`, and `right = middle - 1` is `hi = middle`.
abbrev pub middle_of : ℕ → ℕ → ℕ
middle_of left hi = left + (hi - 1 - left) / 2

unfoldable pub find_loop : ℕ → List MemoryRange → ℕ → ℕ → ℕ → Outcome Found
find_loop zero buffer value left hi = unfinished
find_loop (suc fuel) buffer value left hi = elim (ltb left hi) [
  | false ↦ done (miss left hi)
  | true ↦ elim (get_elem? buffer (middle_of left hi)) [
    | none ↦ fault
    | some mr ↦ elim (ltb mr.physical_address value) [
      | true ↦ find_loop fuel buffer value (middle_of left hi + 1) hi
      | false ↦ elim (ltb value mr.physical_address) [
        | true ↦ find_loop fuel buffer value left (middle_of left hi)
        | false ↦ done (hit (middle_of left hi))
      ]
    ]
  ]
]

-- `allow_above == ALLOW_ONE_ABOVE_YES ? left : -1`, with `left` out of bounds made -1; -1 is `none`
unfoldable pub one_above : List MemoryRange → AllowOneAbove → ℕ → Option ℕ
one_above buffer allow_one_above_yes left = if left == length buffer then none else some left
one_above buffer allow_one_above_no left = none

unfoldable pub after_miss : List MemoryRange → ℕ → AllowOneAbove → ℕ → ℕ → Outcome (Option ℕ)
unfolding one_above mr_end
after_miss buffer value allow_above left hi =
    if ltb 0 hi
    then (elim (get_elem? buffer (hi - 1)) [
      | none ↦ fault
      | some mr ↦
          if ltb mr.physical_address value && ltb value (mr_end mr)
          then done (some (hi - 1))
          else done (one_above buffer allow_above left)
    ])
    else done (one_above buffer allow_above left)

-- The loop halves `hi - left`, which is at most the entry count.
unfoldable pub find_range : List MemoryRange → ℕ → AllowOneAbove → Outcome (Option ℕ)
unfolding after_miss
find_range buffer value allow_above =
    find_loop (suc (length buffer)) buffer value 0 (length buffer) >>= λ found. elim found [
      | hit middle ↦ done (some middle)
      | miss left hi ↦ after_miss buffer value allow_above left hi
    ]
