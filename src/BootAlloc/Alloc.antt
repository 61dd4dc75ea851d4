-- ===== src/BootAlloc/Alloc.antt =====
-- `allocate_top_down`, `allocate_within` and `boot_alloc_nogrow` of kernel/memory/boot_alloc.c. Each
-- takes the capacity and the buffer, and returns its result with the buffer after the call. A result
-- is a `phys_addr_or_error_t`: an address, or an error number.
pub mod Spec
pub mod TopDown
pub mod Within
use ultra.Prelude.{
  ℕ, zero, suc, ◌+◌, ◌-◌, ◌*◌, ◌%◌, Bool, true, false, not, Option, none, some, List, [], ◌∷◌, min,
  max, ltb, leb, ◌==◌, if◌then◌else◌, length, get_elem?, drop, Outcome, done, bug, fault, ◌>>=◌,
}
use ultra.BootAlloc.Range.{
  MemoryRange, word, add64, sub64, memory_free, memory_allocated, mr_encode, mr_type, mr_end,
}
use ultra.BootAlloc.Find.{allow_one_above_yes, find_range}
use ultra.BootAlloc.Carve.{allocate_out_of}

-- kernel/arch/x86/include/arch/constants.h
abbrev pub page_size : ℕ
page_size = 4096

-- kernel/include/common/error.h; `encode_error_phys_addr` is a cast
abbrev pub enomem : ℕ
enomem = 49

abbrev pub Allocation : Type 0
Allocation = ℕ × List MemoryRange

-- `page_count * PAGE_SIZE`, which wraps
abbrev pub bytes_of : ℕ → ℕ
bytes_of page_count = page_count * page_size % word

abbrev pub allocated_mr : ℕ → ℕ → MemoryRange
allocated_mr address bytes = record {
  physical_address = address;
  size_and_type = mr_encode bytes memory_allocated;
}

-- One round of the loop of `allocate_top_down`: `none` is `continue`, else the end of the
-- allocation.
unfoldable pub top_down_end : MemoryRange → ℕ → ℕ → Option ℕ
top_down_end mr bytes upper_limit =
    let range_end = min (mr_end mr) upper_limit in
    if leb upper_limit mr.physical_address
    then none
    else if not (mr_type mr == memory_free)
    then none
    else if ltb (sub64 range_end mr.physical_address) bytes
    then none
    else some range_end

-- `while (i-- > 0)`: the index and the end at `break`
unfoldable pub top_down_loop : List MemoryRange → ℕ → ℕ → ℕ → Outcome (Option (ℕ × ℕ))
top_down_loop buffer bytes upper_limit zero = done none
top_down_loop buffer bytes upper_limit (suc i) = elim (get_elem? buffer i) [
  | none ↦ fault
  | some mr ↦ elim (top_down_end mr bytes upper_limit) [
    | some allocated_end ↦ done (some (i, allocated_end))
    | none ↦ top_down_loop buffer bytes upper_limit i
  ]
]

-- `allocate_out_of(i, &allocated_mr); return allocated_mr.physical_address;`
unfoldable pub allocate_at : ℕ → List MemoryRange → ℕ → ℕ → ℕ → Outcome Allocation
allocate_at capacity buffer i address bytes =
    allocate_out_of capacity buffer i (allocated_mr address bytes) >>= λ buffer'.
    done (address, buffer')

-- what follows the loop of `allocate_top_down`; without a `break` in it `allocated_end` is 0
unfoldable pub top_down_take : ℕ → List MemoryRange → ℕ → Option (ℕ × ℕ) → Outcome Allocation
top_down_take capacity buffer bytes none = done (enomem, buffer)
top_down_take capacity buffer bytes (some (i, allocated_end)) =
    if allocated_end == 0
    then done (enomem, buffer)
    else allocate_at capacity buffer i (sub64 allocated_end bytes) bytes

unfoldable pub allocate_top_down : ℕ → List MemoryRange → ℕ → ℕ → Outcome Allocation
allocate_top_down capacity buffer page_count upper_limit =
    let bytes = bytes_of page_count in
    if leb bytes page_count
    then bug
    else top_down_loop buffer bytes upper_limit (length buffer)
      >>= top_down_take capacity buffer bytes

-- `allocate_top_down(num_pages, -1ull)`
unfoldable pub boot_alloc_nogrow : ℕ → List MemoryRange → ℕ → Outcome Allocation
unfolding allocate_top_down
boot_alloc_nogrow capacity buffer num_pages = allocate_top_down capacity buffer num_pages (word - 1)

-- One round of the loop of `allocate_within`.
pub data Round : Type 0 where
  pick out_of_memory next : Round

unfoldable pub within_round : MemoryRange → ℕ → ℕ → ℕ → Round
within_round picked_mr bytes lower_limit upper_limit =
    let end = mr_end picked_mr in
    let available_gap = sub64 (min end upper_limit) (max picked_mr.physical_address lower_limit) in
    let next_range =
      if leb upper_limit end
      then out_of_memory
      else if ltb (sub64 upper_limit end) bytes
      then out_of_memory
      else next in
    if ltb upper_limit picked_mr.physical_address
    then out_of_memory
    else if not (mr_type picked_mr == memory_free)
    then next_range
    else if leb bytes available_gap
    then pick
    else next_range

-- The loop over the entries from `mr_idx` on: the index at `break` with its entry; `none` for
-- `return ENOMEM`, in the loop or behind it.
unfoldable pub within_loop : List MemoryRange → ℕ → ℕ → ℕ → ℕ → Option (ℕ × MemoryRange)
within_loop [] mr_idx bytes lower_limit upper_limit = none
within_loop (mr ∷ rest) mr_idx bytes lower_limit upper_limit =
    elim (within_round mr bytes lower_limit upper_limit) [
      | pick ↦ some (mr_idx, mr)
      | out_of_memory ↦ none
      | next ↦ within_loop rest (mr_idx + 1) bytes lower_limit upper_limit
    ]

-- what follows the search of `allocate_within`
unfoldable pub within_take : ℕ → List MemoryRange → ℕ → ℕ → ℕ → Option ℕ → Outcome Allocation
within_take capacity buffer bytes lower_limit upper_limit none = done (enomem, buffer)
within_take capacity buffer bytes lower_limit upper_limit (some first) =
    elim (within_loop (drop first buffer) first bytes lower_limit upper_limit) [
      | none ↦ done (enomem, buffer)
      | some (i, picked_mr) ↦
          allocate_at capacity buffer i (max lower_limit picked_mr.physical_address) bytes
    ]

unfoldable pub allocate_within : ℕ → List MemoryRange → ℕ → ℕ → ℕ → Outcome Allocation
allocate_within capacity buffer page_count lower_limit upper_limit =
    let bytes = bytes_of page_count in
    if leb bytes page_count
    then bug
    else if leb upper_limit lower_limit
    then bug
    else if ltb upper_limit (add64 lower_limit bytes)
    then bug
    else if ltb (add64 lower_limit bytes) lower_limit
    then bug
    else find_range buffer lower_limit allow_one_above_yes
      >>= within_take capacity buffer bytes lower_limit upper_limit
