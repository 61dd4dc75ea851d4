-- ===== src/BootAlloc/Range.antt =====
-- `struct memory_range`, its encoding, and the buffer of ranges: the macros and the small helpers at
-- the top of kernel/memory/boot_alloc.c. `phys_addr_t` is 64 bits wide.
pub mod Laws
use ultra.Prelude.{
  ℕ, zero, suc, ◌+◌, ◌-◌, ◌*◌, ◌/◌, ◌%◌, ◌^◌, max, Bool, ◌&&◌, Option, none, some, List, [], ◌∷◌,
  ◌++◌, ltb, ◌==◌, if◌then◌else◌, length, take, drop, Outcome, done, bug,
}

abbrev pub word : ℕ
word = 2 ^ 64

-- `phys_addr_t` sums and differences wrap.
abbrev pub add64 : ℕ → ℕ → ℕ
add64 a b = (a + b) % word

abbrev pub sub64 : ℕ → ℕ → ℕ
sub64 a b = (a + word - b) % word

pub record MemoryRange : Type 0 where
  pub physical_address : ℕ
  pub size_and_type : ℕ

abbrev pub memory_free : ℕ
memory_free = 0

abbrev pub memory_allocated : ℕ
memory_allocated = 1

-- `size | type`, for a type of one bit: the lowest bit is set if either has it.
unfoldable pub mr_encode : ℕ → ℕ → ℕ
mr_encode size type = size / 2 * 2 + max (size % 2) type

-- `size_and_type & 1` and `size_and_type & ~1`
unfoldable pub mr_type : MemoryRange → ℕ
mr_type range = range.size_and_type % 2

unfoldable pub mr_size : MemoryRange → ℕ
mr_size range = range.size_and_type / 2 * 2

unfoldable pub mr_end : MemoryRange → ℕ
mr_end mr = add64 mr.physical_address (mr_size mr)

-- The buffer is the list of its first `g_entry_count` entries. `memmove` up by one entry and the
-- store, which together insert an entry.
abbrev pub insert_at : List MemoryRange → ℕ → MemoryRange → List MemoryRange
insert_at xs zero mr = mr ∷ xs
insert_at [] (suc i) mr = []
insert_at (x ∷ xs) (suc i) mr = x ∷ insert_at xs i mr

-- `count` is the number of entries before the insertion.
unfoldable pub range_insert : List MemoryRange → MemoryRange → ℕ → ℕ → Outcome (List MemoryRange)
range_insert buffer mr idx count = if ltb count idx then bug else done (insert_at buffer idx mr)

unfoldable pub range_emplace_at :
    ℕ → List MemoryRange → ℕ → MemoryRange → Outcome (List MemoryRange)
unfolding range_insert
range_emplace_at capacity buffer idx mr =
    let count = length buffer in
    if ltb count idx
    then bug
    else if ltb count capacity
    then range_insert buffer mr idx count
    else bug

unfoldable pub can_merge_ranges : MemoryRange → MemoryRange → Bool
unfolding mr_type mr_end
can_merge_ranges lhs rhs = mr_type lhs == mr_type rhs && mr_end lhs == rhs.physical_address

unfoldable pub merge_ranges : MemoryRange → MemoryRange → MemoryRange
unfolding mr_size
merge_ranges dst src = record {
  physical_address =
      if ltb src.physical_address dst.physical_address
      then src.physical_address
      else dst.physical_address;
  size_and_type = add64 dst.size_and_type (mr_size src);
}

-- A pointer into the buffer is its index; `NULL` is `none`.
unfoldable pub range_before : ℕ → Option ℕ
range_before mr_idx = if mr_idx == 0 then none else some (mr_idx - 1)

unfoldable pub range_after : ℕ → ℕ → Option ℕ
range_after count mr_idx = if mr_idx == sub64 count 1 then none else some (mr_idx + 1)

-- `memmove` of the entries from `src` to the end down to `dst`; `count` stays, so that the last
-- entries are there twice.
unfoldable pub move_down : List MemoryRange → ℕ → ℕ → List MemoryRange
move_down buffer dst src =
    take dst buffer ++ (drop src buffer ++ drop (length buffer - (src - dst)) buffer)
