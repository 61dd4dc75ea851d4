-- ===== src/BootAlloc/Grow.antt =====
-- The growth of the buffer, and the entry points of kernel/memory/boot_alloc.c: `maybe_grow_buffer`,
-- `range_append`, `boot_alloc`, `boot_alloc_at`, `boot_free` and `boot_alloc_init`. Log output is left
-- out.
pub mod Free
pub mod Enlarge
pub mod RoundTrip
pub mod Boot
use ultra.Prelude.{
  ℕ, zero, suc, ◌+◌, ◌-◌, ◌*◌, ◌/◌, ◌%◌, ◌^◌, Bool, true, false, Option, none, some, List, [], ◌∷◌,
  ltb, leb, ◌||◌, ◌==◌, if◌then◌else◌, length, take, Outcome, done, bug, fault, unfinished, ◌>>=◌,
}
use ultra.BootAlloc.Range.{
  MemoryRange, word, add64, sub64, memory_free, memory_allocated, mr_encode, range_emplace_at,
}
use ultra.BootAlloc.Find.{allow_one_above_no, find_range}
use ultra.BootAlloc.Carve.{allocate_out_of}
use ultra.BootAlloc.Alloc.{page_size, bytes_of, enomem, boot_alloc_nogrow, allocate_within}

-- The globals: `g_buffer` up to `g_entry_count`, `g_capacity`, and where the buffer stands: `none` for
-- `g_initial_buffer`, else the physical address that `phys_to_virt` maps to it.
pub record BootAlloc : Type 0 where
  pub buffer : List MemoryRange
  pub capacity : ℕ
  pub location : Option ℕ

-- `sizeof(struct memory_range)`
abbrev pub range_size : ℕ
range_size = 16

-- `BOOT_ALLOC_INITIAL_CAPACITY`
abbrev pub initial_capacity : ℕ
initial_capacity = page_size / range_size

-- `PAGE_ROUND_UP` and `>> PAGE_SHIFT`
abbrev pub page_round_up : ℕ → ℕ
page_round_up size = add64 size (page_size - 1) / page_size * page_size

abbrev pub pages : ℕ → ℕ
pages size = size / 2 ^ 12

-- `BOOT_ALLOC_WORST_CASE_GROWTH_PER_ALLOCATION`
abbrev pub worst_case_growth : ℕ
worst_case_growth = 2

unfoldable pub growth_watermark : Option ℕ → ℕ
growth_watermark none = worst_case_growth * 2
growth_watermark (some address) = worst_case_growth * 2 + worst_case_growth

abbrev pub new_capacity : ℕ → ℕ
new_capacity capacity = page_round_up (capacity * 2 * range_size % word)

abbrev pub freed_range : ℕ → ℕ → MemoryRange
freed_range address num_pages = record {
  physical_address = address;
  size_and_type = mr_encode (bytes_of num_pages) memory_free;
}

-- The part of `boot_free` behind its call of `maybe_grow_buffer`.
unfoldable pub free_range : BootAlloc → ℕ → ℕ → Outcome BootAlloc
free_range s address num_pages = find_range s.buffer address allow_one_above_no >>= λ mr_idx.
    elim mr_idx [
      | none ↦ bug
      | some i ↦
          allocate_out_of s.capacity s.buffer i (freed_range address num_pages) >>= λ buffer'.
          done (record s { buffer = buffer' })
    ]

-- `boot_free`, where `grow` is `maybe_grow_buffer`: without room the memory leaks.
unfoldable pub boot_free_with :
    (BootAlloc → Outcome (Bool × BootAlloc)) → BootAlloc → ℕ → ℕ → Outcome BootAlloc
boot_free_with grow s address num_pages = grow s >>= λ grown.
    let (room, s') = grown in if room then free_range s' address num_pages else done s'

-- `boot_free(virt_to_phys(g_buffer), ...)` for a buffer that is not the initial one
unfoldable pub free_old_buffer :
    (BootAlloc → Outcome (Bool × BootAlloc)) → BootAlloc → Option ℕ → Outcome BootAlloc
free_old_buffer grow s none = done s
free_old_buffer grow s (some address) =
    boot_free_with grow s address (pages (page_round_up (s.capacity * range_size % word)))

-- `g_buffer = new_buffer; g_capacity = ...`: the new buffer has the entries that `memcpy` copied, and
-- `g_entry_count` is what the call of `boot_free` left. More entries than were copied would be read
-- from memory that nothing wrote.
unfoldable pub switch_buffer : List MemoryRange → ℕ → ℕ → BootAlloc → Outcome (Bool × BootAlloc)
switch_buffer copied address bytes s =
    if leb (length s.buffer) (length copied)
    then done (
      true,
      record {
        buffer = take (length s.buffer) copied;
        capacity = bytes / range_size;
        location = some address;
      },
    )
    else fault

-- What follows the allocation of the new buffer. `WARN_ON(addr == 0)` is the test for its failure.
unfoldable pub grow_with :
    (BootAlloc → Outcome (Bool × BootAlloc))
    → BootAlloc
    → ℕ × List MemoryRange
    → Outcome (Bool × BootAlloc)
grow_with grow s (addr, buffer') =
    let s' : BootAlloc = record s { buffer = buffer' } in
    if addr == 0
    then done (false, s')
    else free_old_buffer grow s' s.location >>= switch_buffer buffer' addr (new_capacity s.capacity)

-- `maybe_grow_buffer` and `boot_free` call each other; the fuel bounds how deep.
unfoldable pub maybe_grow_buffer : ℕ → BootAlloc → Outcome (Bool × BootAlloc)
maybe_grow_buffer zero s = unfinished
maybe_grow_buffer (suc fuel) s =
    elim (leb (growth_watermark s.location) (sub64 s.capacity (length s.buffer))) [
      | true ↦ done (true, s)
      | false ↦
          boot_alloc_nogrow s.capacity s.buffer (pages (new_capacity s.capacity))
          >>= grow_with (maybe_grow_buffer fuel) s
    ]

unfoldable pub boot_free : ℕ → BootAlloc → ℕ → ℕ → Outcome BootAlloc
boot_free fuel s address num_pages = boot_free_with (maybe_grow_buffer fuel) s address num_pages

-- The result is a `phys_addr_or_error_t`.
unfoldable pub boot_alloc : ℕ → BootAlloc → ℕ → Outcome (ℕ × BootAlloc)
boot_alloc fuel s num_pages = maybe_grow_buffer fuel s >>= λ grown.
    let (room, s') = grown in
    if room
    then (boot_alloc_nogrow s'.capacity s'.buffer num_pages >>= λ allocation.
        done (allocation.0, record s' { buffer = allocation.1 }))
    else done (enomem, s')

unfoldable pub boot_alloc_at : ℕ → BootAlloc → ℕ → ℕ → Outcome (ℕ × BootAlloc)
boot_alloc_at fuel s address num_pages = maybe_grow_buffer fuel s >>= λ grown.
    let (room, s') = grown in
    if room
    then (allocate_within s'.capacity s'.buffer num_pages address
          (add64 address (num_pages * 2 ^ 12 % word))
        >>= λ allocation. done (allocation.0, record s' { buffer = allocation.1 }))
    else done (enomem, s')

-- The first part of the result is whether the call gave EOK.
unfoldable pub range_append : ℕ → BootAlloc → MemoryRange → Outcome (Bool × BootAlloc)
range_append fuel s mr = maybe_grow_buffer fuel s >>= λ grown.
    let (room, s') = grown in
    if room
    then (range_emplace_at s'.capacity s'.buffer (length s'.buffer) mr >>= λ buffer'.
        done (true, record s' { buffer = buffer' }))
    else done (false, s')

-- `struct ultra_memory_map_entry` of the boot protocol (include/boot/ultra_protocol.h)
pub record MemoryMapEntry : Type 0 where
  pub physical_address : ℕ
  pub size : ℕ
  pub type : ℕ

abbrev pub ultra_memory_type_free : ℕ
ultra_memory_type_free = 1

abbrev pub ultra_memory_type_reclaimable : ℕ
ultra_memory_type_reclaimable = 3

abbrev pub ultra_memory_type_loader_reclaimable : ℕ
ultra_memory_type_loader_reclaimable = 4294901761

abbrev pub ultra_memory_type_kernel_binary : ℕ
ultra_memory_type_kernel_binary = 4294901764

-- The `switch` on `entry->type`: `none` is `continue`.
unfoldable pub range_type : ℕ → Option ℕ
range_type type =
    if type == ultra_memory_type_reclaimable
      || type == ultra_memory_type_kernel_binary
      || type == ultra_memory_type_loader_reclaimable
    then some memory_allocated
    else if type == ultra_memory_type_free
    then some memory_free
    else none

abbrev pub entry_range : MemoryMapEntry → ℕ → MemoryRange
entry_range entry type = record {
  physical_address = entry.physical_address;
  size_and_type = mr_encode entry.size type;
}

-- `WARN_ON(range_append(&range))` goes on when the append fails.
unfoldable pub boot_alloc_init : ℕ → BootAlloc → List MemoryMapEntry → Outcome BootAlloc
boot_alloc_init fuel s [] = done s
boot_alloc_init fuel s (entry ∷ rest) = elim (range_type entry.type) [
  | none ↦ boot_alloc_init fuel s rest
  | some type ↦ range_append fuel s (entry_range entry type) >>= λ appended.
      boot_alloc_init fuel appended.1 rest
]
