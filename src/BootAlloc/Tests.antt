-- ===== src/BootAlloc/Tests.antt =====
-- Runs of the boot allocator on small buffers.
use ultra.Prelude.{
  ℕ, zero, suc, ◌*◌, ◌≤◌, ◌≡◌, ◌⊎◌, refl, some, none, List, [], ◌∷◌, length, done, bug, unfinished,
  Returns, arith, get_elem?,
}
use ultra.BootAlloc.Range.{memory_allocated, MemoryRange, mr_type, mr_size, mr_encode, mr_end}
use ultra.BootAlloc.View.{IsOrdered}
use ultra.BootAlloc.Find.{find_range, allow_one_above_yes}
use ultra.BootAlloc.Find.Laws.{scan}
use ultra.BootAlloc.Find.Scan.{find_range-scan}
use ultra.BootAlloc.Carve.{allocate_out_of}
use ultra.BootAlloc.Carve.Pieces.{Fits}
use ultra.BootAlloc.Alloc.{page_size, enomem}
use ultra.BootAlloc.Alloc.Spec.{Retyped, Held, allocate_out_of-Retyped}
use ultra.BootAlloc.Alloc.TopDown.{NoRoom}
use ultra.BootAlloc.Grow.{
  BootAlloc, MemoryMapEntry, boot_alloc, boot_alloc_at, boot_free, maybe_grow_buffer,
  growth_watermark,
}
use ultra.BootAlloc.Grow.Free.{
  IsRoomy, Freed, TookTopDown, boot_alloc-TopDown, boot_free-Freed, boot_free-invalid,
}
use ultra.BootAlloc.Grow.Enlarge.{
  IsTight, Enlarged, Misplaced, new_bytes, maybe_grow_buffer-initial, maybe_grow_buffer-endless,
}
use ultra.BootAlloc.Grow.RoundTrip.{SameTypes, boot_free-boot_alloc}
use ultra.BootAlloc.Grow.Boot.{TookAt, boot_alloc_at-Within}
use ultra.BootAlloc.Alloc.{
  boot_alloc_nogrow, top_down_loop, top_down_end, top_down_take, allocate_at, allocate_top_down,
}
use ultra.BootAlloc.Carve.{
  carve, carve_cases, lhs_piece, rhs_piece, carve_entirely, merge_entries, merge_into,
  mergeable_with, next_entry, out_case4, replace_by_two,
}
use ultra.BootAlloc.Range.{
  range_after, can_merge_ranges, merge_ranges, move_down, range_before, range_emplace_at,
  range_insert,
}
use ultra.BootAlloc.Find.{after_miss, find_loop, one_above}
use ultra.BootAlloc.Grow.{boot_free_with, free_range}

-- All definitions that a run computes through.
runs : Unit {0}
unfolding boot_alloc boot_free maybe_grow_buffer growth_watermark boot_free_with free_range
    boot_alloc_nogrow top_down_loop top_down_end mr_type mr_end mr_size top_down_take allocate_at
    allocate_out_of mr_encode carve carve_cases lhs_piece rhs_piece range_after allocate_top_down
    carve_entirely merge_entries merge_into mergeable_with next_entry out_case4 replace_by_two
    after_miss find_loop find_range one_above can_merge_ranges merge_ranges move_down range_before
    range_emplace_at range_insert
runs = tt

-- 4 free pages at 0x1000 and 2 allocated ones behind them
abbrev low_free : MemoryRange
low_free = record { physical_address = 4096; size_and_type = 16384 }

abbrev high_used : MemoryRange
high_used = record { physical_address = 20480; size_and_type = 8193 }

abbrev two_ranges : List MemoryRange
two_ranges = low_free ∷ high_used ∷ []

abbrev start : BootAlloc
start = record { buffer = two_ranges; capacity = 256; location = none }

-- 4 ranges in a buffer with too little room for more
abbrev two_more : List MemoryRange
two_more =
    record { physical_address = 28672; size_and_type = 4096 }
    ∷ record { physical_address = 32768; size_and_type = 4097 }
    ∷ []

abbrev tight : BootAlloc
tight = record { buffer = low_free ∷ high_used ∷ two_more; capacity = 6; location = none }

-- an allocated buffer that cannot grow: no range is free
abbrev stuck : BootAlloc
stuck = record { buffer = high_used ∷ []; capacity = 6; location = some 20480 }

abbrev small_map : List MemoryMapEntry
small_map =
    record { physical_address = 4096; size = 8192; type = 1 }
    ∷ record { physical_address = 12288; size = 4096; type = 2 }
    ∷ record { physical_address = 16384; size = 4096; type = 3 }
    ∷ []

abbrev empty : BootAlloc
empty = record { buffer = []; capacity = 256; location = none }

two_ranges-IsOrdered : IsOrdered 1 two_ranges
unfolding mr_size
two_ranges-IsOrdered = (
  omega arith,
  record { even = refl; nonempty = omega arith; inside = omega arith },
  (omega arith, record { even = refl; nonempty = omega arith; inside = omega arith }, tt),
)

start-IsRoomy : IsRoomy 1 start
unfolding growth_watermark
start-IsRoomy = record { ordered = two_ranges-IsOrdered; spare = omega arith; small = omega arith }

tight-IsTight : IsTight 1 tight
unfolding growth_watermark mr_size
tight-IsTight = record {
  ordered = (
    omega arith,
    record { even = refl; nonempty = omega arith; inside = omega arith },
    (
      omega arith,
      record { even = refl; nonempty = omega arith; inside = omega arith },
      (
        omega arith,
        record { even = refl; nonempty = omega arith; inside = omega arith },
        (omega arith, record { even = refl; nonempty = omega arith; inside = omega arith }, tt),
      ),
    ),
  );
  above_zero = omega arith;
  tight = omega arith;
  fits = omega arith;
  at_least = omega arith;
  small = omega arith;
}

stuck-IsTight : IsTight 1 stuck
unfolding growth_watermark mr_size
stuck-IsTight = record {
  ordered = (omega arith, record { even = refl; nonempty = omega arith; inside = omega arith }, tt);
  above_zero = omega arith;
  tight = omega arith;
  fits = omega arith;
  at_least = omega arith;
  small = omega arith;
}

stuck-NoRoom : NoRoom stuck.buffer (new_bytes stuck) 0 (length stuck.buffer)
unfolding mr_type
stuck-NoRoom zero x p q e r = ground arith
stuck-NoRoom (suc j) x p q e r = omega arith

-- Two pages of the allocated range are one allocated entry's.
two_pages-Held : Held two_ranges 20480 (2 * page_size) memory_allocated
unfolding mr_type mr_size
two_pages-Held = record {
  index = 1;
  entry = high_used;
  found = refl;
  typed = refl;
  from = omega arith;
  to = omega arith;
}

-- The free pages are nobody's to free.
free_page-not_Held : Held two_ranges 4096 (1 * page_size) memory_allocated → ⊥
unfolding mr_type
free_page-not_Held h = not_held h.index h.entry h.found h.typed h.from
  where
    not_held :
        (i : ℕ) (x : MemoryRange)
        → get_elem? two_ranges i ≡ some x
        → mr_type x ≡ memory_allocated
        → x.physical_address ≤ 4096
        → ⊥
    not_held zero x e t p = ground arith
    not_held (suc zero) x e t p = ground arith
    not_held (suc (suc i)) x e t p = ground arith

one_page-Fits : Fits low_free (record { physical_address = 8192; size_and_type = 4097 })
unfolding mr_type mr_size
one_page-Fits = record {
  current = record { even = refl; nonempty = omega arith; inside = omega arith };
  new = record { even = refl; nonempty = omega arith; inside = omega arith };
  from = omega arith;
  to = omega arith;
  differ = λ e. omega arith;
}

-- The last page of the free range is taken, and joins the allocated range behind it.
boot_alloc_test :
    boot_alloc 1 start 1
    ≡ done (
      16384,
      record {
        buffer =
            record { physical_address = 4096; size_and_type = 12288 }
            ∷ record { physical_address = 16384; size_and_type = 12289 }
            ∷ [];
        capacity = 256;
        location = none;
      },
    )
unfolding runs
boot_alloc_test = refl

boot_free_bug_test : boot_free 1 start 4096 1 ≡ bug
unfolding runs
boot_free_bug_test = refl

boot_alloc-TopDown_example : Returns (boot_alloc 1 start 1) (TookTopDown 1 start (1 * page_size))
boot_alloc-TopDown_example =
    boot_alloc-TopDown 0 1 start 1 start-IsRoomy (omega arith) (omega arith)

boot_free-Freed_example : Returns (boot_free 1 start 20480 2) (Freed 1 start 20480 (2 * page_size))
boot_free-Freed_example =
    boot_free-Freed 0 1 start 20480 2 start-IsRoomy refl (omega arith) (omega arith) two_pages-Held

boot_free-boot_alloc_example : Returns (boot_alloc 1 start 3) (λ r.
    (r.0 ≡ enomem)
    ⊎ Returns
        (boot_free 1 r.1 r.0 3)
        (λ s'. SameTypes two_ranges s'.buffer × IsRoomy 1 r.1 × IsOrdered 1 s'.buffer))
unfolding growth_watermark
boot_free-boot_alloc_example =
    boot_free-boot_alloc 0 1 start 3 start-IsRoomy (omega arith) (omega arith) (omega arith)

boot_free-invalid_example : boot_free 1 start 4096 1 ≡ bug
boot_free-invalid_example =
    boot_free-invalid 0 1 start 4096 1 start-IsRoomy (omega arith) (omega arith) free_page-not_Held

boot_alloc_at-Within_example :
    Returns (boot_alloc_at 1 start 8192 1) (TookAt 1 start 8192 (1 * page_size))
boot_alloc_at-Within_example =
    boot_alloc_at-Within 0 1 start 8192 1 start-IsRoomy refl (omega arith) (omega arith)

allocate_out_of-Retyped_example :
    Returns
      (allocate_out_of 256 two_ranges 0 (record { physical_address = 8192; size_and_type = 4097 }))
      (Retyped 1 two_ranges 8192
        (mr_size (record { physical_address = 8192; size_and_type = 4097 }))
        (mr_type low_free)
        (mr_type (record { physical_address = 8192; size_and_type = 4097 })))
allocate_out_of-Retyped_example =
    allocate_out_of-Retyped 256 1 two_ranges 0 low_free
      (record { physical_address = 8192; size_and_type = 4097 }) two_ranges-IsOrdered refl
      one_page-Fits (omega arith) (omega arith)

find_range-scan_example :
    find_range two_ranges 30000 allow_one_above_yes
    ≡ done (scan two_ranges 30000 allow_one_above_yes)
find_range-scan_example =
    find_range-scan 1 two_ranges 30000 allow_one_above_yes two_ranges-IsOrdered

maybe_grow_buffer-initial_example : Returns (maybe_grow_buffer 1 tight) (λ r.
    Enlarged 1 tight r
    ⊎ (NoRoom tight.buffer (new_bytes tight) 0 (length tight.buffer) × Misplaced tight r))
maybe_grow_buffer-initial_example = maybe_grow_buffer-initial 0 1 tight tight-IsTight refl

maybe_grow_buffer-endless_example : maybe_grow_buffer 100 stuck ≡ unfinished
maybe_grow_buffer-endless_example =
    maybe_grow_buffer-endless 100 1 stuck 20480 stuck-IsTight refl stuck-NoRoom
