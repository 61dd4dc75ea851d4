-- ===== src/BootAlloc/Range/Laws.antt =====
-- The arithmetic of ranges: encoding, ends and merging, where nothing wraps.
use ultra.Prelude.{ℕ, ◌+◌, ◌%◌, ◌<◌, ◌≡◌, true, arith, ltb, if◌then◌else◌}
use ultra.BootAlloc.Range.{
  MemoryRange, word, mr_encode, mr_type, mr_size, mr_end, can_merge_ranges, merge_ranges,
}
use ultra.BootAlloc.View.{bound}

-- An even size and a type of one bit come back from the encoding.
pub encode_fields :
    (pa size type : ℕ)
    → size % 2 ≡ 0
    → type < 2
    → (mr_size (record { physical_address = pa; size_and_type = mr_encode size type }) ≡ size)
      × (mr_type (record { physical_address = pa; size_and_type = mr_encode size type }) ≡ type)
unfolding mr_encode mr_type mr_size
encode_fields pa size type e b = omega arith

pub mr_type-lt : (mr : MemoryRange) → mr_type mr < 2
unfolding mr_type
mr_type-lt mr = omega arith

pub mr_size-even : (mr : MemoryRange) → mr_size mr % 2 ≡ 0
unfolding mr_size
mr_size-even mr = omega arith

pub mr_end-bound : (mr : MemoryRange) → bound mr < word → mr_end mr ≡ bound mr
unfolding mr_end
mr_end-bound mr h = omega arith

-- Two neighbours of one type, the second of which starts where the first ends.
pub can_merge_eq :
    (lhs rhs : MemoryRange)
    → bound lhs < word
    → can_merge_ranges lhs rhs ≡ true
    → (mr_type lhs ≡ mr_type rhs) × (bound lhs ≡ rhs.physical_address)
unfolding can_merge_ranges
can_merge_eq lhs rhs h e = ground (arith, mr_end-bound lhs h)

-- Merging in either direction adds the sizes (which are even, so that the type bit fits): it covers both ranges, and keeps the type.
pub merge_fields :
    (dst src : MemoryRange)
    → mr_size dst + mr_size src < word
    → let merged = merge_ranges dst src in
      (mr_size merged ≡ mr_size dst + mr_size src)
      × (mr_type merged ≡ mr_type dst)
      × (merged.physical_address ≡ (
          if ltb src.physical_address dst.physical_address
          then src.physical_address
          else dst.physical_address))
unfolding merge_ranges mr_type
merge_fields dst src h = ground arith
