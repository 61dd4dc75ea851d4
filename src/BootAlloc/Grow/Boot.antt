-- ===== src/BootAlloc/Grow/Boot.antt =====
-- `boot_alloc_init` and `boot_alloc_at`.
use ultra.Prelude.{
  ℕ, suc, ◌+◌, ◌*◌, ◌%◌, ◌^◌, true, ◌≤◌, ◌<◌, ◌≡◌, refl, ap, sym, ◌∙◌, inl, inr, some, none, List,
  [], ◌∷◌, ◌++◌, length, done, Returns, Returns-bind, arith, Option-cases, append-nil, append_assoc,
  length-append,
}
use ultra.BootAlloc.Range.{word, add64, MemoryRange, insert_at, range_emplace_at}
use ultra.BootAlloc.Alloc.{page_size, allocate_within}
use ultra.BootAlloc.Alloc.Within.{Within, allocate_within-Within}
use ultra.BootAlloc.Grow.{
  BootAlloc, MemoryMapEntry, growth_watermark, range_type, entry_range, range_append,
  boot_alloc_init, boot_alloc_at, maybe_grow_buffer,
}
use ultra.BootAlloc.Grow.Free.{IsRoomy, growth_watermark-ge, maybe_grow_buffer-roomy}

-- What `boot_alloc_at` promises: the lowest place that a free entry has for the pages between the
-- address and the end of the pages, which is the address itself, or ENOMEM.
abbrev pub TookAt : ℕ → BootAlloc → ℕ → ℕ → ℕ × BootAlloc → Type 0
TookAt lo s address bytes (r, s') =
    Within lo s.buffer bytes address (address + bytes) (r, s'.buffer)
    × (s'.capacity ≡ s.capacity)
    × (s'.location ≡ s.location)

-- The ranges that the memory map describes to the allocator.
unfoldable pub map_ranges : List MemoryMapEntry → List MemoryRange
map_ranges [] = []
map_ranges (entry ∷ rest) = elim (range_type entry.type) [
  | none ↦ map_ranges rest
  | some type ↦ entry_range entry type ∷ map_ranges rest
]

abbrev pub with_ranges : BootAlloc → List MemoryRange → BootAlloc
with_ranges s ranges = record s { buffer = s.buffer ++ ranges }

insert_at-length :
    (buf : List MemoryRange) (mr : MemoryRange) → insert_at buf (length buf) mr ≡ buf ++ (mr ∷ [])
insert_at-length [] mr = refl
insert_at-length (x ∷ buf) mr = ap (λ l. x ∷ l) (insert_at-length buf mr)

-- Spare capacity for `n` more entries than the watermark asks for.
pub record HasSpare (s : BootAlloc) (n : ℕ) : Type 0 where
  pub spare : length s.buffer + n + growth_watermark s.location ≤ s.capacity
  pub small : s.capacity < word

range_append-spare :
    (fuel : ℕ) (s : BootAlloc) (n : ℕ) (mr : MemoryRange)
    → HasSpare s n
    → range_append (suc fuel) s mr ≡ done (true, with_ranges s (mr ∷ []))
unfolding range_append maybe_grow_buffer range_emplace_at
range_append-spare fuel s n mr v =
    ground (arith, growth_watermark-ge s.location, v.spare, v.small, insert_at-length s.buffer mr)

spare_left :
    (s : BootAlloc) (n : ℕ) (mr : MemoryRange)
    → HasSpare s (suc n)
    → HasSpare (with_ranges s (mr ∷ [])) n
spare_left s n mr v = record {
  spare = omega (arith, v.spare, length-append s.buffer (mr ∷ []));
  small = v.small;
}

module _ (fuel : ℕ) (s : BootAlloc) (entry : MemoryMapEntry) (rest : List MemoryMapEntry) where
  init_skip :
      range_type entry.type ≡ none
      → boot_alloc_init fuel s (entry ∷ rest) ≡ boot_alloc_init fuel s rest
  unfolding boot_alloc_init
  init_skip e = ground arith

  init_append :
      {type : ℕ} {s' : BootAlloc}
      → range_type entry.type ≡ some type
      → range_append fuel s (entry_range entry type) ≡ done (true, s')
      → boot_alloc_init fuel s (entry ∷ rest) ≡ boot_alloc_init fuel s' rest
  unfolding boot_alloc_init
  init_append e a = ground arith

  ranges_skip : range_type entry.type ≡ none → map_ranges (entry ∷ rest) ≡ map_ranges rest
  unfolding map_ranges
  ranges_skip e = ground arith

  ranges_cons :
      {type : ℕ}
      → range_type entry.type ≡ some type
      → map_ranges (entry ∷ rest) ≡ entry_range entry type ∷ map_ranges rest
  unfolding map_ranges
  ranges_cons e = ground arith

-- With spare capacity for the entries of the memory map, `boot_alloc_init` returns and appends, in the
-- order of the map, a range for each entry that is free or may become so, and for no other.
pub boot_alloc_init-map_ranges :
    (fuel : ℕ) (s : BootAlloc) (entries : List MemoryMapEntry)
    → HasSpare s (length entries)
    → boot_alloc_init (suc fuel) s entries ≡ done (with_ranges s (map_ranges entries))
unfolding boot_alloc_init map_ranges
boot_alloc_init-map_ranges fuel s [] v =
    ap (λ l. done (record s { buffer = l })) (sym (append-nil s.buffer))
boot_alloc_init-map_ranges fuel s (entry ∷ rest) v = elim (Option-cases (range_type entry.type)) [
  | inl e ↦
      init_skip (suc fuel) s entry rest e
      ∙ boot_alloc_init-map_ranges fuel s rest
          (record { spare = omega (arith, v.spare); small = v.small })
      ∙ ap (λ l. done (with_ranges s l)) (sym (ranges_skip fuel s entry rest e))
  | inr (type, e) ↦
      let mr = entry_range entry type in
      init_append (suc fuel) s entry rest e (range_append-spare fuel s (length (entry ∷ rest)) mr v)
      ∙ boot_alloc_init-map_ranges fuel (with_ranges s (mr ∷ [])) rest
          (spare_left s (length rest) mr v)
      ∙ ap (λ l. done (record s { buffer = l })) (append_assoc s.buffer (mr ∷ []) (map_ranges rest))
      ∙ ap (λ l. done (with_ranges s l)) (sym (ranges_cons fuel s entry rest e))
]

-- On an ordered buffer with spare capacity, `boot_alloc_at` of at least one page, at an even
-- address and with the end of the pages inside the address space, returns: it allocates at the
-- lowest place that one free entry has for the pages between the address and their end, or gives
-- ENOMEM and changes nothing where there is none.
pub boot_alloc_at-Within :
    (fuel lo : ℕ) (s : BootAlloc) (address num_pages : ℕ)
    → IsRoomy lo s
    → address % 2 ≡ 0
    → 0 < num_pages
    → address + num_pages * page_size < word
    → Returns
        (boot_alloc_at (suc fuel) s address num_pages)
        (TookAt lo s address (num_pages * page_size))
unfolding boot_alloc_at
boot_alloc_at-Within fuel lo s address num_pages v even pos small =
    rw (maybe_grow_buffer-roomy fuel lo s v, upper)
      (Returns-bind
        (Within lo s.buffer (num_pages * page_size) address (address + num_pages * page_size))
        (TookAt lo s address (num_pages * page_size))
        (allocate_within s.capacity s.buffer num_pages address (address + num_pages * page_size))
        (λ allocation. done (allocation.0, record s { buffer = allocation.1 }))
        (allocate_within-Within s.capacity lo s.buffer num_pages address
          (address + num_pages * page_size) v.ordered
          (omega (arith, v.spare, growth_watermark-ge s.location)) v.small pos even (omega arith)
          small)
        λ r t. (t, refl, refl))
  where
    upper : add64 address (num_pages * 2 ^ 12 % word) ≡ address + num_pages * page_size
    upper = omega arith
