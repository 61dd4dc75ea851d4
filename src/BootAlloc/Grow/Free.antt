-- ===== src/BootAlloc/Grow/Free.antt =====
-- `boot_alloc` and `boot_free` where the buffer need not grow.
use ultra.Prelude.{
  ℕ, suc, ◌+◌, ◌*◌, ◌%◌, ◌≤◌, ◌<◌, ◌≡◌, ◌⊎◌, refl, ◌∙◌, inl, inr, true, Option, none, some, List,
  length, get_elem?, get_elem?-lt, done, bug, Returns, Returns-bind, arith, Option-cases,
}
use native.Mathlib.Decide.{dec_lt, ℕ_discrete}
use ultra.BootAlloc.Range.{
  MemoryRange, word, mr_type, mr_size, mr_end, memory_free, memory_allocated,
}
use ultra.BootAlloc.Range.Laws.{encode_fields, mr_type-lt, mr_end-bound}
use ultra.BootAlloc.View.{bound, IsRange, IsOrdered}
use ultra.BootAlloc.Find.{allow_one_above_no}
use ultra.BootAlloc.Find.Laws.{
  first_above, first_above_unique, first_above-at, scan, entry-lt, entry-IsRange,
}
use ultra.BootAlloc.Find.Scan.{find_range-scan}
use ultra.BootAlloc.Carve.{allocate_out_of}
use ultra.BootAlloc.Carve.Pieces.{Fits}
use ultra.BootAlloc.Alloc.{page_size, bytes_of, boot_alloc_nogrow}
use ultra.BootAlloc.Alloc.Spec.{Retyped, Held, allocate_out_of-Retyped}
use ultra.BootAlloc.Alloc.TopDown.{TopDown, boot_alloc_nogrow-TopDown}
use ultra.BootAlloc.Grow.{
  BootAlloc, growth_watermark, maybe_grow_buffer, freed_range, free_range, boot_free_with,
  boot_free, boot_alloc,
}

-- The allocator in good order, with as much spare capacity as `maybe_grow_buffer` asks for.
pub record IsRoomy (lo : ℕ) (s : BootAlloc) : Type 0 where
  pub ordered : IsOrdered lo s.buffer
  pub spare : length s.buffer + growth_watermark s.location ≤ s.capacity
  pub small : s.capacity < word

pub growth_watermark-ge : (location : Option ℕ) → 4 ≤ growth_watermark location
unfolding growth_watermark
growth_watermark-ge none = omega arith
growth_watermark-ge (some address) = omega arith

pub growth_watermark-some : (address : ℕ) → growth_watermark (some address) ≡ 6
unfolding growth_watermark
growth_watermark-some address = refl

-- With spare capacity nothing is done.
pub maybe_grow_buffer-roomy :
    (fuel lo : ℕ) (s : BootAlloc) → IsRoomy lo s → maybe_grow_buffer (suc fuel) s ≡ done (true, s)
unfolding maybe_grow_buffer
maybe_grow_buffer-roomy fuel lo s v =
    ground (arith, growth_watermark-ge s.location, v.spare, v.small)

-- An entry that holds the value is the one that `find_range` finds.
pub scan-entry :
    (lo : ℕ) (buf : List MemoryRange) (value i : ℕ) (x : MemoryRange)
    → IsOrdered lo buf
    → get_elem? buf i ≡ some x
    → x.physical_address ≤ value
    → value < bound x
    → scan buf value allow_one_above_no ≡ some i
unfolding scan
scan-entry lo buf value i x o e p q = ground (arith, first)
  where
    first : first_above buf value ≡ i
    first =
        first_above_unique lo buf value i o (omega (arith, get_elem?-lt buf i x e))
          (λ y r. let same : y ≡ x = cc in rw same q)
          (λ j y h r. omega (arith, entry-lt lo buf j i y x o r e h))

-- The state after the free, with its buffer retyped and all else as it was.
abbrev pub Freed : ℕ → BootAlloc → ℕ → ℕ → BootAlloc → Type 0
Freed lo s address bytes s' =
    Retyped lo s.buffer address bytes memory_allocated memory_free s'.buffer
    × (s'.capacity ≡ s.capacity)
    × (s'.location ≡ s.location)

-- Freeing pages that one allocated entry holds, with spare capacity for two entries.
pub free_range-Freed :
    (lo : ℕ) (s : BootAlloc) (address num_pages : ℕ)
    → IsOrdered lo s.buffer
    → length s.buffer + 2 ≤ s.capacity
    → s.capacity < word
    → address % 2 ≡ 0
    → 0 < num_pages
    → num_pages * page_size < word
    → Held s.buffer address (num_pages * page_size) memory_allocated
    → Returns (free_range s address num_pages) (Freed lo s address (num_pages * page_size))
unfolding free_range
free_range-Freed lo s address num_pages o c w even pos small h =
    rw
      (
        find_range-scan lo s.buffer address allow_one_above_no o,
        scan-entry lo s.buffer address h.index h.entry o h.found h.from (omega (arith, h.to)),
      )
      (Returns-bind (Retyped lo s.buffer address (mr_size new) (mr_type h.entry) (mr_type new))
        (Freed lo s address (num_pages * page_size))
        (allocate_out_of s.capacity s.buffer h.index new)
        (λ buffer'. done (record s { buffer = buffer' }))
        (allocate_out_of-Retyped s.capacity lo s.buffer h.index h.entry new o h.found fits c w)
        λ l k. (rw (fields.0, h.typed, fields.1) at k, refl, refl))
  where
    new : MemoryRange
    new = freed_range address num_pages

    exact : bytes_of num_pages ≡ num_pages * page_size
    exact = omega arith

    fields : (mr_size new ≡ num_pages * page_size) × (mr_type new ≡ memory_free)
    fields =
        let f =
          encode_fields address (bytes_of num_pages) memory_free (omega arith) (omega arith) in
        (f.0 ∙ exact, f.1)

    current : IsRange h.entry
    current = entry-IsRange lo s.buffer h.index h.entry o h.found

    fits : Fits h.entry new
    fits = record {
      current = current;
      new = omega (arith, fields, current.inside, h.to);
      from = h.from;
      to = omega (arith, fields, h.to);
      differ = omega (arith, fields, h.typed);
    }

-- On an ordered buffer with spare capacity, `boot_free` of at least one page, at an even address
-- and inside the address space, that one allocated entry holds returns, makes exactly the addresses
-- of these pages free, and keeps the buffer in order.
pub boot_free-Freed :
    (fuel lo : ℕ) (s : BootAlloc) (address num_pages : ℕ)
    → IsRoomy lo s
    → address % 2 ≡ 0
    → 0 < num_pages
    → num_pages * page_size < word
    → Held s.buffer address (num_pages * page_size) memory_allocated
    → Returns
        (boot_free (suc fuel) s address num_pages)
        (Freed lo s address (num_pages * page_size))
unfolding boot_free boot_free_with
boot_free-Freed fuel lo s address num_pages v even pos small h =
    rw (maybe_grow_buffer-roomy fuel lo s v) (
      free_range-Freed lo s address num_pages v.ordered
        (omega (arith, v.spare, growth_watermark-ge s.location)) v.small even pos small h)

-- What `find_range` finds at an address holds it.
scan-covers :
    (buf : List MemoryRange) (value i : ℕ)
    → scan buf value allow_one_above_no ≡ some i
    → (x : MemoryRange) × (get_elem? buf i ≡ some x)
      × (x.physical_address ≤ value)
      × (value < bound x)
unfolding scan
scan-covers buf value i e = elim (Option-cases (get_elem? buf (first_above buf value))) [
  | inl p ↦ ground arith
  | inr (x, p) ↦ (x, ground arith, ground arith, first_above-at buf value x p)
]

allocate_out_of-bug :
    (capacity : ℕ) (buf : List MemoryRange) (i : ℕ) (cur new : MemoryRange)
    → get_elem? buf i ≡ some cur
    → (mr_end cur < mr_end new) ⊎ (mr_type cur ≡ mr_type new)
    → allocate_out_of capacity buf i new ≡ bug
unfolding allocate_out_of
allocate_out_of-bug capacity buf i cur new e (inl h) = ground arith
allocate_out_of-bug capacity buf i cur new e (inr h) = ground arith

module _ (lo : ℕ) (s : BootAlloc) (address num_pages : ℕ) (o : IsOrdered lo s.buffer)
    (pos : 0 < num_pages) (small : address + num_pages * page_size < word) where
  new_fields :
      (mr_end (freed_range address num_pages) ≡ address + num_pages * page_size)
      × (mr_type (freed_range address num_pages) ≡ memory_free)
  new_fields =
      let f = encode_fields address (bytes_of num_pages) memory_free (omega arith) (omega arith) in
      let e = mr_end-bound (freed_range address num_pages) (omega (arith, f)) in
      (omega (arith, e, f), f.1)

  -- The range that `find_range` finds is not allocated, or ends too early.
  not-Held-bug :
      (Held s.buffer address (num_pages * page_size) memory_allocated → ⊥)
      → (i : ℕ) (x : MemoryRange) → get_elem? s.buffer i ≡ some x
      → x.physical_address ≤ address
      → address < bound x
      → allocate_out_of s.capacity s.buffer i (freed_range address num_pages) ≡ bug
  not-Held-bug h i x e p q = elim (dec_lt (mr_end x) (address + num_pages * page_size)) [
    | yes short ↦
        allocate_out_of-bug s.capacity s.buffer i x (freed_range address num_pages) e
          (inl (omega (arith, new_fields)))
    | no long ↦ elim (ℕ_discrete (mr_type x) memory_allocated) [
      | yes t ↦ absurd (
          h (record {
            index = i;
            entry = x;
            found = e;
            typed = t;
            from = p;
            to = omega (arith, end);
          }))
      | no t ↦
          allocate_out_of-bug s.capacity s.buffer i x (freed_range address num_pages) e
            (inr (omega (arith, new_fields, mr_type-lt x)))
    ]
  ]
    where
      end : mr_end x ≡ bound x
      end = mr_end-bound x (entry-IsRange lo s.buffer i x o e).inside

-- On an ordered buffer with spare capacity, `boot_free` of at least one page, inside the address
-- space, that no single allocated entry holds is a bug: a free page, a page of no range, or pages
-- that reach beyond the end of their entry.
pub boot_free-invalid :
    (fuel lo : ℕ) (s : BootAlloc) (address num_pages : ℕ)
    → IsRoomy lo s
    → 0 < num_pages
    → address + num_pages * page_size < word
    → (Held s.buffer address (num_pages * page_size) memory_allocated → ⊥)
    → boot_free (suc fuel) s address num_pages ≡ bug
unfolding boot_free boot_free_with free_range
boot_free-invalid fuel lo s address num_pages v pos small h =
    rw
      (
        maybe_grow_buffer-roomy fuel lo s v,
        find_range-scan lo s.buffer address allow_one_above_no v.ordered,
      )
      (elim (Option-cases (scan s.buffer address allow_one_above_no)) [
        | inl e ↦ rw e
        | inr (i, e) ↦
            let (x, g, p, q) = scan-covers s.buffer address i e in
            rw (e, not-Held-bug lo s address num_pages v.ordered pos small h i x g p q)
      ])

-- What `boot_alloc` promises of the state.
abbrev pub TookTopDown : ℕ → BootAlloc → ℕ → ℕ × BootAlloc → Type 0
TookTopDown lo s bytes (r, s') =
    TopDown lo s.buffer bytes (r, s'.buffer)
    × (s'.capacity ≡ s.capacity)
    × (s'.location ≡ s.location)

-- On an ordered buffer with spare capacity, `boot_alloc` of at least one page, of fewer bytes than
-- 2^64, returns: where some free entry is large enough the last such entry loses the pages at its
-- upper end, which become allocated while every other address keeps its type; where none is it
-- gives ENOMEM and leaves the buffer as it is.
pub boot_alloc-TopDown :
    (fuel lo : ℕ) (s : BootAlloc) (num_pages : ℕ)
    → IsRoomy lo s
    → 0 < num_pages
    → num_pages * page_size < word
    → Returns (boot_alloc (suc fuel) s num_pages) (TookTopDown lo s (num_pages * page_size))
unfolding boot_alloc
boot_alloc-TopDown fuel lo s num_pages v pos small = rw (maybe_grow_buffer-roomy fuel lo s v) (
    Returns-bind (TopDown lo s.buffer (num_pages * page_size))
      (TookTopDown lo s (num_pages * page_size)) (boot_alloc_nogrow s.capacity s.buffer num_pages)
      (λ allocation. done (allocation.0, record s { buffer = allocation.1 }))
      (boot_alloc_nogrow-TopDown s.capacity lo s.buffer num_pages v.ordered
        (omega (arith, v.spare, growth_watermark-ge s.location)) v.small pos small)
      λ r t. (t, refl, refl))
