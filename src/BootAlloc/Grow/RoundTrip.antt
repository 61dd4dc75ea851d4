-- ===== src/BootAlloc/Grow/RoundTrip.antt =====
-- Pages that are allocated and then freed: `boot_alloc`, `boot_alloc_at` and `boot_free` together.
use ultra.Prelude.{
  ℕ, suc, ◌+◌, ◌-◌, ◌*◌, ◌≤◌, ◌<◌, ◌≡◌, ◌⊎◌, ap, inl, inr, List, length, Outcome, Returns,
  Returns_mono, ◌>>=◌, arith,
}
use ultra.BootAlloc.Range.{word, memory_free, memory_allocated, MemoryRange}
use ultra.BootAlloc.Range.Laws.{mr_size-even}
use ultra.BootAlloc.View.{bound, type_at, IsOrdered}
use ultra.BootAlloc.Find.Laws.{entry-IsRange}
use ultra.BootAlloc.Alloc.{Allocation, page_size, enomem}
use ultra.BootAlloc.Alloc.Spec.{Retyped}
use ultra.BootAlloc.Grow.{BootAlloc, growth_watermark, boot_alloc, boot_free}
use ultra.BootAlloc.Grow.Free.{IsRoomy, TookTopDown, boot_alloc-TopDown, boot_free-Freed}

-- Every address has the type it had.
abbrev pub SameTypes : List MemoryRange → List MemoryRange → Type 0
SameTypes buf buf' = (a : ℕ) → type_at buf' a ≡ type_at buf a

-- Types given and taken back.
there_and_back :
    (lo : ℕ) (buf buf' buf'' : List MemoryRange) (address bytes from to : ℕ)
    → Retyped lo buf address bytes from to buf'
    → Retyped lo buf' address bytes to from buf''
    → SameTypes buf buf''
there_and_back lo buf buf' buf'' address bytes from to r r' a =
    ground (arith, r'.types a, r.types a, r.was a)

-- The state after `boot_alloc` and `boot_free` of what it gave.
abbrev pub alloc_and_free : ℕ → BootAlloc → ℕ → Outcome (BootAlloc)
alloc_and_free fuel s num_pages =
    boot_alloc fuel s num_pages >>= λ r. boot_free fuel r.1 r.0 num_pages

-- On an ordered buffer with spare capacity for the entries of two calls, `boot_alloc` of at least
-- one page, of fewer bytes than 2^64, returns; unless it gave ENOMEM, `boot_free` of the pages that
-- it gave returns too, every address then has the type it had before, and the buffer is in order.
pub boot_free-boot_alloc :
    (fuel lo : ℕ) (s : BootAlloc) (num_pages : ℕ)
    → IsRoomy lo s
    → length s.buffer + growth_watermark s.location + 2 ≤ s.capacity
    → 0 < num_pages
    → num_pages * page_size < word
    → Returns (boot_alloc (suc fuel) s num_pages) (λ r.
      (r.0 ≡ enomem)
      ⊎ Returns
          (boot_free (suc fuel) r.1 r.0 num_pages)
          (λ s'. SameTypes s.buffer s'.buffer × IsRoomy lo r.1 × IsOrdered lo s'.buffer))
boot_free-boot_alloc fuel lo s num_pages v spare pos small =
    Returns_mono (boot_alloc (suc fuel) s num_pages) took
      (boot_alloc-TopDown fuel lo s num_pages v pos small)
  where
    took :
        (r : ℕ × BootAlloc)
        → TookTopDown lo s (num_pages * page_size) r
        → (r.0 ≡ enomem)
          ⊎ Returns
              (boot_free (suc fuel) r.1 r.0 num_pages)
              (λ s'. SameTypes s.buffer s'.buffer × IsRoomy lo r.1 × IsOrdered lo s'.buffer)
    took (a, s1) (inl (e, n), c, l) = inl (ap (λ (r : Allocation). r.0) e)
    took (a, s1) (inr (i, x, e, room, above, (same, t)), c, l) =
        let k = entry-IsRange lo s.buffer i x v.ordered e in
        let roomy : IsRoomy lo s1 = record {
          ordered = t.ordered;
          spare = rw (c, l) (omega (arith, t.growth, spare));
          small = rw c v.small;
        } in
        rw same (
          inr (
            Returns_mono (boot_free (suc fuel) s1 (bound x - num_pages * page_size) num_pages)
              (λ s2 f. (
                there_and_back lo s.buffer s1.buffer s2.buffer (bound x - num_pages * page_size)
                    (num_pages * page_size) memory_free memory_allocated t f.0,
                roomy,
                f.0.ordered,
              ))
              (boot_free-Freed fuel lo s1 (bound x - num_pages * page_size) num_pages roomy
                (omega (arith, k.even, mr_size-even x, room.1)) pos small t.held)))
