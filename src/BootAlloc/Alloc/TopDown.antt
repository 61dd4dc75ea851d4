-- ===== src/BootAlloc/Alloc/TopDown.antt =====
-- `boot_alloc_nogrow`: an allocation comes off the end of the highest free range that is large
-- enough, and fails only where there is none.
use ultra.Prelude.{
  ℕ, suc, zero, ◌+◌, ◌-◌, ◌*◌, ◌%◌, ◌≤◌, ◌<◌, ◌≡◌, ◌⊎◌, inl, inr, refl, none, some, Option, List,
  length, get_elem?, length-le_of_none, Option-cases, done, Returns, Returns-bind, Returns_mono,
  ◌>>=◌, arith, le→leb_false, ==_false,
}
use native.Mathlib.Decide.{dec_lt}
use ultra.BootAlloc.Range.{MemoryRange, word, mr_size, mr_type, memory_free, sub64}
use ultra.BootAlloc.Range.Laws.{mr_end-bound, mr_size-even}
use ultra.BootAlloc.View.{bound, IsRange, IsOrdered}
use ultra.BootAlloc.Find.Laws.{entry-IsRange}
use ultra.BootAlloc.Alloc.{
  Allocation, page_size, bytes_of, enomem, top_down_end, top_down_loop, top_down_take, allocate_at,
  boot_alloc_nogrow,
}
use ultra.BootAlloc.Alloc.Spec.{Allocated, allocate_at-Allocated}

-- An entry that an allocation of `bytes` bytes fits in.
abbrev pub HasRoom : MemoryRange → ℕ → Type 0
HasRoom x bytes = (mr_type x ≡ memory_free) × (bytes ≤ mr_size x)

-- No entry with an index in the range from `from` to `to` has room.
abbrev pub NoRoom : List MemoryRange → ℕ → ℕ → ℕ → Type 0
NoRoom buf bytes from to =
    (j : ℕ) (x : MemoryRange) → from ≤ j → j < to → get_elem? buf j ≡ some x → HasRoom x bytes → ⊥

top_down_end_lem :
    (x : MemoryRange) (bytes : ℕ)
    → IsRange x
    → ((top_down_end x bytes (word - 1) ≡ none) × (HasRoom x bytes → ⊥))
      ⊎ ((top_down_end x bytes (word - 1) ≡ some (bound x)) × HasRoom x bytes)
unfolding top_down_end
top_down_end_lem x bytes r = ground (arith, mr_end-bound x r.inside)

-- What the loop ends with, started below the index `n`.
abbrev Ends : List MemoryRange → ℕ → ℕ → Option (ℕ × ℕ) → Type 0
Ends buf bytes n none = NoRoom buf bytes 0 n
Ends buf bytes n (some (i, end)) =
    (x : MemoryRange) × (get_elem? buf i ≡ some x)
    × (end ≡ bound x)
    × HasRoom x bytes
    × NoRoom buf bytes (suc i) n

NoRoom-suc :
    (buf : List MemoryRange) (bytes from n : ℕ) (x : MemoryRange)
    → get_elem? buf n ≡ some x
    → (HasRoom x bytes → ⊥)
    → NoRoom buf bytes from n
    → NoRoom buf bytes from (suc n)
NoRoom-suc buf bytes from n x e no_room h j y a b q r = elim (dec_lt j n) [
  | yes p ↦ h j y a p q r
  | no p ↦ let k : j ≡ n = omega arith in let same : y ≡ x = cc in no_room (rw same at r)
]

Ends-suc :
    (buf : List MemoryRange) (bytes n : ℕ) (x : MemoryRange) (r : Option (ℕ × ℕ))
    → get_elem? buf n ≡ some x
    → (HasRoom x bytes → ⊥)
    → Ends buf bytes n r
    → Ends buf bytes (suc n) r
Ends-suc buf bytes n x none e no_room h = NoRoom-suc buf bytes 0 n x e no_room h
Ends-suc buf bytes n x (some (i, end)) e no_room (y, p, q, r, h) =
    (y, p, q, r, NoRoom-suc buf bytes (suc i) n x e no_room h)

module _ (buf : List MemoryRange) (bytes n : ℕ) (x : MemoryRange)
    (e : get_elem? buf n ≡ some x) where
  loop_skip :
      top_down_end x bytes (word - 1) ≡ none
      → top_down_loop buf bytes (word - 1) (suc n) ≡ top_down_loop buf bytes (word - 1) n
  unfolding top_down_loop
  loop_skip p = ground arith

  loop_take :
      {end : ℕ}
      → top_down_end x bytes (word - 1) ≡ some end
      → top_down_loop buf bytes (word - 1) (suc n) ≡ done (some (n, end))
  unfolding top_down_loop
  loop_take p = ground arith

module _ (lo : ℕ) (buf : List MemoryRange) (bytes : ℕ) (o : IsOrdered lo buf) where
  top_down_loop-Ends :
      (n : ℕ) → n ≤ length buf → Returns (top_down_loop buf bytes (word - 1) n) (Ends buf bytes n)
  unfolding top_down_loop
  top_down_loop-Ends zero h = λ j x p q. absurd (omega arith)
  top_down_loop-Ends (suc n) h = elim (Option-cases (get_elem? buf n)) [
    | inl e ↦ absurd (omega (arith, length-le_of_none buf n e))
    | inr (x, e) ↦ elim (top_down_end_lem x bytes (entry-IsRange lo buf n x o e)) [
      | inl (p, no_room) ↦ rw (loop_skip buf bytes n x e p) (
          Returns_mono (top_down_loop buf bytes (word - 1) n)
            (λ r. Ends-suc buf bytes n x r e no_room) (top_down_loop-Ends n (omega arith)))
      | inr (p, room) ↦
          rw (loop_take buf bytes n x e p) (x, e, refl, room, λ j y a b. absurd (omega arith))
    ]
  ]

-- What `boot_alloc_nogrow` promises: it fails only where no free entry is large enough, and then
-- changes nothing; else the last entry that is large enough loses its upper end.
abbrev pub TopDown : ℕ → List MemoryRange → ℕ → Allocation → Type 0
TopDown lo buf bytes r =
    ((r ≡ (enomem, buf)) × NoRoom buf bytes 0 (length buf))
    ⊎ ((i : ℕ) × (x : MemoryRange) × (get_elem? buf i ≡ some x)
        × HasRoom x bytes
        × NoRoom buf bytes (suc i) (length buf)
        × Allocated lo buf (bound x - bytes) bytes r)

boot_alloc_nogrow_lem :
    (capacity : ℕ) (buf : List MemoryRange) (num_pages : ℕ)
    → 0 < num_pages
    → num_pages * page_size < word
    → boot_alloc_nogrow capacity buf num_pages ≡ (
        top_down_loop buf (num_pages * page_size) (word - 1) (length buf)
        >>= top_down_take capacity buf (num_pages * page_size))
unfolding boot_alloc_nogrow
boot_alloc_nogrow_lem capacity buf num_pages pos fits =
    let e : bytes_of num_pages ≡ num_pages * page_size = omega arith in
    rw (e, le→leb_false num_pages (num_pages * page_size) (omega arith))

top_down_take-TopDown :
    (capacity lo : ℕ) (buf : List MemoryRange) (bytes : ℕ) (r : Option (ℕ × ℕ))
    → IsOrdered lo buf
    → length buf + 2 ≤ capacity
    → capacity < word
    → 0 < bytes
    → bytes % 2 ≡ 0
    → Ends buf bytes (length buf) r
    → Returns (top_down_take capacity buf bytes r) (TopDown lo buf bytes)
unfolding top_down_take
top_down_take-TopDown capacity lo buf bytes none o c w pos even h = inl (refl, h)
top_down_take-TopDown capacity lo buf bytes (some (i, end)) o c w pos even (x, e, p, r, h) =
    let k = entry-IsRange lo buf i x o e in
    let s : sub64 end bytes ≡ bound x - bytes = omega (arith, k.inside) in
    rw (==_false end (omega arith), s)
      (Returns_mono (allocate_at capacity buf i (bound x - bytes) bytes)
        (λ a t. inr (i, x, e, r, h, t))
        (allocate_at-Allocated capacity lo buf i x (bound x - bytes) bytes o e r.0
          (omega (arith, k.even, mr_size-even x)) even pos (omega (arith, r.1)) (omega (arith, r.1))
          c w))

pub boot_alloc_nogrow-TopDown :
    (capacity lo : ℕ) (buf : List MemoryRange) (num_pages : ℕ)
    → IsOrdered lo buf
    → length buf + 2 ≤ capacity
    → capacity < word
    → 0 < num_pages
    → num_pages * page_size < word
    → Returns (boot_alloc_nogrow capacity buf num_pages) (TopDown lo buf (num_pages * page_size))
boot_alloc_nogrow-TopDown capacity lo buf num_pages o c w pos fits =
    rw (boot_alloc_nogrow_lem capacity buf num_pages pos fits) (
      Returns-bind (Ends buf (num_pages * page_size) (length buf))
        (TopDown lo buf (num_pages * page_size))
        (top_down_loop buf (num_pages * page_size) (word - 1) (length buf))
        (top_down_take capacity buf (num_pages * page_size))
        (top_down_loop-Ends lo buf (num_pages * page_size) o (length buf) (omega arith))
        λ r h.
          top_down_take-TopDown capacity lo buf (num_pages * page_size) r o c w (omega arith)
            (omega arith) h)
