-- ===== src/BootAlloc/Grow/Enlarge.antt =====
-- `maybe_grow_buffer` where the spare capacity does not suffice.
use ultra.Prelude.{
  ℕ, zero, suc, ◌+◌, ◌*◌, ◌/◌, ◌%◌, ◌≤◌, ◌<◌, ◌≡◌, ◌⊎◌, refl, ap, ◌∙◌, inl, inr, Bool, true, none,
  some, List, length, get_elem?-lt, take-length, Outcome, done, unfinished, Returns, Returns→done,
  Returns-bind, ◌>>=◌, arith,
}
use ultra.BootAlloc.Range.{MemoryRange, word, memory_free, memory_allocated}
use ultra.BootAlloc.View.{IsOrdered}
use ultra.BootAlloc.Find.Laws.{entry-ge}
use ultra.BootAlloc.Alloc.{Allocation, page_size, enomem, boot_alloc_nogrow}
use ultra.BootAlloc.Alloc.Spec.{Retyped}
use ultra.BootAlloc.Alloc.TopDown.{TopDown, NoRoom, boot_alloc_nogrow-TopDown}
use ultra.BootAlloc.Grow.{
  BootAlloc, range_size, growth_watermark, new_capacity, pages, maybe_grow_buffer, grow_with,
  free_old_buffer, boot_free_with, switch_buffer,
}
use ultra.BootAlloc.Grow.Free.{IsRoomy, growth_watermark-some}

-- Too little spare capacity, but enough for one more allocation.
pub record IsTight (lo : ℕ) (s : BootAlloc) : Type 0 where
  pub ordered : IsOrdered lo s.buffer
  pub above_zero : 0 < lo
  pub tight : s.capacity < length s.buffer + growth_watermark s.location
  pub fits : length s.buffer + 2 ≤ s.capacity
  pub at_least : 6 ≤ s.capacity
  pub small : s.capacity * 64 < word

-- The size of the new buffer in bytes.
abbrev pub new_bytes : BootAlloc → ℕ
new_bytes s = new_capacity s.capacity

new_bytes_lem :
    (lo : ℕ) (s : BootAlloc)
    → IsTight lo s
    → (new_bytes s % page_size ≡ 0)
      × (s.capacity * 32 ≤ new_bytes s)
      × (new_bytes s < s.capacity * 32 + page_size)
      × (pages (new_bytes s) * page_size ≡ new_bytes s)
      × (0 < pages (new_bytes s))
new_bytes_lem lo s v = omega (arith, v.at_least, v.small)

module _ (fuel lo : ℕ) (s : BootAlloc) (v : IsTight lo s) where
  -- The test for spare capacity fails, and the code allocates a new buffer.
  grow_step : maybe_grow_buffer (suc fuel) s ≡ (
      boot_alloc_nogrow s.capacity s.buffer (pages (new_bytes s))
      >>= grow_with (maybe_grow_buffer fuel) s)
  unfolding maybe_grow_buffer
  grow_step = ground (arith, v.tight, v.fits, v.small)

abbrev pub enlarged : BootAlloc → ℕ → List MemoryRange → BootAlloc
enlarged s address buffer' = record {
  buffer = buffer';
  capacity = new_bytes s / range_size;
  location = some address;
}

-- From the initial buffer the new one simply takes over, unless its address is 0.
grow_with-initial :
    (grow : BootAlloc → Outcome (Bool × BootAlloc)) (s : BootAlloc) (address : ℕ)
    (buffer' : List MemoryRange)
    → s.location ≡ none
    → 0 < address
    → grow_with grow s (address, buffer') ≡ done (true, enlarged s address buffer')
unfolding grow_with free_old_buffer switch_buffer
grow_with-initial grow s address buffer' l p = ground (arith, take-length buffer')

-- The growth succeeded: the pages of the new buffer are allocated, and nothing else changed.
abbrev pub Enlarged : ℕ → BootAlloc → Bool × BootAlloc → Type 0
Enlarged lo s (room, s') =
    (address : ℕ) × (room ≡ true)
    × (s'.location ≡ some address)
    × (s'.capacity ≡ new_bytes s / range_size)
    × Retyped lo s.buffer address (new_bytes s) memory_free memory_allocated s'.buffer
    × IsRoomy lo s'

-- The failure of the allocation went unnoticed: the error number serves as the address of the buffer.
abbrev pub Misplaced : BootAlloc → Bool × BootAlloc → Type 0
Misplaced s r = r ≡ (true, enlarged s enomem s.buffer)

-- On an ordered initial buffer with no entry at the address 0, with a capacity of at least 6 entries and fewer
-- than 2^58, and with too little spare capacity but room for one allocation, `maybe_grow_buffer` returns: either the
-- buffer is moved to newly allocated pages with enough spare capacity, and no other address changes its
-- type, or no free range can hold the new buffer, and it is moved to address 49, the error number.
pub maybe_grow_buffer-initial :
    (fuel lo : ℕ) (s : BootAlloc)
    → IsTight lo s
    → s.location ≡ none
    → Returns
        (maybe_grow_buffer (suc fuel) s)
        (λ r. Enlarged lo s r ⊎ (NoRoom s.buffer (new_bytes s) 0 (length s.buffer) × Misplaced s r))
maybe_grow_buffer-initial fuel lo s v l = rw (grow_step fuel lo s v) (
    Returns-bind (TopDown lo s.buffer (new_bytes s)) _
      (boot_alloc_nogrow s.capacity s.buffer (pages (new_bytes s)))
      (grow_with (maybe_grow_buffer fuel) s)
      (rw bytes.3 at (
        boot_alloc_nogrow-TopDown s.capacity lo s.buffer (pages (new_bytes s)) v.ordered v.fits
          (omega (arith, v.small)) bytes.4 (omega (arith, bytes, v.small))))
      took)
  where
    bytes :
        (new_bytes s % page_size ≡ 0)
        × (s.capacity * 32 ≤ new_bytes s)
        × (new_bytes s < s.capacity * 32 + page_size)
        × (pages (new_bytes s) * page_size ≡ new_bytes s)
        × (0 < pages (new_bytes s))
    bytes = new_bytes_lem lo s v

    took :
        (r : Allocation)
        → TopDown lo s.buffer (new_bytes s) r
        → Returns (grow_with (maybe_grow_buffer fuel) s r) (λ r.
          Enlarged lo s r ⊎ (NoRoom s.buffer (new_bytes s) 0 (length s.buffer) × Misplaced s r))
    took (a, b) (inl (e, no_room)) =
        let p : a ≡ enomem = ap (λ (r : Allocation). r.0) e in
        let q : b ≡ s.buffer = ap (λ (r : Allocation). r.1) e in
        rw (p, q, grow_with-initial (maybe_grow_buffer fuel) s enomem s.buffer l (omega arith))
          (inr (no_room, refl))
    took (a, b) (inr (i, x, e, room, above, (same, t))) =
        let pos : 0 < a =
          omega (arith, same, room.1, entry-ge lo s.buffer i x v.ordered e, v.above_zero) in
        let roomy : IsRoomy lo (enlarged s a b) = record {
          ordered = t.ordered;
          spare = omega (arith, t.growth, bytes, v.fits, v.at_least, growth_watermark-some a);
          small = omega (arith, bytes, v.small);
        } in
        rw (grow_with-initial (maybe_grow_buffer fuel) s a b l pos)
          (inl (a, refl, refl, refl, rw (← same) at t, roomy))

-- Without a large enough free range the allocation of the new buffer fails.
nogrow-enomem :
    (lo : ℕ) (s : BootAlloc)
    → IsTight lo s
    → NoRoom s.buffer (new_bytes s) 0 (length s.buffer)
    → boot_alloc_nogrow s.capacity s.buffer (pages (new_bytes s)) ≡ done (enomem, s.buffer)
nogrow-enomem lo s v none_fits =
    let bytes = new_bytes_lem lo s v in
    let (r, e, t) = Returns→done (boot_alloc_nogrow s.capacity s.buffer (pages (new_bytes s))) (
      boot_alloc_nogrow-TopDown s.capacity lo s.buffer (pages (new_bytes s)) v.ordered v.fits
        (omega (arith, v.small)) bytes.4 (omega (arith, bytes, v.small))) in
    e ∙ ap done (failed r (rw bytes.3 at t))
  where
    failed : (r : Allocation) → TopDown lo s.buffer (new_bytes s) r → r ≡ (enomem, s.buffer)
    failed r (inl (e, h)) = e
    failed r (inr (i, x, e, room, above, t)) =
        absurd (none_fits i x (omega arith) (get_elem?-lt s.buffer i x e) e room)

grow_with-dynamic :
    (grow : BootAlloc → Outcome (Bool × BootAlloc)) (s : BootAlloc) (address : ℕ)
    → s.location ≡ some address
    → grow s ≡ unfinished
    → grow_with grow s (enomem, s.buffer) ≡ unfinished
unfolding grow_with free_old_buffer boot_free_with
grow_with-dynamic grow s address l e = ground arith

-- On an ordered buffer that is itself an allocation, with no entry at the address 0, with a capacity of at least 6
-- entries and fewer than 2^58, and with too little spare capacity but room for one allocation, `maybe_grow_buffer`
-- does not return where no free range can hold the new buffer, whatever the depth of the calls: `boot_free` of
-- the old buffer asks for growth again.
pub maybe_grow_buffer-endless :
    (fuel lo : ℕ) (s : BootAlloc) (address : ℕ)
    → IsTight lo s
    → s.location ≡ some address
    → NoRoom s.buffer (new_bytes s) 0 (length s.buffer)
    → maybe_grow_buffer fuel s ≡ unfinished
unfolding maybe_grow_buffer
maybe_grow_buffer-endless zero lo s address v l none_fits = refl
maybe_grow_buffer-endless (suc fuel) lo s address v l none_fits =
    grow_step fuel lo s v
    ∙ ap (λ o. o >>= grow_with (maybe_grow_buffer fuel) s) (nogrow-enomem lo s v none_fits)
    ∙ grow_with-dynamic (maybe_grow_buffer fuel) s address l
        (maybe_grow_buffer-endless fuel lo s address v l none_fits)
