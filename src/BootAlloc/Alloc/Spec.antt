-- ===== src/BootAlloc/Alloc/Spec.antt =====
-- What an allocation promises, and that carving it out of a free entry keeps the promise.
use ultra.Prelude.{
  ℕ, suc, zero, ◌+◌, ◌%◌, ◌≤◌, ◌<◌, ◌≡◌, true, ◌&&◌, some, List, [], ◌∷◌, length, get_elem?, done,
  Returns, Returns→done, Returns-bind, refl, arith, ltb, leb, if◌then◌else◌, Bool, Bool-cases, inl,
  inr, ◌==◌,
}
use ultra.BootAlloc.Range.{MemoryRange, word, mr_size, mr_type, memory_free, memory_allocated}
use ultra.BootAlloc.Range.Laws.{encode_fields}
use ultra.BootAlloc.View.{bound, covers, type_at, holds, IsRange, IsOrdered}
use ultra.BootAlloc.Find.Laws.{entry-ge, entry-IsRange}
use ultra.BootAlloc.Carve.{allocate_out_of}
use ultra.BootAlloc.Carve.Pieces.{Fits}
use ultra.BootAlloc.Carve.Shapes.{Carved}
use ultra.BootAlloc.Carve.Refine.{allocate_out_of-Carved}
use ultra.BootAlloc.Alloc.{Allocation, allocated_mr, allocate_at}

-- The addresses of `bytes` bytes from `address` on.
abbrev pub IsWithin : ℕ → ℕ → ℕ → Type 0
IsWithin address bytes a = (address ≤ a) × (a < address + bytes)

-- One entry of the type holds all of them.
pub record Held (buf : List MemoryRange) (address bytes type : ℕ) : Type 0 where
  pub index : ℕ
  pub entry : MemoryRange
  pub found : get_elem? buf index ≡ some entry
  pub typed : mr_type entry ≡ type
  pub from : entry.physical_address ≤ address
  pub to : address + bytes ≤ bound entry

holds-Held :
    (buf : List MemoryRange) (mr : MemoryRange)
    → holds buf mr ≡ true
    → Held buf mr.physical_address (mr_size mr) (mr_type mr)
unfolding holds
holds-Held [] mr h = cc
holds-Held (x ∷ rest) mr h = elim (Bool-cases here) [
  | inl p ↦ record {
    index = 0;
    entry = x;
    found = refl;
    typed = ground arith;
    from = ground arith;
    to = ground arith;
  }
  | inr p ↦
      let r = holds-Held rest mr (ground arith) in
      record {
        index = suc r.index;
        entry = r.entry;
        found = r.found;
        typed = r.typed;
        from = r.from;
        to = r.to;
      }
]
  where
    here : Bool
    here =
        mr_type x == mr_type mr
        && leb x.physical_address mr.physical_address
        && leb (bound mr) (bound x)

-- `buf'` is `buf` after `bytes` bytes at `address`, which were all of type `from`, were given the
-- type `to`: every other address keeps its type, the buffer stays in order, and one entry holds them.
pub record Retyped (lo : ℕ) (buf : List MemoryRange) (address bytes from to : ℕ)
    (buf' : List MemoryRange) : Type 0 where
  pub ordered : IsOrdered lo buf'
  pub was : (a : ℕ) → IsWithin address bytes a → type_at buf a ≡ some from
  pub types :
      (a : ℕ)
      → type_at buf' a
        ≡ (if leb address a && ltb a (address + bytes) then some to else type_at buf a)
  pub growth : length buf' ≤ length buf + 2
  pub held : Held buf' address bytes to

-- All addresses of an entry have its type.
pub type_at-entry :
    (lo : ℕ) (buf : List MemoryRange) (i : ℕ) (x : MemoryRange) (a : ℕ)
    → IsOrdered lo buf
    → get_elem? buf i ≡ some x
    → x.physical_address ≤ a
    → a < bound x
    → type_at buf a ≡ some (mr_type x)
unfolding type_at covers
type_at-entry lo [] i x a o e p q = cc
type_at-entry lo (z ∷ buf) zero x a o e p q = ground arith
type_at-entry lo (z ∷ buf) (suc i) x a o e p q =
    ground (arith, entry-ge (bound z) buf i x o.2 e, type_at-entry (bound z) buf i x a o.2 e p q)

module _ (capacity lo : ℕ) (buf : List MemoryRange) (i : ℕ) (cur new : MemoryRange)
    (o : IsOrdered lo buf) (e : get_elem? buf i ≡ some cur) (f : Fits cur new)
    (c : length buf + 2 ≤ capacity) (w : capacity < word) where
  -- On an ordered buffer with room for two more entries, carving a range out of an entry of the other
  -- type that holds it returns, keeps the buffer in order, gives all addresses of the range its type
  -- and leaves every other address with the type it had.
  pub allocate_out_of-Retyped :
      Returns
        (allocate_out_of capacity buf i new)
        (Retyped lo buf new.physical_address (mr_size new) (mr_type cur) (mr_type new))
  unfolding covers
  allocate_out_of-Retyped =
      let (l, p, k) = Returns→done (allocate_out_of capacity buf i new) (carved 0) in
      rw p (record {
        ordered = k.ordered;
        was = λ a h. type_at-entry lo buf i cur a o e (omega (arith, f.from)) (omega (arith, f.to));
        types = λ a. retyped a l p;
        growth = k.growth;
        held = holds-Held l new k.held;
      })
    where
      carved : (a : ℕ) → Returns (allocate_out_of capacity buf i new) (Carved lo new a buf)
      carved a = allocate_out_of-Carved capacity lo a buf i cur new o e f c w

      retyped :
          (a : ℕ) (l : List MemoryRange)
          → allocate_out_of capacity buf i new ≡ done l
          → type_at l a ≡ (
              if leb new.physical_address a && ltb a (bound new)
              then some (mr_type new)
              else type_at buf a)
      retyped a l p = let k : Carved lo new a buf l = rw p at (carved a) in ground (arith, k.types)

-- The outcome of an allocation that found room.
abbrev pub Allocated : ℕ → List MemoryRange → ℕ → ℕ → Allocation → Type 0
Allocated lo buf address bytes (a, buf') =
    (a ≡ address) × Retyped lo buf address bytes memory_free memory_allocated buf'

pub allocate_at-Allocated :
    (capacity lo : ℕ) (buf : List MemoryRange) (i : ℕ) (cur : MemoryRange) (address bytes : ℕ)
    → IsOrdered lo buf
    → get_elem? buf i ≡ some cur
    → mr_type cur ≡ memory_free
    → address % 2 ≡ 0
    → bytes % 2 ≡ 0
    → 0 < bytes
    → cur.physical_address ≤ address
    → address + bytes ≤ bound cur
    → length buf + 2 ≤ capacity
    → capacity < word
    → Returns (allocate_at capacity buf i address bytes) (Allocated lo buf address bytes)
unfolding allocate_at
allocate_at-Allocated capacity lo buf i cur address bytes o e free ea eb pos from to c w =
    Returns-bind (Retyped lo buf address (mr_size new) (mr_type cur) (mr_type new))
      (Allocated lo buf address bytes) (allocate_out_of capacity buf i new)
      (λ buffer'. done (address, buffer'))
      (allocate_out_of-Retyped capacity lo buf i cur new o e fits c w)
      λ l k. (refl, rw (fields.0, free, fields.1) at k)
  where
    new : MemoryRange
    new = allocated_mr address bytes

    fields : (mr_size new ≡ bytes) × (mr_type new ≡ memory_allocated)
    fields = encode_fields address bytes memory_allocated eb (omega arith)

    current : IsRange cur
    current = entry-IsRange lo buf i cur o e

    fits : Fits cur new
    fits = record {
      current = current;
      new = omega (arith, fields, current.inside);
      from = from;
      to = omega (arith, fields);
      differ = omega (arith, fields);
    }
