-- ===== src/BootAlloc/Carve/Refine.antt =====
-- `allocate_out_of` on any buffer: it returns, keeps the buffer in order, gives the addresses of the
-- new range its type and leaves all others as they were.
use ultra.Prelude.{
  ℕ, zero, suc, ◌+◌, ◌≤◌, ◌<◌, ◌≡◌, Option, some, List, [], ◌∷◌, arith, length, Outcome, done, bug,
  fault, unfinished, Returns, get_elem?, get_elem?-lt,
}
use ultra.BootAlloc.Range.{MemoryRange, word}
use ultra.BootAlloc.View.{bound, IsRange, IsOrdered}
use ultra.BootAlloc.Carve.{allocate_out_of}
use ultra.BootAlloc.Carve.Pieces.{Fits}
use ultra.BootAlloc.Carve.Shapes.{Carved, cons-Carved}
use ultra.BootAlloc.Carve.Base.{first_last-Carved, first-Carved, second_last-Carved, second-Carved}
use ultra.BootAlloc.Carve.Shift.{cons_done, allocate_out_of-suc}

cons_done-Carved :
    (lo a : ℕ) (new x : MemoryRange) (buf : List MemoryRange) (o : Outcome (List MemoryRange))
    → lo ≤ x.physical_address
    → IsRange x
    → bound x ≤ new.physical_address
    → Returns o (Carved (bound x) new a buf)
    → Returns (cons_done x o) (Carved lo new a (x ∷ buf))
cons_done-Carved lo a new x buf (done l) p r b h = cons-Carved p r b h
cons_done-Carved lo a new x buf bug p r b h = h
cons_done-Carved lo a new x buf fault p r b h = h
cons_done-Carved lo a new x buf unfinished p r b h = h

-- An entry that is found lies from `lo` on.
entry-ge :
    (lo : ℕ) (buf : List MemoryRange) (i : ℕ) (cur : MemoryRange)
    → IsOrdered lo buf
    → get_elem? buf i ≡ some cur
    → lo ≤ cur.physical_address
entry-ge lo [] i cur o e = ground arith
entry-ge lo (x ∷ buf) zero cur o e = ground arith
entry-ge lo (x ∷ buf) (suc i) cur o e = omega (arith, entry-ge (bound x) buf i cur o.2 e)

here :
    {cur new x : MemoryRange}
    → ◌≡◌ {A = Option MemoryRange} (some x) (some cur)
    → Fits cur new
    → Fits x new
here {cur} {new} {x} e f = let p : cur ≡ x = cc in rw p at f

pub allocate_out_of-Carved :
    (capacity lo a : ℕ) (buf : List MemoryRange) (i : ℕ) (cur new : MemoryRange)
    → IsOrdered lo buf
    → get_elem? buf i ≡ some cur
    → Fits cur new
    → length buf + 2 ≤ capacity
    → capacity < word
    → Returns (allocate_out_of capacity buf i new) (Carved lo new a buf)
allocate_out_of-Carved capacity lo a [] i cur new o e f c w = ground arith
allocate_out_of-Carved capacity lo a (x ∷ []) zero cur new o e f c w =
    first_last-Carved capacity lo a new x (here e f) w o c
allocate_out_of-Carved capacity lo a (x ∷ y ∷ buf) zero cur new o e f c w =
    first-Carved capacity lo a new x (here e f) w y buf o (omega arith)
allocate_out_of-Carved capacity lo a (x ∷ []) (suc i) cur new o e f c w = ground arith
allocate_out_of-Carved capacity lo a (x ∷ y ∷ []) (suc zero) cur new o e f c w =
    second_last-Carved capacity lo a new y (here e f) w x o c
allocate_out_of-Carved capacity lo a (x ∷ y ∷ z ∷ buf) (suc zero) cur new o e f c w =
    second-Carved capacity lo a new y (here e f) w x z buf o (omega arith)
allocate_out_of-Carved zero lo a (x ∷ y ∷ buf) (suc (suc i)) cur new o e f c w =
    absurd (omega arith)
allocate_out_of-Carved (suc capacity) lo a (x ∷ y ∷ buf) (suc (suc i)) cur new o e f c w =
    rw (allocate_out_of-suc x y buf capacity i new (get_elem?-lt buf i cur e) (omega arith)) (
      cons_done-Carved lo a new x (y ∷ buf) (allocate_out_of capacity (y ∷ buf) (suc i) new) o.0 o.1
        (omega (arith, entry-ge (bound x) (y ∷ buf) (suc i) cur o.2 e, f.from))
        (allocate_out_of-Carved capacity (bound x) a (y ∷ buf) (suc i) cur new o.2 e f (omega arith)
          (omega arith)))
