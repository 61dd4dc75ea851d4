-- ===== src/BootAlloc/Carve/Base.antt =====
-- `allocate_out_of` at the first two entries of the buffer.
use ultra.Prelude.{ℕ, suc, ◌+◌, ◌≤◌, ◌<◌, ◌≡◌, true, false, List, [], ◌∷◌, arith, length, Returns}
use ultra.BootAlloc.Range.{MemoryRange, word, mr_type, merge_ranges, range_before}
use ultra.BootAlloc.Range.Laws.{mr_end-bound, can_merge_eq}
use ultra.BootAlloc.View.{bound, IsOrdered}
use ultra.BootAlloc.Carve.{allocate_out_of, carve, carve_cases, merge_into, merge_entries}
use ultra.BootAlloc.Carve.Pieces.{Fits, lhs_fields, rhs_fields}
use ultra.BootAlloc.Carve.Shrink.{out_case4_lem, out_case4-none, range_after_more, range_after_last}
use ultra.BootAlloc.Carve.Shapes.{
  Carved, middle-Carved, left-Carved, right-Carved, whole-Carved, right_after-Carved,
  whole_after-Carved, cons-Carved, left_before-Carved, whole_before-Carved, whole_both-Carved,
}

-- What the cases below compute through.
steps : Unit {0}
unfolding allocate_out_of carve carve_cases range_before merge_into merge_entries
steps = tt

module _ (capacity lo a : ℕ) (new cur : MemoryRange) (f : Fits cur new) (w : capacity < word) where
  pub first_last-Carved :
      IsOrdered lo (cur ∷ [])
      → 3 ≤ capacity
      → Returns (allocate_out_of capacity (cur ∷ []) 0 new) (Carved lo new a (cur ∷ []))
  unfolding steps
  first_last-Carved o c = ground (
    arith,
    lhs_fields cur new f,
    rhs_fields cur new f,
    mr_end-bound cur f.current.inside,
    mr_end-bound new f.new.inside,
    range_after_last 1 0,
    middle-Carved lo a cur new [] f o,
    left-Carved lo a cur new [] f o,
    right-Carved lo a cur new [] f o,
    whole-Carved lo a cur new [] f o,
  )

  pub first-Carved :
      (aft : MemoryRange) (post : List MemoryRange)
      → IsOrdered lo (cur ∷ aft ∷ post)
      → length post + 4 ≤ capacity
      → Returns
          (allocate_out_of capacity (cur ∷ aft ∷ post) 0 new)
          (Carved lo new a (cur ∷ aft ∷ post))
  unfolding steps
  first-Carved aft post o c = ground (
    arith,
    lhs_fields cur new f,
    rhs_fields cur new f,
    mr_end-bound cur f.current.inside,
    mr_end-bound new f.new.inside,
    can_merge_eq new aft f.new.inside,
    range_after_more (suc (suc (length post))) 0,
    out_case4_lem (cur ∷ merge_ranges aft new ∷ post) 0 1 false true,
    middle-Carved lo a cur new (aft ∷ post) f o,
    left-Carved lo a cur new (aft ∷ post) f o,
    right-Carved lo a cur new (aft ∷ post) f o,
    whole-Carved lo a cur new (aft ∷ post) f o,
    right_after-Carved lo a cur new post f aft o,
    whole_after-Carved lo a cur new post f aft o,
  )

  module _ (bef : MemoryRange) where
    -- The shapes that leave the entry before alone.
    keep :
        {P Q : Type 0} {rest buf' : List MemoryRange}
        → IsOrdered lo (bef ∷ cur ∷ rest)
        → (P → Q → Carved (bound bef) new a (cur ∷ rest) buf')
        → P
        → Q
        → Carved lo new a (bef ∷ cur ∷ rest) (bef ∷ buf')
    keep o h p q = cons-Carved o.0 o.1 (omega (arith, f.from, o.2.0)) (h p q)

    pub second_last-Carved :
        IsOrdered lo (bef ∷ cur ∷ [])
        → 4 ≤ capacity
        → Returns
            (allocate_out_of capacity (bef ∷ cur ∷ []) 1 new)
            (Carved lo new a (bef ∷ cur ∷ []))
    unfolding steps
    second_last-Carved o c = ground (
      arith,
      lhs_fields cur new f,
      rhs_fields cur new f,
      mr_end-bound cur f.current.inside,
      mr_end-bound new f.new.inside,
      can_merge_eq bef new o.1.inside,
      range_after_last 2 1,
      out_case4-none (merge_ranges bef new) cur,
      keep o (middle-Carved (bound bef) a cur new [] f o.2),
      keep o (left-Carved (bound bef) a cur new [] f o.2),
      keep o (right-Carved (bound bef) a cur new [] f o.2),
      keep o (whole-Carved (bound bef) a cur new [] f o.2),
      left_before-Carved lo a cur new [] f bef o,
      whole_before-Carved lo a cur new [] f bef o,
    )

    pub second-Carved :
        (aft : MemoryRange) (post : List MemoryRange)
        → IsOrdered lo (bef ∷ cur ∷ aft ∷ post)
        → length post + 5 ≤ capacity
        → Returns
            (allocate_out_of capacity (bef ∷ cur ∷ aft ∷ post) 1 new)
            (Carved lo new a (bef ∷ cur ∷ aft ∷ post))
    unfolding steps
    second-Carved aft post o c = ground (
      arith,
      lhs_fields cur new f,
      rhs_fields cur new f,
      mr_end-bound cur f.current.inside,
      mr_end-bound new f.new.inside,
      can_merge_eq bef new o.1.inside,
      can_merge_eq new aft f.new.inside,
      range_after_more (suc (suc (suc (length post)))) 1,
      out_case4_lem (merge_ranges (merge_ranges bef new) aft ∷ cur ∷ aft ∷ post) 1 3 true true,
      out_case4_lem (merge_ranges bef new ∷ cur ∷ aft ∷ post) 1 2 true false,
      out_case4_lem (bef ∷ cur ∷ merge_ranges aft new ∷ post) 1 2 false true,
      keep o (middle-Carved (bound bef) a cur new (aft ∷ post) f o.2),
      keep o (left-Carved (bound bef) a cur new (aft ∷ post) f o.2),
      keep o (right-Carved (bound bef) a cur new (aft ∷ post) f o.2),
      keep o (whole-Carved (bound bef) a cur new (aft ∷ post) f o.2),
      λ (t : mr_type new ≡ mr_type aft) (m : bound new ≡ aft.physical_address).
          keep o (right_after-Carved (bound bef) a cur new post f aft o.2 t m),
      λ (t : mr_type new ≡ mr_type aft) (m : bound new ≡ aft.physical_address).
          keep o (whole_after-Carved (bound bef) a cur new post f aft o.2 t m),
      left_before-Carved lo a cur new (aft ∷ post) f bef o,
      whole_before-Carved lo a cur new (aft ∷ post) f bef o,
      whole_both-Carved lo a cur new post f bef aft o,
    )
