-- ===== src/BootAlloc/Carve/Shapes.antt =====
-- What each case of `allocate_out_of` leaves in the buffer, seen through the types of addresses.
use ultra.Prelude.{ℕ, ◌+◌, ◌≤◌, ◌<◌, ◌≡◌, true, some, List, ◌∷◌, arith, length, if◌then◌else◌}
use ultra.BootAlloc.Range.{MemoryRange, mr_type, mr_size, merge_ranges}
use ultra.BootAlloc.Range.Laws.{mr_size-even, merge_fields}
use ultra.BootAlloc.View.{bound, covers, type_at, holds, IsRange, IsOrdered}
use ultra.BootAlloc.Carve.{lhs_piece, rhs_piece}
use ultra.BootAlloc.Carve.Pieces.{Fits, lhs_fields, rhs_fields}

-- `buf'` is `buf` with the addresses of `new` given its type, and all others left as they were;
-- one entry holds `new`.
pub record Carved (lo : ℕ) (new : MemoryRange) (a : ℕ) (buf buf' : List MemoryRange) : Type 0 where
  pub ordered : IsOrdered lo buf'
  pub types : type_at buf' a ≡ (if covers new a then some (mr_type new) else type_at buf a)
  pub growth : length buf' ≤ length buf + 2
  pub held : holds buf' new ≡ true

-- An entry below the new range stays.
pub cons-Carved :
    {lo a : ℕ} {new x : MemoryRange} {buf buf' : List MemoryRange}
    → lo ≤ x.physical_address
    → IsRange x
    → bound x ≤ new.physical_address
    → Carved (bound x) new a buf buf'
    → Carved lo new a (x ∷ buf) (x ∷ buf')
unfolding type_at covers holds
cons-Carved l r b c = ground arith

module _ (lo a : ℕ) (cur new : MemoryRange) (post : List MemoryRange) (f : Fits cur new) where
  module _ (o : IsOrdered lo (cur ∷ post)) where
    pub middle-Carved :
        cur.physical_address < new.physical_address
        → bound new < bound cur
        → Carved lo new a (cur ∷ post) (lhs_piece cur new ∷ new ∷ rhs_piece cur new ∷ post)
    unfolding type_at covers holds
    middle-Carved l r =
        ground
          (arith, lhs_fields cur new f, rhs_fields cur new f, mr_size-even cur, mr_size-even new)

    pub left-Carved :
        cur.physical_address ≡ new.physical_address
        → bound new < bound cur
        → Carved lo new a (cur ∷ post) (new ∷ rhs_piece cur new ∷ post)
    unfolding type_at covers holds
    left-Carved l r = ground (arith, rhs_fields cur new f, mr_size-even cur, mr_size-even new)

    pub right-Carved :
        cur.physical_address < new.physical_address
        → bound new ≡ bound cur
        → Carved lo new a (cur ∷ post) (lhs_piece cur new ∷ new ∷ post)
    unfolding type_at covers holds
    right-Carved l r = ground (arith, lhs_fields cur new f, mr_size-even cur, mr_size-even new)

    pub whole-Carved :
        cur.physical_address ≡ new.physical_address
        → bound new ≡ bound cur
        → Carved lo new a (cur ∷ post) (record cur { size_and_type = new.size_and_type } ∷ post)
    unfolding type_at covers holds mr_size mr_type
    whole-Carved l r = ground arith

  module _ (aft : MemoryRange) (o : IsOrdered lo (cur ∷ aft ∷ post))
      (typed : mr_type new ≡ mr_type aft) (meets : bound new ≡ aft.physical_address) where
    pub right_after-Carved :
        cur.physical_address < new.physical_address
        → bound new ≡ bound cur
        → Carved lo new a (cur ∷ aft ∷ post) (lhs_piece cur new ∷ merge_ranges aft new ∷ post)
    unfolding type_at covers holds
    right_after-Carved l r =
        ground
          (arith, lhs_fields cur new f, mr_size-even cur, mr_size-even new, merge_fields aft new)

    pub whole_after-Carved :
        cur.physical_address ≡ new.physical_address
        → bound new ≡ bound cur
        → Carved lo new a (cur ∷ aft ∷ post) (merge_ranges aft new ∷ post)
    unfolding type_at covers holds
    whole_after-Carved l r = ground (arith, merge_fields aft new)

  module _ (bef : MemoryRange) (o : IsOrdered lo (bef ∷ cur ∷ post))
      (typed : mr_type bef ≡ mr_type new) (meets : bound bef ≡ new.physical_address) where
    pub left_before-Carved :
        bound new < bound cur
        → Carved lo new a (bef ∷ cur ∷ post) (merge_ranges bef new ∷ rhs_piece cur new ∷ post)
    unfolding type_at covers holds
    left_before-Carved r =
        ground
          (arith, rhs_fields cur new f, mr_size-even cur, mr_size-even new, merge_fields bef new)

    pub whole_before-Carved :
        bound new ≡ bound cur → Carved lo new a (bef ∷ cur ∷ post) (merge_ranges bef new ∷ post)
    unfolding type_at covers holds
    whole_before-Carved r = ground (arith, merge_fields bef new)

  pub whole_both-Carved :
      (bef aft : MemoryRange)
      → IsOrdered lo (bef ∷ cur ∷ aft ∷ post)
      → mr_type bef ≡ mr_type new
      → bound bef ≡ new.physical_address
      → mr_type new ≡ mr_type aft
      → bound new ≡ aft.physical_address
      → bound new ≡ bound cur
      → Carved lo new a (bef ∷ cur ∷ aft ∷ post) (merge_ranges (merge_ranges bef new) aft ∷ post)
  unfolding type_at covers holds
  whole_both-Carved bef aft o t m t' m' r =
      ground (arith, merge_fields bef new, merge_fields (merge_ranges bef new) aft)
