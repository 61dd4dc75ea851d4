-- ===== src/BootAlloc/Carve/Pieces.antt =====
-- The two pieces that are left of a range when a part of it is carved out.
use ultra.Prelude.{◌+◌, ◌-◌, ◌%◌, ◌≤◌, ◌≡◌, ◌≢◌, arith}
use ultra.BootAlloc.Range.{MemoryRange, word, mr_type, mr_size, mr_end}
use ultra.BootAlloc.Range.Laws.{encode_fields, mr_type-lt, mr_size-even, mr_end-bound}
use ultra.BootAlloc.View.{bound, IsRange}
use ultra.BootAlloc.Carve.{lhs_piece, rhs_piece}

-- What `allocate_out_of` asks of the two ranges: the new one lies in the current one, and has the
-- other type.
pub record Fits (current_mr new_mr : MemoryRange) : Type 0 where
  pub current : IsRange current_mr
  pub new : IsRange new_mr
  pub from : current_mr.physical_address ≤ new_mr.physical_address
  pub to : bound new_mr ≤ bound current_mr
  pub differ : mr_type current_mr ≢ mr_type new_mr

pub lhs_fields :
    (cur new : MemoryRange)
    → Fits cur new
    → (mr_size (lhs_piece cur new) ≡ new.physical_address - cur.physical_address)
      × (mr_type (lhs_piece cur new) ≡ mr_type cur)
      × ((lhs_piece cur new).physical_address ≡ cur.physical_address)
unfolding lhs_piece
lhs_fields cur new f = omega (
  arith,
  encode_fields cur.physical_address ((new.physical_address + word - cur.physical_address) % word)
      (mr_type cur),
  mr_type-lt cur,
  mr_size-even cur,
)

pub rhs_fields :
    (cur new : MemoryRange)
    → Fits cur new
    → (mr_size (rhs_piece cur new) ≡ bound cur - bound new)
      × (mr_type (rhs_piece cur new) ≡ mr_type cur)
      × ((rhs_piece cur new).physical_address ≡ bound new)
unfolding rhs_piece
rhs_fields cur new f = omega (
  arith,
  encode_fields (mr_end new) ((mr_end cur + word - mr_end new) % word) (mr_type cur),
  mr_type-lt cur,
  mr_size-even cur,
  mr_size-even new,
  mr_end-bound cur f.current.inside,
  mr_end-bound new f.new.inside,
)
