-- ===== src/PageTable/Walk.antt =====
-- kernel/include/memory/page_table.h and kernel/arch/x86/include/arch/page_table.h: the indices of an address, and
-- the steps from a table to the next one.
use Prim.Native.Nat.{bit_or}
use ultra.Prelude.{
  ℕ, ◌+◌, ◌-◌, ◌*◌, ◌/◌, ◌%◌, ◌^◌, ◌≤◌, ◌<◌, ◌≡◌, ◌↔◌, refl, sym, ap, ◌∙◌, arith, true,
  bit_or_disjoint,
}
use ultra.PageTable.{
  Paging, virt_to_phys, phys_to_virt, pt_mask, four_levels, pfn, pt_populate, pt_to_virt, pt_index,
  pt1_index, pt2_index, pt3_index, pt4_index, pt5_index, entry_at, pt4_from_pt5, pt_from_pt,
  pt3_from_pt4, pt2_from_pt3, pt1_from_pt2,
}

-- With four levels an address of 48 bits is the indices of the levels 5, 3, 2 and 1 and the offset in its page; level
-- 4 has one entry. With five, where the levels 5 and 4 have the shifts 48 and 39 and 512 entries each, an address of
-- 57 bits is its five indices and the offset.
pub pt_index_sum :
    (g : Paging) (addr : ℕ)
    → g.pt5_shift ≡ 48
    → g.pt4_num_entries ≡ 512
    → (addr % 2 ^ 48
        ≡ pt5_index four_levels addr * 2 ^ 39
          + pt3_index addr * 2 ^ 30
          + pt2_index addr * 2 ^ 21
          + pt1_index addr * 2 ^ 12
          + addr % 2 ^ 12)
      × (pt4_index four_levels addr ≡ 0)
      × (addr % 2 ^ 57
          ≡ pt5_index g addr * 2 ^ 48
            + pt4_index g addr * 2 ^ 39
            + pt3_index addr * 2 ^ 30
            + pt2_index addr * 2 ^ 21
            + pt1_index addr * 2 ^ 12
            + addr % 2 ^ 12)
unfolding pt_index
pt_index_sum g addr e f = rw (e, f) (omega arith, omega arith, omega arith)

-- The physical address of a page.
abbrev pub IsPage : ℕ → Type 0
IsPage phys = (phys < 2 ^ 52) × (phys % 2 ^ 12 ≡ 0)

-- The low bits that the entry of a page gets are free.
or_flags : (phys : ℕ) → phys % 2 ^ 12 ≡ 0 → bit_or pt_mask phys ≡ phys + 7
or_flags phys h =
    let e : phys / 2 ^ 3 * 2 ^ 3 ≡ phys = omega arith in
    ap (λ (t : ℕ). bit_or 7 t) (sym e)
    ∙ bit_or_disjoint 3 7 (phys / 2 ^ 3) (omega arith)
    ∙ omega arith

phys_virt :
    (base child : ℕ)
    → base < 2 ^ 64
    → child < 2 ^ 64
    → phys_to_virt base (virt_to_phys base child) ≡ child
phys_virt base child h k = ground arith

-- What the masks of the levels leave of an entry.
pfn_page : (phys : ℕ) → IsPage phys → pfn 12 (phys + 7) ≡ phys
pfn_page phys (h, k) = omega arith

pfn_2 : (phys : ℕ) → IsPage phys → pfn 21 (phys + 7) ≡ phys - phys % 2 ^ 21
pfn_2 phys (h, k) = omega arith

pfn_3 : (phys : ℕ) → IsPage phys → pfn 30 (phys + 7) ≡ phys - phys % 2 ^ 30
pfn_3 phys (h, k) = omega arith

-- The base of the table that an entry refers to.
to_virt-populate :
    (base child shift : ℕ)
    → IsPage (virt_to_phys base child)
    → pt_to_virt base shift (pt_populate base child)
      ≡ phys_to_virt base (pfn shift (virt_to_phys base child + 7))
unfolding pt_to_virt pt_populate
to_virt-populate base child shift h =
    ap (λ (t : ℕ). phys_to_virt base (pfn shift t)) (or_flags (virt_to_phys base child) h.1)

-- A table that is found too low by so much is the right one only if that is 0.
cut_iff :
    (base child cut index : ℕ)
    → base < 2 ^ 64
    → child < 2 ^ 64
    → IsPage (virt_to_phys base child)
    → cut ≤ virt_to_phys base child
    → (entry_at (phys_to_virt base (virt_to_phys base child - cut)) index ≡ entry_at child index)
      ↔ (cut ≡ 0)
cut_iff base child cut index h k v c =
    let near : virt_to_phys base child < 2 ^ 52 = v.0 in
    ((λ q. omega (arith, near)), (λ q. omega arith))

-- Where an entry of level 4, or of level 5 of five, has been populated with the next table, whose physical address
-- is that of a page below 2^52, the step from it leads to the entry of that table with the index of the address.
pub pt_from_pt-pt_populate :
    (g : Paging) (base child entry addr : ℕ) (entries : ℕ → ℕ)
    → base < 2 ^ 64
    → child < 2 ^ 64
    → IsPage (virt_to_phys base child)
    → g.la57 ≡ true
    → entries entry ≡ pt_populate base child
    → (pt3_from_pt4 base entries entry addr ≡ entry_at child (pt3_index addr))
      × (pt4_from_pt5 g base entries entry addr ≡ entry_at child (pt4_index g addr))
unfolding pt3_from_pt4 pt4_from_pt5 pt_from_pt
pt_from_pt-pt_populate g base child entry addr entries h k v l e =
    let virt : pt_to_virt base 12 (pt_populate base child) ≡ child =
      to_virt-populate base child 12 v
      ∙ ap (λ (t : ℕ). phys_to_virt base t) (pfn_page (virt_to_phys base child) v)
      ∙ phys_virt base child h k in
    rw (l, e, virt) (refl, refl)

-- The masks of the levels 3 and 2 are those of large pages: where an entry of such a level has been populated
-- with the next table, which is a page below 2^52, the step from it leads to that table only if
-- its physical address is a multiple of 2^30 or 2^21.
pub pt_from_pt-pt_populate_iff :
    (base child entry addr : ℕ) (entries : ℕ → ℕ)
    → base < 2 ^ 64
    → child < 2 ^ 64
    → IsPage (virt_to_phys base child)
    → entries entry ≡ pt_populate base child
    → ((pt2_from_pt3 base entries entry addr ≡ entry_at child (pt2_index addr))
        ↔ (virt_to_phys base child % 2 ^ 30 ≡ 0))
      × ((pt1_from_pt2 base entries entry addr ≡ entry_at child (pt1_index addr))
          ↔ (virt_to_phys base child % 2 ^ 21 ≡ 0))
unfolding pt2_from_pt3 pt1_from_pt2 pt_from_pt pt_index
pt_from_pt-pt_populate_iff base child entry addr entries h k v e =
    let phys = virt_to_phys base child in
    let third : pt_to_virt base 30 (pt_populate base child)
        ≡ phys_to_virt base (phys - phys % 2 ^ 30) =
      to_virt-populate base child 30 v ∙ ap (λ (t : ℕ). phys_to_virt base t) (pfn_3 phys v) in
    let second : pt_to_virt base 21 (pt_populate base child)
        ≡ phys_to_virt base (phys - phys % 2 ^ 21) =
      to_virt-populate base child 21 v ∙ ap (λ (t : ℕ). phys_to_virt base t) (pfn_2 phys v) in
    rw (e, third, second)
      (
        cut_iff base child (phys % 2 ^ 30) (pt2_index addr) h k v (omega arith),
        cut_iff base child (phys % 2 ^ 21) (pt1_index addr) h k v (omega arith),
      )
