-- ===== src/PageTable.antt =====
-- kernel/include/memory/page_table.h, kernel/arch/x86/include/arch/page_table.h and kernel/arch/x86/memory.c:
-- the entries of page tables and the walk down to them. An entry is its value, a pointer its address; `entries`
-- has the value at each address of an entry.
pub mod Walk
pub mod Protection
mod Tests
use Prim.Native.Nat.{bit_or}
use ultra.Prelude.{
  ℕ, ◌+◌, ◌-◌, ◌*◌, ◌/◌, ◌%◌, ◌^◌, Bool, true, false, not, ◌&&◌, ◌==◌, if◌then◌else◌,
}

-- kernel/arch/x86/memory.c
pub record Paging : Type 0 where
  pub la57 : Bool
  pub pt5_shift : ℕ
  pub pt4_num_entries : ℕ

-- kernel/include/io.h: the globals, and the addresses with 64 bits
abbrev pub virt_to_phys : ℕ → ℕ → ℕ
virt_to_phys direct_map_base virt = (virt + 2 ^ 64 - direct_map_base) % 2 ^ 64

abbrev pub phys_to_virt : ℕ → ℕ → ℕ
phys_to_virt direct_map_base phys = (phys + direct_map_base) % 2 ^ 64

-- X86_PT_PRESENT | X86_PT_WRITE | X86_PT_USER
abbrev pub pt_mask : ℕ
pt_mask = 7

-- PT1_SHIFT to PT4_SHIFT
abbrev pub pt1_shift : ℕ
pt1_shift = 12

abbrev pub pt2_shift : ℕ
pt2_shift = pt1_shift + 9

abbrev pub pt3_shift : ℕ
pt3_shift = pt2_shift + 9

abbrev pub pt4_shift : ℕ
pt4_shift = pt3_shift + 9

-- X86_PT_LVL_ENTRIES
abbrev pub lvl_entries : ℕ
lvl_entries = 512

-- The globals as they are initialised.
abbrev pub four_levels : Paging
four_levels = record { la57 = false; pt5_shift = pt4_shift; pt4_num_entries = 1 }

-- `&` with X86_PHYS_MASK without the bits below the shift
abbrev pub pfn : ℕ → ℕ → ℕ
pfn shift value = value % 2 ^ 52 / 2 ^ shift * 2 ^ shift

-- The shifts of the masks PT1_PFN_MASK to PT5_PFN_MASK.
abbrev pub pt1_pfn_shift : ℕ
pt1_pfn_shift = 12

abbrev pub pt2_pfn_shift : ℕ
pt2_pfn_shift = pt2_shift

abbrev pub pt3_pfn_shift : ℕ
pt3_pfn_shift = pt3_shift

abbrev pub pt4_pfn_shift : ℕ
pt4_pfn_shift = 12

abbrev pub pt5_pfn_shift : ℕ
pt5_pfn_shift = 12

-- `MAKE_X86_PT_HELPERS`, by the shift of the mask of the level
unfoldable pub pt_present : ℕ → Bool
pt_present value = value % 2 == 1

unfoldable pub pt_to_virt : ℕ → ℕ → ℕ → ℕ
pt_to_virt direct_map_base shift value = phys_to_virt direct_map_base (pfn shift value)

-- The value without the bits 5 and 6 is 0.
unfoldable pub pt_none : ℕ → Bool
pt_none value = value % 2 ^ 5 + value / 2 ^ 7 == 0

-- `MAKE_X86_PT_POPULATE`: the value of the parent
unfoldable pub pt_populate : ℕ → ℕ → ℕ
pt_populate direct_map_base child = bit_or pt_mask (virt_to_phys direct_map_base child)

unfoldable pub pt1_populate : ℕ → ℕ → ℕ
pt1_populate phys_addr prot = bit_or phys_addr prot

-- The value of the parent, which stays as it is with four levels.
unfoldable pub pt5_populate : Paging → ℕ → ℕ → ℕ → ℕ
pt5_populate g direct_map_base parent child =
    if not g.la57 then parent else bit_or pt_mask (virt_to_phys direct_map_base child)

unfoldable pub pt5_present : Paging → ℕ → Bool
pt5_present g value = if not g.la57 then true else value % 2 == 1

unfoldable pub pt5_none : Paging → ℕ → Bool
pt5_none g value = if not g.la57 then false else value % 2 ^ 5 + value / 2 ^ 7 == 0

unfoldable pub pt1_make_writeable : ℕ → ℕ
pt1_make_writeable value = bit_or value 2

-- `DO_MAKE_GENERIC_PTN_INDEX`; the number of entries is a power of 2.
unfoldable pub pt_index : ℕ → ℕ → ℕ → ℕ
pt_index shift num_entries addr = addr / 2 ^ shift % num_entries

abbrev pub pt1_index : ℕ → ℕ
pt1_index addr = pt_index pt1_shift lvl_entries addr

abbrev pub pt2_index : ℕ → ℕ
pt2_index addr = pt_index pt2_shift lvl_entries addr

abbrev pub pt3_index : ℕ → ℕ
pt3_index addr = pt_index pt3_shift lvl_entries addr

abbrev pub pt4_index : Paging → ℕ → ℕ
pt4_index g addr = pt_index pt4_shift g.pt4_num_entries addr

abbrev pub pt5_index : Paging → ℕ → ℕ
pt5_index g addr = pt_index g.pt5_shift lvl_entries addr

-- `&table[index]`, where an entry has 8 bytes
abbrev pub entry_at : ℕ → ℕ → ℕ
entry_at table index = (table + 8 * index) % 2 ^ 64

unfoldable pub pt5_from_pt5_base : Paging → ℕ → ℕ → ℕ
pt5_from_pt5_base g pt5 addr = entry_at pt5 (pt5_index g addr)

unfoldable pub pt4_from_pt5 : Paging → ℕ → (ℕ → ℕ) → ℕ → ℕ → ℕ
pt4_from_pt5 g direct_map_base entries pt5 addr =
    if not g.la57
    then pt5
    else entry_at (pt_to_virt direct_map_base pt5_pfn_shift (entries pt5)) (pt4_index g addr)

-- `MAKE_GENERIC_PTN_FROM_PTN`, by the shift of the current level's mask, and the index
unfoldable pub pt_from_pt : ℕ → ℕ → (ℕ → ℕ) → ℕ → ℕ → ℕ
pt_from_pt direct_map_base shift entries current index =
    entry_at (pt_to_virt direct_map_base shift (entries current)) index

unfoldable pub pt3_from_pt4 : ℕ → (ℕ → ℕ) → ℕ → ℕ → ℕ
pt3_from_pt4 direct_map_base entries pt4 addr =
    pt_from_pt direct_map_base pt4_pfn_shift entries pt4 (pt3_index addr)

unfoldable pub pt2_from_pt3 : ℕ → (ℕ → ℕ) → ℕ → ℕ → ℕ
pt2_from_pt3 direct_map_base entries pt3 addr =
    pt_from_pt direct_map_base pt3_pfn_shift entries pt3 (pt2_index addr)

unfoldable pub pt1_from_pt2 : ℕ → (ℕ → ℕ) → ℕ → ℕ → ℕ
pt1_from_pt2 direct_map_base entries pt2 addr =
    pt_from_pt direct_map_base pt2_pfn_shift entries pt2 (pt1_index addr)

-- `enum vm_prot`: whether the bit of VM_PROT_READ, _WRITE, _EXEC and _KERNEL is set
abbrev pub has_bit : ℕ → ℕ → Bool
has_bit vm_prot bit = vm_prot / bit % 2 == 1

abbrev pub with_flag : Bool → ℕ → ℕ → ℕ
with_flag false flag value = value
with_flag true flag value = bit_or value flag

unfoldable pub pt_prot_from_vm_prot : ℕ → ℕ
pt_prot_from_vm_prot vm_prot =
    if vm_prot == 0
    then 0
    else with_flag (not (has_bit vm_prot 8)) 4 (
        with_flag (not (has_bit vm_prot 4)) (2 ^ 63)
          (with_flag (has_bit vm_prot 2) 2 (with_flag (has_bit vm_prot 1) 1 0)))
