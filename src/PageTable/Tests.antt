-- ===== src/PageTable/Tests.antt =====
-- Runs of the walk over page tables.
use ultra.Prelude.{ℕ, ◌+◌, ◌*◌, ◌%◌, ◌^◌, ◌≡◌, ◌↔◌, refl, arith, true, false}
use ultra.PageTable.{
  pt_index, Paging, four_levels, pt_populate, pt1_index, pt2_index, pt3_index, pt4_index, pt5_index,
  entry_at, pt4_from_pt5, pt3_from_pt4, pt2_from_pt3, pt1_from_pt2, pt_prot_from_vm_prot,
}
use ultra.PageTable.Walk.{pt_index_sum, pt_from_pt-pt_populate, pt_from_pt-pt_populate_iff}
use ultra.PageTable.Protection.{pt_prot_from_vm_prot_lem}

abbrev five_levels : Paging
five_levels = record { la57 = true; pt5_shift = 48; pt4_num_entries = 512 }

pt_index_sum_example :
    (5000000000000
      ≡ pt5_index four_levels 5000000000000 * 2 ^ 39
        + pt3_index 5000000000000 * 2 ^ 30
        + pt2_index 5000000000000 * 2 ^ 21
        + pt1_index 5000000000000 * 2 ^ 12
        + 5000000000000 % 2 ^ 12)
    × (pt4_index four_levels 5000000000000 ≡ 0)
    × (5000000000000
        ≡ pt5_index five_levels 5000000000000 * 2 ^ 48
          + pt4_index five_levels 5000000000000 * 2 ^ 39
          + pt3_index 5000000000000 * 2 ^ 30
          + pt2_index 5000000000000 * 2 ^ 21
          + pt1_index 5000000000000 * 2 ^ 12
          + 5000000000000 % 2 ^ 12)
pt_index_sum_example = pt_index_sum five_levels 5000000000000 refl refl

-- The direct map, and a table in the fourth page.
abbrev map_base : ℕ
map_base = 18446603336221196288

abbrev table : ℕ
table = map_base + 12288

abbrev populated : ℕ → ℕ
populated entry = pt_populate map_base table

pt_from_pt-pt_populate_example :
    (pt3_from_pt4 map_base populated map_base 1073741824 ≡ entry_at table 1)
    × (pt4_from_pt5 five_levels map_base populated map_base 1073741824 ≡ entry_at table 0)
unfolding pt_index
pt_from_pt-pt_populate_example =
    pt_from_pt-pt_populate five_levels map_base table map_base 1073741824 populated (omega arith)
      (omega arith) (omega arith, refl) refl refl

pt_from_pt-pt_populate_iff_example :
    ((pt2_from_pt3 map_base populated map_base 2097152 ≡ entry_at table 1) ↔ (◌≡◌ {A = ℕ} 12288 0))
    × ((pt1_from_pt2 map_base populated map_base 2097152 ≡ entry_at table 0)
        ↔ (◌≡◌ {A = ℕ} 12288 0))
unfolding pt_index
pt_from_pt-pt_populate_iff_example =
    pt_from_pt-pt_populate_iff map_base table map_base 2097152 populated (omega arith) (omega arith)
      (omega arith, refl) refl

pt_prot_from_vm_prot_lem_example : pt_prot_from_vm_prot 9 ≡ 1 + 2 ^ 63
pt_prot_from_vm_prot_lem_example = pt_prot_from_vm_prot_lem true false false true
