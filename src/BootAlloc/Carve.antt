-- ===== src/BootAlloc/Carve.antt =====
-- `allocate_out_of` of kernel/memory/boot_alloc.c: gives a part of one range of the buffer another
-- type, splits what is left of that range, and merges the new range with its neighbours.
pub mod Pieces
pub mod Shapes
pub mod Base
pub mod Shift
pub mod Refine
pub mod Shrink
use ultra.Prelude.{
  ℕ, ◌+◌, ◌-◌, Bool, false, not, ◌&&◌, ◌||◌, Option, none, some, List, ltb, ◌==◌, if◌then◌else◌,
  length, get_elem?, set, take, Outcome, done, bug, fault, ◌>>=◌,
}
use ultra.BootAlloc.Range.{
  MemoryRange, sub64, mr_encode, mr_type, mr_size, mr_end, range_emplace_at, can_merge_ranges,
  merge_ranges, range_before, range_after, move_down,
}

-- `mr_lhs_piece` and `mr_rhs_piece`
unfoldable pub lhs_piece : MemoryRange → MemoryRange → MemoryRange
unfolding mr_encode mr_type
lhs_piece current_mr new_mr = record {
  physical_address = current_mr.physical_address;
  size_and_type =
      mr_encode (sub64 new_mr.physical_address current_mr.physical_address) (mr_type current_mr);
}

unfoldable pub rhs_piece : MemoryRange → MemoryRange → MemoryRange
unfolding mr_encode mr_type mr_end
rhs_piece current_mr new_mr = record {
  physical_address = mr_end new_mr;
  size_and_type = mr_encode (sub64 (mr_end current_mr) (mr_end new_mr)) (mr_type current_mr);
}

-- `p && can_merge_ranges(...)` for a pointer `p` that may be `NULL`
unfoldable pub mergeable_with : List MemoryRange → Option ℕ → (MemoryRange → Bool) → Bool
mergeable_with buffer none test = false
mergeable_with buffer (some i) test = elim (get_elem? buffer i) [ none ↦ false | some mr ↦ test mr ]

-- `merge_ranges(&g_buffer[i], src)`
unfoldable pub merge_into : List MemoryRange → Option ℕ → MemoryRange → Outcome (List MemoryRange)
merge_into buffer none src = fault
merge_into buffer (some i) src = elim (get_elem? buffer i) [
  | none ↦ fault
  | some mr ↦ done (set buffer i (merge_ranges mr src))
]

-- `merge_ranges(&g_buffer[i], &g_buffer[j])`
unfoldable pub merge_entries : List MemoryRange → Option ℕ → Option ℕ → Outcome (List MemoryRange)
merge_entries buffer dst none = fault
merge_entries buffer dst (some j) = elim (get_elem? buffer j) [
  | none ↦ fault
  | some mr ↦ merge_into buffer dst mr
]

-- `mr_after++`
unfoldable pub next_entry : Option ℕ → Option ℕ
next_entry none = none
next_entry (some i) = some (i + 1)

-- from the label `out_case4` on
unfoldable pub out_case4 :
    List MemoryRange → ℕ → Option ℕ → Bool → Bool → Outcome (List MemoryRange)
unfolding move_down
out_case4 buffer mr_idx mr_after mergeable_before mergeable_after =
    let moved : List MemoryRange = elim mr_after [
      | none ↦ buffer
      | some after ↦ move_down buffer mr_idx after
    ] in
    let removed : ℕ = (if mergeable_before then 1 else 0) + (if mergeable_after then 1 else 0) in
    done (take (length buffer - removed) moved)

-- case 4: the range is allocated entirely
unfoldable pub carve_entirely :
    List MemoryRange
    → ℕ
    → MemoryRange
    → MemoryRange
    → Option ℕ
    → Option ℕ
    → Bool
    → Bool
    → Outcome (List MemoryRange)
unfolding next_entry
carve_entirely buffer mr_idx current_mr new_mr mr_before mr_after mergeable_before mergeable_after =
    if not mergeable_before && not mergeable_after
    then done (set buffer mr_idx (record current_mr { size_and_type = new_mr.size_and_type }))
    else if mergeable_before && mergeable_after
    then (merge_into buffer mr_before new_mr >>= λ merged.
        merge_entries merged mr_before mr_after >>= λ both.
        out_case4 both mr_idx (next_entry mr_after) mergeable_before mergeable_after)
    else if mergeable_before
    then (merge_into buffer mr_before new_mr >>= λ merged.
        out_case4 merged mr_idx mr_after mergeable_before mergeable_after)
    else (merge_into buffer mr_after new_mr >>= λ merged.
        out_case4 merged mr_idx mr_after mergeable_before mergeable_after)

-- `g_buffer[mr_idx++] = first; range_emplace_at(mr_idx, second)`
unfoldable pub replace_by_two :
    ℕ → List MemoryRange → ℕ → MemoryRange → MemoryRange → Outcome (List MemoryRange)
unfolding range_emplace_at
replace_by_two capacity buffer mr_idx first second =
    range_emplace_at capacity (set buffer mr_idx first) (mr_idx + 1) second

-- cases 1 to 4, once it is known which neighbours the new range merges with
unfoldable pub carve_cases :
    ℕ
    → List MemoryRange
    → ℕ
    → MemoryRange
    → MemoryRange
    → Option ℕ
    → Option ℕ
    → Bool
    → Bool
    → Outcome (List MemoryRange)
unfolding carve_entirely replace_by_two
carve_cases capacity buffer mr_idx current_mr new_mr mr_before mr_after mergeable_before
      mergeable_after =
    let lhs = lhs_piece current_mr new_mr in
    let rhs = rhs_piece current_mr new_mr in
    let has_lhs = not (mr_size lhs == 0) in
    let has_rhs = not (mr_size rhs == 0) in
    if has_lhs && has_rhs
    then (replace_by_two capacity buffer mr_idx lhs new_mr >>= λ two.
        range_emplace_at capacity two (mr_idx + 2) rhs)
    else if not has_lhs && has_rhs
    then (if mergeable_before
        then (merge_into buffer mr_before new_mr >>= λ merged. done (set merged mr_idx rhs))
        else replace_by_two capacity buffer mr_idx new_mr rhs)
    else if has_lhs && not has_rhs
    then (if mergeable_after
        then merge_into (set buffer mr_idx lhs) mr_after new_mr
        else replace_by_two capacity buffer mr_idx lhs new_mr)
    else carve_entirely buffer mr_idx current_mr new_mr mr_before mr_after mergeable_before
        mergeable_after

-- what `allocate_out_of` does after its checks
unfoldable pub carve :
    ℕ → List MemoryRange → ℕ → MemoryRange → MemoryRange → Outcome (List MemoryRange)
unfolding mergeable_with
carve capacity buffer mr_idx current_mr new_mr =
    let mr_before = range_before mr_idx in
    let mr_after = range_after (length buffer) mr_idx in
    carve_cases capacity buffer mr_idx current_mr new_mr mr_before mr_after
      (mergeable_with buffer mr_before (λ mr. can_merge_ranges mr new_mr))
      (mergeable_with buffer mr_after (λ mr. can_merge_ranges new_mr mr))

-- `capacity` is `g_capacity`; the result is the buffer after the call.
unfoldable pub allocate_out_of : ℕ → List MemoryRange → ℕ → MemoryRange → Outcome (List MemoryRange)
allocate_out_of capacity buffer mr_idx new_mr = elim (get_elem? buffer mr_idx) [
  | none ↦ fault
  | some current_mr ↦
      if ltb new_mr.physical_address current_mr.physical_address
        || ltb (mr_end current_mr) (mr_end new_mr)
      then bug
      else if mr_type current_mr == mr_type new_mr
      then bug
      else carve capacity buffer mr_idx current_mr new_mr
]
