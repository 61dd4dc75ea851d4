-- ===== src/BootAlloc/Carve/Shrink.antt =====
-- Case 4 of `allocate_out_of`: `memmove` of the tail and the new count together take out the
-- entries that were merged away.
use ultra.Prelude.{
  ℕ, suc, ◌+◌, ◌-◌, ◌≤◌, ◌<◌, ◌≡◌, refl, ap, ap₂, ◌∙◌, sym, Bool, true, false, none, some, List, [],
  ◌∷◌, ◌++◌, append_assoc, arith, length, take, drop, length-append, length-take, length-drop,
  take-append_length, if◌then◌else◌, done,
}
use ultra.BootAlloc.Range.{MemoryRange, word, move_down, range_after}
use ultra.BootAlloc.Carve.{out_case4}

take-move_down :
    (buffer : List MemoryRange) (dst src removed : ℕ)
    → dst + removed ≡ src
    → src ≤ length buffer
    → take (length buffer - removed) (move_down buffer dst src) ≡ take dst buffer ++ drop src buffer
unfolding move_down
take-move_down buffer dst src removed e h =
    ap₂ (λ n l. take n l) count (sym (append_assoc (take dst buffer) (drop src buffer) rest))
    ∙ take-append_length (take dst buffer ++ drop src buffer) rest
  where
    rest : List MemoryRange
    rest = drop (length buffer - (src - dst)) buffer

    count : length buffer - removed ≡ length (take dst buffer ++ drop src buffer)
    count = omega (
      arith,
      length-append (take dst buffer) (drop src buffer),
      length-take dst buffer,
      length-drop src buffer,
    )

abbrev pub merged_count : Bool → Bool → ℕ
merged_count before after = (if before then 1 else 0) + (if after then 1 else 0)

pub out_case4_lem :
    (buffer : List MemoryRange) (mr_idx after : ℕ) (before_merged after_merged : Bool)
    → mr_idx + merged_count before_merged after_merged ≡ after
    → after ≤ length buffer
    → out_case4 buffer mr_idx (some after) before_merged after_merged
      ≡ done (take mr_idx buffer ++ drop after buffer)
unfolding out_case4
out_case4_lem buffer mr_idx after before_merged after_merged e h =
    ap done (take-move_down buffer mr_idx after (merged_count before_merged after_merged) e h)

-- There is an entry after every one but the last.
pub range_after_more : (n i : ℕ) → n < word → suc i < n → range_after n i ≡ some (i + 1)
unfolding range_after
range_after_more n i w h = ground arith

pub range_after_last : (n i : ℕ) → n < word → suc i ≡ n → range_after n i ≡ none
unfolding range_after
range_after_last n i w h = ground arith

-- With no entry after the current one only the count changes.
pub out_case4-none :
    (first current_mr : MemoryRange)
    → out_case4 (first ∷ current_mr ∷ []) 1 none true false ≡ done (first ∷ [])
unfolding out_case4
out_case4-none first current_mr = refl
