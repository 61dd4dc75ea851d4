-- ===== src/BootAlloc/Find/Scan.antt =====
-- `find_range` as a whole, against the scan of the buffer.
use ultra.Prelude.{
  ℕ, suc, ◌-◌, ◌≤◌, ◌<◌, ◌≡◌, ap, sym, inl, inr, some, List, length, get_elem?, get_elem?-lt,
  length-le_of_none, Option-cases, done, Returns→done, arith,
}
use native.Mathlib.Decide.{dec_lt}
use ultra.BootAlloc.Range.{MemoryRange}
use ultra.BootAlloc.Range.Laws.{mr_end-bound}
use ultra.BootAlloc.View.{bound, IsOrdered}
use ultra.BootAlloc.Find.{
  AllowOneAbove, allow_one_above_no, allow_one_above_yes, Found, hit, miss, find_loop, after_miss,
  one_above, find_range,
}
use ultra.BootAlloc.Find.Laws.{
  first_above, scan, entry-IsRange, Inv, Ends, find_loop-Ends, hit-first_above, gap-first_above,
  inside-first_above,
}

module _ (lo : ℕ) (buf : List MemoryRange) (value : ℕ) (o : IsOrdered lo buf) where
  hit-scan :
      (allow : AllowOneAbove) (i : ℕ) → Ends buf value (hit i) → scan buf value allow ≡ some i
  unfolding scan
  hit-scan allow_one_above_yes i (x, e, p) =
      ground (arith, hit-first_above lo buf value o i (x, e, p), get_elem?-lt buf i x e)
  hit-scan allow_one_above_no i (x, e, p) =
      ground (arith, hit-first_above lo buf value o i (x, e, p))

  module _ (left : ℕ) (inv : Inv buf value left left) where
    inside-scan :
        (allow : AllowOneAbove) (x : MemoryRange)
        → 0 < left
        → get_elem? buf (left - 1) ≡ some x
        → value < bound x
        → after_miss buf value allow left left ≡ done (scan buf value allow)
    unfolding scan after_miss
    inside-scan allow_one_above_yes x h e p = ground (
      arith,
      inside-first_above lo buf value o left x inv h e p,
      get_elem?-lt buf (left - 1) x e,
      inv.before (left - 1) x (omega arith) e,
      mr_end-bound x (entry-IsRange lo buf (left - 1) x o e).inside,
    )
    inside-scan allow_one_above_no x h e p = ground (
      arith,
      inside-first_above lo buf value o left x inv h e p,
      inv.before (left - 1) x (omega arith) e,
      mr_end-bound x (entry-IsRange lo buf (left - 1) x o e).inside,
    )

    gap-scan :
        (allow : AllowOneAbove)
        → first_above buf value ≡ left
        → done (one_above buf allow left) ≡ done (scan buf value allow)
    unfolding scan one_above
    gap-scan allow_one_above_yes f = ground arith
    gap-scan allow_one_above_no f = elim (Option-cases (get_elem? buf left)) [
      | inl n ↦ ground arith
      | inr (x, e) ↦ ground (arith, inv.from left x (omega arith) e)
    ]

    above-scan :
        (allow : AllowOneAbove) (x : MemoryRange)
        → 0 < left
        → get_elem? buf (left - 1) ≡ some x
        → bound x ≤ value
        → after_miss buf value allow left left ≡ done (scan buf value allow)
    unfolding after_miss
    above-scan allow x h e p = ground (
      arith,
      gap-scan allow (gap-first_above lo buf value o left inv (λ y q k. ground arith)),
      mr_end-bound x (entry-IsRange lo buf (left - 1) x o e).inside,
    )

    start-scan :
        (allow : AllowOneAbove)
        → left ≡ 0
        → after_miss buf value allow left left ≡ done (scan buf value allow)
    unfolding after_miss
    start-scan allow z = ground (
      arith,
      gap-scan allow (gap-first_above lo buf value o left inv (λ y q k. absurd (omega arith))),
    )

    miss-scan :
        (allow : AllowOneAbove) → after_miss buf value allow left left ≡ done (scan buf value allow)
    miss-scan allow = elim (dec_lt 0 left) [
      | no z ↦ start-scan allow (omega arith)
      | yes h ↦ elim (Option-cases (get_elem? buf (left - 1))) [
        | inl n ↦ absurd (omega (arith, inv.within, length-le_of_none buf (left - 1) n))
        | inr (x, e) ↦ elim (dec_lt value (bound x)) [
          | yes p ↦ inside-scan allow x h e p
          | no p ↦ above-scan allow x h e (omega arith)
        ]
      ]
    ]

  Ends-scan :
      (allow : AllowOneAbove) (found : Found)
      → Ends buf value found
      → (elim found [
        | hit middle ↦ done (some middle)
        | miss left hi ↦ after_miss buf value allow left hi
      ])
        ≡ done (scan buf value allow)
  Ends-scan allow (hit i) end = ap done (sym (hit-scan allow i end))
  Ends-scan allow (miss left hi) (e, inv) = rw (← e) (miss-scan left (rw (← e) at inv) allow)

-- On an ordered buffer the binary search returns, reads no entry outside the buffer, and finds what
-- the scan finds.
pub find_range-scan :
    (lo : ℕ) (buf : List MemoryRange) (value : ℕ) (allow : AllowOneAbove)
    → IsOrdered lo buf
    → find_range buf value allow ≡ done (scan buf value allow)
unfolding find_range
find_range-scan lo buf value allow o =
    let (found, e, end) =
      Returns→done (find_loop (suc (length buf)) buf value 0 (length buf))
        (find_loop-Ends lo buf value o (suc (length buf)) 0 (length buf) (omega arith) start) in
    rw e (Ends-scan lo buf value o allow found end)
  where
    start : Inv buf value 0 (length buf)
    start = record {
      ordered = omega arith;
      within = omega arith;
      before = λ j x h. absurd (omega arith);
      from = λ j x h e. absurd (omega (arith, get_elem?-lt buf j x e));
    }
