-- ===== src/BootAlloc/Alloc/Within.antt =====
-- `allocate_within`: the lowest place between the limits that lies in one free range, or ENOMEM where
-- there is none.
use ultra.Prelude.{
  ℕ, suc, zero, ◌+◌, ◌-◌, ◌*◌, ◌%◌, ◌≤◌, ◌<◌, ◌≡◌, ◌⊎◌, inl, inr, refl, none, some, Option, List,
  [], ◌∷◌, length, get_elem?, done, Returns, Returns_mono, ◌>>=◌, arith, le→leb_false, min, max,
  drop, get_elem?-drop, ap, ◌∙◌, sym, length-drop, ==_of_ne, ==_of_eq, le→ltb,
}
use native.Mathlib.Decide.{dec_lt}
use ultra.BootAlloc.Range.{MemoryRange, word, mr_type, memory_free, add64}
use ultra.BootAlloc.Range.Laws.{mr_end-bound}
use ultra.BootAlloc.View.{bound, IsRange, IsOrdered}
use ultra.BootAlloc.Find.{allow_one_above_yes, find_range}
use ultra.BootAlloc.Find.Laws.{
  entry-ge, entry-IsRange, first_above, first_above-below, first_above-at, first_above-le, scan,
}
use ultra.BootAlloc.Find.Scan.{find_range-scan}
use ultra.BootAlloc.Alloc.{
  Allocation, page_size, bytes_of, enomem, Round, pick, out_of_memory, next, within_round,
  within_loop, within_take, allocate_within, allocate_at,
}
use ultra.BootAlloc.Alloc.Spec.{Allocated, allocate_at-Allocated}

module _ (bytes lower upper : ℕ) where
  -- The entry is free and holds `bytes` bytes between the limits.
  abbrev pub HasPlace : MemoryRange → Type 0
  HasPlace x =
      (mr_type x ≡ memory_free) × (max x.physical_address lower + bytes ≤ min (bound x) upper)

  -- No entry of the list up to an index has a place.
  abbrev pub NoPlace : List MemoryRange → ℕ → Type 0
  NoPlace buf to = (j : ℕ) (x : MemoryRange) → j < to → get_elem? buf j ≡ some x → HasPlace x → ⊥

  module _ (positive : 0 < bytes) (proper : lower < upper) (inside : upper < word) where
    -- What one round of the loop tells.
    abbrev Tells : MemoryRange → Round → Type 0
    Tells x pick = HasPlace x
    Tells x next = HasPlace x → ⊥
    Tells x out_of_memory = (HasPlace x → ⊥) × (upper < bound x + bytes)

    within_round-Tells :
        (x : MemoryRange) → IsRange x → lower < bound x → Tells x (within_round x bytes lower upper)
    unfolding within_round
    within_round-Tells x r p = ground (arith, mr_end-bound x r.inside)

    NoPlace-cons :
        (x : MemoryRange) (rest : List MemoryRange) (to : ℕ)
        → (HasPlace x → ⊥)
        → NoPlace rest to
        → NoPlace (x ∷ rest) (suc to)
    NoPlace-cons x rest to no_place h zero y b e p =
        let same : y ≡ x = cc in no_place (rw same at p)
    NoPlace-cons x rest to no_place h (suc j) y b e p = h j y (omega arith) e p

    -- Entries that start too high have no place.
    too_high :
        (lo : ℕ) (buf : List MemoryRange)
        → IsOrdered lo buf
        → upper < lo + bytes
        → NoPlace buf (length buf)
    too_high lo [] o h j x b e p = cc
    too_high lo (z ∷ buf) o h zero x b e p = ground arith
    too_high lo (z ∷ buf) o h (suc j) x b e p =
        too_high (bound z) buf o.2 (omega arith) j x (omega arith) e p

    abbrev LoopEnds : List MemoryRange → ℕ → Option (ℕ × MemoryRange) → Type 0
    LoopEnds buf idx none = NoPlace buf (length buf)
    LoopEnds buf idx (some (i, x)) =
        (k : ℕ) × (i ≡ idx + k) × (get_elem? buf k ≡ some x) × HasPlace x × NoPlace buf k

    LoopEnds-cons :
        (x : MemoryRange) (rest : List MemoryRange) (idx : ℕ) (r : Option (ℕ × MemoryRange))
        → (HasPlace x → ⊥)
        → LoopEnds rest (idx + 1) r
        → LoopEnds (x ∷ rest) idx r
    LoopEnds-cons x rest idx none no_place h = NoPlace-cons x rest (length rest) no_place h
    LoopEnds-cons x rest idx (some (i, y)) no_place (k, e, g, p, h) =
        (suc k, omega arith, g, p, NoPlace-cons x rest k no_place h)

    within_loop-LoopEnds :
        (lo : ℕ) (buf : List MemoryRange) (idx : ℕ)
        → IsOrdered lo buf
        → ((x : MemoryRange) → get_elem? buf 0 ≡ some x → lower < bound x)
        → LoopEnds buf idx (within_loop buf idx bytes lower upper)
    unfolding within_loop
    within_loop-LoopEnds lo [] idx o above = λ j x b e p. cc
    within_loop-LoopEnds lo (x ∷ rest) idx o above =
        go (within_round x bytes lower upper) (within_round-Tells x o.1 (above x refl))
          (within_loop-LoopEnds (bound x) rest (idx + 1) o.2 later)
      where
        later : (y : MemoryRange) → get_elem? rest 0 ≡ some y → lower < bound y
        later y e = omega (arith, entry-ge (bound x) rest 0 y o.2 e, above x refl)

        go :
            (r : Round)
            → Tells x r
            → LoopEnds rest (idx + 1) (within_loop rest (idx + 1) bytes lower upper)
            → LoopEnds (x ∷ rest) idx (elim r [
              | pick ↦ some (idx, x)
              | out_of_memory ↦ none
              | next ↦ within_loop rest (idx + 1) bytes lower upper
            ])
        go pick p h = (0, omega arith, refl, p, λ j y b. absurd (omega arith))
        go out_of_memory p h =
            NoPlace-cons x rest (length rest) p.0 (too_high (bound x) rest o.2 p.1)
        go next p h = LoopEnds-cons x rest idx _ p h

-- A tail of an ordered buffer is ordered from 0 on.
IsOrdered-drop :
    (lo : ℕ) (buf : List MemoryRange) (n : ℕ) → IsOrdered lo buf → IsOrdered 0 (drop n buf)
IsOrdered-drop lo [] zero o = tt
IsOrdered-drop lo (x ∷ buf) zero o = (omega arith, o.1, o.2)
IsOrdered-drop lo [] (suc n) o = tt
IsOrdered-drop lo (x ∷ buf) (suc n) o = IsOrdered-drop (bound x) buf n o.2

-- What `allocate_within` promises: it fails only where no entry has a place, and then changes
-- nothing; else it takes the lowest place of the first entry that has one.
abbrev pub Within : ℕ → List MemoryRange → ℕ → ℕ → ℕ → Allocation → Type 0
Within lo buf bytes lower upper r =
    ((r ≡ (enomem, buf)) × NoPlace bytes lower upper buf (length buf))
    ⊎ ((i : ℕ) × (x : MemoryRange) × (get_elem? buf i ≡ some x)
        × HasPlace bytes lower upper x
        × NoPlace bytes lower upper buf i
        × Allocated lo buf (max lower x.physical_address) bytes r)

module _ (capacity lo : ℕ) (buf : List MemoryRange) (bytes lower upper : ℕ) (o : IsOrdered lo buf)
    (c : length buf + 2 ≤ capacity) (w : capacity < word) (positive : 0 < bytes)
    (even : bytes % 2 ≡ 0) (even_lower : lower % 2 ≡ 0) (proper : lower < upper)
    (inside : upper < word) where
  -- Places of the tail are places of the whole buffer.
  from_tail :
      (n : ℕ)
      → ((j : ℕ) (x : MemoryRange) → j < n → get_elem? buf j ≡ some x → bound x ≤ lower)
      → (k : ℕ) → NoPlace bytes lower upper (drop n buf) k
      → NoPlace bytes lower upper buf (n + k)
  from_tail n below k h j x b e p = elim (dec_lt j n) [
    | yes q ↦ omega (arith, below j x q e)
    | no q ↦
        let m : n + (j - n) ≡ j = omega arith in
        h (j - n) x (omega arith) (get_elem?-drop n (j - n) buf ∙ ap (get_elem? buf) m ∙ e) p
  ]

  within_take-Within :
      (n : ℕ)
      → n ≤ length buf
      → ((j : ℕ) (x : MemoryRange) → j < n → get_elem? buf j ≡ some x → bound x ≤ lower)
      → ((x : MemoryRange) → get_elem? buf n ≡ some x → lower < bound x)
      → Returns
          (within_take capacity buf bytes lower upper (some n))
          (Within lo buf bytes lower upper)
  unfolding within_take
  within_take-Within n l below at = go (within_loop (drop n buf) n bytes lower upper) (
      within_loop-LoopEnds bytes lower upper positive proper inside 0 (drop n buf) n
        (IsOrdered-drop lo buf n o)
        (λ x e. at x (ap (get_elem? buf) (omega arith) ∙ sym (get_elem?-drop n 0 buf) ∙ e)))
    where
      go :
          (r : Option (ℕ × MemoryRange))
          → LoopEnds bytes lower upper positive proper inside (drop n buf) n r
          → Returns {A = Allocation}
              (elim r [
                | none ↦ done (enomem, buf)
                | some (i, x) ↦ allocate_at capacity buf i (max lower x.physical_address) bytes
              ])
              (Within lo buf bytes lower upper)
      go none h = inl (
        refl,
        λ j x b e p.
            from_tail n below (length (drop n buf)) h j x (omega (arith, length-drop n buf)) e p,
      )
      go (some (i, x)) (k, e, g, p, h) =
          let entry : get_elem? buf i ≡ some x =
            ap (get_elem? buf) e ∙ sym (get_elem?-drop n k buf) ∙ g in
          let r = entry-IsRange lo buf i x o entry in
          Returns_mono (allocate_at capacity buf i (max lower x.physical_address) bytes)
            (λ a t.
              inr (
                i,
                x,
                entry,
                p,
                (λ j y b q s. from_tail n below k h j y (omega (arith, e)) q s),
                t,
              ))
            (allocate_at-Allocated capacity lo buf i x (max lower x.physical_address) bytes o entry
              p.0 (omega (arith, r.even, even_lower)) even positive (omega arith)
              (omega (arith, p.1)) c w)

  scan-Within :
      Returns
        (within_take capacity buf bytes lower upper (scan buf lower allow_one_above_yes))
        (Within lo buf bytes lower upper)
  unfolding scan within_take
  scan-Within = elim (dec_lt (first_above buf lower) (length buf)) [
    | yes p ↦ rw (==_of_ne (first_above buf lower) (length buf) (omega arith)) (
        within_take-Within (first_above buf lower) (omega arith) (first_above-below buf lower)
          (first_above-at buf lower))
    | no p ↦
        rw (==_of_eq (first_above buf lower) (length buf) (omega (arith, first_above-le buf lower)))
          (inl (
            refl,
            λ j x b e q. omega (arith, first_above-below buf lower j x (omega arith) e, q.1),
          ))
  ]

allocate_within_lem :
    (capacity : ℕ) (buf : List MemoryRange) (page_count lower upper : ℕ)
    → 0 < page_count
    → lower + page_count * page_size ≤ upper
    → upper < word
    → allocate_within capacity buf page_count lower upper ≡ (
        find_range buf lower allow_one_above_yes
        >>= within_take capacity buf (page_count * page_size) lower upper)
unfolding allocate_within
allocate_within_lem capacity buf page_count lower upper pos room inside =
    let e : bytes_of page_count ≡ page_count * page_size = omega arith in
    let s : add64 lower (page_count * page_size) ≡ lower + page_count * page_size = omega arith in
    rw (
      e,
      s,
      le→leb_false page_count (page_count * page_size) (omega arith),
      le→leb_false lower upper (omega arith),
      le→ltb upper (lower + page_count * page_size) room,
      le→ltb (lower + page_count * page_size) lower (omega arith),
    )

-- With limits that are in order and leave room, on an ordered buffer with room for two more entries,
-- `allocate_within` returns and keeps what it promises.
pub allocate_within-Within :
    (capacity lo : ℕ) (buf : List MemoryRange) (page_count lower upper : ℕ)
    → IsOrdered lo buf
    → length buf + 2 ≤ capacity
    → capacity < word
    → 0 < page_count
    → lower % 2 ≡ 0
    → lower + page_count * page_size ≤ upper
    → upper < word
    → Returns
        (allocate_within capacity buf page_count lower upper)
        (Within lo buf (page_count * page_size) lower upper)
allocate_within-Within capacity lo buf page_count lower upper o c w pos even room inside =
    rw
      (
        allocate_within_lem capacity buf page_count lower upper pos room inside,
        find_range-scan lo buf lower allow_one_above_yes o,
      )
      (scan-Within capacity lo buf (page_count * page_size) lower upper o c w (omega arith)
        (omega arith) even (omega arith) inside)
