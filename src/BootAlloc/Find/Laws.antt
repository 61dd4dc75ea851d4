-- ===== src/BootAlloc/Find/Laws.antt =====
-- The binary search finds what a scan of the buffer from its start finds.
use ultra.Prelude.{
  ℕ, zero, suc, ◌+◌, ◌-◌, ◌≤◌, ◌<◌, ◌≡◌, refl, inl, inr, Option, none, some, List, [], ◌∷◌, ltb,
  leb, ◌==◌, if◌then◌else◌, length, get_elem?, get_elem?-lt, done, Returns, arith, Option-cases,
  length-le_of_none,
}
use native.Mathlib.Decide.{dec_lt}
use ultra.BootAlloc.Range.{MemoryRange}
use ultra.BootAlloc.View.{bound, IsRange, IsOrdered}
use ultra.BootAlloc.Find.{
  AllowOneAbove, allow_one_above_no, allow_one_above_yes, Found, hit, miss, middle_of, find_loop,
}

-- The specification: the index of the first entry that ends above `value`, the entry count if all
-- end below.
unfoldable pub first_above : List MemoryRange → ℕ → ℕ
first_above [] value = 0
first_above (mr ∷ rest) value =
    let later = first_above rest value in if ltb value (bound mr) then 0 else suc later

-- What such a scan makes `find_range` return: the entry that holds the value, or if there is none
-- and `allow_above` says so the next one above it.
unfoldable pub scan : List MemoryRange → ℕ → AllowOneAbove → Option ℕ
scan buf value allow_one_above_yes =
    let i = first_above buf value in if i == length buf then none else some i
scan buf value allow_one_above_no =
    let i = first_above buf value in
    elim (get_elem? buf i) [
      | none ↦ none
      | some mr ↦ if leb mr.physical_address value then some i else none
    ]

-- Entries of an ordered buffer.
pub entry-ge :
    (lo : ℕ) (buf : List MemoryRange) (i : ℕ) (cur : MemoryRange)
    → IsOrdered lo buf
    → get_elem? buf i ≡ some cur
    → lo ≤ cur.physical_address
entry-ge lo [] i cur o e = ground arith
entry-ge lo (x ∷ buf) zero cur o e = ground arith
entry-ge lo (x ∷ buf) (suc i) cur o e = omega (arith, entry-ge (bound x) buf i cur o.2 e)

pub entry-lt :
    (lo : ℕ) (buf : List MemoryRange) (i j : ℕ) (x y : MemoryRange)
    → IsOrdered lo buf
    → get_elem? buf i ≡ some x
    → get_elem? buf j ≡ some y
    → i < j
    → bound x ≤ y.physical_address
entry-lt lo [] i j x y o p q h = cc
entry-lt lo (z ∷ buf) i zero x y o p q h = absurd (omega arith)
entry-lt lo (z ∷ buf) zero (suc j) x y o p q h = ground (arith, entry-ge (bound z) buf j y o.2 q)
entry-lt lo (z ∷ buf) (suc i) (suc j) x y o p q h =
    entry-lt (bound z) buf i j x y o.2 p q (omega arith)

pub entry-IsRange :
    (lo : ℕ) (buf : List MemoryRange) (i : ℕ) (x : MemoryRange)
    → IsOrdered lo buf
    → get_elem? buf i ≡ some x
    → IsRange x
entry-IsRange lo [] i x o e = cc
entry-IsRange lo (z ∷ buf) zero x o e = let p : x ≡ z = cc in rw p o.1
entry-IsRange lo (z ∷ buf) (suc i) x o e = entry-IsRange (bound z) buf i x o.2 e

entry-le :
    (lo : ℕ) (buf : List MemoryRange) (i j : ℕ) (x y : MemoryRange)
    → IsOrdered lo buf
    → get_elem? buf i ≡ some x
    → get_elem? buf j ≡ some y
    → i ≤ j
    → x.physical_address ≤ y.physical_address
entry-le lo buf i j x y o p q h = ground (arith, entry-lt lo buf i j x y o p q)

-- What makes an index the first whose entry ends above the value.
pub first_above_unique :
    (lo : ℕ) (buf : List MemoryRange) (value i : ℕ)
    → IsOrdered lo buf
    → i ≤ length buf
    → ((x : MemoryRange) → get_elem? buf i ≡ some x → value < bound x)
    → ((j : ℕ) (x : MemoryRange) → j < i → get_elem? buf j ≡ some x → bound x ≤ value)
    → first_above buf value ≡ i
unfolding first_above
first_above_unique lo [] value zero o h above below = refl
first_above_unique lo [] value (suc i) o h above below = absurd (omega arith)
first_above_unique lo (z ∷ buf) value zero o h above below = ground (arith, above z)
first_above_unique lo (z ∷ buf) value (suc i) o h above below = ground (
  arith,
  below 0 z,
  first_above_unique (bound z) buf value i o.2 (omega arith) above
      (λ j x p e. below (suc j) x (omega arith) e),
)

-- The entries before the one where the search starts end at or below the value, that entry above it.
pub first_above-below :
    (buf : List MemoryRange) (value j : ℕ) (x : MemoryRange)
    → j < first_above buf value
    → get_elem? buf j ≡ some x
    → bound x ≤ value
unfolding first_above
first_above-below [] value j x h e = cc
first_above-below (z ∷ buf) value zero x h e = ground arith
first_above-below (z ∷ buf) value (suc j) x h e = ground (arith, first_above-below buf value j x)

pub first_above-at :
    (buf : List MemoryRange) (value : ℕ) (x : MemoryRange)
    → get_elem? buf (first_above buf value) ≡ some x
    → value < bound x
unfolding first_above
first_above-at [] value x e = cc
first_above-at (z ∷ buf) value x e = ground (arith, first_above-at buf value x)

pub first_above-le : (buf : List MemoryRange) (value : ℕ) → first_above buf value ≤ length buf
unfolding first_above
first_above-le [] value = omega arith
first_above-le (z ∷ buf) value = ground (arith, first_above-le buf value)

-- The loop invariant: what stands before `left` starts below the value, what stands from `hi` on
-- starts above it.
pub record Inv (buf : List MemoryRange) (value left hi : ℕ) : Type 0 where
  pub ordered : left ≤ hi
  pub within : hi ≤ length buf
  pub before :
      (j : ℕ) (x : MemoryRange) → j < left → get_elem? buf j ≡ some x → x.physical_address < value
  pub from :
      (j : ℕ) (x : MemoryRange) → hi ≤ j → get_elem? buf j ≡ some x → value < x.physical_address

-- What the loop ends with.
abbrev pub Ends : List MemoryRange → ℕ → Found → Type 0
Ends buf value (hit i) =
    (x : MemoryRange) × (get_elem? buf i ≡ some x) × (x.physical_address ≡ value)
Ends buf value (miss left hi) = (left ≡ hi) × Inv buf value left hi

module _ (fuel : ℕ) (buf : List MemoryRange) (value left hi : ℕ) where
  step_end : hi ≤ left → find_loop (suc fuel) buf value left hi ≡ done (miss left hi)
  unfolding find_loop
  step_end h = ground arith

  module _ (x : MemoryRange) (room : left < hi)
      (e : get_elem? buf (middle_of left hi) ≡ some x) where
    step_up :
        x.physical_address < value
        → find_loop (suc fuel) buf value left hi
          ≡ find_loop fuel buf value (middle_of left hi + 1) hi
    unfolding find_loop
    step_up h = ground arith

    step_down :
        value < x.physical_address
        → find_loop (suc fuel) buf value left hi ≡ find_loop fuel buf value left (middle_of left hi)
    unfolding find_loop
    step_down h = ground arith

    step_hit :
        x.physical_address ≡ value
        → find_loop (suc fuel) buf value left hi ≡ done (hit (middle_of left hi))
    unfolding find_loop
    step_hit h = ground arith

module _ (lo : ℕ) (buf : List MemoryRange) (value : ℕ) (o : IsOrdered lo buf) where
  module _ (left hi : ℕ) (inv : Inv buf value left hi) (room : left < hi) (x : MemoryRange)
      (e : get_elem? buf (middle_of left hi) ≡ some x) where
    upper-Inv : x.physical_address < value → Inv buf value (middle_of left hi + 1) hi
    upper-Inv h = record {
      ordered = omega (arith, inv.ordered);
      within = inv.within;
      before =
          λ j y p q. omega (arith, entry-le lo buf j (middle_of left hi) y x o q e (omega arith));
      from = inv.from;
    }

    lower-Inv : value < x.physical_address → Inv buf value left (middle_of left hi)
    lower-Inv h = record {
      ordered = omega arith;
      within = omega (arith, inv.within);
      before = inv.before;
      from = λ j y p q. omega (arith, entry-le lo buf (middle_of left hi) j x y o e q p);
    }

  missing :
      (left hi : ℕ)
      → Inv buf value left hi
      → left < hi
      → get_elem? buf (middle_of left hi) ≡ none
      → ⊥
  missing left hi inv room e = omega (arith, length-le_of_none buf (middle_of left hi) e)

  pub find_loop-Ends :
      (fuel left hi : ℕ)
      → hi - left < fuel
      → Inv buf value left hi
      → Returns (find_loop fuel buf value left hi) (Ends buf value)
  unfolding find_loop
  find_loop-Ends zero left hi f inv = absurd (omega arith)
  find_loop-Ends (suc fuel) left hi f inv = elim (dec_lt left hi) [
    | no empty ↦
        rw (step_end fuel buf value left hi (omega arith)) (omega (arith, inv.ordered), inv)
    | yes room ↦ elim (Option-cases (get_elem? buf (middle_of left hi))) [
      | inl e ↦ absurd (missing left hi inv room e)
      | inr (x, e) ↦ elim (dec_lt x.physical_address value) [
        | yes below ↦ rw (step_up fuel buf value left hi x room e below) (
            find_loop-Ends fuel (middle_of left hi + 1) hi (omega arith)
              (upper-Inv left hi inv room x e below))
        | no not_below ↦ elim (dec_lt value x.physical_address) [
          | yes above ↦ rw (step_down fuel buf value left hi x room e above) (
              find_loop-Ends fuel left (middle_of left hi) (omega arith)
                (lower-Inv left hi inv room x e above))
          | no not_above ↦
              let same : x.physical_address ≡ value = omega arith in
              rw (step_hit fuel buf value left hi x room e same) (x, e, same)
        ]
      ]
    ]
  ]

  -- From here on the loop is used through what it ends with.
  pub hit-first_above : (i : ℕ) → Ends buf value (hit i) → first_above buf value ≡ i
  hit-first_above i (x, e, p) =
      first_above_unique lo buf value i o (omega (arith, get_elem?-lt buf i x e))
        (λ y q. ground (arith, (entry-IsRange lo buf i y o q).nonempty))
        (λ j y h q. omega (arith, entry-lt lo buf j i y x o q e h))

  -- The gap at `left`: no entry before it ends above the value.
  pub gap-first_above :
      (left : ℕ)
      → Inv buf value left left
      → ((x : MemoryRange) → get_elem? buf (left - 1) ≡ some x → 0 < left → bound x ≤ value)
      → first_above buf value ≡ left
  gap-first_above left inv last =
      first_above_unique lo buf value left o inv.within (λ y q. omega (arith, inv.from left y))
        (λ j y h q. elim (Option-cases (get_elem? buf (left - 1))) [
          | inl n ↦ absurd (omega (arith, inv.within, length-le_of_none buf (left - 1) n))
          | inr (z, e) ↦ ground (arith, last z e, entry-lt lo buf j (left - 1) y z o q e)
        ])

  pub inside-first_above :
      (left : ℕ) (x : MemoryRange)
      → Inv buf value left left
      → 0 < left
      → get_elem? buf (left - 1) ≡ some x
      → value < bound x
      → first_above buf value ≡ left - 1
  inside-first_above left x inv h e p =
      first_above_unique lo buf value (left - 1) o (omega (arith, inv.within)) (λ y q. ground arith)
        (λ j y k q. omega (
          arith,
          entry-lt lo buf j (left - 1) y x o q e k,
          inv.before (left - 1) x (omega arith) e,
        ))
