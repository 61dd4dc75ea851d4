-- ===== src/BootAlloc/View.antt =====
-- The abstract view of the buffer: which type each physical address has, and the shape that the
-- buffer keeps.
use ultra.Prelude.{
  ℕ, ◌+◌, ◌%◌, ◌≤◌, ◌<◌, ◌≡◌, Bool, ◌&&◌, ◌||◌, ◌==◌, false, Option, none, some, List, [], ◌∷◌, ltb,
  leb, if◌then◌else◌,
}
use ultra.BootAlloc.Range.{MemoryRange, word, mr_type, mr_size}

-- The end of a range as a number, which does not wrap.
abbrev pub bound : MemoryRange → ℕ
bound mr = mr.physical_address + mr_size mr

unfoldable pub covers : MemoryRange → ℕ → Bool
covers mr a = leb mr.physical_address a && ltb a (bound mr)

-- The type of the address `a`, `none` where no range holds it.
unfoldable pub type_at : List MemoryRange → ℕ → Option ℕ
type_at [] a = none
type_at (mr ∷ rest) a = if covers mr a then some (mr_type mr) else type_at rest a

-- Whether one entry of the buffer has the type of `mr` and holds all of it.
unfoldable pub holds : List MemoryRange → MemoryRange → Bool
holds [] mr = false
holds (x ∷ rest) mr =
    mr_type x == mr_type mr
      && leb x.physical_address mr.physical_address
      && leb (bound mr) (bound x)
    || holds rest mr

-- A range that is not empty, starts at an even address and ends inside the address space.
pub record IsRange (mr : MemoryRange) : Type 0 where
  pub even : mr.physical_address % 2 ≡ 0
  pub nonempty : 0 < mr_size mr
  pub inside : bound mr < word

-- Ranges in ascending order from `lo` on, that do not overlap.
abbrev pub IsOrdered : ℕ → List MemoryRange → Type 0
IsOrdered lo [] = Unit
IsOrdered lo (mr ∷ rest) = (lo ≤ mr.physical_address) × IsRange mr × IsOrdered (bound mr) rest
