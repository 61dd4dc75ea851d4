-- ===== src/Memory.antt =====
-- kernel/common/string.c: the functions on memory, over one memory that source and destination share.
-- An address is a number and a byte is what the memory has there; pointers do not wrap.
pub mod Copy
pub mod Compare
mod Tests
use ultra.Prelude.{
  ℕ, zero, suc, ◌+◌, ◌-◌, ◌%◌, Bool, true, false, not, Option, none, some, ltb, ◌==◌, if◌then◌else◌,
  Outcome, done, unfinished,
}

abbrev pub Memory : Type 0
Memory = ℕ → ℕ

-- `*address = value`
abbrev pub poke : Memory → ℕ → ℕ → Memory
poke memory address value k = if k == address then value else memory k

unfoldable pub memcpy : Memory → ℕ → ℕ → ℕ → Memory
memcpy memory dest src zero = memory
memcpy memory dest src (suc count) =
    memcpy (poke memory dest (memory src)) (dest + 1) (src + 1) count

-- `while (count--) *--cd = *--cs`, where `cd` and `cs` are `count` behind the two addresses
unfoldable pub copy_backwards : Memory → ℕ → ℕ → ℕ → Memory
copy_backwards memory dest src zero = memory
copy_backwards memory dest src (suc count) =
    copy_backwards (poke memory (dest + count) (memory (src + count))) dest src count

unfoldable pub memmove : Memory → ℕ → ℕ → ℕ → Memory
memmove memory dest src count =
    if ltb src dest then copy_backwards memory dest src count else memcpy memory dest src count

-- `ch` is cut to a byte.
unfoldable pub set_loop : Memory → ℕ → ℕ → ℕ → Memory
set_loop memory dest fill zero = memory
set_loop memory dest fill (suc count) = set_loop (poke memory dest fill) (dest + 1) fill count

unfoldable pub memset : Memory → ℕ → ℕ → ℕ → Memory
memset memory dest ch count = set_loop memory dest (ch % 256) count

-- The two bytes that `memcmp` subtracts, `none` for 0.
unfoldable pub compare_loop : Memory → ℕ → ℕ → ℕ → Option (ℕ × ℕ)
compare_loop memory lhs rhs zero = none
compare_loop memory lhs rhs (suc count) =
    let later = compare_loop memory (lhs + 1) (rhs + 1) count in
    if not (memory lhs == memory rhs) then some (memory lhs, memory rhs) else later

unfoldable pub memcmp : Memory → ℕ → ℕ → ℕ → Option (ℕ × ℕ)
memcmp memory lhs rhs count = compare_loop memory lhs rhs count

-- `for (str1 = str; *str1; str1++)`, on fuel: how far `str1` comes
unfoldable pub strlen_loop : ℕ → Memory → ℕ → ℕ → Outcome ℕ
strlen_loop zero memory str n = unfinished
strlen_loop (suc fuel) memory str n =
    let later = strlen_loop fuel memory str (n + 1) in
    if memory (str + n) == 0 then done n else later

unfoldable pub strlen : ℕ → Memory → ℕ → Outcome ℕ
strlen fuel memory str = strlen_loop fuel memory str 0
