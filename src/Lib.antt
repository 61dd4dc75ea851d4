-- ===== src/Lib.antt =====
-- Verification library of the Ultra kernel: models of its parts, translated from the C source, and the
-- theorems about them.
--
-- The parts, and the files that model them:
--
--   * Prelude: shared notation and lemmas. `Outcome` says how a call ends: `done` with a result; `bug`
--     where `BUG_ON` panics (kernel/include/bug.h); `fault` for an access outside an array, which C
--     leaves undefined; `unfinished` where fuel runs out. A theorem `Returns call P` says that the call
--     is `done`, with a result that satisfies P.
--
--   * Boot: kernel/entry.c, the attributes that the loader passes (kernel/include/boot/ultra_protocol.h), as
--     they are laid out in the memory, and what `boot_context_init` makes of them in `g_boot_ctx`.
--
--   * BootAlloc: kernel/memory/boot_alloc.c, the allocator of physical pages at boot. BootAlloc/Range has
--     `struct memory_range` and its macros, BootAlloc/Find the binary search `find_range`,
--     BootAlloc/Carve `allocate_out_of`, BootAlloc/Alloc the two strategies `allocate_top_down` and
--     `allocate_within`, BootAlloc/Grow the growth of the buffer and the functions that other parts call:
--     `boot_alloc`, `boot_alloc_at`, `boot_free`, `boot_alloc_init`. The globals `g_buffer`,
--     `g_entry_count` and `g_capacity` are the record `BootAlloc`: the buffer is the list of its first
--     `g_entry_count` entries, a pointer into it is an index. BootAlloc/View has the abstract view: the
--     type of each physical address. `phys_addr_t` has 64 bits; its sums and differences wrap (`add64`,
--     `sub64`).
--
--   * Text: kernel/common. Text/Ctype has the character table of kernel/common/ctype.c and the functions
--     of kernel/include/common/ctype.h; Text/Strings the searches and comparisons of
--     kernel/common/string_container.c and its header, where a `struct string` is the list of its bytes;
--     Text/Numbers kernel/common/conversions.c, which the parameters use: strings to numbers of 8 to 64
--     bits, and to Booleans. A signed result is its two's complement.
--
--   * Param: kernel/param.c and its header, on top of Text: `cmdline_parse` with the lookup of parameters
--     and their `set` operations. The variables that parameters point to are a list, and a parameter has
--     the index of its variable; the calls of the callback for unknown parameters are a list too. Param/Get has
--     the `get` operations, on top of Format.
--
--   * Console: kernel/console.c. The pointers `next` are a function, which the operations change as the code
--     does; Console/Chain says which list they form,
--     Console/Register and Console/Unregister what the operations do to it.
--
--   * Format: kernel/common/format.c. Format.antt has the writers; Format/Buffer says what a buffer of
--     bounded capacity holds of an output of any length, Format/Integer what `write_integer` writes,
--     Format/Numeral that a number has one numeral, Format/RoundTrip that the conversions of Text read
--     it back. The memory that a buffer points to is a list. Format/Spec has the flags, the width and
--     the precision of a directive, and the list of typed arguments that stands for a `va_list`;
--     Format/Conversions the conversions; Format/Print `vsnprintf` and the functions of
--     kernel/include/common/format.h. A format is described as texts with directives between them
--     (Format/Prints), of which each is what the code takes it for (Format/Parse, Format/Dispatch),
--     prints what it stands for (Format/Values, Format/Converts), one after the other (Format/Rounds);
--     Format/Output has what is left in the buffer.
--
--   * Log: kernel/log.c, on top of Format, Console, Symbols and Unwind. The static `log_buf` and the writes
--     to the consoles are the state; Log/Lines has what the consoles get.
--
--   * Symbols: kernel/symbols.c, the lookup of the symbol of an address. The generated tables are the
--     record `Tables`; Symbols/Search has the binary search.
--
--   * Memory: kernel/common/string.c. The memory is a function from addresses to bytes that source and
--     destination share, so that they can overlap.
--
--   * Unwind: kernel/unwind.c on x86, the walk over the frames of a stack. Unwind/Data has the state
--     and how bytes are read; Unwind/Decode `decode_value`; Unwind/Parse the two kinds of entries;
--     Unwind/Table `unwind_init` and `find_fde`; Unwind/Exec `dwarf_exec`; Unwind/Walk the rules of the
--     registers, `unwind_next_frame` and `unwind_walk`, with kernel/arch/x86/unwind.c and unwind.S.
--     Here a call is a `Result`: `ok`, `error` with an `error_t`, `fault` where memory that is not
--     mapped is read or a shift is undefined, `unfinished`. `Ends call P` says that the fuel is enough and
--     that a value that is returned satisfies P. The other files of Unwind have the theorems.
--
--   * Io: kernel/io.c and kernel/arch/x86/io.c, with kernel/include/io.h and kernel/include/switch.h. The state
--     is the list of accesses to ports and memory; a device is a function from it to the answer of a read.
--     Io/Window has the windows of both builds, with and without ULTRA_HARDENED_IO, Io/Access the reads and
--     writes; Io/Builds compares the builds, Io/Ports follows a window from its mapping to the accesses.
--
--   * PageTable: kernel/include/memory/page_table.h, kernel/arch/x86/include/arch/page_table.h and
--     kernel/arch/x86/memory.c. An entry is its value, a table its address. PageTable/Walk has the steps from a
--     table to the next, PageTable/Protection the bits of a protection.
--
-- Fuel: `find_loop` gets one more than the entry count, which is enough since each round halves what is
-- left. The mutual recursion of `maybe_grow_buffer` and `boot_free` is on fuel that a theorem takes as an
-- argument: with spare capacity one level is enough, and where no range can hold the new buffer no fuel
-- is. `parse_loop` gets one round more than the command line has characters, and each round but the last
-- takes one off. The loops over the consoles get fuel that the theorems ask to exceed the length of the
-- list. The loop of `write_integer` gets 65 rounds; a u64 has 22 digits at most. The
-- loop of `vsnprintf` gets one round more than the format has characters, and each round but the last
-- takes one off. The search for a symbol
-- gets as many rounds as there are symbols, and `strlen` is asked for more rounds than the string has bytes. In the unwinder each round of a loop
-- takes a byte or halves the range, so that the fuel is the number of bytes or of entries; the number of frames
-- of a walk is not bounded, and its fuel is an argument.
--
-- Not modelled: the assembly and register access of kernel/arch, the drivers of the serial console, the
-- warnings that `%pS` and the boot context print, and `entry`, which calls the other parts in
-- turn.
pub mod Prelude
pub mod Boot
pub mod BootAlloc
pub mod Console
pub mod Format
pub mod Io
pub mod Log
pub mod Memory
pub mod PageTable
pub mod Param
pub mod Symbols
pub mod Text
pub mod Unwind
