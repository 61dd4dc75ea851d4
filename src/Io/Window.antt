-- ===== src/Io/Window.antt =====
-- kernel/io.c and kernel/arch/x86/include/arch/io_types.h: the windows, in both builds.
use ultra.Prelude.{
  ℕ, ◌+◌, ◌-◌, ◌%◌, ◌^◌, Bool, true, false, Option, none, some, ltb, leb, if◌then◌else◌, Outcome,
  done, bug, fault,
}

-- kernel/include/common/error.h
abbrev pub einval : ℕ
einval = 28

abbrev pub enomem : ℕ
enomem = 49

abbrev pub enotsup : ℕ
enotsup = 61

abbrev pub error_ptr : ℕ → Bool
error_ptr ret = leb ret 4095

-- ULTRA_ARCH_PORT_IO_WINDOW_OFFSET, _LEN and _END
abbrev pub window_offset : ℕ
window_offset = 65536

abbrev pub window_len : ℕ
window_len = 65535

abbrev pub window_end : ℕ
window_end = 131072

-- These are on 32 bits.
abbrev pub error_pio_addr : ℕ → Bool
error_pio_addr ret = ltb window_len ret

abbrev pub decode_error_pio_addr : ℕ → ℕ
decode_error_pio_addr ret = (ret + 2 ^ 32 - (window_len + 1)) % 2 ^ 32

pub data IoType : Type 0 where
  io_type_invalid io_type_port_io io_type_mem_io : IoType

-- `struct io_window_impl`
pub record IoWindowImpl : Type 0 where
  pub type : IoType
  pub address : ℕ
  pub length : ℕ

-- What an `io_window*` stands for: itself, or in the build with ULTRA_HARDENED_IO the structure behind it.
pub data IoWindow : Type 0 where
  plain : ℕ → IoWindow
  hardened : IoWindowImpl → IoWindow

-- kernel/arch/x86/io.c
unfoldable pub arch_map_memory_io : ℕ → ℕ → ℕ
arch_map_memory_io phys_base length = enotsup

unfoldable pub arch_map_port_io : ℕ → ℕ → ℕ
arch_map_port_io phys_base length = phys_base % 2 ^ 32

-- What the hardened build returns: an `encode_error_ptr`, or a pointer and the structure behind it.
pub data Mapped : Type 0 where
  error_window : ℕ → Mapped
  impl_window : ℕ → IoWindowImpl → Mapped

unfoldable pub io_window_map : ℕ → ℕ → ℕ
io_window_map phys_base length = arch_map_memory_io phys_base length

-- `alloc` is what the function of this name returns. The window is written to without a test for null.
unfoldable pub io_window_map_hardened : Option ℕ → ℕ → ℕ → Outcome Mapped
io_window_map_hardened alloc phys_base length =
    let mapping = arch_map_memory_io phys_base length in
    let impl : IoWindowImpl = record {
      type = io_type_mem_io;
      address = mapping;
      length = length;
    } in
    if error_ptr mapping
    then done (error_window mapping)
    else elim alloc [ none ↦ fault | some iow ↦ done (impl_window iow impl) ]

-- The sum of the test has 64 bits, what comes from `arch_map_port_io` 32.
unfoldable pub io_window_map_pio : ℕ → ℕ → ℕ
io_window_map_pio phys_base length =
    let ret = arch_map_port_io phys_base length in
    if leb window_end ((phys_base + window_offset) % 2 ^ 64)
    then einval
    else if error_pio_addr ret
    then decode_error_pio_addr ret
    else (ret + window_offset) % 2 ^ 32

unfoldable pub io_window_map_pio_hardened : Option ℕ → ℕ → ℕ → Mapped
io_window_map_pio_hardened alloc phys_base length =
    let ret = arch_map_port_io phys_base length in
    let impl : IoWindowImpl = record {
      type = io_type_port_io;
      address = (ret + window_offset) % 2 ^ 32;
      length = length;
    } in
    if leb window_end ((phys_base + window_offset) % 2 ^ 64)
    then error_window einval
    else if error_pio_addr ret
    then error_window (decode_error_pio_addr ret)
    else elim alloc [ none ↦ error_window enomem | some iow ↦ impl_window iow impl ]

-- The structure as it is when `free` gets it; the plain build does nothing.
unfoldable pub io_window_unmap : IoWindow → IoWindow
io_window_unmap (plain iow) = plain iow
io_window_unmap (hardened impl) = hardened (record impl { type = io_type_invalid })

unfoldable pub io_window_get_type : IoWindow → IoType
io_window_get_type (plain raw_iow) =
    if ltb raw_iow window_end
    then (if ltb raw_iow window_offset then io_type_invalid else io_type_port_io)
    else io_type_mem_io
io_window_get_type (hardened impl) = impl.type

unfoldable pub io_window_get_address : IoWindow → ℕ
io_window_get_address (plain iow) = iow
io_window_get_address (hardened impl) = impl.address

abbrev pub bug_on {ℓ} : {A : Type ℓ} → Bool → Outcome A → Outcome A
bug_on true rest = bug
bug_on false rest = rest

-- Whether `BUG_ON` panics.
unfoldable pub io_window_check_bounds : IoWindow → ℕ → Bool
io_window_check_bounds (plain iow) offset = false
io_window_check_bounds (hardened impl) offset = leb impl.length offset

-- `pio_addr_t` has 32 bits.
unfoldable pub port_io_window_get_port : IoWindow → ℕ → Outcome ℕ
port_io_window_get_port iow offset =
    let port = io_window_get_address iow in
    bug_on (ltb port window_offset) (
      bug_on (leb window_end port) (
        bug_on (io_window_check_bounds iow offset)
          (done ((port - window_offset + offset) % 2 ^ 64 % 2 ^ 32))))

unfoldable pub mem_io_window_get_ptr : IoWindow → ℕ → Outcome ℕ
mem_io_window_get_ptr iow offset =
    bug_on (io_window_check_bounds iow offset)
      (done ((io_window_get_address iow + offset) % 2 ^ 64))
