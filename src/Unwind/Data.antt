-- ===== src/Unwind/Data.antt =====
-- kernel/unwind.c: the state of the unwinder, and how it reads bytes (`eh_consume`, `eh_data_init`).
use ultra.Prelude.{
  ℕ, zero, suc, ◌+◌, ◌-◌, ◌*◌, ◌^◌, ◌%◌, Bool, Option, none, some, List, leb, ◌==◌, if◌then◌else◌,
  get_elem?,
}

-- How a call ends: it returns a value or an `error_t` other than 0; it does what C leaves undefined, which a
-- read of memory that is not mapped counts as; its fuel runs out, which is no behaviour of the code.
pub data Result {ℓ} (A : Type ℓ) : Type ℓ where
  ok : A → Result A
  error : ℕ → Result A
  fault : Result A
  unfinished : Result A

-- `ret = ...; if (is_error(ret)) return ret;`
infixl 5 ◌>>=◌
abbrev pub ◌>>=◌ {ℓ κ} : {A : Type ℓ} {B : Type κ} → Result A → (A → Result B) → Result B
ok a >>= f = f a
error e >>= f = error e
fault >>= f = fault
unfinished >>= f = unfinished

-- kernel/include/common/error.h
abbrev pub eok : ℕ
eok = 0

abbrev pub einval : ℕ
einval = 28

abbrev pub enodev : ℕ
enodev = 44

abbrev pub enosys : ℕ
enosys = 55

abbrev pub erange : ℕ
erange = 72

abbrev pub max_errno : ℕ
max_errno = 4095

-- A 64-bit number.
abbrev pub u64 : ℕ → ℕ
u64 x = x % 2 ^ 64

-- The memory, byte by byte, and the symbols that the linker places.
pub record Image : Type 0 where
  pub memory : ℕ → Option ℕ
  pub text_begin : ℕ
  pub eh_frame_hdr_begin : ℕ
  pub eh_frame_hdr_end : ℕ
  pub eh_frame_begin : ℕ

pub record EhData : Type 0 where
  pub cursor : ℕ
  pub bytes_left : ℕ

-- kernel/arch/x86/include/arch/private/unwind.h
abbrev pub arch_num_dwarf_registers : ℕ
arch_num_dwarf_registers = 17

abbrev pub dwarf_reg_rip : ℕ
dwarf_reg_rip = 16

-- `DWARF_SP_REG`
abbrev pub dwarf_sp_reg : ℕ
dwarf_sp_reg = 7

-- A signed `data_alignment_factor` is kept as its 64 bits.
pub record UnwindState : Type 0 where
  pub frame : List ℕ
  pub code_alignment_factor : ℕ
  pub data_alignment_factor : ℕ
  pub cfa_offset : ℕ
  pub pc : ℕ
  pub pc_end : ℕ
  pub ret_reg_idx : ℕ
  pub cfa_reg_idx : ℕ
  pub end : Bool
  pub signal_frame : Bool
  pub fde_encoding : ℕ
  pub cie_code : EhData
  pub fde_code : EhData

-- The globals `g_unwinder_available`, `g_fde_binary_search_table` and the three beside it.
pub record Unwinder : Type 0 where
  pub available : Bool
  pub fde_binary_search_table : ℕ
  pub fde_table_encoding : ℕ
  pub fde_table_entry_width : ℕ
  pub num_fdes : ℕ

-- What is not there is not to be read.
abbrev pub mapped : Option ℕ → Result ℕ
mapped none = fault
mapped (some value) = ok value

-- `array[i]`
abbrev pub at : List ℕ → ℕ → Result ℕ
at xs i = mapped (get_elem? xs i)

-- `memcpy` of so many bytes into a number, the lowest byte first.
abbrev pub load : (ℕ → Option ℕ) → ℕ → ℕ → Result ℕ
load memory address zero = ok 0
load memory address (suc count) = do
  byte ← mapped (memory address)
  rest ← load memory (address + 1) count
  ok (byte + 256 * rest)

-- `EH_CONSUME_RAW_UNSAFE`
abbrev pub consume_unsafe : Image → EhData → ℕ → Result (ℕ × EhData)
consume_unsafe k eh num_bytes = do
  value ← load k.memory eh.cursor num_bytes
  ok (value, record { cursor = eh.cursor + num_bytes; bytes_left = eh.bytes_left - num_bytes })

unfoldable pub eh_consume : Image → EhData → ℕ → Result (ℕ × EhData)
eh_consume k eh size = if leb size eh.bytes_left then consume_unsafe k eh size else error erange

unfoldable pub eh_data_init : Image → ℕ → Result EhData
eh_data_init k cursor = do
  length32 ← load k.memory cursor 4
  let long = (do
    length64 ← load k.memory (cursor + 4) 8
    ok (record { cursor = cursor + 12; bytes_left = length64 }))
  if length32 == 0xFFFFFFFF
      then long
      else ok (record { cursor = cursor + 4; bytes_left = length32 })
