-- ===== src/Unwind/Exec.antt =====
-- kernel/unwind.c: `dwarf_exec`, which runs the call frame instructions of an entry.
use ultra.Prelude.{
  ℕ, zero, suc, ◌+◌, ◌-◌, ◌*◌, ◌/◌, ◌%◌, Option, some, List, ◌||◌, ltb, leb, ◌==◌, if◌then◌else◌,
  set,
}
use ultra.Unwind.Data.{
  Result, ok, error, unfinished, ◌>>=◌, einval, enosys, u64, Image, EhData, UnwindState,
  arch_num_dwarf_registers, eh_consume,
}
use ultra.Unwind.Decode.{copy_data, decode_value}
use ultra.Unwind.Parse.{unwind_get_return_address}

-- `enum dw_cfa_opcode`
abbrev pub dw_cfa_nop : ℕ
dw_cfa_nop = 0x00

abbrev pub dw_cfa_advance_loc1 : ℕ
dw_cfa_advance_loc1 = 0x02

abbrev pub dw_cfa_advance_loc2 : ℕ
dw_cfa_advance_loc2 = 0x03

abbrev pub dw_cfa_advance_loc4 : ℕ
dw_cfa_advance_loc4 = 0x04

abbrev pub dw_cfa_same_value : ℕ
dw_cfa_same_value = 0x08

abbrev pub dw_cfa_def_cfa : ℕ
dw_cfa_def_cfa = 0x0C

abbrev pub dw_cfa_def_cfa_register : ℕ
dw_cfa_def_cfa_register = 0x0D

abbrev pub dw_cfa_def_cfa_offset : ℕ
dw_cfa_def_cfa_offset = 0x0E

abbrev pub dw_cfa_advance_loc : ℕ
dw_cfa_advance_loc = 0x40

abbrev pub dw_cfa_offset : ℕ
dw_cfa_offset = 0x80

abbrev pub dw_cfa_restore : ℕ
dw_cfa_restore = 0xC0

-- An offset that was never written is `none`.
pub record RegisterRule : Type 0 where
  pub rule : ℕ
  pub offset : Option ℕ

-- What the three arguments of `dwarf_exec` point to. The data is a field of the state, which nothing
-- but the cursor's own steps reads or writes meanwhile.
pub record Machine : Type 0 where
  pub state : UnwindState
  pub rules : List RegisterRule
  pub code : EhData

abbrev pub advance : Machine → ℕ → Machine
advance x delta = record x {
  state = record (x.state) { pc = u64 (x.state.pc + delta * x.state.code_alignment_factor) };
}

-- A register that is not kept is skipped.
abbrev pub store_rule : Machine → ℕ → RegisterRule → Machine
store_rule x reg rule =
    if ltb reg arch_num_dwarf_registers then record x { rules = set x.rules reg rule } else x

-- `DW_CFA_advance_loc1` and the two like it; the number of bytes is `opcode - 1`, or 4.
unfoldable pub advance_loc : Image → ℕ → Machine → Result Machine
advance_loc k bytes_needed x = do
  (delta, code) ← copy_data k x.code bytes_needed
  ok (advance (record x { code = code }) delta)

unfoldable pub def_cfa_offset : Image → Machine → Result Machine
def_cfa_offset k x = do
  (value, code) ← decode_value k x.code 0x01
  ok (record x { code = code; state = record (x.state) { cfa_offset = value } })

-- `DW_CFA_def_cfa` goes on with the offset.
unfoldable pub def_cfa : Image → ℕ → Machine → Result Machine
def_cfa k opcode x = do
  (value, code) ← decode_value k x.code 0x01
  let y : Machine = record x { code = code; state = record (x.state) { cfa_reg_idx = value } }
  let both = def_cfa_offset k y
  if leb arch_num_dwarf_registers value
      then error einval
      else if opcode == dw_cfa_def_cfa
      then both
      else ok y

-- The second `switch`, on an opcode whose high two bits are 0.
unfoldable pub exec_extended : Image → ℕ → Machine → Result Machine
exec_extended k opcode x =
    if opcode == dw_cfa_nop
    then ok x
    else if opcode == dw_cfa_advance_loc4
    then advance_loc k 4 x
    else if opcode == dw_cfa_advance_loc2 || opcode == dw_cfa_advance_loc1
    then advance_loc k (opcode - 1) x
    else if opcode == dw_cfa_def_cfa || opcode == dw_cfa_def_cfa_register
    then def_cfa k opcode x
    else if opcode == dw_cfa_def_cfa_offset
    then def_cfa_offset k x
    else error enosys

-- `DW_CFA_offset`
unfoldable pub exec_offset : Image → ℕ → Machine → Result Machine
exec_offset k reg x = do
  (value, code) ← decode_value k x.code 0x01
  ok (
      store_rule (record x { code = code }) reg
        (record { rule = dw_cfa_offset; offset = some value }))

-- The body of the loop, behind the opcode.
unfoldable pub exec_opcode : Image → ℕ → Machine → Result Machine
exec_opcode k opcode x =
    let high = opcode / 64 * 64 in
    let low = opcode % 64 in
    if high == 0
    then exec_extended k opcode x
    else if high == dw_cfa_advance_loc
    then ok (advance x low)
    else if high == dw_cfa_offset
    then exec_offset k low x
    else if high == dw_cfa_restore
    then ok (store_rule x low (record { rule = dw_cfa_same_value; offset = some 0 }))
    else error enosys

unfoldable pub dwarf_exec_loop : Image → ℕ → Machine → Result Machine
dwarf_exec_loop k zero x = if x.code.bytes_left == 0 then ok x else unfinished
dwarf_exec_loop k (suc fuel) x =
    let round = (do
      return_address ← unwind_get_return_address x.state
      let later = (do
        (opcode, code) ← eh_consume k x.code 1
        x ← exec_opcode k opcode (record x { code = code })
        dwarf_exec_loop k fuel x)
      if ltb return_address x.state.pc then ok x else later) in
    if x.code.bytes_left == 0 then ok x else round

-- Each round takes a byte.
unfoldable pub dwarf_exec : Image → Machine → Result Machine
dwarf_exec k x = dwarf_exec_loop k x.code.bytes_left x
