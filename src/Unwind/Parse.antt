-- ===== src/Unwind/Parse.antt =====
-- kernel/unwind.c: `parse_cie` and `parse_fde`. After an error `unwind_next_frame` sets `end`, and no field
-- but `end` is read from then on: what the other fields hold then is left out.
use ultra.Prelude.{
  ℕ, zero, suc, ◌+◌, ◌-◌, ◌^◌, ◌%◌, true, not, ◌||◌, List, [], ◌∷◌, ltb, leb, ◌==◌, if◌then◌else◌,
}
use ultra.Unwind.Data.{
  Result, ok, error, unfinished, ◌>>=◌, einval, enosys, u64, Image, EhData, UnwindState,
  arch_num_dwarf_registers, at, eh_consume, eh_data_init,
}
use ultra.Unwind.Decode.{decode_value}

unfoldable pub unwind_get_return_address : UnwindState → Result ℕ
unwind_get_return_address state = if state.end then ok 0 else at state.frame state.ret_reg_idx

unfoldable pub get_reliable_pc : UnwindState → Result ℕ
get_reliable_pc state = do
  pc ← unwind_get_return_address state
  ok (if state.signal_frame then pc else u64 (pc + (2 ^ 64 - 1)))

-- `EXPECTED_AUG_STRING` with its terminating 0
abbrev pub expected_aug_string : List ℕ
expected_aug_string = 122 ∷ 82 ∷ 0 ∷ []

-- The list is what `EXPECTED_AUG_STRING` has from `aug_idx` on.
unfoldable pub augmentation_loop :
    Image → ℕ → UnwindState → EhData → List ℕ → Result (UnwindState × EhData)
augmentation_loop k fuel state cie [] = ok (state, cie)
augmentation_loop k zero state cie (expected ∷ aug) = unfinished
augmentation_loop k (suc fuel) state cie (expected ∷ aug) = do
  (aug_ch, cie) ← eh_consume k cie 1
  let next = augmentation_loop k fuel state cie aug
  let skipped = augmentation_loop k fuel (record state { signal_frame = true }) cie (expected ∷ aug)
  if aug_ch == expected then next else if aug_ch == 83 then skipped else error enosys

-- Each round of the loop takes a byte.
unfoldable pub parse_cie : Image → UnwindState → EhData → Result UnwindState
parse_cie k state cie = do
  (id, cie) ← eh_consume k cie 4
  if not (id == 0) then error einval else do
    (version, cie) ← eh_consume k cie 1
    if not (version == 1) then error einval else do
      (state, cie) ← augmentation_loop k (cie.bytes_left + 1) state cie expected_aug_string
      (code_alignment_factor, cie) ← decode_value k cie 0x01
      (data_alignment_factor, cie) ← decode_value k cie 0x09
      (ret_reg, cie) ← decode_value k cie 0x01
      if leb arch_num_dwarf_registers ret_reg then error einval else do
        (aug_length, cie) ← decode_value k cie 0x01
        if not (aug_length == 1) then error einval else do
          (fde_encoding, cie) ← eh_consume k cie 1
          ok (record state {
            code_alignment_factor = code_alignment_factor;
            data_alignment_factor = data_alignment_factor;
            ret_reg_idx = ret_reg;
            fde_encoding = fde_encoding;
            cie_code = cie;
          })

-- `current_pc` against the code that the entry is about.
unfoldable pub check_pc : UnwindState → ℕ → ℕ → Result UnwindState
check_pc state pc_size current_pc =
    if ltb current_pc state.pc || leb (u64 (state.pc + pc_size)) current_pc
    then error einval
    else ok state

unfoldable pub parse_fde : Image → UnwindState → EhData → Result UnwindState
parse_fde k state fde = do
  (cie_offset, fde) ← eh_consume k fde 4
  if cie_offset == 0 then error einval else do
    cie ← eh_data_init k (u64 (fde.cursor + 2 ^ 64 - cie_offset - 4))
    state ← parse_cie k state cie
    (pc, fde) ← decode_value k fde state.fde_encoding
    let state = record state { pc = pc }
    (pc_size, fde) ← decode_value k fde (state.fde_encoding % 16)
    current_pc ← get_reliable_pc state
    state ← check_pc state pc_size current_pc
    (aug_length, fde) ← eh_consume k fde 1
    if not (aug_length == 0) then error enosys else ok (record state { fde_code = fde })
