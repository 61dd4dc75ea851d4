-- ===== src/Unwind/Table.antt =====
-- kernel/unwind.c: `unwind_init` and the search of the table of frame description entries.
use ultra.Prelude.{ℕ, zero, suc, ◌+◌, ◌-◌, ◌*◌, ◌/◌, ◌%◌, true, not, ltb, leb, ◌==◌, if◌then◌else◌}
use ultra.Unwind.Data.{
  Result, ok, error, fault, unfinished, ◌>>=◌, einval, max_errno, Image, EhData, UnwindState,
  Unwinder, eh_consume, eh_data_init,
}
use ultra.Unwind.Decode.{decode_value}
use ultra.Unwind.Parse.{get_reliable_pc, parse_fde}

-- A global that an error leaves half set is not read, since `g_unwinder_available` stays false.
unfoldable pub unwind_init : Image → Result Unwinder
unwind_init k = do
  let eh : EhData = record {
    cursor = k.eh_frame_hdr_begin;
    bytes_left = k.eh_frame_hdr_end - k.eh_frame_hdr_begin;
  }
  (version, eh) ← eh_consume k eh 1
  if not (version == 1) then error einval else do
    (eh_frame_ptr_encoding, eh) ← eh_consume k eh 1
    (fde_count_encoding, eh) ← eh_consume k eh 1
    (fde_table_encoding, eh) ← eh_consume k eh 1
    (value, eh) ← decode_value k eh eh_frame_ptr_encoding
    if not (k.eh_frame_begin == value) then error einval else do
      (num_fdes, eh) ← decode_value k eh fde_count_encoding
      let table = eh.cursor
      (value, eh) ← decode_value k eh fde_table_encoding
      ok (record {
        available = true;
        fde_binary_search_table = table;
        fde_table_encoding = fde_table_encoding;
        fde_table_entry_width = (eh.cursor - table) % 256 * 2 % 256;
        num_fdes = num_fdes;
      })

-- The address of the code of entry `i`, or that of its frame description entry.
unfoldable pub table_value : Image → Unwinder → ℕ → ℕ → Result (ℕ × EhData)
table_value k u cursor bytes_left =
    decode_value k (record { cursor = cursor; bytes_left = bytes_left }) u.fde_table_encoding

unfoldable pub find_fde_loop : Image → Unwinder → ℕ → ℕ → ℕ → ℕ → Result ℕ
find_fde_loop k u zero pc begin end = unfinished
find_fde_loop k u (suc fuel) pc begin end =
    let i = begin + (end - begin) / 2 in
    let upper = find_fde_loop k u fuel pc i end in
    let lower = find_fde_loop k u fuel pc begin i in
    if ltb 1 (end - begin)
    then (do
      (sym_addr, eh) ←
          table_value k u (u.fde_binary_search_table + i * u.fde_table_entry_width)
            u.fde_table_entry_width
      if leb sym_addr pc then upper else lower)
    else ok begin

-- `encode_error_ptr`: an error is returned as a pointer.
unfoldable pub encode_error_ptr : Result ℕ → Result ℕ
encode_error_ptr (ok pointer) = ok pointer
encode_error_ptr (error ret) = ok ret
encode_error_ptr fault = fault
encode_error_ptr unfinished = unfinished

-- Each round of the loop makes the range smaller.
unfoldable pub find_fde : Image → Unwinder → ℕ → Result ℕ
find_fde k u pc = encode_error_ptr (do
  begin ← find_fde_loop k u (u.num_fdes + 1) pc 0 u.num_fdes
  (fde_addr, eh) ←
      table_value k u
        (u.fde_binary_search_table + begin * u.fde_table_entry_width + u.fde_table_entry_width / 2)
        (u.fde_table_entry_width / 2)
  ok fde_addr)

-- `error_ptr` and `decode_error_ptr`: a null pointer is taken for an error that is 0.
unfoldable pub prepare_unwind_state : Image → Unwinder → UnwindState → Result UnwindState
prepare_unwind_state k u state = do
  pc ← get_reliable_pc state
  pret ← find_fde k u pc
  let parsed = (do fde ← eh_data_init k pret; parse_fde k state fde)
  if leb pret max_errno then (if pret == 0 then ok state else error pret) else parsed
