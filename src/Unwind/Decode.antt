-- ===== src/Unwind/Decode.antt =====
-- kernel/unwind.c: `decode_format` and `decode_value`. What an out parameter holds after an error is left
-- out, since no caller reads it then.
use ultra.Prelude.{
  ℕ, zero, suc, ◌+◌, ◌-◌, ◌*◌, ◌/◌, ◌%◌, ◌^◌, ◌||◌, Option, none, some, ltb, ◌==◌, if◌then◌else◌,
}
use ultra.Unwind.Data.{
  Result, ok, error, fault, unfinished, ◌>>=◌, einval, enosys, u64, Image, EhData, consume_unsafe,
  eh_consume,
}
use Prim.Native.Nat.{bit_or}

-- `(byte & LEB128_MAX_PER_BYTE) << num_bits`, a shift of a 32-bit `int`, then made a 64-bit number.
-- A shift by 32 or more is undefined.
unfoldable pub shift_group : ℕ → ℕ → Result ℕ
shift_group byte num_bits =
    let bits = byte % 128 * 2 ^ num_bits % 2 ^ 32 in
    if ltb num_bits 32
    then ok (if ltb bits (2 ^ 31) then bits else bits + (2 ^ 64 - 2 ^ 32))
    else fault

-- The value, the number of its bits (in a byte) and the rest of the data.
unfoldable pub leb128_loop : Image → ℕ → EhData → ℕ → ℕ → Result (ℕ × ℕ × EhData)
leb128_loop k zero eh value num_bits = unfinished
leb128_loop k (suc fuel) eh value num_bits = do
  (byte, eh) ← eh_consume k eh 1
  group ← shift_group byte num_bits
  let value = bit_or value group
  let num_bits = (num_bits + 7) % 256
  let later = leb128_loop k fuel eh value num_bits
  if byte / 128 % 2 == 1 then later else ok (value, num_bits, eh)

-- `num_bytes` of the formats that are copied.
unfoldable pub format_bytes : ℕ → Option ℕ
format_bytes format =
    if format == 0 || (format == 4 || format == 12)
    then some 8
    else if format == 3 || format == 11
    then some 4
    else if format == 2 || format == 10
    then some 2
    else none

-- `out_no_copy`
unfoldable pub sign_extend : ℕ → ℕ → ℕ → ℕ
sign_extend format num_bits value =
    let bit = num_bits - 1 in
    if format / 8 % 2 == 1
    then if value / 2 ^ bit % 2 == 1 then bit_or value (2 ^ 64 - 2 ^ bit) else value
    else value

-- `out_copy_data` up to `out_no_copy`
unfoldable pub copy_data : Image → EhData → ℕ → Result (ℕ × EhData)
copy_data k eh num_bytes =
    if ltb eh.bytes_left num_bytes then error einval else consume_unsafe k eh num_bytes

-- `out_copy_data` with the number of bytes; a format that has none is not handled.
unfoldable pub decode_copied : Image → EhData → ℕ → Option ℕ → Result (ℕ × EhData)
decode_copied k eh format none = error enosys
decode_copied k eh format (some num_bytes) = do
  (value, eh) ← copy_data k eh num_bytes
  ok (sign_extend format (num_bytes * 8) value, eh)

-- What is added to `*out_value`.
unfoldable pub decode_format : Image → EhData → ℕ → Result (ℕ × EhData)
decode_format k eh format =
    if format == 1 || format == 9
    then (do
      (value, num_bits, eh) ← leb128_loop k (eh.bytes_left + 1) eh 0 0
      ok (sign_extend format num_bits value, eh))
    else decode_copied k eh format (format_bytes format)

-- What `*out_value` is set to, by the upper four bits of the encoding.
unfoldable pub scaling_base : Image → EhData → ℕ → Option ℕ
scaling_base k eh scaling =
    if scaling == 0x00
    then some 0
    else if scaling == 0x10
    then some eh.cursor
    else if scaling == 0x20
    then some k.text_begin
    else if scaling == 0x30
    then some k.eh_frame_hdr_begin
    else none

-- `*out_value` is set to the base, and the value is added to it.
unfoldable pub decode_scaled : Image → EhData → ℕ → Option ℕ → Result (ℕ × EhData)
decode_scaled k eh format none = error enosys
decode_scaled k eh format (some base) = do
  (value, eh) ← decode_format k eh format
  ok (u64 (base + value), eh)

unfoldable pub decode_value : Image → EhData → ℕ → Result (ℕ × EhData)
decode_value k eh encoding =
    decode_scaled k eh (encoding % 16) (scaling_base k eh (encoding / 16 % 16 * 16))
