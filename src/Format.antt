-- ===== src/Format.antt =====
-- The writers of kernel/common/format.c: bytes into a buffer of bounded capacity, padding, integers.
pub mod Buffer
pub mod Characters
pub mod Digits
pub mod Integer
pub mod Numeral
pub mod RoundTrip
pub mod Spec
pub mod Conversions
pub mod Print
pub mod Parse
pub mod Directives
pub mod Dispatch
pub mod Prints
pub mod Values
pub mod Converts
pub mod Rounds
pub mod Output
mod Tests
use ultra.Prelude.{
  ℕ, zero, suc, ◌+◌, ◌-◌, ◌*◌, ◌/◌, ◌%◌, ◌^◌, Bool, true, false, not, ◌&&◌, ◌||◌, List, [], ◌∷◌,
  ◌++◌, ltb, leb, ◌==◌, min, if◌then◌else◌, length, set, take, drop, get_or, Outcome, done, fault,
  unfinished, ◌>>=◌,
}

-- `size_t` and `u64`
abbrev pub word : ℕ
word = 2 ^ 64

-- `struct fmt_buf_state`; the list is the memory that `buffer` points to.
pub record FmtBufState : Type 0 where
  pub buffer : List ℕ
  pub capacity : ℕ
  pub bytes_written : ℕ

-- `struct fmt_spec` without the precision, which the writers do not read
pub record FmtSpec : Type 0 where
  pub is_signed : Bool
  pub prepend : Bool
  pub uppercase : Bool
  pub left_justify : Bool
  pub alternate_form : Bool
  pub pad_char : ℕ
  pub prepend_char : ℕ
  pub min_width : ℕ
  pub base : ℕ

unfoldable pub write_one : FmtBufState → ℕ → FmtBufState
write_one fb_state c = record fb_state {
  buffer =
      if ltb fb_state.bytes_written fb_state.capacity
      then set fb_state.buffer fb_state.bytes_written c
      else fb_state.buffer;
  bytes_written = (fb_state.bytes_written + 1) % word;
}

-- `memcpy` of the bytes to an index of the buffer
abbrev pub copy_at : List ℕ → ℕ → List ℕ → List ℕ
copy_at buffer at bytes = take at buffer ++ (bytes ++ drop (at + length bytes) buffer)

unfoldable pub write_many : FmtBufState → List ℕ → FmtBufState
write_many fb_state string = record fb_state {
  buffer =
      if ltb fb_state.bytes_written fb_state.capacity
      then copy_at fb_state.buffer fb_state.bytes_written
          (take (min (length string) (fb_state.capacity - fb_state.bytes_written)) string)
      else fb_state.buffer;
  bytes_written = (fb_state.bytes_written + length string) % word;
}

-- `upper_hex` and `lower_hex`
abbrev pub upper_hex : List ℕ
upper_hex = 48 ∷ 49 ∷ 50 ∷ 51 ∷ 52 ∷ 53 ∷ 54 ∷ 55 ∷ 56 ∷ 57 ∷ 65 ∷ 66 ∷ 67 ∷ 68 ∷ 69 ∷ 70 ∷ []

abbrev pub lower_hex : List ℕ
lower_hex = 48 ∷ 49 ∷ 50 ∷ 51 ∷ 52 ∷ 53 ∷ 54 ∷ 55 ∷ 56 ∷ 57 ∷ 97 ∷ 98 ∷ 99 ∷ 100 ∷ 101 ∷ 102 ∷ []

-- for a value below 16
unfoldable pub hex_char : Bool → ℕ → ℕ
hex_char upper value = get_or (if upper then upper_hex else lower_hex) value 0

unfoldable pub pad_loop : ℕ → FmtBufState → ℕ → FmtBufState
pad_loop zero fb_state c = fb_state
pad_loop (suc mw) fb_state c = pad_loop mw (write_one fb_state c) c

unfoldable pub write_padding : FmtBufState → FmtSpec → ℕ → FmtBufState
write_padding fb_state fm repr_size =
    if leb fm.min_width repr_size
    then fb_state
    else pad_loop (fm.min_width - repr_size) fb_state (if fm.left_justify then 32 else fm.pad_char)

unfoldable pub repr_char : FmtSpec → ℕ → ℕ
repr_char fm remainder =
    if fm.base == 16
    then hex_char fm.uppercase remainder
    else if fm.base == 8 || fm.base == 10
    then remainder + 48
    else 63

abbrev pub repr_buffer_size : ℕ
repr_buffer_size = 32

-- `repr_buffer[--index] = c`, where the list is `repr_buffer` from `index` on
unfoldable pub put : ℕ → List ℕ → Outcome (List ℕ)
put c repr = if ltb (length repr) repr_buffer_size then done (c ∷ repr) else fault

-- `while (value)`, on fuel
unfoldable pub repr_loop : ℕ → FmtSpec → ℕ → List ℕ → Outcome (List ℕ)
repr_loop zero fm value repr = unfinished
repr_loop (suc fuel) fm value repr = elim (value == 0) [
  | true ↦ done repr
  | false ↦ put (repr_char fm (value % fm.base)) repr >>= λ repr'.
      repr_loop fuel fm (value / fm.base) repr'
]

unfoldable pub put_zero : List ℕ → Outcome (List ℕ)
put_zero [] = put 48 []
put_zero (c ∷ repr) = done (c ∷ repr)

unfoldable pub put_prefix : FmtSpec → List ℕ → Outcome (List ℕ)
put_prefix fm repr =
    if fm.alternate_form && fm.base == 16
    then (put (if fm.uppercase then 88 else 120) repr >>= λ x. put 48 x)
    else if fm.alternate_form && fm.base == 8
    then put 48 repr
    else done repr

-- The representation without sign and padding; a value below 2^64 has at most 64 digits.
unfoldable pub repr_of : FmtSpec → ℕ → Outcome (List ℕ)
repr_of fm value = repr_loop 65 fm value [] >>= λ r. put_zero r >>= λ r'. put_prefix fm r'

abbrev pub is_negative : FmtSpec → ℕ → Bool
is_negative fm value = fm.is_signed && leb (2 ^ 63) value

unfoldable pub write_integer : FmtBufState → FmtSpec → ℕ → Outcome FmtBufState
write_integer fb_state fm value =
    let negative = is_negative fm value in
    let magnitude = if negative then (word - value) % word else value in
    let signed =
      if fm.prepend || negative
      then write_one fb_state (if negative then 45 else fm.prepend_char)
      else fb_state in
    repr_of fm magnitude >>= λ repr.
    if fm.left_justify
    then done (write_padding (write_many signed repr) fm (length repr))
    else done (write_many (write_padding signed fm (length repr)) repr)
