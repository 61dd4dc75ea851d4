-- ===== src/Io/Access.antt =====
-- kernel/io.c, kernel/include/io.h, kernel/include/switch.h and kernel/arch/x86/io.c: reads and writes through a
-- window. The state is the list of the accesses so far, the last one first; what a device answers to a read
-- depends on them. A buffer is the list of its elements.
use ultra.Prelude.{
  ℕ, zero, suc, ◌*◌, ◌/◌, ◌%◌, ◌^◌, Bool, ◌||◌, List, [], ◌∷◌, ◌==◌, if◌then◌else◌, Outcome, done,
  bug, fault, ◌>>=◌,
}
use ultra.Io.Window.{
  IoWindow, IoType, io_type_invalid, io_type_port_io, io_type_mem_io, io_window_get_type,
  port_io_window_get_port, mem_io_window_get_ptr,
}

-- The ports, which have 16 bits, or the memory.
pub data Space : Type 0 where
  ports memory : Space

-- The address and the width in bytes, and the value of a write.
pub data Access : Type 0 where
  read : Space → ℕ → ℕ → Access
  write : Space → ℕ → ℕ → ℕ → Access

-- The answer to the read that the list starts with.
abbrev pub Device : Type 0
Device = List Access → ℕ

-- `WIDTH_SWITCH`; in the ports the case of 8 bytes is empty and falls through to `BUG`.
unfoldable pub width_switch : Space → ℕ → Bool
width_switch ports width = width == 1 || width == 2 || width == 4
width_switch memory width = width == 1 || width == 2 || width == 4 || width == 8

unfoldable pub write_values : Space → ℕ → ℕ → List ℕ → ℕ → List Access → Outcome (List Access)
write_values space addr width values zero io = done io
write_values space addr width [] (suc count) io = if width_switch space width then fault else bug
write_values space addr width (value ∷ values) (suc count) io =
    let later = write_values space addr width values count (write space addr width value ∷ io) in
    if width_switch space width then later else bug

-- The values that are written to `out`, and the accesses.
unfoldable pub read_values :
    Device → Space → ℕ → ℕ → ℕ → List Access → Outcome (List ℕ × List Access)
read_values device space addr width zero io = done ([], io)
read_values device space addr width (suc count) io =
    let access = read space addr width in
    let later = (do
      (out, all) ← read_values device space addr width count (access ∷ io)
      done (device (access ∷ io) % 2 ^ (8 * width) ∷ out, all)) in
    if width_switch space width then later else bug

unfoldable pub arch_memory_io_write : ℕ → ℕ → List ℕ → ℕ → List Access → Outcome (List Access)
arch_memory_io_write ptr width values count io = write_values memory ptr width values count io

unfoldable pub arch_memory_io_read :
    Device → ℕ → ℕ → ℕ → List Access → Outcome (List ℕ × List Access)
arch_memory_io_read device ptr width count io = read_values device memory ptr width count io

unfoldable pub arch_port_io_write : ℕ → ℕ → List ℕ → ℕ → List Access → Outcome (List Access)
arch_port_io_write addr width values count io =
    write_values ports (addr % 2 ^ 16) width values count io

unfoldable pub arch_port_io_read : Device → ℕ → ℕ → ℕ → List Access → Outcome (List ℕ × List Access)
arch_port_io_read device addr width count io =
    read_values device ports (addr % 2 ^ 16) width count io

-- The branches of `do_write_many` and `do_read_many`, by the type of the window.
abbrev pub on_type {ℓ} : {A : Type ℓ} → IoType → Outcome A → Outcome A → Outcome A
on_type io_type_port_io in_ports in_memory = in_ports
on_type io_type_mem_io in_ports in_memory = in_memory
on_type io_type_invalid in_ports in_memory = bug

unfoldable pub do_write_many : IoWindow → ℕ → ℕ → List ℕ → ℕ → List Access → Outcome (List Access)
do_write_many iow offset width values count io =
    on_type (io_window_get_type iow)
      (port_io_window_get_port iow offset >>= λ addr. arch_port_io_write addr width values count io)
      (mem_io_window_get_ptr iow offset >>= λ addr. arch_memory_io_write addr width values count io)

unfoldable pub do_read_many :
    Device → IoWindow → ℕ → ℕ → ℕ → List Access → Outcome (List ℕ × List Access)
do_read_many device iow offset width count io =
    on_type (io_window_get_type iow)
      (port_io_window_get_port iow offset >>= λ addr. arch_port_io_read device addr width count io)
      (mem_io_window_get_ptr iow offset >>= λ addr. arch_memory_io_read device addr width count io)

-- `MAKE_IO_FN`, for so many bits
unfoldable pub ioread_many :
    Device → ℕ → IoWindow → ℕ → ℕ → List Access → Outcome (List ℕ × List Access)
ioread_many device bits iow offset count io = do_read_many device iow offset (bits / 8) count io

-- `return out`
abbrev pub only_value : List ℕ × List Access → Outcome (ℕ × List Access)
only_value (value ∷ _, io) = done (value, io)
only_value ([], io) = fault

unfoldable pub ioread_at : Device → ℕ → IoWindow → ℕ → List Access → Outcome (ℕ × List Access)
ioread_at device bits iow offset io =
    do_read_many device iow offset (bits / 8) 1 io >>= λ r. only_value r

unfoldable pub iowrite_many : ℕ → IoWindow → ℕ → List ℕ → ℕ → List Access → Outcome (List Access)
iowrite_many bits iow offset buf count io = do_write_many iow offset (bits / 8) buf count io

unfoldable pub iowrite_at : ℕ → IoWindow → ℕ → ℕ → List Access → Outcome (List Access)
iowrite_at bits iow offset value io =
    do_write_many iow offset (bits / 8) (value % 2 ^ bits ∷ []) 1 io

-- kernel/include/io.h
unfoldable pub ioread : Device → ℕ → IoWindow → List Access → Outcome (ℕ × List Access)
ioread device bits iow io = ioread_at device bits iow 0 io

unfoldable pub iowrite : ℕ → IoWindow → ℕ → List Access → Outcome (List Access)
iowrite bits iow value io = iowrite_at bits iow 0 value io
