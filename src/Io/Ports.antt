-- ===== src/Io/Ports.antt =====
-- kernel/io.c on x86: a window into the ports, from its mapping to the accesses.
use ultra.Prelude.{
  ℕ, zero, suc, ◌+◌, ◌-◌, ◌*◌, ◌/◌, ◌%◌, ◌^◌, ◌≤◌, ◌<◌, ◌≡◌, refl, arith, true, false, List, [],
  ◌∷◌, length, ltb, leb, if◌then◌else◌, done, some,
}
use ultra.Io.Window.{
  einval, error_ptr, error_pio_addr, window_offset, window_end, io_type_port_io, io_type_mem_io,
  plain, Mapped, error_window, impl_window, io_window_map_pio_hardened, arch_map_port_io,
  io_window_map_pio, io_window_get_type, io_window_get_address, io_window_check_bounds,
  port_io_window_get_port,
}
use ultra.Io.Builds.{Faithful}
use ultra.Io.Access.{
  Space, ports, Access, read, write, Device, width_switch, write_values, read_values,
  arch_port_io_write, arch_port_io_read, do_write_many, do_read_many, ioread_many, iowrite_many,
}

-- Only the sum of the test wraps around.
map_pio_port : (base size : ℕ) → base < 2 ^ 16 → io_window_map_pio base size ≡ base + window_offset
unfolding io_window_map_pio arch_map_port_io
map_pio_port base size h = ground arith

map_pio_above :
    (base size : ℕ) → 2 ^ 16 ≤ base → base < 2 ^ 64 - 2 ^ 16 → io_window_map_pio base size ≡ einval
unfolding io_window_map_pio arch_map_port_io
map_pio_above base size h k = ground arith

map_pio_top :
    (base size : ℕ)
    → 2 ^ 64 - 2 ^ 16 ≤ base
    → base < 2 ^ 64
    → io_window_map_pio base size ≡ base % 2 ^ 32 - 2 ^ 16
unfolding io_window_map_pio arch_map_port_io
map_pio_top base size h k = ground arith

get_port_lem :
    (base offset : ℕ)
    → base < 2 ^ 16
    → base + offset < 2 ^ 16
    → port_io_window_get_port (plain (base + window_offset)) offset ≡ done (base + offset)
unfolding port_io_window_get_port io_window_get_address io_window_check_bounds
get_port_lem base offset h k = ground arith

get_type_lem :
    (base : ℕ) → base < 2 ^ 16 → io_window_get_type (plain (base + window_offset)) ≡ io_type_port_io
unfolding io_window_get_type
get_type_lem base h = ground arith

-- A window into the ports on a 64-bit address: below 2^16 the port itself behind the offset of the windows, an
-- error up to 2^16 before the end of the addresses; the last 2^16 addresses pass the test, and what
-- is returned is neither.
pub io_window_map_pio_lem :
    (base size : ℕ)
    → base < 2 ^ 64
    → io_window_map_pio base size ≡ (
        if ltb base (2 ^ 16)
        then base + window_offset
        else if ltb base (2 ^ 64 - 2 ^ 16)
        then einval
        else base % 2 ^ 32 - 2 ^ 16)
unfolding io_window_map_pio arch_map_port_io
io_window_map_pio_lem base size h = ground arith

-- The mapping of one of the last 2^16 addresses as ports is not reported as an error, and what it returns is
-- taken for a window into the memory.
pub io_window_map_pio_top :
    (base size : ℕ)
    → 2 ^ 64 - 2 ^ 16 ≤ base
    → base < 2 ^ 64
    → (error_ptr (io_window_map_pio base size) ≡ false)
      × (io_window_get_type (plain (io_window_map_pio base size)) ≡ io_type_mem_io)
unfolding io_window_get_type
io_window_map_pio_top base size h k =
    rw (map_pio_top base size h k) ((ground arith), (ground arith))

-- A window of the hardened build with this address and length, and the type that the plain one finds in it.
abbrev pub FaithfulWindow : ℕ → ℕ → Mapped → Type 0
FaithfulWindow p size (error_window ret) = ⊥
FaithfulWindow p size (impl_window iow impl) =
    Faithful impl × (impl.address ≡ p) × (impl.length ≡ size)

-- Where `alloc` returns a window and the port has 16 bits, the hardened build maps the address that the plain one
-- returns, with the length that it is given and the type that the plain one finds in the address.
pub io_window_map_pio_hardened-FaithfulWindow :
    (iow base size : ℕ)
    → base < 2 ^ 16
    → FaithfulWindow
        (io_window_map_pio base size)
        size
        (io_window_map_pio_hardened (some iow) base size)
unfolding io_window_map_pio_hardened arch_map_port_io
io_window_map_pio_hardened-FaithfulWindow iow base size h =
    let wrap : leb window_end ((base + window_offset) % 2 ^ 64) ≡ false = ground arith in
    let small : error_pio_addr (base % 2 ^ 32) ≡ false = ground arith in
    let sum : (base % 2 ^ 32 + window_offset) % 2 ^ 32 ≡ base + window_offset = ground arith in
    rw (wrap, small, sum, get_type_lem base h, map_pio_port base size h) (refl, refl, refl)

-- The accesses of a write of several values to one address, and those of reads.
abbrev pub writes : Space → ℕ → ℕ → List ℕ → List Access → List Access
writes space addr width [] io = io
writes space addr width (value ∷ values) io =
    writes space addr width values (write space addr width value ∷ io)

abbrev pub reads : Access → ℕ → List Access → List Access
reads access zero io = io
reads access (suc count) io = reads access count (access ∷ io)

abbrev pub answers : Device → Access → ℕ → ℕ → List Access → List ℕ
answers device access width zero io = []
answers device access width (suc count) io =
    device (access ∷ io) % 2 ^ (8 * width) ∷ answers device access width count (access ∷ io)

write_values-writes :
    (space : Space) (addr width : ℕ) (values : List ℕ) (io : List Access)
    → width_switch space width ≡ true
    → write_values space addr width values (length values) io
      ≡ done (writes space addr width values io)
unfolding write_values
write_values-writes space addr width [] io h = refl
write_values-writes space addr width (value ∷ values) io h =
    rw h (write_values-writes space addr width values (write space addr width value ∷ io) h)

read_values-reads :
    (device : Device) (space : Space) (addr width count : ℕ) (io : List Access)
    → width_switch space width ≡ true
    → read_values device space addr width count io
      ≡ done (
        answers device (read space addr width) width count io,
        reads (read space addr width) count io,
      )
unfolding read_values
read_values-reads device space addr width zero io h = refl
read_values-reads device space addr width (suc count) io h =
    rw (h, read_values-reads device space addr width count (read space addr width ∷ io) h) refl

-- The port of an access, with 16 bits.
port_wraps : (n : ℕ) → n % 2 ^ 64 % 2 ^ 32 % 2 ^ 16 ≡ n % 2 ^ 16
port_wraps n = omega arith

get_port_any :
    (base offset : ℕ)
    → base < 2 ^ 16
    → port_io_window_get_port (plain (base + window_offset)) offset
      ≡ done ((base + offset) % 2 ^ 64 % 2 ^ 32)
unfolding port_io_window_get_port io_window_get_address io_window_check_bounds
get_port_any base offset h = ground arith

-- Values of 8, 16 or 32 bits through a window that maps a port: each is written to the port behind the offset,
-- which wraps around at 2^16, in order, and each value that is read is what the device answers there.
pub iowrite_many-writes :
    (device : Device) (bits base size offset count : ℕ) (values : List ℕ) (io : List Access)
    → width_switch ports (bits / 8) ≡ true
    → base < 2 ^ 16
    → (iowrite_many bits (plain (io_window_map_pio base size)) offset values (length values) io
        ≡ done (writes ports ((base + offset) % 2 ^ 16) (bits / 8) values io))
      × (ioread_many device bits (plain (io_window_map_pio base size)) offset count io
          ≡ done (
            answers device (read ports ((base + offset) % 2 ^ 16) (bits / 8)) (bits / 8) count io,
            reads (read ports ((base + offset) % 2 ^ 16) (bits / 8)) count io,
          ))
unfolding iowrite_many ioread_many do_write_many do_read_many arch_port_io_write arch_port_io_read
iowrite_many-writes device bits base size offset count values io w h =
    rw
      (
        map_pio_port base size h,
        get_type_lem base h,
        get_port_any base offset h,
        port_wraps (base + offset),
      )
      (
        write_values-writes ports ((base + offset) % 2 ^ 16) (bits / 8) values io w,
        read_values-reads device ports ((base + offset) % 2 ^ 16) (bits / 8) count io w,
      )
