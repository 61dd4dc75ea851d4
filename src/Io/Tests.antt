-- ===== src/Io/Tests.antt =====
-- Runs of the windows.
use ultra.Prelude.{◌-◌, ◌/◌, ◌^◌, ◌≡◌, refl, arith, true, false, [], ◌∷◌, done, length}
use ultra.Io.Window.{
  error_ptr, IoWindowImpl, io_type_port_io, io_type_mem_io, plain, hardened, io_window_map_pio,
  io_window_get_type,
}
use ultra.Io.Access.{Device, ports, read, write, width_switch, ioread_many, iowrite_many}
use ultra.Io.Builds.{hardened-plain}
use ultra.Io.Ports.{io_window_map_pio_top, iowrite_many-writes}

-- The answer is the number of accesses so far.
abbrev counter : Device
counter io = length io

-- The serial port, with eight ports
abbrev serial : IoWindowImpl
serial = record { type = io_type_port_io; address = 66552; length = 8 }

hardened-plain_example :
    (iowrite_many 8 (hardened serial) 5 (65 ∷ []) 1 []
      ≡ iowrite_many 8 (plain 66552) 5 (65 ∷ []) 1 [])
    × (ioread_many counter 8 (hardened serial) 5 1 [] ≡ ioread_many counter 8 (plain 66552) 5 1 [])
unfolding io_window_get_type
hardened-plain_example = hardened-plain counter serial 8 5 1 (65 ∷ []) [] refl

io_window_map_pio_top_example :
    (error_ptr (io_window_map_pio (2 ^ 64 - 2 ^ 16) 8) ≡ false)
    × (io_window_get_type (plain (io_window_map_pio (2 ^ 64 - 2 ^ 16) 8)) ≡ io_type_mem_io)
io_window_map_pio_top_example =
    io_window_map_pio_top (2 ^ 64 - 2 ^ 16) 8 (omega arith) (omega arith)

byte_test : width_switch ports (8 / 8) ≡ true
unfolding width_switch
byte_test = refl

iowrite_many-writes_example :
    (iowrite_many 8 (plain (io_window_map_pio 1016 8)) 5 (65 ∷ 66 ∷ []) 2 []
      ≡ done (write ports 1021 1 66 ∷ write ports 1021 1 65 ∷ []))
    × (ioread_many counter 8 (plain (io_window_map_pio 1016 8)) 5 2 []
        ≡ done (1 ∷ 2 ∷ [], read ports 1021 1 ∷ read ports 1021 1 ∷ []))
iowrite_many-writes_example =
    iowrite_many-writes counter 8 1016 8 5 2 (65 ∷ 66 ∷ []) [] byte_test (omega arith)
