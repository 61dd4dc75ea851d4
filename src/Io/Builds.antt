-- ===== src/Io/Builds.antt =====
-- kernel/io.c: the hardened build against the plain one.
use ultra.Prelude.{
  ℕ, ◌+◌, ◌-◌, ◌/◌, ◌%◌, ◌^◌, ◌≡◌, refl, Bool, true, false, List, ltb, leb, done, if◌then◌else◌,
  Outcome, bug, ◌>>=◌,
}
use ultra.Io.Window.{
  IoType, io_type_invalid, io_type_port_io, io_type_mem_io, IoWindowImpl, window_offset, window_end,
  plain, hardened, io_window_unmap, io_window_get_type, io_window_get_address,
  io_window_check_bounds, bug_on, port_io_window_get_port, mem_io_window_get_ptr,
}
use ultra.Io.Access.{
  Access, Device, on_type, arch_port_io_write, arch_memory_io_write, arch_port_io_read,
  arch_memory_io_read, do_write_many, do_read_many, ioread_many, iowrite_many,
}

-- The structure says what the plain build would make of the address.
abbrev pub Faithful : IoWindowImpl → Type 0
Faithful impl = impl.type ≡ io_window_get_type (plain impl.address)

-- The bounds are checked last, on either branch.
on_type_bound {ℓ κ} :
    {A : Type ℓ} {B : Type κ} (t : IoType) (a b bound : Bool) (port ptr : Outcome A)
    (f g : A → Outcome B)
    → on_type t (bug_on a (bug_on b (bug_on bound port)) >>= f) (bug_on bound ptr >>= g)
      ≡ (if bound then bug else on_type t (bug_on a (bug_on b port) >>= f) (ptr >>= g))
on_type_bound io_type_invalid a b true port ptr f g = refl
on_type_bound io_type_invalid a b false port ptr f g = refl
on_type_bound io_type_port_io true b true port ptr f g = refl
on_type_bound io_type_port_io true b false port ptr f g = refl
on_type_bound io_type_port_io false true true port ptr f g = refl
on_type_bound io_type_port_io false true false port ptr f g = refl
on_type_bound io_type_port_io false false true port ptr f g = refl
on_type_bound io_type_port_io false false false port ptr f g = refl
on_type_bound io_type_mem_io a b true port ptr f g = refl
on_type_bound io_type_mem_io a b false port ptr f g = refl

-- In the hardened build, a window whose structure has the type that the plain build finds in the address
-- writes and reads what the plain build does with the address, where the offset is below the length, and panics
-- before any access where it is not.
pub hardened-plain :
    (device : Device) (impl : IoWindowImpl) (bits offset count : ℕ) (buf : List ℕ)
    (io : List Access)
    → Faithful impl
    → (iowrite_many bits (hardened impl) offset buf count io ≡ (
        if leb impl.length offset
        then bug
        else iowrite_many bits (plain impl.address) offset buf count io))
      × (ioread_many device bits (hardened impl) offset count io ≡ (
          if leb impl.length offset
          then bug
          else ioread_many device bits (plain impl.address) offset count io))
unfolding iowrite_many ioread_many do_write_many do_read_many port_io_window_get_port
    mem_io_window_get_ptr io_window_check_bounds io_window_get_address io_window_get_type
hardened-plain device impl bits offset count buf io e =
    let bound = leb impl.length offset in
    let low = ltb impl.address window_offset in
    let high = leb window_end impl.address in
    let port : Outcome ℕ = done ((impl.address - window_offset + offset) % 2 ^ 64 % 2 ^ 32) in
    let ptr : Outcome ℕ = done ((impl.address + offset) % 2 ^ 64) in
    let t = io_window_get_type (plain impl.address) in
    (
      rw e (
          on_type_bound t low high bound port ptr
            (λ addr. arch_port_io_write addr (bits / 8) buf count io)
            (λ addr. arch_memory_io_write addr (bits / 8) buf count io)),
      rw e (
          on_type_bound t low high bound port ptr
            (λ addr. arch_port_io_read device addr (bits / 8) count io)
            (λ addr. arch_memory_io_read device addr (bits / 8) count io)),
    )

-- Behind `io_window_unmap`, a window of the hardened build panics on every write and read.
pub unmap-bug :
    (device : Device) (impl : IoWindowImpl) (bits offset count : ℕ) (buf : List ℕ)
    (io : List Access)
    → (iowrite_many bits (io_window_unmap (hardened impl)) offset buf count io ≡ bug)
      × (ioread_many device bits (io_window_unmap (hardened impl)) offset count io ≡ bug)
unfolding iowrite_many ioread_many do_write_many do_read_many io_window_get_type io_window_unmap
unmap-bug device impl bits offset count buf io = (refl, refl)
