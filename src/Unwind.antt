-- ===== src/Unwind.antt =====
-- kernel/unwind.c with kernel/include/private/unwind.h and the two files of kernel/arch/x86: the walk over
-- the frames of a stack by the call frame information of the kernel's image.
pub mod Data
pub mod Decode
pub mod Local
pub mod Leb128
pub mod Parse
pub mod Table
pub mod Exec
pub mod Ends
pub mod Frame
pub mod Rules
pub mod Next
pub mod Find
pub mod Walk
mod Tests
