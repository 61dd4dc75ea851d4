-- ===== src/PageTable/Protection.antt =====
-- kernel/arch/x86/memory.c: the bits of an entry for a protection.
use ultra.Prelude.{ℕ, ◌+◌, ◌*◌, ◌^◌, ◌≡◌, refl, Bool, true, false, not, ◌||◌, if◌then◌else◌}
use ultra.PageTable.{pt_prot_from_vm_prot}

-- 1 for a bit that is set
abbrev pub bit_of : Bool → ℕ
bit_of true = 1
bit_of false = 0

-- VM_PROT_READ, _WRITE, _EXEC and _KERNEL
abbrev pub vm_prot_of : Bool → Bool → Bool → Bool → ℕ
vm_prot_of r w x k = bit_of r + 2 * bit_of w + 4 * bit_of x + 8 * bit_of k

-- A protection without any of its bits gives an empty entry. Any other is present where it can be read, has the
-- second bit where it can be written, the third where it is not the kernel's alone, and the highest where it cannot be
-- executed.
pub pt_prot_from_vm_prot_lem :
    (r w x k : Bool)
    → pt_prot_from_vm_prot (vm_prot_of r w x k) ≡ (
        if r || w || x || k
        then bit_of r + 2 * bit_of w + 4 * bit_of (not k) + 2 ^ 63 * bit_of (not x)
        else 0)
unfolding pt_prot_from_vm_prot
pt_prot_from_vm_prot_lem false false false false = refl
pt_prot_from_vm_prot_lem false false false true = refl
pt_prot_from_vm_prot_lem false false true false = refl
pt_prot_from_vm_prot_lem false false true true = refl
pt_prot_from_vm_prot_lem false true false false = refl
pt_prot_from_vm_prot_lem false true false true = refl
pt_prot_from_vm_prot_lem false true true false = refl
pt_prot_from_vm_prot_lem false true true true = refl
pt_prot_from_vm_prot_lem true false false false = refl
pt_prot_from_vm_prot_lem true false false true = refl
pt_prot_from_vm_prot_lem true false true false = refl
pt_prot_from_vm_prot_lem true false true true = refl
pt_prot_from_vm_prot_lem true true false false = refl
pt_prot_from_vm_prot_lem true true false true = refl
pt_prot_from_vm_prot_lem true true true false = refl
pt_prot_from_vm_prot_lem true true true true = refl
