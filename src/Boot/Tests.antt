-- ===== src/Boot/Tests.antt =====
-- Runs of the loop over the attributes.
use ultra.Prelude.{refl, arith, List, [], ◌∷◌, get_or}
use ultra.Memory.{Memory}
use ultra.Boot.{
  attribute_platform_info, attribute_kernel_info, attribute_memory_map, attribute_module_info,
  attribute_command_line, boot_context_init, not_booted,
}
use ultra.Boot.Attributes.{Attribute, Described, boot_context_init-Described}

-- Six attributes with their headers, two of them modules, and a command line with one character.
abbrev context : Memory
context a =
    get_or
      (1 ∷ 0 ∷ 0 ∷ 0 ∷ 6 ∷ 0 ∷ 0 ∷ 0 ∷ 2 ∷ 0 ∷ 0 ∷ 0 ∷ 8 ∷ 0 ∷ 0 ∷ 0 ∷ 4 ∷ 0 ∷ 0 ∷ 0 ∷ 8 ∷ 0 ∷ 0 ∷ 0
        ∷ 1 ∷ 0 ∷ 0 ∷ 0 ∷ 8 ∷ 0 ∷ 0 ∷ 0 ∷ 5 ∷ 0 ∷ 0 ∷ 0 ∷ 10 ∷ 0 ∷ 0 ∷ 0 ∷ 97 ∷ 0 ∷ 4 ∷ 0 ∷ 0 ∷ 0
        ∷ 8 ∷ 0 ∷ 0 ∷ 0 ∷ 3 ∷ 0 ∷ 0 ∷ 0 ∷ 8 ∷ 0 ∷ 0 ∷ 0 ∷ [])
      a 0

abbrev attributes : List Attribute
attributes =
    (attribute_kernel_info, 8, [])
    ∷ (attribute_module_info, 16, [])
    ∷ (attribute_platform_info, 24, [])
    ∷ (attribute_command_line, 32, 97 ∷ [])
    ∷ (attribute_module_info, 42, [])
    ∷ (attribute_memory_map, 50, [])
    ∷ []

boot_context_init-Described_example :
    Described attributes (boot_context_init 2 context 0 not_booted)
boot_context_init-Described_example =
    boot_context_init-Described 2 context 0 attributes refl (omega arith) (
      refl,
      refl,
      refl,
      omega arith,
      (
        refl,
        refl,
        refl,
        omega arith,
        (
          refl,
          refl,
          refl,
          omega arith,
          (
            refl,
            refl,
            (refl, (λ z. omega (arith, z)), refl),
            omega arith,
            (refl, refl, refl, omega arith, (refl, refl, refl, omega arith, tt)),
          ),
        ),
      ),
    )
