-- ===== src/Boot.antt =====
-- kernel/entry.c, kernel/include/boot/boot.h and kernel/include/boot/ultra_protocol.h: the attributes that the loader
-- passes to the kernel. They are read from the memory; a pointer is an address, and does not wrap.
pub mod Attributes
mod Tests
use ultra.Prelude.{
  ℕ, zero, suc, ◌+◌, ◌*◌, ◌%◌, ◌^◌, Bool, true, false, Option, none, some, List, [], ◌∷◌, ◌==◌,
  if◌then◌else◌, Outcome, done, bug, ◌>>=◌,
}
use ultra.Memory.{Memory, strlen}

-- Little-endian fields of 32 bits
abbrev pub u32_at : Memory → ℕ → ℕ
u32_at memory a =
    memory a + 2 ^ 8 * memory (a + 1) + 2 ^ 16 * memory (a + 2) + 2 ^ 24 * memory (a + 3)

-- `struct ultra_attribute_header`
abbrev pub header_type : Memory → ℕ → ℕ
header_type memory hdr = u32_at memory hdr

abbrev pub next_attribute : Memory → ℕ → ℕ
next_attribute memory hdr = hdr + u32_at memory (hdr + 4)

-- The types of attributes.
pub data AttributeType : Type 0 where
  attribute_platform_info attribute_kernel_info attribute_memory_map : AttributeType
  attribute_module_info attribute_command_line attribute_framebuffer_info : AttributeType
  attribute_unhandled : ℕ → AttributeType

abbrev pub attribute_type : ℕ → AttributeType
attribute_type type =
    if type == 1
    then attribute_platform_info
    else if type == 2
    then attribute_kernel_info
    else if type == 3
    then attribute_memory_map
    else if type == 4
    then attribute_module_info
    else if type == 5
    then attribute_command_line
    else if type == 6
    then attribute_framebuffer_info
    else attribute_unhandled type

-- `struct boot_context`
pub record BootContext : Type 0 where
  pub platform_info : Option ℕ
  pub kernel_info : Option ℕ
  pub memory_map : Option ℕ
  pub fb : Option ℕ
  pub modules : Option ℕ
  pub num_modules : ℕ
  pub cmdline : List ℕ

-- The warnings that are printed: that a field is set already, and the type of an attribute that is not handled.
pub data Warning : Type 0 where
  already_set : Warning
  not_handled : ℕ → Warning

pub record Booting : Type 0 where
  pub g_boot_ctx : BootContext
  pub warnings : List Warning

-- `WARN_ON(ctx_field != NULL)`
abbrev pub warn_on : Option ℕ → List Warning → List Warning
warn_on none warnings = warnings
warn_on (some _) warnings = already_set ∷ warnings

-- The string with so many bytes.
abbrev pub bytes_at : Memory → ℕ → ℕ → List ℕ
bytes_at memory a zero = []
bytes_at memory a (suc size) = memory a ∷ bytes_at memory (a + 1) size

-- `STR_RUNTIME`
unfoldable pub str_runtime : ℕ → Memory → ℕ → Outcome (List ℕ)
str_runtime fuel memory text = do size ← strlen fuel memory text; done (bytes_at memory text size)

-- The `switch` of the loop; an attribute starts with its header.
unfoldable pub extract : ℕ → Memory → AttributeType → ℕ → Booting → Outcome Booting
extract fuel memory attribute_platform_info hdr s = done (record {
  g_boot_ctx = record s.g_boot_ctx { platform_info = some hdr };
  warnings = warn_on s.g_boot_ctx.platform_info s.warnings;
})
extract fuel memory attribute_kernel_info hdr s = done (record {
  g_boot_ctx = record s.g_boot_ctx { kernel_info = some hdr };
  warnings = warn_on s.g_boot_ctx.kernel_info s.warnings;
})
extract fuel memory attribute_memory_map hdr s = done (record {
  g_boot_ctx = record s.g_boot_ctx { memory_map = some hdr };
  warnings = warn_on s.g_boot_ctx.memory_map s.warnings;
})
extract fuel memory attribute_command_line hdr s = do
  cmdline ← str_runtime fuel memory (hdr + 8)
  done (record s { g_boot_ctx = record s.g_boot_ctx { cmdline = cmdline } })
extract fuel memory attribute_framebuffer_info hdr s = done (record {
  g_boot_ctx = record s.g_boot_ctx { fb = some hdr };
  warnings = warn_on s.g_boot_ctx.fb s.warnings;
})
extract fuel memory attribute_module_info hdr s =
    let first = s.g_boot_ctx.num_modules == 0 in
    done (record {
      g_boot_ctx = record s.g_boot_ctx {
        modules = if first then some hdr else s.g_boot_ctx.modules;
        num_modules = (s.g_boot_ctx.num_modules + 1) % 2 ^ 64;
      };
      warnings = if first then warn_on s.g_boot_ctx.modules s.warnings else s.warnings;
    })
extract fuel memory (attribute_unhandled type) hdr s =
    done (record s { warnings = not_handled type ∷ s.warnings })

-- The rounds that are left, and the header.
unfoldable pub attributes_loop : ℕ → Memory → ℕ → ℕ → Booting → Outcome Booting
attributes_loop fuel memory zero hdr s = done s
attributes_loop fuel memory (suc count) hdr s = do
  s ← extract fuel memory (attribute_type (header_type memory hdr)) hdr s
  attributes_loop fuel memory count (next_attribute memory hdr) s

-- Whether one of the mandatory attributes is missing.
abbrev pub is_null : Option ℕ → Bool
is_null none = true
is_null (some _) = false

-- `attribute_count` and `attributes` of the context
unfoldable pub boot_context_init : ℕ → Memory → ℕ → Booting → Outcome Booting
boot_context_init fuel memory ctx s = do
  s ← attributes_loop fuel memory (u32_at memory (ctx + 4)) (ctx + 8) s
  if is_null s.g_boot_ctx.kernel_info
      then bug
      else if is_null s.g_boot_ctx.platform_info
      then bug
      else if is_null s.g_boot_ctx.memory_map
      then bug
      else done s

-- "BIOS", "UEFI" and "<unknown platform>"
unfoldable pub platform_type_to_string : ℕ → List ℕ
platform_type_to_string type =
    if type == 1
    then 66 ∷ 73 ∷ 79 ∷ 83 ∷ []
    else if type == 2
    then 85 ∷ 69 ∷ 70 ∷ 73 ∷ []
    else 60 ∷ 117 ∷ 110 ∷ 107 ∷ 110 ∷ 111 ∷ 119 ∷ 110 ∷ 32 ∷ 112 ∷ 108 ∷ 97 ∷ 116 ∷ 102 ∷ 111 ∷ 114
      ∷ 109 ∷ 62 ∷ []

-- `g_boot_ctx` before the first call
abbrev pub not_booted : Booting
not_booted = record {
  g_boot_ctx = record {
    platform_info = none;
    kernel_info = none;
    memory_map = none;
    fb = none;
    modules = none;
    num_modules = 0;
    cmdline = [];
  };
  warnings = [];
}
