-- ===== src/Boot/Attributes.antt =====
-- kernel/entry.c: what the boot context has after the loop over the attributes.
use ultra.Prelude.{
  ℕ, zero, suc, ◌+◌, ◌%◌, ◌^◌, ◌<◌, ◌≡◌, ◌≢◌, refl, sym, ap, ◌∙◌, arith, Bool, true, false, ◌||◌,
  Option, none, some, List, [], ◌∷◌, length, ◌==◌, ==_of_ne, ==_of_eq, if◌then◌else◌, Outcome, done,
  bug, Returns, Returns_mono, Returns→done, fault, unfinished,
}
use native.Mathlib.Decide.{ℕ_discrete}
use ultra.Memory.{Memory, strlen, strlen_loop}
use ultra.Boot.{
  u32_at, header_type, next_attribute, AttributeType, attribute_platform_info,
  attribute_kernel_info, attribute_memory_map, attribute_module_info, attribute_command_line,
  not_booted, attribute_framebuffer_info, attribute_unhandled, attribute_type, BootContext, Booting,
  bytes_at, str_runtime, extract, attributes_loop, warn_on, is_null, boot_context_init,
}

-- The bytes of a string, and the 0 behind them.
abbrev pub IsText : Memory → ℕ → List ℕ → Type 0
IsText memory a [] = memory a ≡ 0
IsText memory a (c ∷ text) = (memory a ≡ c) × (c ≢ 0) × IsText memory (a + 1) text

strlen_loop-IsText :
    (fuel : ℕ) (memory : Memory) (a n : ℕ) (text : List ℕ)
    → IsText memory (a + n) text
    → length text < fuel
    → strlen_loop fuel memory a n ≡ done (n + length text)
unfolding strlen_loop
strlen_loop-IsText zero memory a n text h k = absurd (omega arith)
strlen_loop-IsText (suc fuel) memory a n [] h k = rw h (ap done (omega arith))
strlen_loop-IsText (suc fuel) memory a n (c ∷ text) (e, z, h) k =
    let next : a + n + 1 ≡ a + (n + 1) = omega arith in
    rw (e, ==_of_ne c 0 z)
      (strlen_loop-IsText fuel memory a (n + 1) text (rw (next) at h) (omega arith)
        ∙ ap done (omega arith))

bytes_at-IsText :
    (memory : Memory) (a : ℕ) (text : List ℕ)
    → IsText memory a text
    → bytes_at memory a (length text) ≡ text
bytes_at-IsText memory a [] h = refl
bytes_at-IsText memory a (c ∷ text) (e, z, h) =
    rw e (ap (λ l. c ∷ l) (bytes_at-IsText memory (a + 1) text h))

str_runtime-IsText :
    (fuel : ℕ) (memory : Memory) (a : ℕ) (text : List ℕ)
    → IsText memory a text
    → length text < fuel
    → str_runtime fuel memory a ≡ done text
unfolding str_runtime strlen
str_runtime-IsText fuel memory a text h k =
    let start : a + 0 ≡ a = omega arith in
    let size : strlen_loop fuel memory a 0 ≡ done (length text) =
      strlen_loop-IsText fuel memory a 0 text (rw (start) h) k ∙ ap done (omega arith) in
    rw size (ap done (bytes_at-IsText memory a text h))

-- An attribute: its type, its address, and for a command line its text.
abbrev pub Attribute : Type 0
Attribute = AttributeType × ℕ × List ℕ

abbrev pub TextOf : Memory → AttributeType → ℕ → List ℕ → Type 0
TextOf memory attribute_command_line a text = IsText memory (a + 8) text
TextOf memory _ a text = text ≡ []

-- The memory has the attributes one behind the other from an address on.
abbrev pub LaidOut : Memory → ℕ → ℕ → List Attribute → Type 0
LaidOut memory fuel a [] = Unit {0}
LaidOut memory fuel a ((type, hdr, text) ∷ attributes) =
    (hdr ≡ a)
    × (attribute_type (header_type memory a) ≡ type)
    × TextOf memory type a text
    × (length text < fuel)
    × LaidOut memory fuel (next_attribute memory a) attributes

-- The last attribute of a type, or the first one, how many there are, and the last command line.
abbrev pub last_of : (AttributeType → Bool) → Option ℕ → List Attribute → Option ℕ
last_of is_type o [] = o
last_of is_type o ((type, hdr, _) ∷ attributes) =
    last_of is_type (if is_type type then some hdr else o) attributes

abbrev pub is_platform_info : AttributeType → Bool
is_platform_info attribute_platform_info = true
is_platform_info _ = false

abbrev pub is_kernel_info : AttributeType → Bool
is_kernel_info attribute_kernel_info = true
is_kernel_info _ = false

abbrev pub is_memory_map : AttributeType → Bool
is_memory_map attribute_memory_map = true
is_memory_map _ = false

abbrev pub is_framebuffer_info : AttributeType → Bool
is_framebuffer_info attribute_framebuffer_info = true
is_framebuffer_info _ = false

abbrev pub module_addresses : List Attribute → List ℕ
module_addresses [] = []
module_addresses ((attribute_module_info, hdr, _) ∷ attributes) = hdr ∷ module_addresses attributes
module_addresses ((_, hdr, _) ∷ attributes) = module_addresses attributes

abbrev pub first_of : List ℕ → Option ℕ
first_of [] = none
first_of (a ∷ _) = some a

abbrev pub last_cmdline : List ℕ → List Attribute → List ℕ
last_cmdline cmdline [] = cmdline
last_cmdline cmdline ((attribute_command_line, _, text) ∷ attributes) = last_cmdline text attributes
last_cmdline cmdline ((_, _, _) ∷ attributes) = last_cmdline cmdline attributes

-- The context behind a context and the attributes.
abbrev pub after : BootContext → List Attribute → BootContext
after c attributes = record {
  platform_info = last_of is_platform_info c.platform_info attributes;
  kernel_info = last_of is_kernel_info c.kernel_info attributes;
  memory_map = last_of is_memory_map c.memory_map attributes;
  fb = last_of is_framebuffer_info c.fb attributes;
  modules = if c.num_modules == 0 then first_of (module_addresses attributes) else c.modules;
  num_modules = c.num_modules + length (module_addresses attributes);
  cmdline = last_cmdline c.cmdline attributes;
}

-- No module has been counted and none is there.
abbrev pub Counted : BootContext → Type 0
Counted c = (c.num_modules ≡ 0) → c.modules ≡ none

abbrev pub After : List Attribute → BootContext → Booting → Type 0
After attributes c s = s.g_boot_ctx ≡ after c attributes

-- A context with its modules and their number replaced.
abbrev with_modules : BootContext → List Attribute → Option ℕ → ℕ → BootContext
with_modules c attributes modules num_modules = record (after c attributes) {
  modules = modules;
  num_modules = num_modules;
}

-- The context behind one more module.
abbrev one_more : ℕ → BootContext → BootContext
one_more hdr c = record c {
  modules = if c.num_modules == 0 then some hdr else c.modules;
  num_modules = (c.num_modules + 1) % 2 ^ 64;
}

-- The first module that is counted is the one that is kept.
after_module :
    (c : BootContext) (hdr : ℕ) (text : List ℕ) (attributes : List Attribute)
    → c.num_modules + 1 < 2 ^ 64
    → after (one_more hdr c) attributes ≡ after c ((attribute_module_info, hdr, text) ∷ attributes)
after_module c hdr text attributes h =
    let more : ((c.num_modules + 1) % 2 ^ 64 == 0) ≡ false = ==_of_ne _ 0 (λ q. omega (arith, q)) in
    let sum : (c.num_modules + 1) % 2 ^ 64 + length (module_addresses attributes)
        ≡ c.num_modules + suc (length (module_addresses attributes)) =
      omega arith in
    λ i.
      with_modules c attributes
        (if more i
          then first_of (module_addresses attributes)
          else if c.num_modules == 0
          then some hdr
          else c.modules)
        (sum i)

after_nil : (c : BootContext) → Counted c → c ≡ after c []
after_nil c h =
    let modules : c.modules ≡ (if c.num_modules == 0 then none else c.modules) =
      elim (ℕ_discrete c.num_modules 0) [
        | yes e ↦ rw (==_of_eq c.num_modules 0 e) (h e)
        | no n ↦ rw (==_of_ne c.num_modules 0 n) refl
      ] in
    let sum : c.num_modules ≡ c.num_modules + 0 = omega arith in
    λ i. with_modules c [] (modules i) (sum i)

loop-After :
    (fuel : ℕ) (memory : Memory) (attributes : List Attribute) (a : ℕ) (s : Booting)
    → LaidOut memory fuel a attributes
    → Counted s.g_boot_ctx
    → s.g_boot_ctx.num_modules + length attributes < 2 ^ 64
    → Returns (attributes_loop fuel memory (length attributes) a s) (After attributes s.g_boot_ctx)
unfolding attributes_loop extract
loop-After fuel memory [] a s l c b = after_nil s.g_boot_ctx c
loop-After fuel memory ((attribute_platform_info, hdr, text) ∷ attributes) a s (e, t, x, k, l) c b =
    rw (t, e) (loop-After fuel memory attributes (next_attribute memory a) _ l c (omega arith))
loop-After fuel memory ((attribute_kernel_info, hdr, text) ∷ attributes) a s (e, t, x, k, l) c b =
    rw (t, e) (loop-After fuel memory attributes (next_attribute memory a) _ l c (omega arith))
loop-After fuel memory ((attribute_memory_map, hdr, text) ∷ attributes) a s (e, t, x, k, l) c b =
    rw (t, e) (loop-After fuel memory attributes (next_attribute memory a) _ l c (omega arith))
loop-After fuel memory ((attribute_framebuffer_info, hdr, text) ∷ attributes) a s (e, t, x, k, l) c
      b =
    rw (t, e) (loop-After fuel memory attributes (next_attribute memory a) _ l c (omega arith))
loop-After fuel memory ((attribute_unhandled type, hdr, text) ∷ attributes) a s (e, t, x, k, l) c
      b =
    rw t (loop-After fuel memory attributes (next_attribute memory a) _ l c (omega arith))
loop-After fuel memory ((attribute_command_line, hdr, text) ∷ attributes) a s (e, t, x, k, l) c b =
    rw (t, str_runtime-IsText fuel memory (a + 8) text x k)
      (loop-After fuel memory attributes (next_attribute memory a) _ l c (omega arith))
loop-After fuel memory ((attribute_module_info, hdr, text) ∷ attributes) a s (e, t, x, k, l) c b =
    let first = s.g_boot_ctx.num_modules == 0 in
    let next : Booting = record {
      g_boot_ctx = one_more a s.g_boot_ctx;
      warnings = if first then warn_on s.g_boot_ctx.modules s.warnings else s.warnings;
    } in
    rw (t, e)
      (Returns_mono (attributes_loop fuel memory (length attributes) (next_attribute memory a) next)
        (λ s' (q : After attributes (one_more a s.g_boot_ctx) s').
          q ∙ after_module s.g_boot_ctx a text attributes (omega arith))
        (loop-After fuel memory attributes (next_attribute memory a) next l
          (λ z. absurd (omega (arith, z))) (omega arith)))

-- Whether one of the mandatory attributes is missing.
abbrev pub missing : BootContext → Bool
missing c = is_null c.kernel_info || is_null c.platform_info || is_null c.memory_map

-- The context that the attributes give, or a panic where a mandatory one is missing.
abbrev pub Described : List Attribute → Outcome Booting → Type 0
Described attributes (done s) =
    After attributes not_booted.g_boot_ctx s
    × (missing (after not_booted.g_boot_ctx attributes) ≡ false)
Described attributes bug = missing (after not_booted.g_boot_ctx attributes) ≡ true
Described attributes fault = ⊥
Described attributes unfinished = ⊥

checked-Described :
    (attributes : List Attribute) (s : Booting) (kernel platform map : Bool)
    → After attributes not_booted.g_boot_ctx s
    → missing (after not_booted.g_boot_ctx attributes) ≡ (kernel || platform || map)
    → Described attributes
        (if kernel then bug else if platform then bug else if map then bug else done s)
checked-Described attributes s true platform map h e = e
checked-Described attributes s false true map h e = e
checked-Described attributes s false false true h e = e
checked-Described attributes s false false false h e = (h, e)

-- Attributes one behind the other, as many as the context says, with every command line ended by a 0 and shorter
-- than the fuel: the context gets the last platform info, kernel info, memory map, framebuffer and command line, the
-- first module and the number of modules; the kernel panics where there is no kernel info, no platform info or no
-- memory map, and only there.
pub boot_context_init-Described :
    (fuel : ℕ) (memory : Memory) (ctx : ℕ) (attributes : List Attribute)
    → u32_at memory (ctx + 4) ≡ length attributes
    → length attributes < 2 ^ 32
    → LaidOut memory fuel (ctx + 8) attributes
    → Described attributes (boot_context_init fuel memory ctx not_booted)
unfolding boot_context_init
boot_context_init-Described fuel memory ctx attributes n b l =
    let (s, e, h) =
      Returns→done (attributes_loop fuel memory (length attributes) (ctx + 8) not_booted)
        (loop-After fuel memory attributes (ctx + 8) not_booted l (λ z. refl) (omega arith)) in
    rw (n, e)
      (checked-Described attributes s (is_null s.g_boot_ctx.kernel_info)
        (is_null s.g_boot_ctx.platform_info) (is_null s.g_boot_ctx.memory_map) h
        (ap missing (sym h)))
