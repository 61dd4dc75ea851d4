-- ===== src/Log.antt =====
-- kernel/log.c: messages to the consoles, and the dump of a stack.
pub mod Lines
mod Tests
use ultra.Prelude.{
  ℕ, zero, suc, ◌+◌, ◌-◌, ◌%◌, ◌^◌, Bool, true, false, not, Option, none, some, List, [], ◌∷◌, ◌++◌,
  ltb, leb, ◌==◌, if◌then◌else◌, take, drop, Outcome, done, ◌>>=◌,
}
use ultra.Format.Spec.{Arg, long_arg, chars_arg}
use ultra.Format.Print.{vscnprintf}
use ultra.Console.{Consoles, console_write}
use ultra.Symbols.{Tables, Lookup, error, found, symbol_lookup_by_address}
use ultra.Unwind.Data.{Image, Unwinder, Result}
use ultra.Unwind.Walk.{Registers, unwind_walk}

-- kernel/include/log.h
abbrev pub log_level_prefix_char : ℕ
log_level_prefix_char = 1

abbrev pub log_level_count : ℕ
log_level_count = 8

abbrev pub log_level_default : ℕ
log_level_default = 5

-- The number of bytes to skip and the level.
unfoldable pub extract_msg_level : List ℕ → ℕ → ℕ × ℕ
extract_msg_level [] level = (0, level)
extract_msg_level (c ∷ []) level =
    if not (c == log_level_prefix_char) then (0, level) else (1, level)
extract_msg_level (c ∷ d ∷ msg) level =
    let digit = (d + 256 - 48) % 256 in
    if not (c == log_level_prefix_char)
    then (0, level)
    else (2, if ltb digit log_level_count then digit else level)

-- What a call changes outside of it: the static `log_buf`, and the writes to consoles, each with the consoles in
-- order and the text, the last one first.
pub record Log : Type 0 where
  pub log_buf : List ℕ
  pub writes : List (List ℕ × List ℕ)

-- `console_write` of the start of `log_buf`, where `chars` is not negative
unfoldable pub write_log : ℕ → Consoles → Log → ℕ → Outcome Log
write_log fuel s log chars =
    let written = (do
      cons ← console_write fuel s
      done (record log { writes = (cons, take chars log.log_buf) ∷ log.writes })) in
    if leb (2 ^ 31) chars then done log else written

-- `fuel` is for the loop over the consoles.
unfoldable pub vprint : ℕ → Consoles → Log → Option (List ℕ) → List Arg → Outcome Log
vprint fuel s log none vlist = done log
vprint fuel s log (some msg) vlist = do
  let (skipped, level) = extract_msg_level msg log_level_default
  (chars, log_buf) ← vscnprintf log.log_buf 256 (drop skipped msg) vlist
  write_log fuel s (record log { log_buf = log_buf }) chars

unfoldable pub print : ℕ → Consoles → Log → Option (List ℕ) → List Arg → Outcome Log
print fuel s log msg args = vprint fuel s log msg args

-- "    #%zu in unknown/garbage <0x%016zX>\n"
abbrev pub garbage_line : List ℕ
garbage_line =
    32 ∷ 32 ∷ 32 ∷ 32 ∷ 35 ∷ 37 ∷ 122 ∷ 117 ∷ 32 ∷ 105 ∷ 110 ∷ 32 ∷ 117 ∷ 110 ∷ 107 ∷ 110 ∷ 111
    ∷ 119 ∷ 110 ∷ 47 ∷ 103 ∷ 97 ∷ 114 ∷ 98 ∷ 97 ∷ 103 ∷ 101 ∷ 32 ∷ 60 ∷ 48 ∷ 120 ∷ 37 ∷ 48 ∷ 49 ∷ 54
    ∷ 122 ∷ 88 ∷ 62 ∷ 10 ∷ []

-- "    #%zu in %s+%zu\n"
abbrev pub symbol_line : List ℕ
symbol_line =
    32 ∷ 32 ∷ 32 ∷ 32 ∷ 35 ∷ 37 ∷ 122 ∷ 117 ∷ 32 ∷ 105 ∷ 110 ∷ 32 ∷ 37 ∷ 115 ∷ 43 ∷ 37 ∷ 122 ∷ 117
    ∷ 10 ∷ []

-- "Call trace (most recent call first):\n"
abbrev pub trace_line : List ℕ
trace_line =
    67 ∷ 97 ∷ 108 ∷ 108 ∷ 32 ∷ 116 ∷ 114 ∷ 97 ∷ 99 ∷ 101 ∷ 32 ∷ 40 ∷ 109 ∷ 111 ∷ 115 ∷ 116 ∷ 32
    ∷ 114 ∷ 101 ∷ 99 ∷ 101 ∷ 110 ∷ 116 ∷ 32 ∷ 99 ∷ 97 ∷ 108 ∷ 108 ∷ 32 ∷ 102 ∷ 105 ∷ 114 ∷ 115 ∷ 116
    ∷ 41 ∷ 58 ∷ 10 ∷ []

-- `struct dump_state` without the level, which is not read, and the log.
pub record DumpState : Type 0 where
  pub depth : ℕ
  pub log : Log

unfoldable pub print_frame : ℕ → Consoles → ℕ → DumpState → Lookup → Outcome Log
print_frame fuel s addr state (error ret) =
    print fuel s state.log (some garbage_line) (long_arg state.depth ∷ long_arg addr ∷ [])
print_frame fuel s addr state (found sym offset) =
    print fuel s state.log (some symbol_line)
      (long_arg state.depth ∷ chars_arg (some (sym ++ (0 ∷ []))) ∷ long_arg offset ∷ [])

unfoldable pub do_dump_frame : Tables → ℕ → Consoles → DumpState → ℕ → Bool → Outcome DumpState
do_dump_frame t fuel s state addr addr_after_call = do
  let lookup_addr = if addr_after_call then (addr + (2 ^ 64 - 1)) % 2 ^ 64 else addr
  lookup ← symbol_lookup_by_address t lookup_addr
  log ← print_frame fuel s addr state lookup
  done (record { depth = (state.depth + 1) % 2 ^ 64; log = log })

-- The callback of `unwind_walk` goes on in any case.
unfoldable pub dump_frames :
    Tables → ℕ → Consoles → Outcome DumpState → ℕ → Bool → Bool × Outcome DumpState
dump_frames t fuel s state addr addr_after_call =
    (true, state >>= λ state. do_dump_frame t fuel s state addr addr_after_call)

-- What `unwind_walk` returns is dropped.
unfoldable pub dump_stack :
    Image
    → Unwinder
    → Tables
    → ℕ
    → Consoles
    → ℕ
    → Registers
    → Option Registers
    → ℕ
    → Log
    → Outcome (Result (ℕ × Outcome DumpState))
dump_stack k u t fuel s walk_fuel cpu regs return_address log = do
  log ← print fuel s log (some trace_line) []
  done (
      unwind_walk k u (dump_frames t fuel s) walk_fuel cpu regs return_address
        (done (record { depth = 0; log = log })))
