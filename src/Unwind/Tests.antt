-- ===== src/Unwind/Tests.antt =====
-- Walks over a stack of two frames.
use ultra.Prelude.{
  ℕ, zero, suc, ◌-◌, ◌<◌, ◌≡◌, refl, arith, Bool, true, false, Option, none, some, List, [], ◌∷◌,
  ◌++◌, ltb, lt→ltb, le→ltb, ◌≤◌, if◌then◌else◌, get_elem?,
}
use ultra.Unwind.Data.{ok, fault, eh_consume, eh_data_init, Image, Unwinder, UnwindState}
use ultra.Unwind.Decode.{
  shift_group, leb128_loop, format_bytes, sign_extend, copy_data, decode_copied, decode_format,
  scaling_base, decode_scaled, decode_value,
}
use ultra.Unwind.Parse.{
  unwind_get_return_address, get_reliable_pc, augmentation_loop, parse_cie, check_pc, parse_fde,
}
use ultra.Unwind.Table.{
  unwind_init, table_value, find_fde_loop, encode_error_ptr, find_fde, prepare_unwind_state,
}
use ultra.Unwind.Exec.{
  advance_loc, def_cfa_offset, def_cfa, exec_extended, exec_offset, exec_opcode, dwarf_exec_loop,
  dwarf_exec, Machine,
}
use ultra.Unwind.Local.{Ends}
use ultra.Unwind.Leb128.{decode_value-leb128_bytes}
use ultra.Unwind.Ends.{After, IsMachine, dwarf_exec-After, dwarf_exec-AgreeOn}
use ultra.Unwind.Rules.{initial_rules-AreRules}
use ultra.Unwind.Next.{unwind_walk-agree}
use ultra.Unwind.Find.{IsDescription, Decodes, find_fde-IsLastBelow}
use ultra.Unwind.Walk.{
  canonical_frame_address, load_saved, apply_rule, apply_loop, apply_reg_rules, initial_rules,
  advance_frame, out_error, unwind_next_frame, unwind_is_done, zeros, initial_state, Registers,
  unwind_current_begin, arch_unwind_current_begin, unwind_begin, walk_loop, unwind_walk,
}

abbrev bytes : List ℕ
bytes =
    -- .eh_frame_hdr
    1 ∷ 3 ∷ 3 ∷ 3 ∷ 0x14 ∷ 0x40 ∷ 0 ∷ 0 ∷ 1 ∷ 0 ∷ 0 ∷ 0 ∷ 0 ∷ 0x10 ∷ 0 ∷ 0 ∷ 0x2A ∷ 0x40 ∷ 0 ∷ 0
    -- the CIE: the CFA is rsp + 8, and the return address lies below it
    ∷ 0x12 ∷ 0 ∷ 0 ∷ 0 ∷ 0 ∷ 0 ∷ 0 ∷ 0 ∷ 1 ∷ 0x7A ∷ 0x52 ∷ 0 ∷ 1 ∷ 0x78 ∷ 0x10 ∷ 1 ∷ 3 ∷ 0x0C ∷ 7
    ∷ 8 ∷ 0x90 ∷ 1
    -- the FDE of 0x1000 to 0x1100: behind the first byte, the CFA is rsp + 16
    ∷ 0x10 ∷ 0 ∷ 0 ∷ 0 ∷ 0x1A ∷ 0 ∷ 0 ∷ 0 ∷ 0 ∷ 0x10 ∷ 0 ∷ 0 ∷ 0 ∷ 1 ∷ 0 ∷ 0 ∷ 0 ∷ 0x41 ∷ 0x0E
    ∷ 0x10
    -- the stack: the return addresses 0x1020 and 0
    ∷ 0 ∷ 0 ∷ 0 ∷ 0 ∷ 0 ∷ 0 ∷ 0 ∷ 0 ∷ 0x20 ∷ 0x10 ∷ 0 ∷ 0 ∷ 0 ∷ 0 ∷ 0 ∷ 0 ∷ 0 ∷ 0 ∷ 0 ∷ 0 ∷ 0 ∷ 0
    ∷ 0 ∷ 0 ∷ 0 ∷ 0 ∷ 0 ∷ 0 ∷ 0 ∷ 0 ∷ 0 ∷ 0 ∷ []

-- The bytes lie at 0x4000.
abbrev memory : List ℕ → ℕ → Option ℕ
memory bytes address = if ltb address 0x4000 then none else get_elem? bytes (address - 0x4000)

abbrev image : Image
image = record {
  memory = memory bytes;
  text_begin = 0x1000;
  eh_frame_hdr_begin = 0x4000;
  eh_frame_hdr_end = 0x4014;
  eh_frame_begin = 0x4014;
}

abbrev unwinder : Unwinder
unwinder = record {
  available = true;
  fde_binary_search_table = 0x400C;
  fde_table_encoding = 3;
  fde_table_entry_width = 8;
  num_fdes = 1;
}

abbrev trap : Registers
trap = record {
  r15 = 0;
  r14 = 0;
  r13 = 0;
  r12 = 0;
  rbp = 0;
  rbx = 0;
  r11 = 0;
  r10 = 0;
  r9 = 0;
  r8 = 0;
  rax = 0;
  rcx = 0;
  rdx = 0;
  rsi = 0;
  rdi = 0;
  error_code = 0;
  rip = 0x1010;
  cs = 0;
  flags = 0;
  rsp = 0x403E;
  ss = 0;
}

-- Collects what it is given.
abbrev collect : List (ℕ × Bool) → ℕ → Bool → Bool × List (ℕ × Bool)
collect seen address after_call = (true, seen ++ ((address, after_call) ∷ []))

runs : Unit {0}
unfolding eh_consume eh_data_init shift_group leb128_loop format_bytes sign_extend copy_data
    decode_copied decode_format scaling_base decode_scaled decode_value unwind_get_return_address
    get_reliable_pc augmentation_loop parse_cie check_pc parse_fde unwind_init table_value
    find_fde_loop encode_error_ptr find_fde prepare_unwind_state advance_loc def_cfa_offset def_cfa
    exec_extended exec_offset exec_opcode dwarf_exec_loop dwarf_exec canonical_frame_address
    load_saved apply_rule apply_loop apply_reg_rules initial_rules advance_frame out_error
    unwind_next_frame unwind_is_done zeros initial_state unwind_current_begin
    arch_unwind_current_begin unwind_begin walk_loop unwind_walk
runs = tt

unwind_init_test : unwind_init image ≡ ok unwinder
unfolding runs
unwind_init_test = refl

unwind_walk_test :
    unwind_walk image unwinder collect 3 trap (some trap) 0 []
    ≡ ok (0, (0x1010, false) ∷ (0x1020, true) ∷ [])
unfolding runs
unwind_walk_test = refl

-- From the running code, the walk starts behind the frame of its caller. Where that is the last one, the
-- callback is given 0.
unwind_walk_current_test :
    unwind_walk image unwinder collect 3 (record trap { rsp = 0x4046 }) none 0x1020 []
    ≡ ok (28, (0, true) ∷ [])
unfolding runs
unwind_walk_current_test = refl

-- The state of a trap.
abbrev trapped : UnwindState
trapped = record {
  frame = 0 ∷ 0 ∷ 0 ∷ 0 ∷ 0 ∷ 0 ∷ 0 ∷ 0x403E ∷ 0 ∷ 0 ∷ 0 ∷ 0 ∷ 0 ∷ 0 ∷ 0 ∷ 0 ∷ 0x1010 ∷ [];
  code_alignment_factor = 1;
  data_alignment_factor = 0xFFFFFFFFFFFFFFF8;
  cfa_offset = 16;
  pc = 0x1000;
  pc_end = 0;
  ret_reg_idx = 16;
  cfa_reg_idx = 7;
  end = false;
  signal_frame = true;
  fde_encoding = 3;
  cie_code = record { cursor = 0x4025; bytes_left = 5 };
  fde_code = record { cursor = 0x403B; bytes_left = 3 };
}

-- Stops at 0.
abbrev collect_until_null : List (ℕ × Bool) → ℕ → Bool → Bool × List (ℕ × Bool)
collect_until_null seen zero after_call = (false, [])
collect_until_null seen (suc address) after_call = collect seen (suc address) after_call

collects_alike :
    (seen : List (ℕ × Bool)) (pc : ℕ) (after_call : Bool)
    → 0 < pc
    → collect seen pc after_call ≡ collect_until_null seen pc after_call
collects_alike seen zero after_call h = absurd (omega arith)
collects_alike seen (suc pc) after_call h = refl

unwind_walk-agree_example :
    unwind_walk image unwinder collect 3 trap (some trap) 0 []
    ≡ unwind_walk image unwinder collect_until_null 3 trap (some trap) 0 []
unwind_walk-agree_example =
    unwind_walk-agree image unwinder collect collect_until_null collects_alike 3 trap trap 0 []
      (omega arith)

-- Two entries, of the code at 0x1000 and at 0x1100.
abbrev two_entries : Image
two_entries = record image {
  memory =
      memory (0 ∷ 0x10 ∷ 0 ∷ 0 ∷ 0 ∷ 0x50 ∷ 0 ∷ 0 ∷ 0 ∷ 0x11 ∷ 0 ∷ 0 ∷ 0x20 ∷ 0x50 ∷ 0 ∷ 0 ∷ []);
}

abbrev two_entries_unwinder : Unwinder
two_entries_unwinder = record unwinder { fde_binary_search_table = 0x4000; num_fdes = 2 }

first_entry : Decodes two_entries two_entries_unwinder 0 0x1000 0x5000
unfolding runs
first_entry = record {
  rest = record { cursor = 0x4004; bytes_left = 4 };
  fde_rest = record { cursor = 0x4008; bytes_left = 0 };
  sym_addr_lem = refl;
  fde_addr_lem = refl;
}

second_entry : Decodes two_entries two_entries_unwinder 1 0x1100 0x5020
unfolding runs
second_entry = record {
  rest = record { cursor = 0x400C; bytes_left = 4 };
  fde_rest = record { cursor = 0x4010; bytes_left = 0 };
  sym_addr_lem = refl;
  fde_addr_lem = refl;
}

two_entries-Decodes :
    (i sym_addr fde_addr : ℕ)
    → get_elem? (0x1000 ∷ 0x1100 ∷ []) i ≡ some sym_addr
    → get_elem? (0x5000 ∷ 0x5020 ∷ []) i ≡ some fde_addr
    → Decodes two_entries two_entries_unwinder i sym_addr fde_addr
two_entries-Decodes zero x y e f =
    let p : x ≡ 0x1000 = cc in let q : y ≡ 0x5000 = cc in rw (p, q) first_entry
two_entries-Decodes (suc zero) x y e f =
    let p : x ≡ 0x1100 = cc in let q : y ≡ 0x5020 = cc in rw (p, q) second_entry
two_entries-Decodes (suc (suc i)) x y e f = cc

find_fde-IsLastBelow_example :
    IsDescription
      (0x1000 ∷ 0x1100 ∷ [])
      (0x5000 ∷ 0x5020 ∷ [])
      0x1104
      (find_fde two_entries two_entries_unwinder 0x1104)
find_fde-IsLastBelow_example =
    find_fde-IsLastBelow two_entries two_entries_unwinder (0x1000 ∷ 0x1100 ∷ [])
      (0x5000 ∷ 0x5020 ∷ []) (record { count = refl; as_many = refl; entry = two_entries-Decodes })
      0x1104 0 (omega arith, (omega arith, tt)) (omega arith)

-- The instructions of the CIE.
abbrev machine : Machine
machine = record {
  state = trapped;
  rules = initial_rules 0 17;
  code = record { cursor = 0x4025; bytes_left = 5 };
}

machine-IsMachine : IsMachine machine
machine-IsMachine =
    let rules = initial_rules-AreRules 0 17 in ((refl, omega arith, omega arith), rules.1, rules.0)

dwarf_exec-After_example : Ends (dwarf_exec image machine) (After machine)
dwarf_exec-After_example = dwarf_exec-After image machine machine-IsMachine

-- Another memory, which has only the bytes of that code.
abbrev code_only : ℕ → Option ℕ
code_only address =
    if ltb address 0x4025 then none else if ltb address 0x402A then memory bytes address else none

code_only-AreSame :
    (address : ℕ) → 0x4025 ≤ address → address < 0x402A → memory bytes address ≡ code_only address
code_only-AreSame address h k = rw (le→ltb address 0x4025 h, lt→ltb address 0x402A k) refl

dwarf_exec-AgreeOn_example :
    dwarf_exec image machine ≡ dwarf_exec (record image { memory = code_only }) machine
dwarf_exec-AgreeOn_example =
    dwarf_exec-AgreeOn image code_only machine machine-IsMachine code_only-AreSame

-- 624485 in three bytes.
decode_value-leb128_bytes_example :
    decode_value
      (record image { memory = memory (0xE5 ∷ 0x8E ∷ 0x26 ∷ []) })
      (record { cursor = 0x4000; bytes_left = 3 })
      0x01
    ≡ ok (624485, record { cursor = 0x4003; bytes_left = 0 })
decode_value-leb128_bytes_example =
    decode_value-leb128_bytes (record image { memory = memory (0xE5 ∷ 0x8E ∷ 0x26 ∷ []) })
      (record { cursor = 0x4000; bytes_left = 3 }) 2 624485 (omega arith) (omega arith)
      (omega arith) (omega arith) (refl, (refl, (refl, tt)))

-- A sixth group is shifted by 35.
six_groups_test :
    decode_value
      (record image { memory = memory (0x80 ∷ 0x80 ∷ 0x80 ∷ 0x80 ∷ 0x80 ∷ 1 ∷ []) })
      (record { cursor = 0x4000; bytes_left = 6 })
      0x01
    ≡ fault
unfolding runs
six_groups_test = refl

-- A fifth group that reaches bit 31 makes the number negative.
fifth_group_test :
    decode_value
      (record image { memory = memory (0x80 ∷ 0x80 ∷ 0x80 ∷ 0x80 ∷ 8 ∷ []) })
      (record { cursor = 0x4000; bytes_left = 5 })
      0x01
    ≡ ok (0xFFFFFFFF80000000, record { cursor = 0x4005; bytes_left = 0 })
unfolding runs
fifth_group_test = refl
