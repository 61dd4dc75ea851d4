-- ===== src/Unwind/Walk.antt =====
-- kernel/unwind.c: `apply_reg_rules`, `unwind_next_frame` and the functions that start and drive a walk;
-- kernel/arch/x86/unwind.c and unwind.S.
use ultra.Prelude.{
  ℕ, zero, suc, ◌+◌, ◌*◌, Bool, true, false, not, ◌||◌, Option, none, some, List, [], ◌∷◌, ◌==◌,
  if◌then◌else◌,
}
use ultra.Unwind.Data.{
  Result, ok, error, fault, unfinished, ◌>>=◌, eok, einval, enosys, enodev, u64, Image, UnwindState,
  Unwinder, arch_num_dwarf_registers, dwarf_reg_rip, dwarf_sp_reg, at, load,
}
use ultra.Unwind.Parse.{unwind_get_return_address}
use ultra.Unwind.Table.{prepare_unwind_state}
use ultra.Unwind.Exec.{RegisterRule, dw_cfa_same_value, dw_cfa_offset, dw_cfa_def_cfa, dwarf_exec}

-- `state->frame[state->cfa_reg_idx] + state->cfa_offset`
unfoldable pub canonical_frame_address : UnwindState → Result ℕ
canonical_frame_address state = do
  base ← at state.frame state.cfa_reg_idx
  ok (u64 (base + state.cfa_offset))

-- `DW_CFA_offset`; an offset that was never written is not to be read.
unfoldable pub load_saved : Image → UnwindState → Option ℕ → ℕ → Result ℕ
load_saved k state none cfa = fault
load_saved k state (some offset) cfa =
    load k.memory (u64 (cfa + offset * state.data_alignment_factor)) 8

-- The new value of register `i`.
unfoldable pub apply_rule : Image → UnwindState → ℕ → RegisterRule → Result ℕ
apply_rule k state i r =
    if r.rule == dw_cfa_same_value
    then at state.frame i
    else if r.rule == dw_cfa_offset
    then canonical_frame_address state >>= load_saved k state r.offset
    else if r.rule == dw_cfa_def_cfa
    then canonical_frame_address state
    else error enosys

unfoldable pub apply_loop : Image → UnwindState → ℕ → List RegisterRule → Result (List ℕ)
apply_loop k state i [] = ok []
apply_loop k state i (r ∷ rules) = do
  value ← apply_rule k state i r
  new_frame ← apply_loop k state (i + 1) rules
  ok (value ∷ new_frame)

unfoldable pub apply_reg_rules :
    Image → UnwindState → List RegisterRule → Result (UnwindState × List ℕ)
apply_reg_rules k state rules = do
  new_frame ← apply_loop k state 0 rules
  ok (record state { cfa_reg_idx = dwarf_sp_reg; cfa_offset = 0 }, new_frame)

-- The rules of `unwind_next_frame` for the registers from `i` on.
unfoldable pub initial_rules : ℕ → ℕ → List RegisterRule
initial_rules i zero = []
initial_rules i (suc count) =
    record { rule = if i == dwarf_sp_reg then dw_cfa_def_cfa else dw_cfa_same_value; offset = none }
    ∷ initial_rules (i + 1) count

-- `unwind_next_frame` up to `out_error`
unfoldable pub advance_frame : Image → Unwinder → UnwindState → Result UnwindState
advance_frame k u state = do
  state ← prepare_unwind_state k u state
  let state : UnwindState = record state { signal_frame = false }
  x ← dwarf_exec k (record {
    state = state;
    rules = initial_rules 0 arch_num_dwarf_registers;
    code = state.cie_code;
  })
  let state : UnwindState = record (x.state) { cie_code = x.code }
  x ← dwarf_exec k (record { state = state; rules = x.rules; code = state.fde_code })
  let state : UnwindState = record (x.state) { fde_code = x.code }
  (state, new_frame) ← apply_reg_rules k state x.rules
  let state : UnwindState = record state { frame = new_frame }
  return_address ← unwind_get_return_address state
  ok (record state { end = return_address == 0 })

-- `out_error`: the code that is returned and the state behind it.
unfoldable pub out_error : UnwindState → Result UnwindState → Result (ℕ × UnwindState)
out_error state (ok next) = ok (eok, next)
out_error state (error ret) = ok (ret, record state { end = true })
out_error state fault = fault
out_error state unfinished = unfinished

unfoldable pub unwind_next_frame : Image → Unwinder → UnwindState → Result (ℕ × UnwindState)
unwind_next_frame k u state =
    let advanced = out_error state (advance_frame k u state) in
    if state.end then ok (einval, state) else advanced

unfoldable pub unwind_is_done : UnwindState → Bool
unwind_is_done state = state.end

-- kernel/arch/x86/include/arch/registers.h
pub record Registers : Type 0 where
  pub r15 : ℕ
  pub r14 : ℕ
  pub r13 : ℕ
  pub r12 : ℕ
  pub rbp : ℕ
  pub rbx : ℕ
  pub r11 : ℕ
  pub r10 : ℕ
  pub r9 : ℕ
  pub r8 : ℕ
  pub rax : ℕ
  pub rcx : ℕ
  pub rdx : ℕ
  pub rsi : ℕ
  pub rdi : ℕ
  pub error_code : ℕ
  pub rip : ℕ
  pub cs : ℕ
  pub flags : ℕ
  pub rsp : ℕ
  pub ss : ℕ

-- The frame that is written, by the numbers `DWARF_REG_RAX` to `DWARF_REG_RIP`.
abbrev pub arch_registers_to_dwarf_registers : Registers → List ℕ
arch_registers_to_dwarf_registers regs =
    regs.rax ∷ regs.rdx ∷ regs.rcx ∷ regs.rbx ∷ regs.rsi ∷ regs.rdi ∷ regs.rbp ∷ regs.rsp ∷ regs.r8
    ∷ regs.r9 ∷ regs.r10 ∷ regs.r11 ∷ regs.r12 ∷ regs.r13 ∷ regs.r14 ∷ regs.r15 ∷ regs.rip ∷ []

unfoldable pub zeros : ℕ → List ℕ
zeros zero = []
zeros (suc n) = 0 ∷ zeros n

-- `memzero(state, sizeof(*state))` and `state->ret_reg_idx = ARCH_DWARF_PC_REG`
unfoldable pub initial_state : UnwindState
initial_state = record {
  frame = zeros arch_num_dwarf_registers;
  code_alignment_factor = 0;
  data_alignment_factor = 0;
  cfa_offset = 0;
  pc = 0;
  pc_end = 0;
  ret_reg_idx = dwarf_reg_rip;
  cfa_reg_idx = 0;
  end = false;
  signal_frame = false;
  fde_encoding = 0;
  cie_code = record { cursor = 0; bytes_left = 0 };
  fde_code = record { cursor = 0; bytes_left = 0 };
}

-- The loop of `unwind_current_begin`, which returns at `starting_pc` or at the end. A cycle of frames
-- would keep it running.
unfoldable pub unwind_current_begin :
    Image → Unwinder → ℕ → UnwindState → ℕ → Result (ℕ × UnwindState)
unwind_current_begin k u zero state starting_pc = unfinished
unwind_current_begin k u (suc fuel) state starting_pc = do
  (ret, state) ← unwind_next_frame k u state
  return_address ← unwind_get_return_address state
  let later = unwind_current_begin k u fuel state starting_pc
  if unwind_is_done state || return_address == starting_pc then ok (ret, state) else later

-- kernel/arch/x86/unwind.S: the registers of the processor, with the stack pointer of the caller and
-- the return address that lies below it.
unfoldable pub arch_unwind_current_begin :
    Image → Unwinder → ℕ → Registers → UnwindState → ℕ → Result (ℕ × UnwindState)
arch_unwind_current_begin k u fuel cpu state starting_pc = do
  return_address ← load k.memory cpu.rsp 8
  let regs : Registers = record cpu { rsp = u64 (cpu.rsp + 8); rip = return_address }
  unwind_current_begin k u fuel (record state { frame = arch_registers_to_dwarf_registers regs })
      starting_pc

-- `cpu` is what the processor's registers hold when the walk starts from the running code.
unfoldable pub unwind_begin :
    Image → Unwinder → ℕ → Registers → Option Registers → ℕ → Result (ℕ × UnwindState)
unwind_begin k u fuel cpu none starting_pc =
    let begun = arch_unwind_current_begin k u fuel cpu initial_state starting_pc in
    if u.available then begun else error enodev
unwind_begin k u fuel cpu (some regs) starting_pc =
    if u.available
    then ok (
      eok,
      record initial_state { frame = arch_registers_to_dwarf_registers regs; signal_frame = true },
    )
    else error enodev

module _ {A : Type 0} (k : Image) (u : Unwinder) (callback : A → ℕ → Bool → Bool × A) where
  -- The loop of `unwind_walk`; the callback passes its data on.
  unfoldable pub walk_loop : ℕ → UnwindState → ℕ → A → Result (ℕ × A)
  walk_loop zero state ret user = unfinished
  walk_loop (suc fuel) state ret user = do
    return_address ← unwind_get_return_address state
    let (goes_on, user) = callback user return_address (not state.signal_frame)
    let next = (do
      (ret, state) ← unwind_next_frame k u state
      let later = walk_loop fuel state ret user
      if unwind_is_done state then ok (ret, user) else later)
    if goes_on then next else ok (ret, user)

  -- `return_address` is what `__builtin_return_address(0)` gives. The two loops are on fuel.
  unfoldable pub unwind_walk : ℕ → Registers → Option Registers → ℕ → A → Result (ℕ × A)
  unwind_walk fuel cpu regs return_address user = do
    let starting_pc : ℕ = elim regs [ none ↦ return_address | some _ ↦ 0 ]
    (ret, state) ← unwind_begin k u fuel cpu regs starting_pc
    let walked = walk_loop fuel state ret user
    if ret == eok then walked else error ret
