-- ===== src/Unwind/Ends.antt =====
-- kernel/unwind.c: `dwarf_exec` on any code: it ends, reads only its code, and keeps its machine in bounds.
use ultra.Prelude.{
  ℕ, zero, suc, ◌-◌, ◌*◌, ◌/◌, ◌%◌, ◌≤◌, ◌<◌, ◌≡◌, ◌⊎◌, inl, inr, refl, ◌∙◌, arith, ◌||◌, Option,
  some, List, [], ◌∷◌, length, get_elem?, length-set, set, ltb, leb, ◌==◌, Bool-cases, ==_of_eq,
}
use ultra.Unwind.Data.{
  Result, ok, error, enosys, Image, UnwindState, arch_num_dwarf_registers, at, eh_consume,
}
use ultra.Unwind.Decode.{copy_data, decode_value}
use ultra.Unwind.Parse.{unwind_get_return_address}
use ultra.Unwind.Exec.{
  RegisterRule, Machine, advance, store_rule, advance_loc, def_cfa_offset, def_cfa, exec_extended,
  exec_offset, exec_opcode, dwarf_exec_loop, dwarf_exec, dw_cfa_same_value, dw_cfa_offset,
  dw_cfa_def_cfa, dw_cfa_nop, dw_cfa_advance_loc1, dw_cfa_advance_loc2, dw_cfa_advance_loc4,
  dw_cfa_def_cfa_register, dw_cfa_def_cfa_offset, dw_cfa_advance_loc, dw_cfa_restore,
}
use ultra.Unwind.Local.{
  mapped-Ends, Ends, Same, Same-bind, Same_mono, Same-if, Within, Behind, Within-trans, other,
  AgreeOn, AgreeOn-Within, eh_consume_same, copy_data_same, decode_value_same,
}

-- The two register numbers of the state are in its frame.
abbrev pub IsState : UnwindState → Type 0
IsState s =
    (length s.frame ≡ arch_num_dwarf_registers)
    × (s.ret_reg_idx < arch_num_dwarf_registers)
    × (s.cfa_reg_idx < arch_num_dwarf_registers)

-- A rule that `apply_reg_rules` handles.
abbrev pub IsRule : RegisterRule → Type 0
IsRule r =
    (r.rule ≡ dw_cfa_same_value)
    ⊎ (((r.rule ≡ dw_cfa_offset) × (offset : ℕ) × (r.offset ≡ some offset))
        ⊎ (r.rule ≡ dw_cfa_def_cfa))

abbrev pub AreRules : List RegisterRule → Type 0
AreRules [] = Unit
AreRules (r ∷ rules) = IsRule r × AreRules rules

abbrev pub IsMachine : Machine → Type 0
IsMachine x = IsState x.state × (length x.rules ≡ arch_num_dwarf_registers) × AreRules x.rules

-- After a step: the machine is in bounds, the rest of the code is the end of the code, and of the state
-- only `pc` and the two fields of the CFA have changed.
abbrev pub After : Machine → Machine → Type 0
After x y =
    IsMachine y
    × Within x.code y.code
    × (y.state.frame ≡ x.state.frame)
    × (y.state.ret_reg_idx ≡ x.state.ret_reg_idx)
    × (y.state.end ≡ x.state.end)

After-trans : (x y z : Machine) → After x y → After y z → After x z
After-trans x y z a b =
    (b.0, Within-trans x.code y.code z.code a.1 b.1, b.2 ∙ a.2, b.3 ∙ a.3, b.4 ∙ a.4)

AreRules-set :
    (rules : List RegisterRule) (i : ℕ) (r : RegisterRule)
    → IsRule r
    → AreRules rules
    → AreRules (set rules i r)
AreRules-set [] i r h a = tt
AreRules-set (q ∷ rules) zero r h a = (h, a.1)
AreRules-set (q ∷ rules) (suc i) r h a = (a.0, AreRules-set rules i r h a.1)

store_rule-After :
    (x y : Machine) (reg : ℕ) (r : RegisterRule)
    → IsRule r
    → After x y
    → After x (store_rule y reg r)
store_rule-After x y reg r h a = elim (Bool-cases (ltb reg arch_num_dwarf_registers)) [
  | inl e ↦ rw e (
    (a.0.0, length-set y.rules reg r ∙ a.0.1, AreRules-set y.rules reg r h a.0.2),
    a.1,
    a.2,
    a.3,
    a.4,
  )
  | inr e ↦ rw e a
]

pub at-Ends : (xs : List ℕ) (i : ℕ) → Ends (at xs i) (λ v. Unit)
at-Ends xs i = mapped-Ends (get_elem? xs i)

pub return_address-Ends : (s : UnwindState) → Ends (unwind_get_return_address s) (λ v. Unit)
unfolding unwind_get_return_address
return_address-Ends s = elim (Bool-cases s.end) [
  | inl e ↦ rw e tt
  | inr e ↦ rw e (at-Ends s.frame s.ret_reg_idx)
]

-- A step ends alike on two memories that agree on the code, and keeps the machine in bounds.
abbrev Alike : Image → (ℕ → Option ℕ) → (Image → Machine → Result Machine) → Machine → Type 0
Alike k memory f x =
    IsMachine x → AgreeOn k memory x.code → Same (f k x) (f (other k memory) x) (After x)

module _ (k : Image) (memory : ℕ → Option ℕ) where
  advance_loc_same : (n : ℕ) (x : Machine) → Alike k memory (λ k. advance_loc k n) x
  unfolding advance_loc
  advance_loc_same n x m agree =
      Same-bind (λ r. Behind n x.code r.1) _ (copy_data k x.code n)
        (copy_data (other k memory) x.code n) _ _ (copy_data_same k memory x.code n agree)
        (λ r b. (refl, (m, (omega arith, omega arith), refl, refl, refl)))

  exec_offset_same : (reg : ℕ) (x : Machine) → Alike k memory (λ k. exec_offset k reg) x
  unfolding exec_offset
  exec_offset_same reg x m agree =
      Same-bind (λ r. Within x.code r.1) _ (decode_value k x.code 1)
        (decode_value (other k memory) x.code 1) _ _ (decode_value_same k memory x.code 1 agree)
        (λ r w. (
          refl,
          store_rule-After x (record x { code = r.1 }) reg
              (record { rule = dw_cfa_offset; offset = some (r.0) }) (inr (inl (refl, r.0, refl)))
              (m, w, refl, refl, refl),
        ))

  def_cfa_offset_same : (x : Machine) → Alike k memory (λ k. def_cfa_offset k) x
  unfolding def_cfa_offset
  def_cfa_offset_same x m agree =
      Same-bind (λ r. Within x.code r.1) _ (decode_value k x.code 1)
        (decode_value (other k memory) x.code 1) _ _ (decode_value_same k memory x.code 1 agree)
        (λ r w. (refl, (m, w, refl, refl, refl)))

  def_cfa_same : (opcode : ℕ) (x : Machine) → Alike k memory (λ k. def_cfa k opcode) x
  unfolding def_cfa
  def_cfa_same opcode x m agree =
      Same-bind (λ r. Within x.code r.1) _ (decode_value k x.code 1)
        (decode_value (other k memory) x.code 1) _ _ (decode_value_same k memory x.code 1 agree)
        (λ r w.
          let y : Machine = record x {
            code = r.1;
            state = record (x.state) { cfa_reg_idx = r.0 };
          } in
          Same-if _ (leb arch_num_dwarf_registers r.0) _ _ _ _ (λ e. (refl, tt))
            (λ e.
              let n : IsMachine y = ((m.0.0, m.0.1, ground arith), m.1, m.2) in
              let a : After x y = (n, w, refl, refl, refl) in
              Same-if _ (opcode == dw_cfa_def_cfa) _ _ _ _
                (λ e.
                  Same_mono _ _ _ _
                    (def_cfa_offset_same y n (AgreeOn-Within k memory x.code r.1 w agree))
                    (λ z b. After-trans x y z a b))
                (λ e. (refl, a))))

  exec_extended_same : (opcode : ℕ) (x : Machine) → Alike k memory (λ k. exec_extended k opcode) x
  unfolding exec_extended
  exec_extended_same opcode x m agree =
      let stays : Same (ok x) (ok x) (After x) =
        (refl, (m, (omega arith, refl), refl, refl, refl)) in
      let refused : Same (error enosys) (error enosys) (After x) = (refl, tt) in
      Same-if (After x) (opcode == dw_cfa_nop) _ _ _ _ (λ e. stays)
        (λ e.
          Same-if (After x) (opcode == dw_cfa_advance_loc4) _ _ _ _
            (λ e. advance_loc_same 4 x m agree)
            (λ e.
              Same-if (After x) (opcode == dw_cfa_advance_loc2 || opcode == dw_cfa_advance_loc1) _ _
                _ _ (λ e. advance_loc_same (opcode - 1) x m agree)
                (λ e.
                  Same-if (After x) (opcode == dw_cfa_def_cfa || opcode == dw_cfa_def_cfa_register)
                    _ _ _ _ (λ e. def_cfa_same opcode x m agree)
                    (λ e.
                      Same-if (After x) (opcode == dw_cfa_def_cfa_offset) _ _ _ _
                        (λ e. def_cfa_offset_same x m agree) (λ e. refused)))))

  exec_opcode_same : (opcode : ℕ) (x : Machine) → Alike k memory (λ k. exec_opcode k opcode) x
  unfolding exec_opcode
  exec_opcode_same opcode x m agree =
      let here : After x x = (m, (omega arith, refl), refl, refl, refl) in
      let high = opcode / 64 * 64 in
      let low = opcode % 64 in
      let moved : Same (ok (advance x low)) (ok (advance x low)) (After x) = (refl, here) in
      let restore : RegisterRule = record { rule = dw_cfa_same_value; offset = some 0 } in
      let y = store_rule x low restore in
      let restored : Same (ok y) (ok y) (After x) =
        (refl, store_rule-After x x low restore (inl refl) here) in
      let refused : Same (error enosys) (error enosys) (After x) = (refl, tt) in
      Same-if (After x) (high == 0) _ _ _ _ (λ e. exec_extended_same opcode x m agree)
        (λ e.
          Same-if (After x) (high == dw_cfa_advance_loc) _ _ _ _ (λ e. moved)
            (λ e.
              Same-if (After x) (high == dw_cfa_offset) _ _ _ _
                (λ e. exec_offset_same low x m agree)
                (λ e.
                  Same-if (After x) (high == dw_cfa_restore) _ _ _ _ (λ e. restored)
                    (λ e. refused))))

  dwarf_exec_loop_same :
      (fuel : ℕ) (x : Machine)
      → x.code.bytes_left ≤ fuel
      → Alike k memory (λ k. dwarf_exec_loop k fuel) x
  unfolding dwarf_exec_loop
  dwarf_exec_loop_same zero x f m agree =
      rw (==_of_eq x.code.bytes_left 0 (omega arith))
        (refl, (m, (omega arith, refl), refl, refl, refl))
  dwarf_exec_loop_same (suc fuel) x f m agree =
      let here : After x x = (m, (omega arith, refl), refl, refl, refl) in
      let stays : Same (ok x) (ok x) (After x) = (refl, here) in
      Same-if (After x) (x.code.bytes_left == 0) _ _ _ _ (λ e. stays)
        (λ e.
          Same-bind (λ v. Unit) (After x) (unwind_get_return_address x.state)
            (unwind_get_return_address x.state) _ _ (refl, return_address-Ends x.state)
            (λ return_address u.
              Same-if (After x) (ltb return_address x.state.pc) _ _ _ _ (λ e. stays)
                (λ e.
                  Same-bind (λ r. Behind 1 x.code r.1) (After x) (eh_consume k x.code 1)
                    (eh_consume (other k memory) x.code 1) _ _
                    (eh_consume_same k memory x.code 1 agree)
                    (λ r b.
                      let w : Within x.code r.1 = (omega arith, omega arith) in
                      let y : Machine = record x { code = r.1 } in
                      let a : After x y = (m, w, refl, refl, refl) in
                      let agrees = AgreeOn-Within k memory x.code r.1 w agree in
                      Same-bind (After y) (After x) (exec_opcode k r.0 y)
                        (exec_opcode (other k memory) r.0 y) _ _ (exec_opcode_same r.0 y m agrees)
                        (λ z c.
                          Same_mono (After z) (After x) _ _
                            (dwarf_exec_loop_same fuel z (omega (arith, c.1, b)) c.0
                              (AgreeOn-Within k memory r.1 z.code c.1 agrees))
                            (λ t d. After-trans x z t (After-trans x y z a c) d))))))

  -- From a machine whose register numbers are in the frame and whose rules are seventeen that `apply_reg_rules`
  -- handles, and where two memories agree on the bytes of the code, `dwarf_exec` ends alike on both: it reads no
  -- byte outside its code.
  pub dwarf_exec-AgreeOn :
      (x : Machine)
      → IsMachine x
      → AgreeOn k memory x.code
      → dwarf_exec k x ≡ dwarf_exec (other k memory) x
  unfolding dwarf_exec
  dwarf_exec-AgreeOn x m agree = (dwarf_exec_loop_same x.code.bytes_left x (omega arith) m agree).0

-- From a machine whose register numbers are in the frame and whose rules are seventeen that `apply_reg_rules`
-- handles, and on whatever code it has, as many rounds as the code has bytes are enough for `dwarf_exec`, and where
-- it returns without an error, the machine is such a one again, the rest of the code is its end, and the frame, the
-- register of the return address and the end mark have not changed.
pub dwarf_exec-After : (k : Image) (x : Machine) → IsMachine x → Ends (dwarf_exec k x) (After x)
unfolding dwarf_exec
dwarf_exec-After k x m =
    (dwarf_exec_loop_same k k.memory x.code.bytes_left x (omega arith) m (λ a p q. refl)).1
