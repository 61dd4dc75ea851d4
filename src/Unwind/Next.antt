-- ===== src/Unwind/Next.antt =====
-- kernel/unwind.c: `unwind_next_frame` and `unwind_walk` as their callers see them.
use ultra.Prelude.{
  ℕ, zero, suc, ◌<◌, ◌≡◌, ◌⊎◌, inl, inr, refl, ap, ◌∙◌, arith, Bool, true, false, not, some, List,
  length, get_elem?, get_elem?-eq-get_or, get_or, ◌==◌, if◌then◌else◌, Bool-cases,
}
use ultra.Unwind.Data.{
  Result, ok, error, fault, unfinished, ◌>>=◌, eok, einval, Image, UnwindState, Unwinder,
  arch_num_dwarf_registers,
}
use ultra.Unwind.Parse.{unwind_get_return_address}
use ultra.Unwind.Table.{prepare_unwind_state}
use ultra.Unwind.Exec.{RegisterRule, Machine, dwarf_exec}
use ultra.Unwind.Walk.{
  apply_loop, apply_reg_rules, initial_rules, advance_frame, out_error, unwind_next_frame,
  unwind_is_done, walk_loop, unwind_walk, unwind_begin, initial_state, Registers,
}
use ultra.Unwind.Local.{Ends, Ends-bind, Ends-if}
use ultra.Unwind.Ends.{IsState, After, dwarf_exec-After}
use ultra.Unwind.Frame.{Parsed, prepare-Ends}
use ultra.Unwind.Rules.{apply_loop-Ends, initial_rules-AreRules}

-- The state of a walk that goes on: the registers it names are in its frame, and the return address
-- is not 0.
abbrev pub GoesOn : UnwindState → Type 0
GoesOn s = (s.end ≡ false) × (pc : ℕ) × (get_elem? s.frame s.ret_reg_idx ≡ some pc) × (0 < pc)

abbrev pub EndsOrGoesOn : UnwindState → Type 0
EndsOrGoesOn s = IsState s × ((s.end ≡ true) ⊎ GoesOn s)

-- How a frame is left for the next one, with a code and a state: a state that has ended is left as it is with
-- EINVAL, and any other with EOK, or with an error and the end mark.
abbrev pub Stepped : UnwindState → ℕ × UnwindState → Type 0
Stepped s r =
    EndsOrGoesOn r.1
    × (((s.end ≡ true) × (r.0 ≡ einval) × (r.1 ≡ s))
        ⊎ ((s.end ≡ false) × ((r.0 ≡ eok) ⊎ (r.1.end ≡ true))))

module _ (k : Image) where
  apply_reg_rules-Ends :
      (s : UnwindState) (rules : List RegisterRule)
      → IsState s
      → length rules ≡ arch_num_dwarf_registers
      → Ends
          (apply_reg_rules k s rules)
          (λ r. IsState (record (r.0) { frame = r.1 }) × (r.0.end ≡ s.end))
  unfolding apply_reg_rules
  apply_reg_rules-Ends s rules m l =
      Ends-bind (λ frame. length frame ≡ length rules) _ (apply_loop k s 0 rules) _
        (apply_loop-Ends k s 0 rules) (λ frame e. ((e ∙ l, m.1, omega arith), refl))

  -- The return address of the new frame decides whether the walk has ended.
  mark_end :
      (s : UnwindState)
      → IsState s
      → s.end ≡ false
      → Ends
          (unwind_get_return_address s >>= λ return_address.
            ok (record s { end = return_address == 0 }))
          EndsOrGoesOn
  unfolding unwind_get_return_address
  mark_end s m e =
      let pc = get_or s.frame s.ret_reg_idx 0 in
      let found : get_elem? s.frame s.ret_reg_idx ≡ some pc =
        get_elem?-eq-get_or s.frame s.ret_reg_idx 0 (omega arith) in
      rw (e, found)
        (elim (Bool-cases (pc == 0)) [
          | inl q ↦ (m, inl q)
          | inr q ↦ (m, inr (q, pc, found, ground arith))
        ])

  module _ (u : Unwinder) where
    advance_frame-Ends :
        (s : UnwindState) → IsState s → s.end ≡ false → Ends (advance_frame k u s) EndsOrGoesOn
    unfolding advance_frame
    advance_frame-Ends s m e =
        Ends-bind (Parsed s) EndsOrGoesOn (prepare_unwind_state k u s) _ (prepare-Ends k u s m)
          (λ t p.
            let initial = initial_rules-AreRules 0 arch_num_dwarf_registers in
            let x : Machine = record {
              state = record t { signal_frame = false };
              rules = initial_rules 0 arch_num_dwarf_registers;
              code = t.cie_code;
            } in
            Ends-bind (After x) EndsOrGoesOn (dwarf_exec k x) _
              (dwarf_exec-After k x (p.0, initial.1, initial.0))
              (λ y a.
                let z : Machine = record {
                  state = record (y.state) { cie_code = y.code };
                  rules = y.rules;
                  code = y.state.fde_code;
                } in
                Ends-bind (After z) EndsOrGoesOn (dwarf_exec k z) _ (dwarf_exec-After k z a.0)
                  (λ w b.
                    let last : UnwindState = record (w.state) { fde_code = w.code } in
                    Ends-bind (λ r. IsState (record (r.0) { frame = r.1 }) × (r.0.end ≡ last.end))
                      EndsOrGoesOn (apply_reg_rules k last w.rules) _
                      (apply_reg_rules-Ends last w.rules b.0.0 b.0.1)
                      (λ r c.
                        mark_end (record (r.0) { frame = r.1 }) c.0 (c.1 ∙ b.4 ∙ a.4 ∙ p.2 ∙ e)))))

    pub unwind_next_frame-Stepped :
        (s : UnwindState) → IsState s → Ends (unwind_next_frame k u s) (Stepped s)
    unfolding unwind_next_frame out_error
    unwind_next_frame-Stepped s m =
        Ends-if _ s.end _ _ (λ e. ((m, inl e), inl (e, refl, refl)))
          (λ e. out_error-Stepped e (advance_frame k u s) (advance_frame-Ends s m e))
      where
        out_error-Stepped :
            s.end ≡ false
            → (r : Result UnwindState) → Ends r EndsOrGoesOn
            → Ends (out_error s r) (Stepped s)
        out_error-Stepped n (ok t) h = (h, inr (n, inl refl))
        out_error-Stepped n (error e) h = ((m, inl refl), inr (n, inr refl))
        out_error-Stepped n fault h = tt
        out_error-Stepped n unfinished h = h

bind_cong :
    {A B : Type 0} (P : A → Type 0) (r : Result A) (f g : A → Result B)
    → Ends r P
    → ((a : A) → P a → f a ≡ g a)
    → (r >>= f) ≡ (r >>= g)
bind_cong P (ok a) f g h e = e a h
bind_cong P (error c) f g h e = refl
bind_cong P fault f g h e = refl
bind_cong P unfinished f g h e = refl

return_address-positive :
    (s : UnwindState) → GoesOn s → Ends (unwind_get_return_address s) (λ pc. 0 < pc)
unfolding unwind_get_return_address
return_address-positive s g = rw (g.0, g.2) g.3

unwind_begin-GoesOn :
    (u : Unwinder) (k : Image) (fuel : ℕ) (cpu regs : Registers)
    → 0 < regs.rip
    → Ends (unwind_begin k u fuel cpu (some regs) 0) (λ r. IsState r.1 × GoesOn r.1)
unfolding unwind_begin initial_state
unwind_begin-GoesOn u k fuel cpu regs p =
    Ends-if _ u.available _ _ (λ e. ((refl, omega arith, omega arith), (refl, regs.rip, refl, p)))
      (λ e. tt)

module _ {A : Type 0} (k : Image) (u : Unwinder) (c c' : A → ℕ → Bool → Bool × A)
    (agree : (user : A) (pc : ℕ) (after_call : Bool)
      → 0 < pc
      → c user pc after_call ≡ c' user pc after_call) where
  walk_loop-agree :
      (fuel : ℕ) (s : UnwindState) (ret : ℕ) (user : A)
      → IsState s
      → GoesOn s
      → walk_loop k u c fuel s ret user ≡ walk_loop k u c' fuel s ret user
  unfolding walk_loop unwind_is_done
  walk_loop-agree zero s ret user m g = refl
  walk_loop-agree (suc fuel) s ret user m g =
      bind_cong (λ pc. 0 < pc) (unwind_get_return_address s) _ _ (return_address-positive s g)
        (λ pc p. rw (agree user pc (not s.signal_frame) p) (
          let next = c' user pc (not s.signal_frame) in
          ap (λ t. if next.0 then t else ok (ret, next.1))
            (bind_cong (Stepped s) (unwind_next_frame k u s) _ _ (unwind_next_frame-Stepped k u s m)
              (λ r h. elim h.0.1 [
                | inl e ↦ rw e refl
                | inr q ↦
                    ap (λ t. if r.1.end then ok (r.0, next.1) else t)
                      (walk_loop-agree fuel r.1 r.0 next.1 h.0.0 q)
              ]))))

  -- Two callbacks that agree on all return addresses but 0 have the same walk from a trap's registers, where
  -- `rip` is not 0: the walk hands no return address that is 0 to its callback.
  pub unwind_walk-agree :
      (fuel : ℕ) (cpu regs : Registers) (return_address : ℕ) (user : A)
      → 0 < regs.rip
      → unwind_walk k u c fuel cpu (some regs) return_address user
        ≡ unwind_walk k u c' fuel cpu (some regs) return_address user
  unfolding unwind_walk
  unwind_walk-agree fuel cpu regs return_address user p =
      bind_cong (λ r. IsState r.1 × GoesOn r.1) (unwind_begin k u fuel cpu (some regs) 0) _ _
        (unwind_begin-GoesOn u k fuel cpu regs p)
        (λ r h.
          ap (λ t. if r.0 == eok then t else error r.0) (walk_loop-agree fuel r.1 r.0 user h.0 h.1))
