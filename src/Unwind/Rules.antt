-- ===== src/Unwind/Rules.antt =====
-- kernel/unwind.c: `apply_reg_rules` gives as many registers as there are rules.
use ultra.Prelude.{
  ℕ, zero, suc, ◌+◌, ◌*◌, ◌≡◌, inl, inr, refl, ap, Option, none, some, List, [], ◌∷◌, length, ◌==◌,
  Bool-cases,
}
use ultra.Unwind.Data.{u64, Image, UnwindState, dwarf_sp_reg, at}
use ultra.Unwind.Exec.{RegisterRule, dw_cfa_same_value, dw_cfa_offset, dw_cfa_def_cfa}
use ultra.Unwind.Walk.{canonical_frame_address, load_saved, apply_rule, apply_loop, initial_rules}
use ultra.Unwind.Local.{Ends, Ends-bind, Ends-if, load-Ends}
use ultra.Unwind.Ends.{AreRules, at-Ends}

pub initial_rules-AreRules :
    (i count : ℕ) → AreRules (initial_rules i count) × (length (initial_rules i count) ≡ count)
unfolding initial_rules
initial_rules-AreRules i zero = (tt, refl)
initial_rules-AreRules i (suc count) =
    let rest = initial_rules-AreRules (i + 1) count in
    elim (Bool-cases (i == dwarf_sp_reg)) [
      | inl e ↦ rw e ((inr (inr refl), rest.0), ap suc rest.1)
      | inr e ↦ rw e ((inl refl, rest.0), ap suc rest.1)
    ]

module _ (k : Image) (s : UnwindState) where
  cfa-Ends : Ends (canonical_frame_address s) (λ v. Unit)
  unfolding canonical_frame_address
  cfa-Ends =
      Ends-bind (λ v. Unit) (λ v. Unit) (at s.frame s.cfa_reg_idx) _ (at-Ends s.frame s.cfa_reg_idx)
        (λ v u. tt)

  load_saved-Ends : (o : Option ℕ) (cfa : ℕ) → Ends (load_saved k s o cfa) (λ v. Unit)
  unfolding load_saved
  load_saved-Ends none cfa = tt
  load_saved-Ends (some offset) cfa = load-Ends k (u64 (cfa + offset * s.data_alignment_factor)) 8

  apply_rule-Ends : (i : ℕ) (r : RegisterRule) → Ends (apply_rule k s i r) (λ v. Unit)
  unfolding apply_rule
  apply_rule-Ends i r =
      Ends-if (λ v. Unit) (r.rule == dw_cfa_same_value) _ _ (λ e. at-Ends s.frame i)
        (λ e.
          Ends-if (λ v. Unit) (r.rule == dw_cfa_offset) _ _
            (λ e.
              Ends-bind (λ v. Unit) (λ v. Unit) (canonical_frame_address s) _ cfa-Ends
                (λ cfa u. load_saved-Ends r.offset cfa))
            (λ e. Ends-if (λ v. Unit) (r.rule == dw_cfa_def_cfa) _ _ (λ e. cfa-Ends) (λ e. tt)))

  pub apply_loop-Ends :
      (i : ℕ) (rules : List RegisterRule)
      → Ends (apply_loop k s i rules) (λ frame. length frame ≡ length rules)
  unfolding apply_loop
  apply_loop-Ends i [] = refl
  apply_loop-Ends i (r ∷ rules) =
      Ends-bind (λ v. Unit) _ (apply_rule k s i r) _ (apply_rule-Ends i r)
        (λ v u.
          Ends-bind (λ frame. length frame ≡ length rules) _ (apply_loop k s (i + 1) rules) _
            (apply_loop-Ends (i + 1) rules) (λ frame e. ap suc e))
