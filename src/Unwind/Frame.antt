-- ===== src/Unwind/Frame.antt =====
-- kernel/unwind.c: `unwind_next_frame` and the parsing before it, on any data.
use ultra.Prelude.{
  ℕ, zero, suc, ◌+◌, ◌-◌, ◌/◌, ◌%◌, ◌^◌, ◌<◌, ◌≡◌, refl, ◌∙◌, arith, true, not, ◌||◌, List, [], ◌∷◌,
  ltb, leb, ◌==◌,
}
use ultra.Unwind.Data.{
  Result, ok, error, fault, unfinished, ◌>>=◌, u64, max_errno, Image, EhData, UnwindState, Unwinder,
  arch_num_dwarf_registers, eh_consume, eh_data_init,
}
use ultra.Unwind.Decode.{decode_value}
use ultra.Unwind.Parse.{
  unwind_get_return_address, get_reliable_pc, expected_aug_string, augmentation_loop, parse_cie,
  check_pc, parse_fde,
}
use ultra.Unwind.Table.{
  table_value, find_fde_loop, encode_error_ptr, find_fde, prepare_unwind_state,
}
use ultra.Unwind.Local.{
  Ends, Ends-bind, Ends-if, Within, Behind, eh_consume-Ends, decode_value-Ends, eh_data_init-Ends,
}
use ultra.Unwind.Ends.{IsState, return_address-Ends}

-- The state is in bounds, and of what the walk's caller sees only `signal_frame` has changed.
abbrev pub Parsed : UnwindState → UnwindState → Type 0
Parsed s t = IsState t × (t.frame ≡ s.frame) × (t.end ≡ s.end)

reliable_pc-Ends : (s : UnwindState) → Ends (get_reliable_pc s) (λ v. Unit)
unfolding get_reliable_pc
reliable_pc-Ends s =
    Ends-bind (λ v. Unit) (λ v. Unit) (unwind_get_return_address s) _ (return_address-Ends s)
      (λ v u. tt)

module _ (k : Image) where
  augmentation_loop-Ends :
      (fuel : ℕ) (s : UnwindState) (cie : EhData) (aug : List ℕ)
      → IsState s
      → cie.bytes_left < fuel
      → Ends (augmentation_loop k fuel s cie aug) (λ r. Parsed s r.0)
  unfolding augmentation_loop
  augmentation_loop-Ends fuel s cie [] m f = (m, refl, refl)
  augmentation_loop-Ends zero s cie (c ∷ aug) m f = absurd (omega arith)
  augmentation_loop-Ends (suc fuel) s cie (c ∷ aug) m f =
      Ends-bind (λ r. Behind 1 cie r.1) (λ r. Parsed s r.0) (eh_consume k cie 1) _
        (eh_consume-Ends k cie 1)
        (λ r b.
          Ends-if (λ r. Parsed s r.0) (r.0 == c) _ _
            (λ e. augmentation_loop-Ends fuel s r.1 aug m (omega arith))
            (λ e.
              Ends-if (λ r. Parsed s r.0) (r.0 == 83) _ _
                (λ e.
                  augmentation_loop-Ends fuel (record s { signal_frame = true }) r.1 (c ∷ aug) m
                    (omega arith))
                (λ e. tt)))

  -- Each error of a decoding ends the parsing.
  decoded-Ends :
      {B : Type 0} (Q : B → Type 0) (eh : EhData) (encoding : ℕ) (f : ℕ × EhData → Result B)
      → ((r : ℕ × EhData) → Ends (f r) Q)
      → Ends (decode_value k eh encoding >>= f) Q
  decoded-Ends Q eh encoding f h =
      Ends-bind (λ r. Within eh r.1) Q (decode_value k eh encoding) f
        (decode_value-Ends k eh encoding) (λ r w. h r)

  consumed-Ends :
      {B : Type 0} (Q : B → Type 0) (eh : EhData) (size : ℕ) (f : ℕ × EhData → Result B)
      → ((r : ℕ × EhData) → Ends (f r) Q)
      → Ends (eh_consume k eh size >>= f) Q
  consumed-Ends Q eh size f h =
      Ends-bind (λ r. Behind size eh r.1) Q (eh_consume k eh size) f (eh_consume-Ends k eh size)
        (λ r w. h r)

  parse_cie-Ends :
      (s : UnwindState) (cie : EhData) → IsState s → Ends (parse_cie k s cie) (Parsed s)
  unfolding parse_cie
  parse_cie-Ends s cie m = consumed-Ends (Parsed s) cie 4 _ (λ id.
      Ends-if (Parsed s) (not (id.0 == 0)) _ _ (λ e. tt)
        (λ e. consumed-Ends (Parsed s) id.1 1 _ (λ version.
          Ends-if (Parsed s) (not (version.0 == 1)) _ _ (λ e. tt)
            (λ e.
              Ends-bind (λ r. Parsed s r.0) (Parsed s)
                (augmentation_loop k (version.1.bytes_left + 1) s version.1 expected_aug_string) _
                (augmentation_loop-Ends (version.1.bytes_left + 1) s version.1 expected_aug_string m
                  (omega arith))
                (λ aug p. decoded-Ends (Parsed s) aug.1 1 _ (λ code.
                  decoded-Ends (Parsed s) code.1 9 _ (λ daf.
                    decoded-Ends (Parsed s) daf.1 1 _ (λ reg.
                      Ends-if (Parsed s) (leb arch_num_dwarf_registers reg.0) _ _ (λ e. tt)
                        (λ small. decoded-Ends (Parsed s) reg.1 1 _ (λ len.
                          Ends-if (Parsed s) (not (len.0 == 1)) _ _ (λ e. tt)
                            (λ e.
                              consumed-Ends (Parsed s) len.1 1 _
                                (λ enc. ((p.0.0, ground arith, p.0.2), p.1, p.2)))))))))))))

  check_pc-Ends :
      (s : UnwindState) (pc_size current_pc : ℕ)
      → IsState s
      → Ends (check_pc s pc_size current_pc) (Parsed s)
  unfolding check_pc
  check_pc-Ends s pc_size current_pc m =
      Ends-if (Parsed s) (ltb current_pc s.pc || leb (u64 (s.pc + pc_size)) current_pc) _ _
        (λ e. tt) (λ e. (m, refl, refl))

  parse_fde-Ends :
      (s : UnwindState) (fde : EhData) → IsState s → Ends (parse_fde k s fde) (Parsed s)
  unfolding parse_fde
  parse_fde-Ends s fde m = consumed-Ends (Parsed s) fde 4 _ (λ off.
      Ends-if (Parsed s) (off.0 == 0) _ _ (λ e. tt)
        (λ e.
          Ends-bind (λ cie. Unit) (Parsed s)
            (eh_data_init k (u64 (off.1.cursor + 2 ^ 64 - off.0 - 4))) _
            (eh_data_init-Ends k (u64 (off.1.cursor + 2 ^ 64 - off.0 - 4)))
            (λ cie u.
              Ends-bind (Parsed s) (Parsed s) (parse_cie k s cie) _ (parse_cie-Ends s cie m) (λ t p.
                decoded-Ends (Parsed s) off.1 t.fde_encoding _ (λ pc.
                  decoded-Ends (Parsed s) pc.1 (t.fde_encoding % 16) _ (λ size.
                    let v : UnwindState = record t { pc = pc.0 } in
                    Ends-bind (λ n. Unit) (Parsed s) (get_reliable_pc v) _ (reliable_pc-Ends v)
                      (λ current n.
                        Ends-bind (Parsed v) (Parsed s) (check_pc v size.0 current) _
                          (check_pc-Ends v size.0 current p.0)
                          (λ w q. consumed-Ends (Parsed s) size.1 1 _ (λ len.
                            Ends-if (Parsed s) (not (len.0 == 0)) _ _ (λ e. tt)
                              (λ e. (q.0, q.1 ∙ p.1, q.2 ∙ p.2)))))))))))

  module _ (u : Unwinder) where
    find_fde_loop-Ends :
        (fuel pc begin end : ℕ)
        → end - begin < fuel
        → Ends (find_fde_loop k u fuel pc begin end) (λ i. Unit)
    unfolding find_fde_loop table_value
    find_fde_loop-Ends zero pc begin end h = absurd (omega arith)
    find_fde_loop-Ends (suc fuel) pc begin end h =
        Ends-if (λ i. Unit) (ltb 1 (end - begin)) _ _
          (λ e.
            decoded-Ends (λ i. Unit) _ u.fde_table_encoding _
              (λ addr.
                Ends-if (λ i. Unit) (leb addr.0 pc) _ _
                  (λ q. find_fde_loop-Ends fuel pc (begin + (end - begin) / 2) end (ground arith))
                  (λ q.
                    find_fde_loop-Ends fuel pc begin (begin + (end - begin) / 2) (ground arith))))
          (λ e. tt)

    encode_error_ptr-Ends :
        (r : Result ℕ) → Ends r (λ p. Unit) → Ends (encode_error_ptr r) (λ p. Unit)
    unfolding encode_error_ptr
    encode_error_ptr-Ends (ok p) h = tt
    encode_error_ptr-Ends (error e) h = tt
    encode_error_ptr-Ends fault h = tt
    encode_error_ptr-Ends unfinished h = h

    pub find_fde-Ends : (pc : ℕ) → Ends (find_fde k u pc) (λ p. Unit)
    unfolding find_fde table_value
    find_fde-Ends pc = encode_error_ptr-Ends _ (
        Ends-bind (λ i. Unit) (λ i. Unit) (find_fde_loop k u (u.num_fdes + 1) pc 0 u.num_fdes) _
          (find_fde_loop-Ends (u.num_fdes + 1) pc 0 u.num_fdes (omega arith))
          (λ i t. decoded-Ends (λ i. Unit) _ u.fde_table_encoding _ (λ r. tt)))

    pub prepare-Ends : (s : UnwindState) → IsState s → Ends (prepare_unwind_state k u s) (Parsed s)
    unfolding prepare_unwind_state
    prepare-Ends s m =
        Ends-bind (λ v. Unit) (Parsed s) (get_reliable_pc s) _ (reliable_pc-Ends s)
          (λ pc t.
            Ends-bind (λ v. Unit) (Parsed s) (find_fde k u pc) _ (find_fde-Ends pc)
              (λ p t.
                Ends-if (Parsed s) (leb p max_errno) _ _
                  (λ e. Ends-if (Parsed s) (p == 0) _ _ (λ e. (m, refl, refl)) (λ e. tt))
                  (λ e.
                    Ends-bind (λ v. Unit) (Parsed s) (eh_data_init k p) _ (eh_data_init-Ends k p)
                      (λ fde t. parse_fde-Ends s fde m))))
