-- ===== src/Unwind/Find.antt =====
-- kernel/unwind.c: `find_fde` finds the entry of an address.
use ultra.Prelude.{
  ℕ, zero, suc, ◌+◌, ◌-◌, ◌*◌, ◌/◌, ◌≤◌, ◌<◌, ◌≡◌, inl, inr, refl, sym, ap, ◌∙◌, arith, some, List,
  length, get_elem?, Bool-cases, Outcome, done, bug, fault, unfinished, lt→ltb, get_or,
  get_elem?-eq-get_or, Returns→done, leb, if◌then◌else◌,
}
use native.Mathlib.Decide.{dec_lt}
use ultra.Symbols.{search_loop}
use ultra.Symbols.Search.{IsAscending, IsLastBelow, search_loop-IsLastBelow_fuel}
use ultra.Unwind.Data.{Result, ok, error, ◌>>=◌, Image, EhData, Unwinder}
use ultra.Unwind.Data
use ultra.Unwind.Table.{table_value, find_fde_loop, encode_error_ptr, find_fde}

-- The entry at an index: its code address and its description are what the two halves of it decode to.
pub record Decodes (k : Image) (u : Unwinder) (i sym_addr fde_addr : ℕ) : Type 0 where
  pub rest : EhData
  pub fde_rest : EhData
  pub sym_addr_lem :
      table_value k u
        (u.fde_binary_search_table + i * u.fde_table_entry_width)
        u.fde_table_entry_width
      ≡ ok (sym_addr, rest)
  pub fde_addr_lem :
      table_value k u
        (u.fde_binary_search_table + i * u.fde_table_entry_width + u.fde_table_entry_width / 2)
        (u.fde_table_entry_width / 2)
      ≡ ok (fde_addr, fde_rest)

-- The table has these addresses of code, and these of descriptions.
pub record IsTable (k : Image) (u : Unwinder) (addresses descriptions : List ℕ) : Type 0 where
  pub count : u.num_fdes ≡ length addresses
  pub as_many : length descriptions ≡ length addresses
  pub entry :
      (i sym_addr fde_addr : ℕ)
      → get_elem? addresses i ≡ some sym_addr
      → get_elem? descriptions i ≡ some fde_addr
      → Decodes k u i sym_addr fde_addr

abbrev to_result : Outcome ℕ → Result ℕ
to_result (done i) = ok i
to_result bug = Data.fault
to_result fault = Data.fault
to_result unfinished = Data.unfinished

-- The result is the description of the last entry that is not above the address.
abbrev pub IsDescription : List ℕ → List ℕ → ℕ → Result ℕ → Type 0
IsDescription addresses descriptions pc r =
    (i : ℕ) × (fde_addr : ℕ) × IsLastBelow addresses pc i
    × (get_elem? descriptions i ≡ some fde_addr)
    × (r ≡ ok fde_addr)

module _ (k : Image) (u : Unwinder) (addresses descriptions : List ℕ)
    (t : IsTable k u addresses descriptions) (pc : ℕ) where
  search_end :
      (fuel begin end : ℕ)
      → end - begin ≤ 1
      → to_result (search_loop (suc fuel) addresses pc begin end)
        ≡ find_fde_loop k u (suc fuel) pc begin end
  unfolding search_loop find_fde_loop
  search_end fuel begin end h = ground arith

  search_out :
      (begin end : ℕ)
      → to_result (search_loop 0 addresses pc begin end) ≡ find_fde_loop k u 0 pc begin end
  unfolding search_loop find_fde_loop
  search_out begin end = refl

  symbol_step :
      (fuel begin end x : ℕ)
      → 1 < end - begin
      → get_elem? addresses (begin + (end - begin) / 2) ≡ some x
      → search_loop (suc fuel) addresses pc begin end ≡ (
          if leb x pc
          then search_loop fuel addresses pc (begin + (end - begin) / 2) end
          else search_loop fuel addresses pc begin (begin + (end - begin) / 2))
  unfolding search_loop
  symbol_step fuel begin end x h e = ground arith

  search_step :
      (fuel begin end x y : ℕ)
      → 1 < end - begin
      → get_elem? addresses (begin + (end - begin) / 2) ≡ some x
      → get_elem? descriptions (begin + (end - begin) / 2) ≡ some y
      → find_fde_loop k u (suc fuel) pc begin end ≡ (
          if leb x pc
          then find_fde_loop k u fuel pc (begin + (end - begin) / 2) end
          else find_fde_loop k u fuel pc begin (begin + (end - begin) / 2))
  unfolding find_fde_loop
  search_step fuel begin end x y h e f =
      rw (lt→ltb 1 (end - begin) h, (t.entry (begin + (end - begin) / 2) x y e f).sym_addr_lem) refl

  -- The search of the table is that of `symbol_lookup_by_address`.
  find_fde_loop-search_loop :
      (fuel begin end : ℕ)
      → end ≤ length addresses
      → to_result (search_loop fuel addresses pc begin end) ≡ find_fde_loop k u fuel pc begin end
  find_fde_loop-search_loop zero begin end l = search_out begin end
  find_fde_loop-search_loop (suc fuel) begin end l = elim (dec_lt 1 (end - begin)) [
    | no h ↦ search_end fuel begin end (omega arith)
    | yes h ↦
        let i = begin + (end - begin) / 2 in
        let x = get_or addresses i 0 in
        let y = get_or descriptions i 0 in
        let e : get_elem? addresses i ≡ some x =
          get_elem?-eq-get_or addresses i 0 (omega (arith, l)) in
        let f : get_elem? descriptions i ≡ some y =
          get_elem?-eq-get_or descriptions i 0 (omega (arith, l, t.as_many)) in
        rw (symbol_step fuel begin end x h e, search_step fuel begin end x y h e f)
          (elim (Bool-cases (leb x pc)) [
            | inl b ↦ rw b (find_fde_loop-search_loop fuel i end l)
            | inr b ↦ rw b (find_fde_loop-search_loop fuel begin i (omega (arith, l)))
          ])
  ]

  -- In a table in ascending order with at least one entry, `find_fde` gives the description of the last entry
  -- whose code does not start above the address, or of the first one where all do.
  pub find_fde-IsLastBelow :
      (lo : ℕ)
      → IsAscending lo addresses
      → 0 < length addresses
      → IsDescription addresses descriptions pc (find_fde k u pc)
  unfolding find_fde encode_error_ptr
  find_fde-IsLastBelow lo a h =
      let (i, found, below) =
        Returns→done (search_loop (u.num_fdes + 1) addresses pc 0 (length addresses)) (
          search_loop-IsLastBelow_fuel lo addresses pc (u.num_fdes + 1) a h
            (omega (arith, t.count))) in
      let y = get_or descriptions i 0 in
      let e = get_elem?-eq-get_or addresses i 0 below.inside in
      let f : get_elem? descriptions i ≡ some y =
        get_elem?-eq-get_or descriptions i 0 (omega (arith, t.as_many, below.inside)) in
      let searched : find_fde_loop k u (u.num_fdes + 1) pc 0 u.num_fdes ≡ ok i =
        ap (find_fde_loop k u (u.num_fdes + 1) pc 0) t.count
        ∙ sym (find_fde_loop-search_loop (u.num_fdes + 1) 0 (length addresses) (omega arith))
        ∙ ap to_result found in
      let entry = t.entry i (get_or addresses i 0) y e f in
      (i, y, below, f, rw (searched, entry.fde_addr_lem) refl)
