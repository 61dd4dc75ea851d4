-- ===== src/Format/Print.antt =====
-- kernel/common/format.c: `vsnprintf`, and the functions of kernel/include/common/format.h on top of it.
use ultra.Prelude.{
  ℕ, zero, suc, ◌+◌, ◌-◌, ◌%◌, ◌^◌, ◌||◌, List, [], ◌∷◌, ltb, leb, ◌==◌, min, if◌then◌else◌, length,
  set, take, drop, Outcome, done, unfinished, ◌>>=◌,
}
use ultra.Format.{FmtBufState, write_one, write_many}
use ultra.Text.Strings.{str_starts_with, str_find_one, str_empty}
use ultra.Format.Spec.{Arg, Printing, Step, go_on, return_error, or_else}
use ultra.Format.Conversions.{convert}

-- `next_offset`
abbrev pub next_offset : List ℕ → ℕ
next_offset fmt = or_else (length fmt) (str_find_one fmt 37 0)

-- The text before the next `%`.
unfoldable pub write_text : Printing → Printing
write_text p =
    let n = next_offset p.fmt in
    record p {
      fmt = drop n p.fmt;
      fb_state = if n == 0 then p.fb_state else write_many p.fb_state (take n p.fmt);
    }

abbrev pub on_step {ℓ κ} : {A : Type ℓ} {B : Type κ} → Step A → (A → B) → (ℕ → B) → B
on_step (go_on a) next ended = next a
on_step (return_error ret) next ended = ended ret

-- How the loop ends: the `error_t` of `return -ret`, or `EOK`, and the buffer.
unfoldable pub print_loop : ℕ → Printing → Outcome (ℕ × FmtBufState)
print_loop zero p = unfinished
print_loop (suc fuel) p =
    let t = write_text p in
    let percent =
      print_loop fuel (record t { fmt = drop 2 t.fmt; fb_state = write_one t.fb_state 37 }) in
    let converted =
      (convert (record t { fmt = drop 1 t.fmt }) >>= λ s.
      on_step s (λ q. print_loop fuel q) (λ ret. done (ret, t.fb_state))) in
    if str_empty p.fmt || str_empty t.fmt
    then done (0, if str_empty p.fmt then p.fb_state else t.fb_state)
    else if str_starts_with t.fmt (37 ∷ 37 ∷ [])
    then percent
    else converted

-- The terminating 0
unfoldable pub terminate : FmtBufState → List ℕ
terminate fb_state =
    if fb_state.capacity == 0
    then fb_state.buffer
    else set fb_state.buffer (min fb_state.bytes_written (fb_state.capacity - 1)) 0

-- The `int` that is returned, and the memory from `buffer` on. Each round of the loop but the last takes a
-- character of the format.
unfoldable pub vsnprintf : List ℕ → ℕ → List ℕ → List Arg → Outcome (ℕ × List ℕ)
vsnprintf buffer capacity fmt_str vlist = do
  (ret, fb_state) ← print_loop (length fmt_str + 1) (record {
    fmt = fmt_str;
    args = vlist;
    fb_state = record { buffer = buffer; capacity = capacity; bytes_written = 0 };
  })
  if ret == 0
      then done (fb_state.bytes_written % 2 ^ 32, terminate fb_state)
      else done (2 ^ 32 - ret, fb_state.buffer)

-- A negative `int` has its highest bit set; `capacity - 1` is cut to an `int`.
unfoldable pub vscnprintf : List ℕ → ℕ → List ℕ → List Arg → Outcome (ℕ × List ℕ)
vscnprintf buffer capacity fmt vlist = do
  (written, buffer) ← vsnprintf buffer capacity fmt vlist
  let shorter = (if capacity == 0 then 0 else (capacity - 1) % 2 ^ 32)
  if leb (2 ^ 31) written || ltb written capacity
      then done (written, buffer)
      else done (shorter, buffer)

-- The variadic functions pass their arguments on as a list.
unfoldable pub snprintf : List ℕ → ℕ → List ℕ → List Arg → Outcome (ℕ × List ℕ)
snprintf buffer capacity fmt args = vsnprintf buffer capacity fmt args

unfoldable pub scnprintf : List ℕ → ℕ → List ℕ → List Arg → Outcome (ℕ × List ℕ)
scnprintf buffer capacity fmt args = vscnprintf buffer capacity fmt args
