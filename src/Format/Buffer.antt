-- ===== src/Format/Buffer.antt =====
-- The writers append to an output of any length, of which the buffer has the start.
use ultra.Prelude.{
  ℕ, zero, suc, ◌+◌, ◌-◌, ◌≤◌, ◌<◌, ◌≡◌, ◌∙◌, ap, sym, subst, refl, le→leb_false, true, List, [],
  ◌∷◌, ◌++◌, ltb, leb, min, if◌then◌else◌, length, set, take, drop, arith, append_assoc, append-nil,
  length-append, lt→ltb, le→ltb,
}
use native.Mathlib.Decide.{dec_lt}
use ultra.Format.{
  FmtBufState, FmtSpec, word, write_one, write_many, copy_at, pad_loop, write_padding,
}

-- The memory with as much of the output over its start as the capacity allows.
unfoldable pub shown : ℕ → List ℕ → List ℕ → List ℕ
shown zero mem out = mem
shown (suc cap) [] out = []
shown (suc cap) (m ∷ mem) [] = m ∷ mem
shown (suc cap) (m ∷ mem) (o ∷ out) = o ∷ shown cap mem out

-- The state after the output `out` to a buffer of `cap` bytes in the memory `mem`.
pub record Holds (cap : ℕ) (mem out : List ℕ) (fb_state : FmtBufState) : Type 0 where
  pub capacity : fb_state.capacity ≡ cap
  pub buffer : fb_state.buffer ≡ shown cap mem out
  pub bytes_written : fb_state.bytes_written ≡ length out

pub shown_nil : (cap : ℕ) (mem : List ℕ) → cap ≤ length mem → shown cap mem [] ≡ mem
unfolding shown
shown_nil zero mem h = refl
shown_nil (suc cap) [] h = absurd (omega arith)
shown_nil (suc cap) (m ∷ mem) h = refl

-- What `write_one` makes of the memory.
abbrev one : ℕ → List ℕ → ℕ → ℕ → List ℕ
one cap buffer at c = if ltb at cap then set buffer at c else buffer

one-shown :
    (cap : ℕ) (mem out : List ℕ) (c : ℕ)
    → cap ≤ length mem
    → one cap (shown cap mem out) (length out) c ≡ shown cap mem (out ++ (c ∷ []))
unfolding shown
one-shown zero mem out c h = rw (le→ltb (length out) 0 (omega arith)) refl
one-shown (suc cap) [] out c h = absurd (omega arith)
one-shown (suc cap) (m ∷ mem) [] c h =
    rw (lt→ltb 0 (suc cap) (omega arith)) (ap (λ l. c ∷ l) (sym (shown_nil cap mem (omega arith))))
one-shown (suc cap) (m ∷ mem) (o ∷ out) c h = elim (dec_lt (length out) cap) [
  | yes p ↦
      rw (lt→ltb (suc (length out)) (suc cap) (omega arith)) (
        ap (λ l. o ∷ l) (rw (lt→ltb (length out) cap p) at (one-shown cap mem out c (omega arith))))
  | no p ↦ rw (le→ltb (suc (length out)) (suc cap) (omega arith)) (
      ap (λ l. o ∷ l)
        (rw (le→ltb (length out) cap (omega arith)) at (one-shown cap mem out c (omega arith))))
]

shown_copy :
    (cap : ℕ) (mem string : List ℕ)
    → cap ≤ length mem
    → take (min (length string) cap) string
        ++ drop (length (take (min (length string) cap) string)) mem
      ≡ shown cap mem string
unfolding shown
shown_copy zero mem string h = let e : min (length string) 0 ≡ 0 = omega arith in rw e refl
shown_copy (suc cap) [] string h = absurd (omega arith)
shown_copy (suc cap) (m ∷ mem) [] h = let e : min 0 (suc cap) ≡ 0 = omega arith in rw e refl
shown_copy (suc cap) (m ∷ mem) (o ∷ string) h =
    let e : min (suc (length string)) (suc cap) ≡ suc (min (length string) cap) = omega arith in
    rw e (ap (λ l. o ∷ l) (shown_copy cap mem string (omega arith)))

copy_at-suc :
    (o at : ℕ) (buffer bytes : List ℕ)
    → copy_at (o ∷ buffer) (suc at) bytes ≡ o ∷ copy_at buffer at bytes
copy_at-suc o at buffer bytes =
    let e : suc at + length bytes ≡ suc (at + length bytes) = omega arith in
    ap (λ n. o ∷ (take at buffer ++ (bytes ++ drop n (o ∷ buffer)))) e

copy_at-zero :
    (buffer bytes : List ℕ) → copy_at buffer 0 bytes ≡ bytes ++ drop (length bytes) buffer
copy_at-zero buffer bytes =
    let e : 0 + length bytes ≡ length bytes = omega arith in ap (λ n. bytes ++ drop n buffer) e

-- What `write_many` makes of the memory.
abbrev many : ℕ → List ℕ → ℕ → List ℕ → List ℕ
many cap buffer at string =
    if ltb at cap then copy_at buffer at (take (min (length string) (cap - at)) string) else buffer

many-shown :
    (cap : ℕ) (mem out string : List ℕ)
    → cap ≤ length mem
    → many cap (shown cap mem out) (length out) string ≡ shown cap mem (out ++ string)
unfolding shown
many-shown zero mem out string h = rw (le→ltb (length out) 0 (omega arith)) refl
many-shown (suc cap) [] out string h = absurd (omega arith)
many-shown (suc cap) (m ∷ mem) [] string h =
    let e : suc cap - 0 ≡ suc cap = omega arith in
    rw (lt→ltb 0 (suc cap) (omega arith), e)
      (copy_at-zero (m ∷ mem) (take (min (length string) (suc cap)) string)
        ∙ shown_copy (suc cap) (m ∷ mem) string h)
many-shown (suc cap) (m ∷ mem) (o ∷ out) string h =
    let e : suc cap - suc (length out) ≡ cap - length out = omega arith in
    elim (dec_lt (length out) cap) [
      | yes p ↦
          rw (lt→ltb (suc (length out)) (suc cap) (omega arith), e)
            (copy_at-suc o (length out) (shown cap mem out)
                (take (min (length string) (cap - length out)) string)
              ∙ ap (λ l. o ∷ l)
                  (rw (lt→ltb (length out) cap p) at (many-shown cap mem out string (omega arith))))
      | no p ↦ rw (le→ltb (suc (length out)) (suc cap) (omega arith)) (
          ap (λ l. o ∷ l)
            (rw (le→ltb (length out) cap (omega arith)) at
              (many-shown cap mem out string (omega arith))))
    ]

-- `n` times the character
abbrev pub padding : ℕ → ℕ → List ℕ
padding zero c = []
padding (suc n) c = c ∷ padding n c

pub length-padding : (n c : ℕ) → length (padding n c) ≡ n
length-padding zero c = refl
length-padding (suc n) c = ap suc (length-padding n c)

-- The padding of a representation of a given size
abbrev pub padding_of : FmtSpec → ℕ → List ℕ
padding_of fm repr_size =
    padding (fm.min_width - repr_size) (if fm.left_justify then 32 else fm.pad_char)

leb-true : (a b : ℕ) → a ≤ b → leb a b ≡ true
leb-true a b h = ground arith

module _ (cap : ℕ) (mem : List ℕ) (fits : cap ≤ length mem) where
  pub write_one-Holds :
      (out : List ℕ) (s : FmtBufState) (c : ℕ)
      → Holds cap mem out s
      → length out + 1 < word
      → Holds cap mem (out ++ (c ∷ [])) (write_one s c)
  unfolding write_one
  write_one-Holds out s c v h = record {
    capacity = v.capacity;
    buffer =
        (λ i. one (v.capacity i) (v.buffer i) (v.bytes_written i) c) ∙ one-shown cap mem out c fits;
    bytes_written = omega (arith, v.bytes_written, length-append out (c ∷ []));
  }

  -- To a buffer that holds as much of an output as its capacity allows, `write_many` appends a string:
  -- the buffer then holds as much of the longer output, no byte beyond the capacity changes, and all
  -- bytes are counted. The capacity is inside the memory, and the count stays below 2^64.
  pub write_many-Holds :
      (out : List ℕ) (s : FmtBufState) (string : List ℕ)
      → Holds cap mem out s
      → length out + length string < word
      → Holds cap mem (out ++ string) (write_many s string)
  unfolding write_many
  write_many-Holds out s string v h = record {
    capacity = v.capacity;
    buffer =
        (λ i. many (v.capacity i) (v.buffer i) (v.bytes_written i) string)
        ∙ many-shown cap mem out string fits;
    bytes_written = omega (arith, v.bytes_written, length-append out string);
  }

  pad_loop-Holds :
      (n : ℕ) (out : List ℕ) (s : FmtBufState) (c : ℕ)
      → Holds cap mem out s
      → length out + n < word
      → Holds cap mem (out ++ padding n c) (pad_loop n s c)
  unfolding pad_loop
  pad_loop-Holds zero out s c v h = subst (λ l. Holds cap mem l s) (sym (append-nil out)) v
  pad_loop-Holds (suc n) out s c v h =
      subst (λ l. Holds cap mem l (pad_loop n (write_one s c) c))
        (append_assoc out (c ∷ []) (padding n c))
        (pad_loop-Holds n (out ++ (c ∷ [])) (write_one s c) c
          (write_one-Holds out s c v (omega arith)) (omega (arith, length-append out (c ∷ []))))

  pub write_padding-Holds :
      (out : List ℕ) (s : FmtBufState) (fm : FmtSpec) (repr_size : ℕ)
      → Holds cap mem out s
      → length out + fm.min_width < word
      → Holds cap mem (out ++ padding_of fm repr_size) (write_padding s fm repr_size)
  unfolding write_padding
  write_padding-Holds out s fm repr_size v h = elim (dec_lt repr_size fm.min_width) [
    | yes p ↦ rw (le→leb_false repr_size fm.min_width p) (
        pad_loop-Holds (fm.min_width - repr_size) out s
          (if fm.left_justify then 32 else fm.pad_char) v (omega arith))
    | no p ↦
        let z : fm.min_width - repr_size ≡ 0 = omega arith in
        rw (leb-true fm.min_width repr_size (omega arith), z)
          (subst (λ l. Holds cap mem l s) (sym (append-nil out)) v)
  ]
