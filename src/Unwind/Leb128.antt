-- ===== src/Unwind/Leb128.antt =====
-- kernel/unwind.c: the numbers of variable length that `decode_format` reads.
use ultra.Prelude.{
  ℕ, zero, suc, ◌+◌, ◌-◌, ◌*◌, ◌/◌, ◌%◌, ◌^◌, ◌≤◌, ◌<◌, ◌≡◌, ◌⊎◌, refl, ap, ap₂, ◌∙◌, arith, List,
  [], ◌∷◌, Option, some, bit_or_disjoint, bit_or_overlap, ==_of_eq, ==_of_ne,
}
use ultra.Unwind.Data.{Result, ok, u64, Image, EhData, eh_consume}
use ultra.Unwind.Decode.{
  shift_group, leb128_loop, sign_extend, decode_format, scaling_base, decode_scaled, decode_value,
}
use native.Mathlib.Nat.{pow-suc}

-- The `n + 1` bytes of a number: its seven-bit groups, the lowest first, where all but the last have
-- bit 7 set.
abbrev pub leb128_bytes : ℕ → ℕ → List ℕ
leb128_bytes zero v = (v % 128) ∷ []
leb128_bytes (suc n) v = (v % 128 + 128) ∷ leb128_bytes n (v / 128)

-- The memory holds the bytes from the address on.
abbrev pub Stored : (ℕ → Option ℕ) → ℕ → List ℕ → Type 0
Stored memory address [] = Unit
Stored memory address (b ∷ bs) = (memory address ≡ some b) × Stored memory (address + 1) bs

abbrev pub behind : EhData → ℕ → EhData
behind eh n = record { cursor = eh.cursor + n; bytes_left = eh.bytes_left - n }

eh_consume-byte :
    (k : Image) (eh : EhData) (b : ℕ)
    → k.memory eh.cursor ≡ some b
    → 0 < eh.bytes_left
    → eh_consume k eh 1 ≡ ok (b, behind eh 1)
unfolding eh_consume
eh_consume-byte k eh b e h = ground arith

shift_group_small :
    (byte num_bits : ℕ)
    → num_bits < 32
    → byte % 128 * 2 ^ num_bits < 2 ^ 31
    → shift_group byte num_bits ≡ ok (byte % 128 * 2 ^ num_bits)
unfolding shift_group
shift_group_small byte num_bits h p = ground arith

no_wrap : (num_bits : ℕ) → num_bits < 32 → (num_bits + 7) % 256 ≡ num_bits + 7
no_wrap num_bits h = omega arith

module _ (k : Image) (fuel : ℕ) (eh : EhData) (b value num_bits : ℕ)
    (e : k.memory eh.cursor ≡ some b) (l : 0 < eh.bytes_left) (h : num_bits < 32)
    (p : b % 128 * 2 ^ num_bits < 2 ^ 31) (v : value < 2 ^ num_bits) where
  round_last :
      b < 128
      → leb128_loop k (suc fuel) eh value num_bits
        ≡ ok (value + b % 128 * 2 ^ num_bits, num_bits + 7, behind eh 1)
  unfolding leb128_loop
  round_last q =
      rw
        (
          eh_consume-byte k eh b e l,
          shift_group_small b num_bits h p,
          bit_or_disjoint num_bits value (b % 128) v,
          no_wrap num_bits h,
          ==_of_ne (b / 128 % 2) 1 (λ e. omega arith),
        )
        refl

  round_next :
      128 ≤ b
      → b < 256
      → leb128_loop k (suc fuel) eh value num_bits
        ≡ leb128_loop k fuel (behind eh 1) (value + b % 128 * 2 ^ num_bits) (num_bits + 7)
  unfolding leb128_loop
  round_next q r =
      rw
        (
          eh_consume-byte k eh b e l,
          shift_group_small b num_bits h p,
          bit_or_disjoint num_bits value (b % 128) v,
          no_wrap num_bits h,
          ==_of_eq (b / 128 % 2) 1 (omega arith),
        )
        refl

pow_step : (b m n : ℕ) → m ≡ suc n → b ^ m ≡ b ^ n * b
pow_step b m n e = ap (λ (t : ℕ). b ^ t) e ∙ pow-suc b n

pow_groups : (n : ℕ) → 2 ^ (n + 7) ≡ 128 * 2 ^ n
pow_groups n = omega (
  arith,
  pow_step 2 (n + 7) (n + 6) (omega arith),
  pow_step 2 (n + 6) (n + 5) (omega arith),
  pow_step 2 (n + 5) (n + 4) (omega arith),
  pow_step 2 (n + 4) (n + 3) (omega arith),
  pow_step 2 (n + 3) (n + 2) (omega arith),
  pow_step 2 (n + 2) (n + 1) (omega arith),
  pow_step 2 (n + 1) n (omega arith),
)

-- A number as its lowest group and the others.
groups : (v p : ℕ) → v * p ≡ v % 128 * p + v / 128 * (128 * p)
groups v p = omega (arith, ap (λ (t : ℕ). t * p) (split v))
  where
    split : (v : ℕ) → v ≡ v % 128 + 128 * (v / 128)
    split v = omega arith

group_le : (v p : ℕ) → v % 128 * p + p ≤ 128 * p
group_le v p = omega (arith, ap (λ (t : ℕ). t * p) (rest v))
  where
    rest : (v : ℕ) → v % 128 + 1 + (127 - v % 128) ≡ 128
    rest v = omega arith

group_mod : (v : ℕ) → (v % 128 + 128) % 128 ≡ v % 128
group_mod v = omega arith

ok_two :
    {a a' : ℕ} {eh eh' : EhData}
    → a ≡ a'
    → eh ≡ eh'
    → ◌≡◌ {A = Result (ℕ × EhData)} (ok (a, eh)) (ok (a', eh'))
ok_two p q = λ i. ok (p i, q i)

ok_three :
    {a a' b b' : ℕ} {eh eh' : EhData}
    → a ≡ a'
    → b ≡ b'
    → eh ≡ eh'
    → ◌≡◌ {A = Result (ℕ × ℕ × EhData)} (ok (a, b, eh)) (ok (a', b', eh'))
ok_three p q r = λ i. ok (p i, q i, r i)

behind-behind : (eh : EhData) (n m : ℕ) → m ≡ 1 + n → behind (behind eh 1) n ≡ behind eh m
behind-behind eh n m e =
    let cursor : eh.cursor + 1 + n ≡ eh.cursor + m = omega arith in
    let bytes_left : eh.bytes_left - 1 - n ≡ eh.bytes_left - m = omega arith in
    λ i. record { cursor = cursor i; bytes_left = bytes_left i }

module _ (k : Image) where
  leb128_loop-last :
      (fuel : ℕ) (eh : EhData) (v value num_bits : ℕ)
      → k.memory eh.cursor ≡ some (v % 128)
      → 0 < eh.bytes_left
      → v < 128
      → value < 2 ^ num_bits
      → num_bits < 32
      → v * 2 ^ num_bits < 2 ^ 31
      → leb128_loop k (suc fuel) eh value num_bits
        ≡ ok (value + v * 2 ^ num_bits, num_bits + 7, behind eh 1)
  leb128_loop-last fuel eh v value num_bits s l h p q r =
      let same : v % 128 ≡ v = omega arith in
      round_last k fuel eh v value num_bits (s ∙ ap some same) l q (rw same r) p h
      ∙ ap (λ t. ok (value + t * 2 ^ num_bits, num_bits + 7, behind eh 1)) same

  -- `n + 1` more groups of a number above the bits that were read.
  leb128_loop-bytes :
      (n fuel : ℕ) (eh : EhData) (v value num_bits : ℕ)
      → Stored k.memory eh.cursor (leb128_bytes n v)
      → n < eh.bytes_left
      → n < fuel
      → v < 128 ^ (n + 1)
      → value < 2 ^ num_bits
      → num_bits + 7 * n < 32
      → v * 2 ^ num_bits < 2 ^ 31
      → leb128_loop k fuel eh value num_bits
        ≡ ok (value + v * 2 ^ num_bits, num_bits + 7 * (n + 1), behind eh (n + 1))
  leb128_loop-bytes n zero eh v value num_bits s l f h p q r = absurd (omega arith)
  leb128_loop-bytes zero (suc fuel) eh v value num_bits s l f h p q r =
      leb128_loop-last fuel eh v value num_bits s.0 l (omega arith) p (omega arith) r
  leb128_loop-bytes (suc n) (suc fuel) eh v value num_bits s l f h p q r =
      let power = 2 ^ num_bits in
      let lowest = ap (λ (t : ℕ). t * power) (group_mod v) in
      let above = ap (λ (t : ℕ). v / 128 * t) (pow_groups num_bits) in
      round_next k fuel eh (v % 128 + 128) value num_bits s.0 (omega arith) (omega arith)
        (omega (arith, groups v power, lowest)) p (omega arith) (omega arith)
      ∙ leb128_loop-bytes n fuel (behind eh 1) (v / 128)
          (value + (v % 128 + 128) % 128 * 2 ^ num_bits) (num_bits + 7) s.1 (omega arith)
          (omega arith) (omega (arith, pow_step 128 (suc n + 1) (n + 1) (omega arith)))
          (omega (arith, lowest, group_le v power, pow_groups num_bits)) (omega arith)
          (omega (arith, groups v power, above))
      ∙ ok_three (omega (arith, groups v power, above, lowest)) (omega arith)
          (behind-behind eh (n + 1) (suc n + 1) (omega arith))

  -- An unsigned number in at most five bytes, and below 2 ^ 31, is read as it was written, and as many bytes
  -- are taken, whatever zero groups pad it.
  pub decode_value-leb128_bytes :
      (eh : EhData) (n v : ℕ)
      → n ≤ 4
      → v < 128 ^ (n + 1)
      → v < 2 ^ 31
      → n < eh.bytes_left
      → Stored k.memory eh.cursor (leb128_bytes n v)
      → decode_value k eh 0x01 ≡ ok (v, behind eh (n + 1))
  unfolding decode_value decode_scaled decode_format scaling_base sign_extend
  decode_value-leb128_bytes eh n v h p q l s =
      rw
        (leb128_loop-bytes n (eh.bytes_left + 1) eh v 0 0 s l (omega arith) p (omega arith)
          (omega arith) (omega arith))
        (ok_two (omega arith) refl)

-- The 64 bits of a signed number that fits `n + 1` groups.
abbrev pub FitsGroups : ℕ → ℕ → Type 0
FitsGroups n x = (x < 2 ^ 64) × ((x < 2 ^ (7 * n + 6)) ⊎ (2 ^ 64 ≤ x + 2 ^ (7 * n + 6)))

sign_extend-groups :
    (n x : ℕ) → n ≤ 3 → FitsGroups n x → sign_extend 9 (7 * (n + 1)) (x % 128 ^ (n + 1)) ≡ x
unfolding sign_extend
sign_extend-groups zero x h f =
    ground (arith, bit_or_overlap 6 (x % 128 - 64) (2 ^ 57 - 1) (omega arith))
sign_extend-groups (suc zero) x h f =
    ground (arith, bit_or_overlap 13 (x % 2 ^ 14 - 2 ^ 13) (2 ^ 50 - 1) (omega arith))
sign_extend-groups (suc (suc zero)) x h f =
    ground (arith, bit_or_overlap 20 (x % 2 ^ 21 - 2 ^ 20) (2 ^ 43 - 1) (omega arith))
sign_extend-groups (suc (suc (suc zero))) x h f =
    ground (arith, bit_or_overlap 27 (x % 2 ^ 28 - 2 ^ 27) (2 ^ 36 - 1) (omega arith))
sign_extend-groups (suc (suc (suc (suc n)))) x h f = absurd (omega arith)

four_groups : (n v : ℕ) → n ≤ 3 → (v % 128 ^ (n + 1) < 128 ^ (n + 1)) × (v % 128 ^ (n + 1) < 2 ^ 28)
four_groups zero v h = ground arith
four_groups (suc zero) v h = ground arith
four_groups (suc (suc zero)) v h = ground arith
four_groups (suc (suc (suc zero))) v h = ground arith
four_groups (suc (suc (suc (suc n)))) v h = absurd (omega arith)

-- A signed number in at most four bytes is read as its 64 bits, and as many bytes are taken.
pub decode_value-signed_leb128_bytes :
    (k : Image) (eh : EhData) (n x : ℕ)
    → n ≤ 3
    → FitsGroups n x
    → n < eh.bytes_left
    → Stored k.memory eh.cursor (leb128_bytes n (x % 128 ^ (n + 1)))
    → decode_value k eh 0x09 ≡ ok (x, behind eh (n + 1))
unfolding decode_value decode_scaled decode_format scaling_base
decode_value-signed_leb128_bytes k eh n x h f l s =
    let low = four_groups n x h in
    rw
      (leb128_loop-bytes k n (eh.bytes_left + 1) eh (x % 128 ^ (n + 1)) 0 0 s l (omega arith) low.0
        (omega arith) (omega arith) (omega arith))
      (ok_two
        (ap (λ (t : ℕ). u64 (0 + t))
            (ap₂ (sign_extend 9) (omega arith) (omega arith) ∙ sign_extend-groups n x h f)
          ∙ omega arith)
        refl)
