-- ===== src/Param/Get.antt =====
-- kernel/param.c: the `get` operations, which print the variable of a parameter into the memory of a string. The memory is
-- the list from `mutable_text` on; `size` is the field of the string.
use ultra.Prelude.{
  false, ℕ, ◌-◌, ◌%◌, ◌^◌, ◌≤◌, ◌<◌, ◌≡◌, refl, ap, ap₂, subst, ◌∙◌, arith, Bool, List, [], ◌∷◌,
  ◌++◌, append-nil, length, take, drop, set, min, ltb, if◌then◌else◌, Outcome, done, ◌>>=◌, Returns,
  Returns-bind,
}
use ultra.Text.Numbers.{sign_extend}
use ultra.Format.Spec.{Arg, int_arg, long_arg}
use ultra.Format.Print.{snprintf, vsnprintf}
use ultra.Format.Buffer.{padding}
use ultra.Format.Digits.{IsNumeral}
use ultra.Format.Directives.{long_long_length, unsigned_u}
use ultra.Format.Prints.{Directive, integer}
use ultra.Format.Output.{ended, Outputs, vsnprintf-Outputs}

-- The result, the memory and the new size of the string. `bytes` is an `int` made a `size_t`.
unfoldable pub param_get : List ℕ → Arg → List ℕ → ℕ → Outcome (ℕ × List ℕ × ℕ)
param_get fmt value mutable_text size = do
  (ret, mutable_text) ← snprintf mutable_text size fmt (value ∷ [])
  let bytes = sign_extend 32 ret
  done (bytes, mutable_text, min bytes size)

-- "%d", "%u", "%lld" and "%llu"; what is shorter than an `int` is made one.
abbrev pub param_get_i8 : ℕ → List ℕ → ℕ → Outcome (ℕ × List ℕ × ℕ)
param_get_i8 value = param_get (37 ∷ 100 ∷ []) (int_arg (sign_extend 8 value))

abbrev pub param_get_u8 : ℕ → List ℕ → ℕ → Outcome (ℕ × List ℕ × ℕ)
param_get_u8 value = param_get (37 ∷ 117 ∷ []) (int_arg (value % 2 ^ 8))

abbrev pub param_get_i16 : ℕ → List ℕ → ℕ → Outcome (ℕ × List ℕ × ℕ)
param_get_i16 value = param_get (37 ∷ 100 ∷ []) (int_arg (sign_extend 16 value))

abbrev pub param_get_u16 : ℕ → List ℕ → ℕ → Outcome (ℕ × List ℕ × ℕ)
param_get_u16 value = param_get (37 ∷ 117 ∷ []) (int_arg (value % 2 ^ 16))

abbrev pub param_get_i32 : ℕ → List ℕ → ℕ → Outcome (ℕ × List ℕ × ℕ)
param_get_i32 value = param_get (37 ∷ 100 ∷ []) (int_arg value)

abbrev pub param_get_u32 : ℕ → List ℕ → ℕ → Outcome (ℕ × List ℕ × ℕ)
param_get_u32 value = param_get (37 ∷ 117 ∷ []) (int_arg value)

abbrev pub param_get_i64 : ℕ → List ℕ → ℕ → Outcome (ℕ × List ℕ × ℕ)
param_get_i64 value = param_get (37 ∷ 108 ∷ 108 ∷ 100 ∷ []) (long_arg value)

abbrev pub param_get_u64 : ℕ → List ℕ → ℕ → Outcome (ℕ × List ℕ × ℕ)
param_get_u64 value = param_get (37 ∷ 108 ∷ 108 ∷ 117 ∷ []) (long_arg value)

abbrev pub param_get_bool : Bool → List ℕ → ℕ → Outcome (ℕ × List ℕ × ℕ)
param_get_bool value = param_get (37 ∷ 100 ∷ []) (int_arg (if value then 1 else 0))

unfoldable pub param_get_string : List ℕ → List ℕ → ℕ → ℕ × List ℕ × ℕ
param_get_string src mutable_text size =
    let copied = min (length src) size in
    let text = take copied src ++ drop copied mutable_text in
    (length src, if ltb (length src) size then set text (length src) 0 else text, copied)

-- The directive of "%llu".
abbrev pub u64_directive : ℕ → List (List ℕ × Directive)
u64_directive value = ([], integer [] [] 0 long_long_length unsigned_u value) ∷ []

-- The numeral of the number, cut as a string is.
abbrev pub Got : ℕ → List ℕ → ℕ → ℕ × List ℕ × ℕ → Type 0
Got value mutable_text size r =
    (digits : List ℕ) × IsNumeral false 10 value digits
    × (r.0 ≡ length digits)
    × (r.1 ≡ ended size mutable_text digits)
    × (r.2 ≡ min (length digits) size)

int_bytes : (ret n : ℕ) → ret ≡ n → n ≤ 22 → sign_extend 32 ret ≡ n
int_bytes ret n e h = let near : ret < 2 ^ 31 = omega (arith, e) in ground (arith, near, e)

-- The `get` operation of a u64 leaves in the memory of the string, whose size is inside of it, the decimal
-- numeral of the number ("0" for 0, and else without a leading 0), up to one less than the size, and a 0 behind them. It returns how many digits it has, and the
-- size of the string becomes that or stays, so that it counts the 0 where not all digits fit.
pub param_get_u64-Got :
    (value size : ℕ) (mutable_text : List ℕ)
    → value < 2 ^ 64
    → size ≤ length mutable_text
    → Returns (param_get_u64 value mutable_text size) (Got value mutable_text size)
unfolding param_get snprintf
param_get_u64-Got value size mutable_text h k =
    Returns-bind (Outputs size mutable_text (u64_directive value) [] (λ n. n)) _
      (vsnprintf mutable_text size (37 ∷ 108 ∷ 108 ∷ 117 ∷ []) (long_arg value ∷ [])) _
      (vsnprintf-Outputs (u64_directive value) [] mutable_text size (tt, (tt, refl), tt) k
        (omega arith))
      (λ r (out, (o, rest, e, (digits, p, f), last), n, m).
        let low : value % 2 ^ 64 % 2 ^ 64 ≡ value = omega arith in
        let q : IsNumeral false 10 value digits = subst (λ v. IsNumeral false 10 v digits) low p in
        let none : 0 - length digits ≡ 0 = omega arith in
        let all : out ≡ digits =
          e
          ∙ ap₂ (λ (a b : List ℕ). a ++ b) f last
          ∙ append-nil (padding (0 - length digits) 32 ++ digits)
          ∙ ap (λ k. padding k 32 ++ digits) none in
        let count : r.0 ≡ length digits = n ∙ ap length all in
        let bytes : sign_extend 32 r.0 ≡ length digits =
          int_bytes r.0 (length digits) count q.short in
        (digits, q, bytes, m ∙ ap (λ l. ended size mutable_text l) all, ap (λ b. min b size) bytes))
