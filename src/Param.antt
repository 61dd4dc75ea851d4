-- ===== src/Param.antt =====
-- kernel/param.c and kernel/include/param.h: the parameters of the kernel and the command line that
-- sets them. Error messages are left out.
pub mod Finish
pub mod Lookup
pub mod Tokens
pub mod Line
pub mod Quoted
pub mod Get
mod Tests
use ultra.Prelude.{
  ℕ, zero, suc, ◌+◌, Bool, true, false, not, ◌&&◌, ◌||◌, Option, none, some, List, [], ◌∷◌, ◌++◌,
  ◌==◌, if◌then◌else◌, length, set, drop, Outcome, done, bug, fault, unfinished, ◌>>=◌,
}
use ultra.Text.Ctype.{isspace}
use ultra.Text.Strings.{
  str_equals_with_cb, str_starts_with, str_offset_by, str_find_with_cb, str_find_one, str_substring,
  str_empty,
}
use ultra.Text.Numbers.{
  Result, ok, error, einval, str_to_i8_with_base, str_to_u8_with_base, str_to_i16_with_base,
  str_to_u16_with_base, str_to_i32_with_base, str_to_u32_with_base, str_to_i64_with_base,
  str_to_u64_with_base, str_to_bool,
}

-- What a parameter's `value` points to.
pub data ParamValue : Type 0 where
  number : ℕ → ParamValue
  truth : Bool → ParamValue
  text : List ℕ → ParamValue

-- `struct param_ops` without `get`: `set` gives what it writes to `*p->value`, or an error.
pub record ParamOps : Type 0 where
  pub allows_empty_value : Bool
  pub set : List ℕ → Result ParamValue

-- `struct param`; `value` is the index of the variable it points to.
pub record Param : Type 0 where
  pub name : List ℕ
  pub ops : ParamOps
  pub value : ℕ

abbrev pub written {ℓ} : {A : Type ℓ} → (A → ParamValue) → Result A → Result ParamValue
written f (ok a) = ok (f a)
written f (error e) = error e

unfoldable pub param_set_bool : List ℕ → Result ParamValue
param_set_bool str = if str_empty str then ok (truth true) else written truth (str_to_bool str)

abbrev pub g_param_i8_ops : ParamOps
g_param_i8_ops = record {
  allows_empty_value = false;
  set = λ str. written number (str_to_i8_with_base str 0);
}

abbrev pub g_param_u8_ops : ParamOps
g_param_u8_ops = record {
  allows_empty_value = false;
  set = λ str. written number (str_to_u8_with_base str 0);
}

abbrev pub g_param_i16_ops : ParamOps
g_param_i16_ops = record {
  allows_empty_value = false;
  set = λ str. written number (str_to_i16_with_base str 0);
}

abbrev pub g_param_u16_ops : ParamOps
g_param_u16_ops = record {
  allows_empty_value = false;
  set = λ str. written number (str_to_u16_with_base str 0);
}

abbrev pub g_param_i32_ops : ParamOps
g_param_i32_ops = record {
  allows_empty_value = false;
  set = λ str. written number (str_to_i32_with_base str 0);
}

abbrev pub g_param_u32_ops : ParamOps
g_param_u32_ops = record {
  allows_empty_value = false;
  set = λ str. written number (str_to_u32_with_base str 0);
}

abbrev pub g_param_i64_ops : ParamOps
g_param_i64_ops = record {
  allows_empty_value = false;
  set = λ str. written number (str_to_i64_with_base str 0);
}

abbrev pub g_param_u64_ops : ParamOps
g_param_u64_ops = record {
  allows_empty_value = false;
  set = λ str. written number (str_to_u64_with_base str 0);
}

abbrev pub g_param_bool_ops : ParamOps
g_param_bool_ops = record { allows_empty_value = true; set = param_set_bool }

abbrev pub g_param_string_ops : ParamOps
g_param_string_ops = record { allows_empty_value = false; set = λ str. ok (text str) }

abbrev pub dash_to_underscore : ℕ → ℕ
dash_to_underscore c = if c == 45 then 95 else c

abbrev pub cmdline_name_compare : ℕ → ℕ → Bool
cmdline_name_compare lhs rhs = dash_to_underscore lhs == dash_to_underscore rhs

unfoldable pub find_param : List ℕ → List Param → Option Param
find_param name [] = none
find_param name (p ∷ params) =
    let later = find_param name params in
    if str_equals_with_cb p.name name cmdline_name_compare then some p else later

unfoldable pub cmdline_trim : List ℕ → List ℕ
cmdline_trim [] = []
cmdline_trim (c ∷ cmdline) =
    let later = cmdline_trim cmdline in if isspace c then later else c ∷ cmdline

-- `str.text[0]`
abbrev pub first_char : List ℕ → Outcome ℕ
first_char [] = fault
first_char (c ∷ str) = done c

unfoldable pub match_whitespace : List ℕ → Outcome Bool
match_whitespace str = first_char str >>= λ c. done (isspace c)

-- `value_end == -1` stands for the end of the string; the value, and the command line after it
unfoldable pub cut_value : List ℕ → Option ℕ → Outcome (List ℕ × List ℕ)
cut_value cmdline found =
    let value_end : ℕ = elim found [ none ↦ length cmdline | some i ↦ i ] in
    str_substring cmdline 0 value_end >>= λ value.
    str_offset_by cmdline value_end >>= λ rest. done (value, rest)

unfoldable pub plain_value : List ℕ → Outcome (List ℕ × List ℕ)
unfolding cut_value
plain_value cmdline = str_find_with_cb cmdline match_whitespace 0 >>= cut_value cmdline

-- `!str_empty(cmdline) && cmdline.text[0] == '"'`
unfoldable pub is_quoted : List ℕ → Outcome Bool
is_quoted cmdline =
    let quoted = first_char cmdline >>= λ c. done (c == 34) in
    if not (str_empty cmdline) then quoted else done false

unfoldable pub quoted_value : List ℕ → Outcome (List ℕ × List ℕ)
unfolding cut_value
quoted_value cmdline = str_offset_by cmdline 1 >>= λ rest. cut_value rest (str_find_one rest 34 0)

-- what follows `=`
unfoldable pub parse_value : List ℕ → Outcome (List ℕ × List ℕ)
parse_value cmdline =
    is_quoted cmdline >>= λ quoted. if quoted then quoted_value cmdline else plain_value cmdline

-- One round of the outer loop up to the lookup: `return cmdline`, or a key with its value and the
-- command line after them.
pub data Scan : Type 0 where
  finish : List ℕ → Scan
  split : List ℕ → List ℕ → List ℕ → Scan

abbrev pub extend_key : ℕ → Scan → Scan
extend_key c (finish rest) = finish rest
extend_key c (split key value rest) = split (c ∷ key) value rest

unfoldable pub scan_key : List ℕ → Outcome Scan
unfolding parse_value
scan_key [] = done (split [] [] [])
scan_key (c ∷ cmdline) =
    let longer = scan_key cmdline >>= λ scan. done (extend_key c scan) in
    if str_starts_with (c ∷ cmdline) (45 ∷ 45 ∷ [])
    then done (finish (cmdline_trim (drop 1 cmdline)))
    else if isspace c
    then done (split [] [] (cmdline_trim (c ∷ cmdline)))
    else if c == 61
    then (parse_value cmdline >>= λ (value, rest). done (split [] value rest))
    else longer

-- The variables that parameters point to, and the calls of `unknown_cb` so far, the last one first.
pub record State : Type 0 where
  pub variables : List ParamValue
  pub unknown : List (List ℕ × List ℕ)

unfoldable pub set_param : Param → List ℕ → State → State
set_param p value s =
    if not (str_empty value) || p.ops.allows_empty_value
    then elim (p.ops.set value) [
      | ok v ↦ record s { variables = set s.variables p.value v }
      | error e ↦ s
    ]
    else s

-- The body of the outer loop from the lookup on; `unknown_cb` tells whether there is a callback.
unfoldable pub handle : List Param → Bool → List ℕ → List ℕ → State → State
handle params unknown_cb key value s = elim (find_param key params) [
  | none ↦ if unknown_cb then record s { unknown = (key, value) ∷ s.unknown } else s
  | some p ↦ set_param p value s
]

-- The outer loop, on fuel.
unfoldable pub parse_loop : ℕ → List Param → Bool → List ℕ → State → Outcome (List ℕ × State)
parse_loop zero params unknown_cb cmdline s = unfinished
parse_loop (suc fuel) params unknown_cb cmdline s = scan_key cmdline >>= λ scan. elim scan [
  | finish rest ↦ done (rest, s)
  | split key value rest ↦
      let later =
        parse_loop fuel params unknown_cb (cmdline_trim rest)
          (handle params unknown_cb key value s) in
      if str_empty key then done (rest, s) else later
]

-- One round more than the command line has characters.
unfoldable pub cmdline_parse : List Param → Bool → List ℕ → State → Outcome (List ℕ × State)
cmdline_parse params unknown_cb cmdline s =
    parse_loop (suc (length cmdline)) params unknown_cb (cmdline_trim cmdline) s
