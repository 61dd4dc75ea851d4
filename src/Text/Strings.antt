-- ===== src/Text/Strings.antt =====
-- kernel/include/common/string_container.h and kernel/common/string_container.c. A `struct string` is
-- the list of the bytes it spans; an empty string and `NULL` are the same list. -1 is `none`.
pub mod Laws
pub mod Find
use ultra.Prelude.{
  ℕ, zero, suc, ◌+◌, ◌-◌, Bool, true, false, not, Option, none, some, List, [], ◌∷◌, ltb, leb, ◌==◌,
  if◌then◌else◌, length, take, drop, Outcome, done, bug, ◌>>=◌,
}
use ultra.Text.Ctype.{tolower}

-- The loops that compare two strings up to the end of the first, which is not the longer one.
unfoldable pub equal_with : (ℕ → ℕ → Bool) → List ℕ → List ℕ → Bool
equal_with are_equal [] rhs = true
equal_with are_equal (x ∷ lhs) [] = false
equal_with are_equal (x ∷ lhs) (y ∷ rhs) =
    let later = equal_with are_equal lhs rhs in if not (are_equal x y) then false else later

unfoldable pub str_equals : List ℕ → List ℕ → Bool
unfolding equal_with
str_equals lhs rhs =
    if not (length lhs == length rhs) then false else equal_with (λ x y. x == y) lhs rhs

unfoldable pub str_equals_with_cb : List ℕ → List ℕ → (ℕ → ℕ → Bool) → Bool
unfolding equal_with
str_equals_with_cb lhs rhs are_equal =
    if not (length lhs == length rhs) then false else equal_with are_equal lhs rhs

abbrev pub chars_caseless_compare : ℕ → ℕ → Bool
chars_caseless_compare lhs rhs = tolower lhs == tolower rhs

unfoldable pub str_equals_caseless : List ℕ → List ℕ → Bool
unfolding str_equals_with_cb
str_equals_caseless lhs rhs = str_equals_with_cb lhs rhs chars_caseless_compare

unfoldable pub str_starts_with : List ℕ → List ℕ → Bool
unfolding equal_with
str_starts_with str prefix =
    if ltb (length str) (length prefix)
    then false
    else if length prefix == 0
    then true
    else equal_with (λ x y. y == x) prefix str

unfoldable pub str_empty : List ℕ → Bool
str_empty str = length str == 0

unfoldable pub str_offset_by : List ℕ → ℕ → Outcome (List ℕ)
str_offset_by str value = if ltb (length str) value then bug else done (drop value str)

-- The loop of `str_find_with_cb`; `offset` counts up as the string is offset by one.
unfoldable pub find_match : List ℕ → (List ℕ → Outcome Bool) → ℕ → Outcome (Option ℕ)
find_match [] is_match offset = done none
find_match (c ∷ str) is_match offset =
    let later = find_match str is_match (offset + 1) in
    is_match (c ∷ str) >>= λ matches. if matches then done (some offset) else later

unfoldable pub str_find_with_cb : List ℕ → (List ℕ → Outcome Bool) → ℕ → Outcome (Option ℕ)
unfolding str_offset_by
str_find_with_cb str is_match offset =
    if ltb (length str) offset
    then bug
    else str_offset_by str offset >>= λ rest. find_match rest is_match offset

-- `k` at the end of the inner loop of `str_find`
unfoldable pub matched : List ℕ → List ℕ → ℕ → ℕ
matched str [] k = k
matched [] (n ∷ needle) k = k
matched (c ∷ str) (n ∷ needle) k =
    let later = matched str needle (k + 1) in if not (c == n) then k else later

-- The outer loop of `str_find` from `i` on, with the rest of the text from there and the number of
-- rounds that are left; the needle is `first` and what follows it.
unfoldable pub find_needle : ℕ → List ℕ → ℕ → List ℕ → ℕ → Option ℕ
unfolding matched
find_needle zero str first needle i = none
find_needle (suc rounds) [] first needle i = none
find_needle (suc rounds) (c ∷ str) first needle i =
    let later = find_needle rounds str first needle (i + 1) in
    if not (c == first)
    then later
    else if matched (c ∷ str) (first ∷ needle) 0 == length (first ∷ needle)
    then some i
    else later

unfoldable pub str_find : List ℕ → List ℕ → ℕ → Outcome (Option ℕ)
str_find str [] starting_at =
    if ltb (length str) starting_at
    then bug
    else if ltb (length str - starting_at) 0
    then done none
    else done (some starting_at)
str_find str (first ∷ needle) starting_at =
    let size = length (first ∷ needle) in
    if ltb (length str) starting_at
    then bug
    else if ltb (length str - starting_at) size
    then done none
    else done (
        find_needle (length str - size + 1 - starting_at) (drop starting_at str) first needle
          starting_at)

unfoldable pub str_contains : List ℕ → List ℕ → Outcome Bool
unfolding str_find
str_contains str needle =
    str_find str needle 0 >>= λ found. elim found [ none ↦ done false | some i ↦ done true ]

-- The loop of `str_find_one`, over the rest of the text from `i` on.
unfoldable pub find_char : List ℕ → ℕ → ℕ → Option ℕ
find_char [] needle i = none
find_char (c ∷ str) needle i =
    let later = find_char str needle (i + 1) in if not (c == needle) then later else some i

unfoldable pub str_find_one : List ℕ → ℕ → ℕ → Option ℕ
unfolding find_char
str_find_one str needle starting_at = find_char (drop starting_at str) needle starting_at

unfoldable pub str_substring : List ℕ → ℕ → ℕ → Outcome (List ℕ)
str_substring str start_idx end_idx =
    if ltb end_idx start_idx
    then done []
    else if ltb (length str) end_idx
    then bug
    else done (take (end_idx - start_idx) (drop start_idx str))

-- The character and the string after it, `none` where there is none.
unfoldable pub str_pop_one : List ℕ → Outcome (Option (ℕ × List ℕ))
unfolding str_offset_by
str_pop_one [] = done none
str_pop_one (c ∷ str) = str_offset_by (c ∷ str) 1 >>= λ rest. done (some (c, rest))
