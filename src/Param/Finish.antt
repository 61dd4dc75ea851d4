-- ===== src/Param/Finish.antt =====
-- The parser of the command line returns: every round but the last consumes a character.
use ultra.Prelude.{
  refl, ℕ, zero, suc, ◌+◌, ◌<◌, ◌≤◌, ◌≡◌, Bool, true, false, not, Option, none, some, List, [], ◌∷◌,
  ◌==◌, arith, if◌then◌else◌, length, drop, length-drop, done, Returns, Returns-bind, Returns_mono,
  ltb, Bool-cases, inl, inr,
}
use ultra.Text.Ctype.{isspace}
use ultra.Text.Strings.{
  str_starts_with, str_offset_by, str_find_with_cb, str_find_one, str_substring, str_empty,
  find_char,
}
use ultra.Text.Strings.Find.{Finds, str_find_with_cb-Finds}
use ultra.Param.Tokens.{parse_value_nil, parse_value_cons}
use ultra.Param.{
  Param, State, Scan, finish, split, extend_key, cmdline_trim, match_whitespace, cut_value,
  plain_value, parse_value, scan_key, handle, parse_loop, cmdline_parse,
}

cmdline_trim-length : (cmdline : List ℕ) → length (cmdline_trim cmdline) ≤ length cmdline
unfolding cmdline_trim
cmdline_trim-length [] = omega arith
cmdline_trim-length (c ∷ cmdline) = ground (arith, cmdline_trim-length cmdline)

-- An index that a search found is inside the text.
abbrev Inside : List ℕ → Option ℕ → Type 0
Inside text none = Unit
Inside text (some i) = i ≤ length text

-- What is left is not longer.
abbrev Leaves : List ℕ → List ℕ × List ℕ → Type 0
Leaves cmdline (value, rest) = length rest ≤ length cmdline

cut_value-Leaves :
    (cmdline : List ℕ) (found : Option ℕ)
    → Inside cmdline found
    → Returns (cut_value cmdline found) (Leaves cmdline)
unfolding cut_value str_substring str_offset_by
cut_value-Leaves cmdline none h =
    let e : ltb (length cmdline) (length cmdline) ≡ false = ground arith in
    let z : ltb (length cmdline) 0 ≡ false = ground arith in
    rw (z, e) (omega (arith, length-drop (length cmdline) cmdline))
cut_value-Leaves cmdline (some i) h =
    let e : ltb (length cmdline) i ≡ false = ground arith in
    let z : ltb i 0 ≡ false = ground arith in rw (z, e) (omega (arith, length-drop i cmdline))

Finds-Inside :
    (P : ℕ → Type 0) (cmdline : List ℕ) (r : Option ℕ)
    → Finds P 0 (length cmdline) r
    → Inside cmdline r
Finds-Inside P cmdline none h = tt
Finds-Inside P cmdline (some i) h = omega (arith, h.1)

-- The search tests a string only while there is a character left.
whitespace-returns : (c : ℕ) (str : List ℕ) → (b : Bool) × (match_whitespace (c ∷ str) ≡ done b)
unfolding match_whitespace
whitespace-returns c str = (isspace c, refl)

plain_value-Leaves : (cmdline : List ℕ) → Returns (plain_value cmdline) (Leaves cmdline)
unfolding plain_value
plain_value-Leaves cmdline =
    Returns-bind (Finds (λ j. match_whitespace (drop j cmdline) ≡ done true) 0 (length cmdline))
      (Leaves cmdline) (str_find_with_cb cmdline match_whitespace 0) (cut_value cmdline)
      (str_find_with_cb-Finds match_whitespace cmdline whitespace-returns 0 (omega arith))
      λ r h.
        cut_value-Leaves cmdline r
          (Finds-Inside (λ j. match_whitespace (drop j cmdline) ≡ done true) cmdline r h)

find_char-Inside :
    (c : ℕ) (str : List ℕ) (i : ℕ) (text : List ℕ)
    → i + length str ≤ length text
    → Inside text (find_char str c i)
unfolding find_char
find_char-Inside c [] i text h = tt
find_char-Inside c (x ∷ str) i text h =
    go (not (x == c)) (find_char-Inside c str (i + 1) text (omega arith))
  where
    go :
        (b : Bool)
        → Inside text (find_char str c (i + 1))
        → Inside text (if b then find_char str c (i + 1) else some i)
    go true k = k
    go false k = omega arith

parse_value-Leaves : (cmdline : List ℕ) → Returns (parse_value cmdline) (Leaves cmdline)
unfolding str_find_one
parse_value-Leaves [] = rw parse_value_nil (plain_value-Leaves [])
parse_value-Leaves (c ∷ cmdline) = rw (parse_value_cons c cmdline) (elim (Bool-cases (c == 34)) [
  | inl e ↦ rw e (
      Returns_mono (cut_value cmdline (str_find_one cmdline 34 0)) (λ r h. omega arith)
        (cut_value-Leaves cmdline (str_find_one cmdline 34 0)
          (find_char-Inside 34 (drop 0 cmdline) 0 cmdline (omega (arith, length-drop 0 cmdline)))))
  | inr e ↦ rw e (plain_value-Leaves (c ∷ cmdline))
])

-- A key that is not empty came off the command line.
abbrev Consumes : List ℕ → Scan → Type 0
Consumes cmdline (finish rest) = length rest ≤ length cmdline
Consumes cmdline (split key value rest) = length key + length rest ≤ length cmdline

scan_key-Consumes : (cmdline : List ℕ) → Returns (scan_key cmdline) (Consumes cmdline)
unfolding scan_key
scan_key-Consumes [] = omega arith
scan_key-Consumes (c ∷ cmdline) = elim (Bool-cases (str_starts_with (c ∷ cmdline) (45 ∷ 45 ∷ []))) [
  | inl e ↦ rw e (omega (arith, cmdline_trim-length (drop 1 cmdline), length-drop 1 cmdline))
  | inr e ↦ elim (Bool-cases (isspace c)) [
    | inl p ↦ rw (e, p) (omega (arith, cmdline_trim-length (c ∷ cmdline)))
    | inr p ↦ elim (Bool-cases (c == 61)) [
      | inl q ↦
          rw (e, p, q)
            (Returns-bind (Leaves cmdline) (Consumes (c ∷ cmdline)) (parse_value cmdline)
              (λ (value, rest). done (split [] value rest)) (parse_value-Leaves cmdline)
              λ (value, rest) h. omega arith)
      | inr q ↦
          rw (e, p, q)
            (Returns-bind (Consumes cmdline) (Consumes (c ∷ cmdline)) (scan_key cmdline)
              (λ scan. done (extend_key c scan)) (scan_key-Consumes cmdline) (longer c cmdline))
    ]
  ]
]
  where
    longer :
        (c : ℕ) (cmdline : List ℕ) (scan : Scan)
        → Consumes cmdline scan
        → Consumes (c ∷ cmdline) (extend_key c scan)
    longer c cmdline (finish rest) h = omega arith
    longer c cmdline (split key value rest) h = omega arith

parse_loop-returns :
    (fuel : ℕ) (params : List Param) (unknown_cb : Bool) (cmdline : List ℕ) (s : State)
    → length cmdline < fuel
    → Returns (parse_loop fuel params unknown_cb cmdline s) (λ r. length r.0 ≤ length cmdline)
unfolding parse_loop str_empty
parse_loop-returns zero params unknown_cb cmdline s h = absurd (omega arith)
parse_loop-returns (suc fuel) params unknown_cb cmdline s h =
    Returns-bind (Consumes cmdline) (λ r. length r.0 ≤ length cmdline) (scan_key cmdline) _
      (scan_key-Consumes cmdline)
      (next (λ cmdline' s' k. parse_loop-returns fuel params unknown_cb cmdline' s' k))
  where
    next :
        ((cmdline' : List ℕ) (s' : State)
          → length cmdline' < fuel
          → Returns
              (parse_loop fuel params unknown_cb cmdline' s')
              (λ r. length r.0 ≤ length cmdline'))
        → (scan : Scan) → Consumes cmdline scan
        → Returns {A = List ℕ × State}
            (elim scan [
              | finish rest ↦ done (rest, s)
              | split key value rest ↦
                  let later =
                    parse_loop fuel params unknown_cb
                      (cmdline_trim rest)
                      (handle params unknown_cb key value s) in
                  if str_empty key then done (rest, s) else later
            ])
            (λ r. length r.0 ≤ length cmdline)
    next k (finish rest) c = c
    next k (split [] value rest) c = omega arith
    next k (split (x ∷ key) value rest) c =
        let e : str_empty (x ∷ key) ≡ false = ground arith in
        rw e (
          Returns_mono
            (parse_loop fuel params unknown_cb (cmdline_trim rest)
              (handle params unknown_cb (x ∷ key) value s))
            (λ r h. omega (arith, cmdline_trim-length rest))
            (k (cmdline_trim rest) (handle params unknown_cb (x ∷ key) value s)
              (omega (arith, cmdline_trim-length rest))))

-- `cmdline_parse` returns on every command line: no test of a quote or of white space reads the first character of
-- an empty string, no string is offset by more than its size, and the loop ends; the command line that it leaves
-- for init is not longer.
pub cmdline_parse-returns :
    (params : List Param) (unknown_cb : Bool) (cmdline : List ℕ) (s : State)
    → Returns (cmdline_parse params unknown_cb cmdline s) (λ r. length r.0 ≤ length cmdline)
unfolding cmdline_parse
cmdline_parse-returns params unknown_cb cmdline s =
    Returns_mono (parse_loop (suc (length cmdline)) params unknown_cb (cmdline_trim cmdline) s)
      (λ r h. omega (arith, cmdline_trim-length cmdline))
      (parse_loop-returns (suc (length cmdline)) params unknown_cb (cmdline_trim cmdline) s
        (omega (arith, cmdline_trim-length cmdline)))
