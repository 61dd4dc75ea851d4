-- ===== src/Param/Line.antt =====
-- Command lines that are written from a list of settings, and what the parser makes of them.
use ultra.Prelude.{
  ℕ, suc, ◌+◌, ◌-◌, ◌<◌, ◌≤◌, ◌≡◌, ◌∙◌, sym, ap, refl, Bool, false, List, [], ◌∷◌, ◌++◌, ◌==◌,
  arith, length, done, length-append,
}
use ultra.Text.Strings.{str_empty}
use ultra.Param.{Param, State, cmdline_trim, scan_key, handle, parse_loop, cmdline_parse}
use ultra.Param.Tokens.{
  Item, double_dash, IsPlain, IsItem, assignment, line, starts_dashes, space, dash, drop_0,
  trim_space, scan_item,
}

-- The settings handled one after the other.
abbrev pub handle_all : List Param → Bool → List Item → State → State
handle_all params unknown_cb [] s = s
handle_all params unknown_cb (item ∷ items) s =
    handle_all params unknown_cb items (handle params unknown_cb item.key item.value s)

abbrev pub AreItems : List Item → Type 0
AreItems [] = Unit
AreItems (item ∷ items) = IsItem item × AreItems items

module _ (params : List Param) (unknown_cb : Bool) where
  pub loop_item :
      (fuel : ℕ) (item : Item) (rest : List ℕ) (s : State)
      → IsItem item
      → parse_loop (suc fuel) params unknown_cb (item.key ++ assignment item.value (32 ∷ rest)) s
        ≡ parse_loop fuel params unknown_cb
            (cmdline_trim (32 ∷ rest))
            (handle params unknown_cb item.key item.value s)
  unfolding parse_loop str_empty
  loop_item fuel item rest s v =
      let (rest', e, t) = scan_item item rest v in
      let n : (length item.key == 0) ≡ false = ground (arith, v.nonempty) in rw (e, n, t) refl

  -- A line of settings starts with a character that is not trimmed.
  line_trim :
      (items : List Item) (rest : List ℕ)
      → AreItems items
      → cmdline_trim (32 ∷ line items (double_dash ++ rest)) ≡ line items (double_dash ++ rest)
  unfolding cmdline_trim
  line_trim [] rest v = rw (space, dash) refl
  line_trim (item ∷ items) rest (v, w) = go item.key v.nonempty v.plain
    where
      go :
          (key : List ℕ)
          → 0 < length key
          → IsPlain key
          → cmdline_trim
              (32 ∷ (key ++ assignment item.value (32 ∷ line items (double_dash ++ rest))))
            ≡ key ++ assignment item.value (32 ∷ line items (double_dash ++ rest))
      go [] h p = absurd (omega arith)
      go (c ∷ key) h p = rw (space, p.0) refl

  loop_finish :
      (fuel : ℕ) (rest : List ℕ) (s : State)
      → parse_loop (suc fuel) params unknown_cb (double_dash ++ rest) s
        ≡ done (cmdline_trim rest, s)
  unfolding parse_loop scan_key
  loop_finish fuel rest s = rw (starts_dashes rest, drop_0 rest) refl

  loop_line :
      (fuel : ℕ) (items : List Item) (rest : List ℕ) (s : State)
      → AreItems items
      → parse_loop
          (suc (length items) + fuel)
          params
          unknown_cb
          (line items (double_dash ++ rest))
          s
        ≡ done (cmdline_trim rest, handle_all params unknown_cb items s)
  loop_line fuel [] rest s v =
      let n : suc (length {A = Item} []) + fuel ≡ suc fuel = omega arith in
      ap (λ k. parse_loop k params unknown_cb (double_dash ++ rest) s) n ∙ loop_finish fuel rest s
  loop_line fuel (item ∷ items) rest s (v, w) =
      let n : suc (length (item ∷ items)) + fuel ≡ suc (suc (length items) + fuel) = omega arith in
      ap (λ k. parse_loop k params unknown_cb (line (item ∷ items) (double_dash ++ rest)) s) n
      ∙ loop_item (suc (length items) + fuel) item (line items (double_dash ++ rest)) s v
      ∙ ap
          (λ l.
            parse_loop (suc (length items) + fuel) params unknown_cb l
              (handle params unknown_cb item.key item.value s))
          (line_trim items rest w)
      ∙ loop_line fuel items rest (handle params unknown_cb item.key item.value s) w

line-length :
    (items : List Item) (rest : List ℕ) → AreItems items → length items ≤ length (line items rest)
line-length [] rest v = omega arith
line-length (item ∷ items) rest (v, w) = omega (
  arith,
  length-append item.key (assignment item.value (32 ∷ line items rest)),
  v.nonempty,
  longer item.value,
  line-length items rest w,
)
  where
    longer :
        (value : List ℕ)
        → length (line items rest) ≤ length (assignment value (32 ∷ line items rest))
    longer [] = omega arith
    longer (c ∷ value) = omega (arith, length-append value (32 ∷ line items rest))

-- A command line of settings, each a key or a key, `=` and a value, followed by spaces and then by `--`
-- and the rest, sets them one after the other and leaves the rest without its leading white space.
-- Keys are not empty and have no white space, no `=` and no two dashes in a row; values have no white
-- space and do not start with a quote.
pub cmdline_parse-line :
    (params : List Param) (unknown_cb : Bool) (items : List Item) (rest : List ℕ) (s : State)
    → AreItems items
    → cmdline_parse params unknown_cb (line items (double_dash ++ rest)) s
      ≡ done (cmdline_trim rest, handle_all params unknown_cb items s)
unfolding cmdline_parse
cmdline_parse-line params unknown_cb items rest s v =
    let cmdline = line items (double_dash ++ rest) in
    let n : suc (length cmdline) ≡ suc (length items) + (length cmdline - length items) =
      omega (arith, line-length items (double_dash ++ rest) v) in
    ap (λ l. parse_loop (suc (length cmdline)) params unknown_cb l s)
      (sym (trim_space 32 cmdline space) ∙ line_trim params unknown_cb items rest v)
    ∙ ap (λ k. parse_loop k params unknown_cb cmdline s) n
    ∙ loop_line params unknown_cb (length cmdline - length items) items rest s v
