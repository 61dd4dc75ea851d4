-- ===== src/Param/Quoted.antt =====
-- Quoted values.
use ultra.Prelude.{
  ℕ, suc, ◌+◌, ◌<◌, ◌≡◌, ◌≢◌, ◌∙◌, refl, Bool, false, some, List, [], ◌∷◌, ◌++◌, ◌==◌, arith,
  length, done, ==_of_ne,
}
use ultra.Text.Strings.{str_find_one, str_empty, find_char}
use ultra.Param.{Param, State, split, cmdline_trim, scan_key, handle, parse_loop}
use ultra.Param.Tokens.{
  Item, IsPlain, IsItem, starts_other, equals_sign, quote_starts, quote, scan_key-plain, drop_0,
  parse_value_cons, cut_value_lem, extend_keys_split, trim_stays,
}
use ultra.Param.Line.{loop_item}

-- Characters that do not end a quoted value.
abbrev pub IsUnquoted : List ℕ → Type 0
IsUnquoted [] = Unit
IsUnquoted (c ∷ value) = (c ≢ 34) × IsUnquoted value

find_char_lem :
    (value rest : List ℕ) (i : ℕ)
    → IsUnquoted value
    → find_char (value ++ (34 ∷ rest)) 34 i ≡ some (i + length value)
unfolding find_char
find_char_lem [] rest i u = let z : i + 0 ≡ i = omega arith in rw z refl
find_char_lem (c ∷ value) rest i (n, u) =
    let z : i + 1 + length value ≡ i + suc (length value) = omega arith in
    rw (==_of_ne c 34 n, find_char_lem value rest (i + 1) u, z) refl

scan_quoted :
    (value rest : List ℕ)
    → IsUnquoted value
    → scan_key (61 ∷ 34 ∷ (value ++ (34 ∷ rest))) ≡ done (split [] value (34 ∷ rest))
unfolding scan_key str_find_one
scan_quoted value rest u =
    let z : 0 + length value ≡ length value = omega arith in
    rw
      (
        starts_other 61 (34 ∷ (value ++ (34 ∷ rest))) (λ e. omega arith),
        equals_sign,
        parse_value_cons 34 (value ++ (34 ∷ rest)),
        drop_0 (value ++ (34 ∷ rest)),
        find_char_lem value rest 0 u,
        z,
        cut_value_lem value (34 ∷ rest),
      )
      refl

-- A quoted value is read up to the closing quote, which stays on the command line: the next round takes
-- it for a parameter of its own, named by the quote.
pub parse_loop-quoted :
    (params : List Param) (unknown_cb : Bool) (fuel : ℕ) (key value rest : List ℕ) (s : State)
    → 0 < length key
    → IsPlain key
    → IsUnquoted value
    → parse_loop
        (suc (suc fuel))
        params
        unknown_cb
        (key ++ (61 ∷ 34 ∷ (value ++ (34 ∷ 32 ∷ rest))))
        s
      ≡ parse_loop fuel params unknown_cb
          (cmdline_trim (32 ∷ rest))
          (handle params unknown_cb (34 ∷ []) [] (handle params unknown_cb key value s))
unfolding parse_loop str_empty
parse_loop-quoted params unknown_cb fuel key value rest s h p u =
    first
    ∙ loop_item params unknown_cb fuel lone_quote rest (handle params unknown_cb key value s) plain
  where
    lone_quote : Item
    lone_quote = record { key = 34 ∷ []; value = [] }

    plain : IsItem lone_quote
    plain = record {
      nonempty = omega arith;
      plain = (quote, (λ e. omega arith), quote_starts, tt);
      unspaced = tt;
      unquoted = tt;
    }

    first :
        parse_loop
          (suc (suc fuel))
          params
          unknown_cb
          (key ++ (61 ∷ 34 ∷ (value ++ (34 ∷ 32 ∷ rest))))
          s
        ≡ parse_loop
            (suc fuel)
            params
            unknown_cb
            (34 ∷ 32 ∷ rest)
            (handle params unknown_cb key value s)
    first =
        let n : (length key == 0) ≡ false = ground arith in
        rw
          (
            scan_key-plain key 61 (34 ∷ (value ++ (34 ∷ 32 ∷ rest))) _ (λ e. omega arith) p
                (scan_quoted value (32 ∷ rest) u),
            extend_keys_split key value (34 ∷ 32 ∷ rest),
            n,
            trim_stays 34 (32 ∷ rest) quote,
          )
          refl
