-- ===== src/Param/Tokens.antt =====
-- Settings on a command line, and how the parser takes one off.
use ultra.Prelude.{
  ◌==◌, if◌then◌else◌, ℕ, suc, ◌+◌, ◌-◌, ◌<◌, ◌≡◌, ◌≢◌, ◌∙◌, sym, ap, refl, true, false, some, List,
  [], ◌∷◌, ◌++◌, arith, length, drop, done, ltb, Bool-cases, inl, inr, length-append, ==_of_ne,
  take-append_length,
}
use ultra.Text.Ctype.{isspace, is_char_of_type}
use ultra.Text.Strings.{
  str_starts_with, str_offset_by, str_find_with_cb, str_substring, str_empty, str_find_one,
  find_match, equal_with,
}
use ultra.Param.{
  Scan, split, extend_key, cmdline_trim, match_whitespace, cut_value, plain_value, parse_value,
  is_quoted, quoted_value, scan_key,
}

-- A setting; without a value it is written as its key alone.
pub record Item : Type 0 where
  pub key : List ℕ
  pub value : List ℕ

abbrev pub double_dash : List ℕ
double_dash = 45 ∷ 45 ∷ []

-- Characters that do not end a key.
abbrev pub IsPlain : List ℕ → Type 0
IsPlain [] = Unit
IsPlain (c ∷ key) =
    (isspace c ≡ false) × (c ≢ 61) × (str_starts_with (c ∷ key) double_dash ≡ false) × IsPlain key

-- Characters that do not end a value.
abbrev pub IsUnspaced : List ℕ → Type 0
IsUnspaced [] = Unit
IsUnspaced (c ∷ value) = (isspace c ≡ false) × IsUnspaced value

abbrev pub StartsUnquoted : List ℕ → Type 0
StartsUnquoted [] = Unit
StartsUnquoted (c ∷ value) = c ≢ 34

pub record IsItem (item : Item) : Type 0 where
  pub nonempty : 0 < length item.key
  pub plain : IsPlain item.key
  pub unspaced : IsUnspaced item.value
  pub unquoted : StartsUnquoted item.value

abbrev pub assignment : List ℕ → List ℕ → List ℕ
assignment value rest = elim value [ [] ↦ rest | c ∷ value' ↦ 61 ∷ (c ∷ value' ++ rest) ]

-- The settings, each followed by a space, and then the rest.
abbrev pub line : List Item → List ℕ → List ℕ
line [] rest = rest
line (item ∷ items) rest = item.key ++ assignment item.value (32 ∷ line items rest)

pub starts_other : (c : ℕ) (str : List ℕ) → c ≢ 45 → str_starts_with (c ∷ str) double_dash ≡ false
unfolding str_starts_with equal_with
starts_other c [] n = ground arith
starts_other c (d ∷ str) n = ground arith

starts_more :
    (c : ℕ) (key : List ℕ) (t : ℕ) (rest : List ℕ)
    → t ≢ 45
    → str_starts_with (c ∷ key) double_dash ≡ false
    → str_starts_with (c ∷ (key ++ (t ∷ rest))) double_dash ≡ false
unfolding str_starts_with equal_with
starts_more c [] t rest n h = ground arith
starts_more c (d ∷ key) t rest n h = ground arith

pub starts_dashes : (rest : List ℕ) → str_starts_with (double_dash ++ rest) double_dash ≡ true
unfolding str_starts_with equal_with
starts_dashes rest = ground arith

pub space : isspace 32 ≡ true
unfolding isspace is_char_of_type
space = refl

pub equals_sign : isspace 61 ≡ false
unfolding isspace is_char_of_type
equals_sign = refl

pub dash : isspace 45 ≡ false
unfolding isspace is_char_of_type
dash = refl

pub quote_starts : str_starts_with (34 ∷ []) double_dash ≡ false
unfolding str_starts_with
quote_starts = refl

pub quote : isspace 34 ≡ false
unfolding isspace is_char_of_type
quote = refl

abbrev extend_keys : List ℕ → Scan → Scan
extend_keys [] scan = scan
extend_keys (c ∷ key) scan = extend_key c (extend_keys key scan)

-- The characters of a key are taken off one by one.
pub scan_key-plain :
    (key : List ℕ) (t : ℕ) (rest : List ℕ) (scan : Scan)
    → t ≢ 45
    → IsPlain key
    → scan_key (t ∷ rest) ≡ done scan
    → scan_key (key ++ (t ∷ rest)) ≡ done (extend_keys key scan)
unfolding scan_key
scan_key-plain [] t rest scan n p e = e
scan_key-plain (c ∷ key) t rest scan n (s, q, d, p) e =
    rw (starts_more c key t rest n d, s, ==_of_ne c 61 q, scan_key-plain key t rest scan n p e) refl

scan_space : (rest : List ℕ) → scan_key (32 ∷ rest) ≡ done (split [] [] (cmdline_trim (32 ∷ rest)))
unfolding scan_key
scan_space rest = rw (starts_other 32 rest (λ e. omega arith), space) refl

find_match_lem :
    (value rest : List ℕ) (i : ℕ)
    → IsUnspaced value
    → find_match (value ++ (32 ∷ rest)) match_whitespace i ≡ done (some (i + length value))
unfolding find_match match_whitespace
find_match_lem [] rest i u = let z : i + 0 ≡ i = omega arith in rw (space, z) refl
find_match_lem (c ∷ value) rest i (s, u) =
    let z : i + 1 + length value ≡ i + suc (length value) = omega arith in
    rw (s, find_match_lem value rest (i + 1) u, z) refl

pub drop_0 : (l : List ℕ) → drop 0 l ≡ l
drop_0 [] = refl
drop_0 (x ∷ l) = refl

drop-append : (xs ys : List ℕ) → drop (length xs) (xs ++ ys) ≡ ys
drop-append [] ys = drop_0 ys
drop-append (x ∷ xs) ys = drop-append xs ys

pub cut_value_lem :
    (value rest : List ℕ) → cut_value (value ++ rest) (some (length value)) ≡ done (value, rest)
unfolding cut_value str_substring str_offset_by
cut_value_lem value rest =
    rw
      (
        below,
        inside,
        drop_0 (value ++ rest),
        minus_0,
        take-append_length value rest,
        drop-append value rest,
      )
      refl
  where
    minus_0 : length value - 0 ≡ length value
    minus_0 = omega arith

    below : ltb (length value) 0 ≡ false
    below = ground arith

    inside : ltb (length (value ++ rest)) (length value) ≡ false
    inside = ground (arith, length-append value rest)

plain_value_lem :
    (value rest : List ℕ)
    → IsUnspaced value
    → plain_value (value ++ (32 ∷ rest)) ≡ done (value, 32 ∷ rest)
unfolding plain_value str_find_with_cb str_offset_by
plain_value_lem value rest u =
    let e : ltb (length (value ++ (32 ∷ rest))) 0 ≡ false = ground arith in
    let z : 0 + length value ≡ length value = omega arith in
    rw
      (
        e,
        drop_0 (value ++ (32 ∷ rest)),
        find_match_lem value rest 0 u,
        z,
        cut_value_lem value (32 ∷ rest),
      )
      refl

pub parse_value_nil : parse_value [] ≡ plain_value []
unfolding parse_value is_quoted str_empty
parse_value_nil = refl

-- A value that is not empty is quoted where it starts with a quote.
pub parse_value_cons :
    (c : ℕ) (cmdline : List ℕ)
    → parse_value (c ∷ cmdline) ≡ (
        if c == 34
        then cut_value cmdline (str_find_one cmdline 34 0)
        else plain_value (c ∷ cmdline))
unfolding parse_value is_quoted quoted_value str_empty str_offset_by
parse_value_cons c cmdline =
    let full : (suc (length cmdline) == 0) ≡ false = ==_of_ne _ 0 (λ q. omega arith) in
    let inside : ltb (suc (length cmdline)) 1 ≡ false = ground arith in
    rw (full, inside, drop_0 cmdline) refl

scan_assignment :
    (c : ℕ) (value rest : List ℕ)
    → IsUnspaced (c ∷ value)
    → c ≢ 34
    → scan_key (61 ∷ (c ∷ value ++ (32 ∷ rest))) ≡ done (split [] (c ∷ value) (32 ∷ rest))
unfolding scan_key
scan_assignment c value rest u n =
    rw
      (
        starts_other 61 (c ∷ value ++ (32 ∷ rest)) (λ e. omega arith),
        equals_sign,
        parse_value_cons c (value ++ (32 ∷ rest)),
        ==_of_ne c 34 n,
        plain_value_lem (c ∷ value) rest u,
      )
      refl

pub extend_keys_split :
    (key value rest : List ℕ) → extend_keys key (split [] value rest) ≡ split key value rest
extend_keys_split [] value rest = refl
extend_keys_split (c ∷ key) value rest = ap (extend_key c) (extend_keys_split key value rest)

pub trim_space : (c : ℕ) (l : List ℕ) → isspace c ≡ true → cmdline_trim (c ∷ l) ≡ cmdline_trim l
unfolding cmdline_trim
trim_space c l e = rw e refl

nothing : cmdline_trim [] ≡ []
unfolding cmdline_trim
nothing = refl

pub trim_stays : (c : ℕ) (l : List ℕ) → isspace c ≡ false → cmdline_trim (c ∷ l) ≡ c ∷ l
unfolding cmdline_trim
trim_stays c l e = ground arith

trim-trim : (cmdline : List ℕ) → cmdline_trim (cmdline_trim cmdline) ≡ cmdline_trim cmdline
trim-trim [] = ap cmdline_trim nothing
trim-trim (c ∷ cmdline) = elim (Bool-cases (isspace c)) [
  | inl e ↦
      ap cmdline_trim (trim_space c cmdline e) ∙ trim-trim cmdline ∙ sym (trim_space c cmdline e)
  | inr e ↦ ap cmdline_trim (trim_stays c cmdline e)
]

-- One setting off the line.
pub scan_item :
    (item : Item) (rest : List ℕ)
    → IsItem item
    → (rest' : List ℕ) × (scan_key (item.key ++ assignment item.value (32 ∷ rest))
        ≡ done (split item.key item.value rest'))
      × (cmdline_trim rest' ≡ cmdline_trim (32 ∷ rest))
scan_item item rest v = go item.value v.unspaced v.unquoted
  where
    go :
        (value : List ℕ)
        → IsUnspaced value
        → StartsUnquoted value
        → (rest' : List ℕ) × (scan_key (item.key ++ assignment value (32 ∷ rest))
            ≡ done (split item.key value rest'))
          × (cmdline_trim rest' ≡ cmdline_trim (32 ∷ rest))
    go [] u n = (
      cmdline_trim (32 ∷ rest),
      scan_key-plain item.key 32 rest _ (λ e. omega arith) v.plain (scan_space rest)
          ∙ ap done (extend_keys_split item.key [] (cmdline_trim (32 ∷ rest))),
      trim-trim (32 ∷ rest),
    )
    go (c ∷ value) u n = (
      32 ∷ rest,
      scan_key-plain item.key 61 (c ∷ value ++ (32 ∷ rest)) _ (λ e. omega arith) v.plain
            (scan_assignment c value rest u n)
          ∙ ap done (extend_keys_split item.key (c ∷ value) (32 ∷ rest)),
      refl,
    )
