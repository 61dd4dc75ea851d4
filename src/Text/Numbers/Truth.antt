-- ===== src/Text/Numbers/Truth.antt =====
-- `str_to_bool` against its table of options.
use ultra.Prelude.{
  ℕ, zero, suc, ◌+◌, ◌≡◌, ◌∙◌, ap, refl, Bool, List, [], ◌∷◌, some, map, ltb, arith, get_elem?,
  Bool-cases, inl, inr,
}
use ultra.Text.Ctype.{tolower}
use ultra.Text.Strings.{str_equals_caseless}
use ultra.Text.Strings.Laws.{str_equals_iff}
use ultra.Text.Numbers.{
  Result, ok, error, einval, options, num_true_options, find_option, str_to_bool,
}

-- The string is the option, up to case.
abbrev pub Says : List ℕ → List ℕ → Type 0
Says str option = map tolower str ≡ map tolower option

-- A result that is the truth of the first entry of the table that the string says; the entries are
-- numbered from `i` on.
abbrev pub Chosen : List ℕ → List (List ℕ) → ℕ → Result Bool → Type 0
Chosen str table i (ok b) =
    (k : ℕ) × (option : List ℕ) × (get_elem? table k ≡ some option)
    × Says str option
    × (b ≡ ltb (i + k) num_true_options)
Chosen str table i (error e) =
    (e ≡ einval)
    × ((k : ℕ) (option : List ℕ) → get_elem? table k ≡ some option → Says str option → ⊥)

module _ (str option : List ℕ) (table : List (List ℕ)) (i : ℕ) where
  Chosen-later :
      (r : Result Bool)
      → (Says str option → ⊥)
      → Chosen str table (i + 1) r
      → Chosen str (option ∷ table) i r
  Chosen-later (ok b) n (k, o, e, s, t) =
      let j : i + 1 + k ≡ i + suc k = omega arith in
      (suc k, o, e, s, t ∙ ap (λ x. ltb x num_true_options) j)
  Chosen-later (error e) n (p, h) = (p, none_says)
    where
      none_says : (k : ℕ) (o : List ℕ) → get_elem? (option ∷ table) k ≡ some o → Says str o → ⊥
      none_says zero o q s = let same : o ≡ option = cc in n (rw same at s)
      none_says (suc k) o q s = h k o q s

find_option-Chosen :
    (str : List ℕ) (table : List (List ℕ)) (i : ℕ) → Chosen str table i (find_option str table i)
unfolding find_option
find_option-Chosen str [] i = (refl, λ k o e s. cc)
find_option-Chosen str (option ∷ table) i = elim (Bool-cases (str_equals_caseless str option)) [
  | inl p ↦
      let z : i ≡ i + 0 = omega arith in
      rw p (0, option, refl, (str_equals_iff str option).1.0 p, ap (λ x. ltb x num_true_options) z)
  | inr p ↦ rw p (
      Chosen-later str option table i (find_option str table (i + 1))
        (λ s. let q = (str_equals_iff str option).1.1 s in cc)
        (find_option-Chosen str table (i + 1)))
]

-- `str_to_bool` gives true for y, t, on and 1, false for n, f, off and 0, in any case of the letters,
-- and EINVAL for every other string.
pub str_to_bool-Chosen : (str : List ℕ) → Chosen str options 0 (str_to_bool str)
unfolding str_to_bool
str_to_bool-Chosen str = find_option-Chosen str options 0
