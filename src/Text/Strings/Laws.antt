-- ===== src/Text/Strings/Laws.antt =====
-- Comparison of strings against the equality of lists.
use ultra.Prelude.{
  ℕ, zero, suc, ◌≡◌, ◌≤◌, ◌↔◌, refl, ap, ap₂, sym, ◌∙◌, Bool, true, ◌==◌, arith, List, [], ◌∷◌,
  ◌++◌, length, take, drop, length-append, map, ==_iff,
}
use ultra.Text.Ctype.{tolower}
use ultra.Text.Strings.{
  equal_with, str_equals, str_equals_with_cb, str_equals_caseless, str_starts_with,
  chars_caseless_compare,
}

-- A comparison up to the end of the first string, through keys of the characters.
equal_with_lem :
    (test : ℕ → ℕ → Bool) (key : ℕ → ℕ)
    → ((x y : ℕ) → test x y ≡ true → key x ≡ key y)
    → (xs ys : List ℕ) → equal_with test xs ys ≡ true
    → map key xs ≡ map key (take (length xs) ys)
unfolding equal_with
equal_with_lem test key h [] ys p = refl
equal_with_lem test key h (x ∷ xs) [] p = absurd (ground arith)
equal_with_lem test key h (x ∷ xs) (y ∷ ys) p =
    ap₂ (λ a l. a ∷ l) (h x y (ground arith)) (equal_with_lem test key h xs ys (ground arith))

equal_with_refl :
    (test : ℕ → ℕ → Bool) (key : ℕ → ℕ)
    → ((x y : ℕ) → key x ≡ key y → test x y ≡ true)
    → (xs ys : List ℕ) → length xs ≤ length ys
    → map key xs ≡ map key (take (length xs) ys)
    → equal_with test xs ys ≡ true
unfolding equal_with
equal_with_refl test key h [] ys l p = refl
equal_with_refl test key h (x ∷ xs) [] l p = absurd (omega arith)
equal_with_refl test key h (x ∷ xs) (y ∷ ys) l p =
    ground (arith, h x y cc, equal_with_refl test key h xs ys (omega arith) cc)

take_all : (xs ys : List ℕ) → length xs ≡ length ys → take (length xs) ys ≡ ys
take_all [] [] e = refl
take_all [] (y ∷ ys) e = absurd (omega arith)
take_all (x ∷ xs) [] e = absurd (omega arith)
take_all (x ∷ xs) (y ∷ ys) e = ap (λ l. y ∷ l) (take_all xs ys (omega arith))

length-map : (key : ℕ → ℕ) (xs : List ℕ) → length (map key xs) ≡ length xs
length-map key [] = refl
length-map key (x ∷ xs) = omega (arith, length-map key xs)

-- Where a test of two characters says whether they have the same key, `str_equals_with_cb` says
-- whether the two strings have the same keys in the same order.
pub str_equals_with_cb-keys :
    (test : ℕ → ℕ → Bool) (key : ℕ → ℕ) (xs ys : List ℕ)
    → ((x y : ℕ) → (test x y ≡ true) ↔ (key x ≡ key y))
    → (str_equals_with_cb xs ys test ≡ true) ↔ (map key xs ≡ map key ys)
unfolding str_equals_with_cb
str_equals_with_cb-keys test key xs ys h = (there, back)
  where
    there : str_equals_with_cb xs ys test ≡ true → map key xs ≡ map key ys
    there p =
        equal_with_lem test key (λ x y. (h x y).0) xs ys (ground arith)
        ∙ ap (map key) (take_all xs ys (ground arith))

    back : map key xs ≡ map key ys → str_equals_with_cb xs ys test ≡ true
    back e =
        let l : length xs ≡ length ys =
          sym (length-map key xs) ∙ ap (λ (k : List ℕ). length k) e ∙ length-map key ys in
        ground (
          arith,
          l,
          equal_with_refl test key (λ x y. (h x y).1) xs ys (omega arith)
              (e ∙ ap (map key) (sym (take_all xs ys l))),
        )

map_id : (xs : List ℕ) → map (λ x. x) xs ≡ xs
map_id [] = refl
map_id (x ∷ xs) = ap (λ l. x ∷ l) (map_id xs)

-- `str_equals` says whether the strings are equal, and `str_equals_caseless` whether they are equal once
-- `tolower` is applied to every character.
pub str_equals_iff :
    (xs ys : List ℕ)
    → ((str_equals xs ys ≡ true) ↔ (xs ≡ ys))
      × ((str_equals_caseless xs ys ≡ true) ↔ (map tolower xs ≡ map tolower ys))
unfolding str_equals str_equals_with_cb str_equals_caseless
str_equals_iff xs ys =
    let k = str_equals_with_cb-keys (λ x y. x == y) (λ x. x) xs ys ==_iff in
    (
      ((λ p. sym (map_id xs) ∙ k.0 p ∙ map_id ys), λ e. k.1 (ap (map (λ x. x)) e)),
      str_equals_with_cb-keys chars_caseless_compare tolower xs ys
          (λ x y. ==_iff (tolower x) (tolower y)),
    )

take-drop : (n : ℕ) (xs : List ℕ) → take n xs ++ drop n xs ≡ xs
take-drop zero [] = refl
take-drop zero (x ∷ xs) = refl
take-drop (suc n) [] = refl
take-drop (suc n) (x ∷ xs) = ap (λ l. x ∷ l) (take-drop n xs)

take-append : (xs ys : List ℕ) → take (length xs) (xs ++ ys) ≡ xs
take-append [] [] = refl
take-append [] (y ∷ ys) = refl
take-append (x ∷ xs) ys = ap (λ l. x ∷ l) (take-append xs ys)

-- `str_starts_with` says whether the string is the prefix followed by something.
pub str_starts_with_iff :
    (str prefix : List ℕ)
    → (str_starts_with str prefix ≡ true) ↔ ((rest : List ℕ) × (str ≡ prefix ++ rest))
unfolding str_starts_with equal_with
str_starts_with_iff str prefix = (there prefix, back)
  where
    keys : List ℕ → List ℕ
    keys l = map (λ x. x) l

    flip : (x y : ℕ) → (y == x) ≡ true → x ≡ y
    flip x y p = sym ((==_iff y x).0 p)

    there :
        (prefix : List ℕ)
        → str_starts_with str prefix ≡ true
        → (rest : List ℕ) × (str ≡ prefix ++ rest)
    there [] p = (str, refl)
    there (c ∷ prefix) p =
        let e = equal_with_lem (λ x y. y == x) (λ x. x) flip (c ∷ prefix) str (ground arith) in
        (
          drop (length (c ∷ prefix)) str,
          sym (take-drop (length (c ∷ prefix)) str)
              ∙ ap (λ l. l ++ drop (length (c ∷ prefix)) str)
                  (sym (map_id (take (length (c ∷ prefix)) str)) ∙ sym e ∙ map_id (c ∷ prefix)),
        )

    back : (rest : List ℕ) × (str ≡ prefix ++ rest) → str_starts_with str prefix ≡ true
    back (rest, e) = ground (
      arith,
      ap (λ (k : List ℕ). length k) e ∙ length-append prefix rest,
      equal_with_refl (λ x y. y == x) (λ x. x) (λ x y q. (==_iff y x).1 (sym q)) prefix str
          (omega (arith, ap (λ (k : List ℕ). length k) e ∙ length-append prefix rest))
          (ap (map (λ x. x)) (sym (take-append prefix rest) ∙ ap (take (length prefix)) (sym e))),
    )
