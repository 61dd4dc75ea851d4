-- ===== src/Text/Strings/Find.antt =====
-- The searches of a string find the first place that matches.
use ultra.Prelude.{
  ℕ, zero, suc, ◌+◌, ◌-◌, ◌≡◌, ◌<◌, ◌≤◌, inl, inr, refl, ap, ap₂, subst, sym, ==_of_eq, ==_of_ne,
  ◌∙◌, Bool, true, false, not, ltb, ◌==◌, if◌then◌else◌, arith, List, [], ◌∷◌, ◌++◌, length, drop,
  length-append, Option, none, some, Outcome, done, Returns, Returns_mono, Bool-cases, length-drop,
}
use native.Mathlib.Decide.{dec_lt, ℕ_discrete}
use ultra.Text.Strings.{matched, find_needle, find_match, str_find, str_find_with_cb}

-- The result is the first index in a range with the property, or there is none.
abbrev pub Finds : (ℕ → Type 0) → ℕ → ℕ → Option ℕ → Type 0
Finds P from to none = (j : ℕ) → from ≤ j → j < to → P j → ⊥
Finds P from to (some i) = (from ≤ i) × (i < to) × P i × ((j : ℕ) → from ≤ j → j < i → P j → ⊥)

Finds-here : (P : ℕ → Type 0) (from to : ℕ) → from < to → P from → Finds P from to (some from)
Finds-here P from to h p = (omega arith, h, p, λ j a b. absurd (omega arith))

not_before :
    (P : ℕ → Type 0) (from to j : ℕ)
    → (P from → ⊥)
    → ((j : ℕ) → from + 1 ≤ j → j < to → P j → ⊥)
    → from ≤ j
    → j < to
    → P j
    → ⊥
not_before P from to j n h a b p = elim (ℕ_discrete j from) [
  | yes e ↦ n (subst P e p)
  | no e ↦ h j (omega arith) b p
]

Finds-later :
    (P : ℕ → Type 0) (from to : ℕ) (r : Option ℕ)
    → (P from → ⊥)
    → Finds P (from + 1) to r
    → Finds P from to r
Finds-later P from to none n h = λ j. not_before P from to j n h
Finds-later P from to (some i) n (a, b, p, h) = (omega arith, b, p, λ j. not_before P from i j n h)

drop-suc :
    (i : ℕ) (text : List ℕ) (c : ℕ) (str : List ℕ) → drop i text ≡ c ∷ str → drop (suc i) text ≡ str
drop-suc zero [] c str e = cc
drop-suc zero (x ∷ text) c str e = drop_zero text ∙ tails e
  where
    drop_zero : (l : List ℕ) → drop 0 l ≡ l
    drop_zero [] = refl
    drop_zero (y ∷ l) = refl

    tails : ◌≡◌ {A = List ℕ} (x ∷ text) (c ∷ str) → text ≡ str
    tails q = cc
drop-suc (suc i) [] c str e = cc
drop-suc (suc i) (x ∷ text) c str e = drop-suc i text c str e

drop_next :
    (i : ℕ) (text : List ℕ) (c : ℕ) (str : List ℕ) → drop i text ≡ c ∷ str → drop (i + 1) text ≡ str
drop_next i text c str e =
    let n : i + 1 ≡ suc i = omega arith in ap (λ k. drop k text) n ∙ drop-suc i text c str e

drop_nil : (i : ℕ) (text : List ℕ) → drop i text ≡ [] → length text ≤ i
drop_nil i text e = omega (arith, length-drop i text, ap (λ (k : List ℕ). length k) e)

-- `find_match` scans from its place to the end of the text, where the test of a string that is not empty returns.
module _ (is_match : List ℕ → Outcome Bool) (text : List ℕ)
    (returns : (c : ℕ) (str : List ℕ) → (b : Bool) × (is_match (c ∷ str) ≡ done b)) where
  find_match-Finds :
      (str : List ℕ) (i : ℕ)
      → drop i text ≡ str
      → Returns
          (find_match str is_match i)
          (Finds (λ j. is_match (drop j text) ≡ done true) i (length text))
  unfolding find_match
  find_match-Finds [] i e = λ j a b. absurd (omega (arith, drop_nil i text e))
  find_match-Finds (c ∷ str) i e =
      let (b, test) = returns c str in
      elim (Bool-cases b) [
        | inl p ↦
            rw (test, p)
              (Finds-here (λ j. is_match (drop j text) ≡ done true) i (length text)
                (omega (arith, length-drop i text, ap (λ (k : List ℕ). length k) e))
                (ap is_match e ∙ test ∙ ap done p))
        | inr p ↦
            rw (test, p)
              (Returns_mono (find_match str is_match (i + 1))
                (λ r.
                  Finds-later (λ j. is_match (drop j text) ≡ done true) i (length text) r
                    (λ q.
                      let s : done true ≡ done b = sym q ∙ ap is_match e ∙ test in
                      let t : done true ≡ done false = s ∙ ap done p in cc))
                (find_match-Finds str (i + 1) (drop_next i text c str e)))
      ]

  -- From an offset inside the text, `str_find_with_cb` returns the first index from there on whose rest
  -- of the text matches, or -1 where there is none.
  pub str_find_with_cb-Finds :
      (offset : ℕ)
      → offset ≤ length text
      → Returns
          (str_find_with_cb text is_match offset)
          (Finds (λ j. is_match (drop j text) ≡ done true) offset (length text))
  unfolding str_find_with_cb
  str_find_with_cb-Finds offset h = rw (outside) (find_match-Finds (drop offset text) offset refl)
    where
      outside : ltb (length text) offset ≡ false
      outside = ground arith

-- The needle stands at the index.
abbrev pub StandsAt : List ℕ → List ℕ → ℕ → Type 0
StandsAt needle text j = (rest : List ℕ) × (drop j text ≡ needle ++ rest)

matched_le : (str needle : List ℕ) (k : ℕ) → matched str needle k ≤ k + length needle
unfolding matched
matched_le str [] k = omega arith
matched_le [] (n ∷ needle) k = omega arith
matched_le (c ∷ str) (n ∷ needle) k = ground (arith, matched_le str needle (k + 1))

matched_all :
    (str needle : List ℕ) (k : ℕ)
    → matched str needle k ≡ k + length needle
    → (rest : List ℕ) × (str ≡ needle ++ rest)
unfolding matched
matched_all str [] k e = (str, refl)
matched_all [] (n ∷ needle) k e = absurd (omega arith)
matched_all (c ∷ str) (n ∷ needle) k e = elim (ℕ_discrete c n) [
  | yes p ↦
      let (rest, q) = matched_all str needle (k + 1) (ground arith) in
      (rest, ap₂ (λ a l. a ∷ l) p q)
  | no p ↦ absurd (ground arith)
]

matched_prefix :
    (needle rest : List ℕ) (k : ℕ) → matched (needle ++ rest) needle k ≡ k + length needle
unfolding matched
matched_prefix [] rest k = omega arith
matched_prefix (n ∷ needle) rest k = ground (arith, matched_prefix needle rest (k + 1))

module _ (first : ℕ) (needle text : List ℕ) where
  find_needle-Finds :
      (rounds i : ℕ) (str : List ℕ)
      → drop i text ≡ str
      → i + rounds ≤ length text
      → Finds
          (StandsAt (first ∷ needle) text)
          i
          (i + rounds)
          (find_needle rounds str first needle i)
  unfolding find_needle
  find_needle-Finds zero i str e h = λ j a b. absurd (omega arith)
  find_needle-Finds (suc rounds) i [] e h = absurd (omega (arith, drop_nil i text e))
  find_needle-Finds (suc rounds) i (c ∷ str) e h =
      go (matched (c ∷ str) (first ∷ needle) 0) refl (find_needle rounds str first needle (i + 1)) (
        subst
          (λ t.
            Finds (StandsAt (first ∷ needle) text) (i + 1) t
              (find_needle rounds str first needle (i + 1)))
          (omega arith)
          (find_needle-Finds rounds (i + 1) str (drop_next i text c str e) (omega arith)))
    where
      here :
          StandsAt (first ∷ needle) text i
          → matched (c ∷ str) (first ∷ needle) 0 ≡ length (first ∷ needle)
      here (rest, p) =
          ap (λ l. matched l (first ∷ needle) 0) (sym e ∙ p)
          ∙ matched_prefix (first ∷ needle) rest 0
          ∙ omega arith

      go :
          (m : ℕ)
          → matched (c ∷ str) (first ∷ needle) 0 ≡ m
          → (later : Option ℕ)
          → Finds (StandsAt (first ∷ needle) text) (i + 1) (i + suc rounds) later
          → Finds (StandsAt (first ∷ needle) text) i (i + suc rounds) (
              if not (c == first)
              then later
              else if m == length (first ∷ needle)
              then some i
              else later)
      go m q later f = elim (ℕ_discrete c first) [
        | no n ↦ rw (==_of_ne c first n) (
            Finds-later (StandsAt (first ∷ needle) text) i (i + suc rounds) later
              (λ (rest, p). let r : c ∷ str ≡ first ∷ (needle ++ rest) = sym e ∙ p in n cc) f)
        | yes n ↦ elim (ℕ_discrete m (length (first ∷ needle))) [
          | yes l ↦
              rw (==_of_eq c first n, ==_of_eq m (length (first ∷ needle)) l)
                (Finds-here (StandsAt (first ∷ needle) text) i (i + suc rounds) (omega arith) (
                  let (rest, p) = matched_all (c ∷ str) (first ∷ needle) 0 (omega (arith, q, l)) in
                  (rest, e ∙ p)))
          | no l ↦
              rw (==_of_eq c first n, ==_of_ne m (length (first ∷ needle)) l)
                (Finds-later (StandsAt (first ∷ needle) text) i (i + suc rounds) later
                  (λ s. l (sym q ∙ here s)) f)
        ]
      ]

-- A needle does not stand where the text that is left is shorter.
StandsAt-length :
    (needle text : List ℕ) (j : ℕ) → StandsAt needle text j → length needle ≤ length text - j
StandsAt-length needle text j (rest, e) =
    omega (arith, length-drop j text, ap (λ (k : List ℕ). length k) e, length-append needle rest)

-- What is not found up to the last place with enough text left is not found behind it.
extend_Finds :
    (needle text : List ℕ) (from to : ℕ) (r : Option ℕ)
    → length text < to + length needle
    → to ≤ suc (length text)
    → 0 < length needle
    → Finds (StandsAt needle text) from to r
    → Finds (StandsAt needle text) from (suc (length text)) r
extend_Finds needle text from to none short inside pos h = λ j a b s. elim (dec_lt j to) [
  | yes p ↦ h j a p s
  | no p ↦ omega (arith, StandsAt-length needle text j s)
]
extend_Finds needle text from to (some i) short inside pos (a, b, p, h) = (a, omega arith, p, h)

-- From an index inside the text, `str_find` returns the first index from there on where the needle
-- stands, or -1 where it stands at none.
pub str_find-Finds :
    (text needle : List ℕ) (starting_at : ℕ)
    → starting_at ≤ length text
    → Returns
        (str_find text needle starting_at)
        (Finds (StandsAt needle text) starting_at (suc (length text)))
unfolding str_find
str_find-Finds text [] starting_at h =
    let inside : ltb (length text) starting_at ≡ false = ground arith in
    let enough : ltb (length text - starting_at) 0 ≡ false = ground arith in
    rw (inside, enough)
      (Finds-here (StandsAt [] text) starting_at (suc (length text)) (omega arith)
        (drop starting_at text, refl))
str_find-Finds text (first ∷ needle) starting_at h =
    let inside : ltb (length text) starting_at ≡ false = ground arith in
    elim (dec_lt (length text - starting_at) (length (first ∷ needle))) [
      | yes short ↦
          let e : ltb (length text - starting_at) (length (first ∷ needle)) ≡ true = ground arith in
          rw (inside, e) (λ j a b s. omega (arith, StandsAt-length (first ∷ needle) text j s))
      | no enough ↦
          let e : ltb (length text - starting_at) (length (first ∷ needle)) ≡ false =
            ground arith in
          rw (inside, e)
            (extend_Finds (first ∷ needle) text starting_at
              (starting_at + (length text - length (first ∷ needle) + 1 - starting_at))
              (find_needle (length text - length (first ∷ needle) + 1 - starting_at)
                (drop starting_at text) first needle starting_at)
              (omega arith) (omega arith) (omega arith)
              (find_needle-Finds first needle text
                (length text - length (first ∷ needle) + 1 - starting_at) starting_at
                (drop starting_at text) refl (omega arith)))
    ]
