-- ===== src/Param/Lookup.antt =====
-- What a well-formed command line makes of the parameters.
use ultra.Prelude.{
  ℕ, zero, suc, ◌<◌, ◌≡◌, refl, true, Option, none, some, List, [], ◌∷◌, arith, map, Bool-cases,
  inl, inr, get_elem?, ==_iff, ◌↔◌,
}
use ultra.Text.Strings.{str_equals_with_cb}
use ultra.Text.Strings.Laws.{str_equals_with_cb-keys}
use ultra.Param.{Param, find_param, dash_to_underscore, cmdline_name_compare}

-- Names that differ in dashes and underscores only.
abbrev pub SameName : List ℕ → List ℕ → Type 0
SameName a b = map dash_to_underscore a ≡ map dash_to_underscore b

-- The first parameter of the list with the name, if there is one.
abbrev pub FirstNamed : List ℕ → List Param → Option Param → Type 0
FirstNamed name params none =
    (k : ℕ) (p : Param) → get_elem? params k ≡ some p → SameName p.name name → ⊥
FirstNamed name params (some p) =
    (k : ℕ) × (get_elem? params k ≡ some p)
    × SameName p.name name
    × ((j : ℕ) (q : Param) → j < k → get_elem? params j ≡ some q → SameName q.name name → ⊥)

named : (a b : List ℕ) → (str_equals_with_cb a b cmdline_name_compare ≡ true) ↔ SameName a b
named a b =
    str_equals_with_cb-keys cmdline_name_compare dash_to_underscore a b
      (λ x y. ==_iff (dash_to_underscore x) (dash_to_underscore y))

module _ (name : List ℕ) (p : Param) (params : List Param) (other : SameName p.name name → ⊥) where
  FirstNamed-later : (r : Option Param) → FirstNamed name params r → FirstNamed name (p ∷ params) r
  FirstNamed-later none h = go
    where
      go : (k : ℕ) (q : Param) → get_elem? (p ∷ params) k ≡ some q → SameName q.name name → ⊥
      go zero q e s = let same : q ≡ p = cc in other (rw same at s)
      go (suc k) q e s = h k q e s
  FirstNamed-later (some x) (k, e, s, h) = (suc k, e, s, go)
    where
      go :
          (j : ℕ) (q : Param)
          → j < suc k
          → get_elem? (p ∷ params) j ≡ some q
          → SameName q.name name
          → ⊥
      go zero q l e s = let same : q ≡ p = cc in other (rw same at s)
      go (suc j) q l e s = h j q (omega arith) e s

-- `find_param` finds the first parameter whose name is the given one, where a dash and an underscore
-- count as the same character, and gives NULL where there is none.
pub find_param-FirstNamed :
    (name : List ℕ) (params : List Param) → FirstNamed name params (find_param name params)
unfolding find_param
find_param-FirstNamed name [] = λ k p e s. cc
find_param-FirstNamed name (p ∷ params) =
    elim (Bool-cases (str_equals_with_cb p.name name cmdline_name_compare)) [
      | inl e ↦ rw e (0, refl, (named p.name name).0 e, λ j q l. absurd (omega arith))
      | inr e ↦ rw e (
          FirstNamed-later name p params (λ s. let t = (named p.name name).1 s in cc)
            (find_param name params) (find_param-FirstNamed name params))
    ]
