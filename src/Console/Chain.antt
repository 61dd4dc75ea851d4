-- ===== src/Console/Chain.antt =====
-- The list that the pointers form.
use ultra.Prelude.{
  ℕ, ◌≡◌, ◌≢◌, sym, refl, subst, Option, none, some, List, [], ◌∷◌, ◌==◌, if◌then◌else◌, ==_of_ne,
  ==_refl,
}
use ultra.Console.{store}

-- From a pointer on the consoles of the list follow each other, and then comes NULL.
abbrev pub IsChain : (ℕ → Option ℕ) → Option ℕ → List ℕ → Type 0
IsChain next p [] = p ≡ none
IsChain next p (con ∷ cons) = (p ≡ some con) × IsChain next (next con) cons

abbrev pub NotIn : ℕ → List ℕ → Type 0
NotIn con [] = Unit
NotIn con (x ∷ cons) = (con ≢ x) × NotIn con cons

abbrev pub IsDistinct : List ℕ → Type 0
IsDistinct [] = Unit
IsDistinct (x ∷ cons) = NotIn x cons × IsDistinct cons

-- The list without a console.
unfoldable pub remove : ℕ → List ℕ → List ℕ
remove con [] = []
remove con (x ∷ cons) = let rest = remove con cons in if x == con then cons else x ∷ rest

pub store_same :
    (next : ℕ → Option ℕ) (con : ℕ) (value : Option ℕ) → store next con value con ≡ value
store_same next con value = rw (==_refl con) refl

pub store_other :
    (next : ℕ → Option ℕ) (con : ℕ) (value : Option ℕ) (k : ℕ)
    → k ≢ con
    → store next con value k ≡ next k
store_other next con value k n = rw (==_of_ne k con n) refl

-- A write to a console outside the list leaves the list.
pub store-IsChain :
    (next : ℕ → Option ℕ) (con : ℕ) (value p : Option ℕ) (cons : List ℕ)
    → NotIn con cons
    → IsChain next p cons
    → IsChain (store next con value) p cons
store-IsChain next con value p [] n c = c
store-IsChain next con value p (x ∷ cons) (n, m) (e, c) = (
  e,
  subst (λ q. IsChain (store next con value) q cons)
      (sym (store_other next con value x (λ q. n (sym q))))
      (store-IsChain next con value (next x) cons m c),
)

pub remove-NotIn : (con : ℕ) (cons : List ℕ) → NotIn con cons → remove con cons ≡ cons
unfolding remove
remove-NotIn con [] n = refl
remove-NotIn con (x ∷ cons) (n, m) =
    rw (==_of_ne x con (λ e. n (sym e)), remove-NotIn con cons m) refl
