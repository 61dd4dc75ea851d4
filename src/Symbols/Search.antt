-- ===== src/Symbols/Search.antt =====
-- The binary search for the symbol of an address.
use ultra.Prelude.{
  ℕ, zero, suc, ◌+◌, ◌-◌, ◌/◌, ◌≤◌, ◌<◌, ◌≡◌, ◌⊎◌, inl, inr, refl, some, List, [], ◌∷◌, arith,
  length, get_elem?, get_elem?-lt, length-le_of_none, Option-cases, done, Returns,
}
use native.Mathlib.Decide.{dec_lt}
use ultra.Symbols.{search_loop}

-- Addresses in ascending order from `lo` on.
abbrev pub IsAscending : ℕ → List ℕ → Type 0
IsAscending lo [] = Unit
IsAscending lo (x ∷ xs) = (lo ≤ x) × IsAscending x xs

ascending_ge :
    (lo : ℕ) (xs : List ℕ) (j y : ℕ) → IsAscending lo xs → get_elem? xs j ≡ some y → lo ≤ y
ascending_ge lo [] j y a e = ground arith
ascending_ge lo (x ∷ xs) zero y a e = ground arith
ascending_ge lo (x ∷ xs) (suc j) y a e = omega (arith, ascending_ge x xs j y a.1 e)

ascending_le :
    (lo : ℕ) (xs : List ℕ) (i j x y : ℕ)
    → IsAscending lo xs
    → get_elem? xs i ≡ some x
    → get_elem? xs j ≡ some y
    → i ≤ j
    → x ≤ y
ascending_le lo [] i j x y a e f h = ground arith
ascending_le lo (z ∷ xs) zero zero x y a e f h = ground arith
ascending_le lo (z ∷ xs) zero (suc j) x y a e f h = ground (arith, ascending_ge z xs j y a.1 f)
ascending_le lo (z ∷ xs) (suc i) zero x y a e f h = absurd (omega arith)
ascending_le lo (z ∷ xs) (suc i) (suc j) x y a e f h =
    ascending_le z xs i j x y a.1 e f (omega arith)

-- The last address that is not above the value; the first one where all are above it.
pub record IsLastBelow (addresses : List ℕ) (value i : ℕ) : Type 0 where
  pub inside : i < length addresses
  pub below : (x : ℕ) → get_elem? addresses i ≡ some x → (i ≡ 0) ⊎ (x ≤ value)
  pub last : (j y : ℕ) → i < j → get_elem? addresses j ≡ some y → value < y

-- What the loop keeps.
record Inv (addresses : List ℕ) (value begin end : ℕ) : Type 0 where
  pub nonempty : begin < end
  pub within : end ≤ length addresses
  pub below : (x : ℕ) → get_elem? addresses begin ≡ some x → (begin ≡ 0) ⊎ (x ≤ value)
  pub above : (j y : ℕ) → end ≤ j → get_elem? addresses j ≡ some y → value < y

module _ (lo : ℕ) (addresses : List ℕ) (value : ℕ) (a : IsAscending lo addresses) where
  module _ (fuel begin end : ℕ) where
    search_end : end ≤ begin + 1 → search_loop (suc fuel) addresses value begin end ≡ done begin
    unfolding search_loop
    search_end h = ground arith

    search_up :
        (x : ℕ)
        → begin + 1 < end
        → get_elem? addresses (begin + (end - begin) / 2) ≡ some x
        → x ≤ value
        → search_loop (suc fuel) addresses value begin end
          ≡ search_loop fuel addresses value (begin + (end - begin) / 2) end
    unfolding search_loop
    search_up x h e p = ground arith

    search_down :
        (x : ℕ)
        → begin + 1 < end
        → get_elem? addresses (begin + (end - begin) / 2) ≡ some x
        → value < x
        → search_loop (suc fuel) addresses value begin end
          ≡ search_loop fuel addresses value begin (begin + (end - begin) / 2)
    unfolding search_loop
    search_down x h e p = ground arith

  search_loop-Inv :
      (fuel begin end : ℕ)
      → end ≤ begin + fuel
      → Inv addresses value begin end
      → Returns (search_loop fuel addresses value begin end) (IsLastBelow addresses value)
  search_loop-Inv zero begin end f v = absurd (omega (arith, v.nonempty))
  search_loop-Inv (suc fuel) begin end f v = elim (dec_lt (begin + 1) end) [
    | no h ↦ rw (search_end fuel begin end (omega arith)) (record {
      inside = omega (arith, v.nonempty, v.within);
      below = v.below;
      last = λ j y p e. v.above j y (omega (arith, v.nonempty)) e;
    })
    | yes h ↦ elim (Option-cases (get_elem? addresses (begin + (end - begin) / 2))) [
      | inl e ↦
          absurd
            (omega (arith, v.within, length-le_of_none addresses (begin + (end - begin) / 2) e))
      | inr (x, e) ↦ elim (dec_lt value x) [
        | no p ↦ rw (search_up fuel begin end x h e (omega arith)) (
            search_loop-Inv fuel (begin + (end - begin) / 2) end (omega arith) (record {
              nonempty = omega arith;
              within = v.within;
              below = λ z q. inr (let same : z ≡ x = cc in omega arith);
              above = v.above;
            }))
        | yes p ↦ rw (search_down fuel begin end x h e p) (
            search_loop-Inv fuel begin (begin + (end - begin) / 2) (omega arith) (record {
              nonempty = omega arith;
              within = omega (arith, v.within);
              below = v.below;
              above = λ j y q r.
                  omega
                    (arith, p, ascending_le lo addresses (begin + (end - begin) / 2) j x y a e r q);
            }))
      ]
    ]
  ]

-- The search with any fuel that is enough.
pub search_loop-IsLastBelow_fuel :
    (lo : ℕ) (addresses : List ℕ) (value fuel : ℕ)
    → IsAscending lo addresses
    → 0 < length addresses
    → length addresses ≤ fuel
    → Returns (search_loop fuel addresses value 0 (length addresses)) (IsLastBelow addresses value)
search_loop-IsLastBelow_fuel lo addresses value fuel a h f =
    search_loop-Inv lo addresses value a fuel 0 (length addresses) (omega arith) (record {
      nonempty = h;
      within = omega arith;
      below = λ x e. inl refl;
      above = λ j y p e. absurd (omega (arith, get_elem?-lt addresses j y e));
    })

-- On a table of at least one address, in ascending order, the search of `symbol_lookup_by_address` ends
-- within its table and gives the last symbol that does not start above the address, or the first one
-- where all do.
pub search_loop-IsLastBelow :
    (lo : ℕ) (addresses : List ℕ) (value : ℕ)
    → IsAscending lo addresses
    → 0 < length addresses
    → Returns
        (search_loop (length addresses) addresses value 0 (length addresses))
        (IsLastBelow addresses value)
search_loop-IsLastBelow lo addresses value a h =
    search_loop-IsLastBelow_fuel lo addresses value (length addresses) a h (omega arith)
