-- ===== src/Console/Register.antt =====
-- What `register_console` and `console_write` do to the list.
use ultra.Prelude.{
  ℕ, zero, suc, ◌≡◌, ◌<◌, sym, subst, refl, ◌⊎◌, inl, inr, Bool, true, false, Option, none, some,
  List, [], ◌∷◌, ◌==◌, arith, if◌then◌else◌, length, done, Returns,
}
use native.Mathlib.Decide.{ℕ_discrete}
use ultra.Console.{
  Consoles, store, eok, ebusy, registered_loop, console_registered, register_console, pushed,
  write_loop, console_write,
}
use ultra.Console.Chain.{IsChain, NotIn, IsDistinct, store_same, store-IsChain}

-- The consoles of the list, each once.
pub record Lists (s : Consoles) (cons : List ℕ) : Type 0 where
  pub chain : IsChain s.next s.consoles cons
  pub distinct : IsDistinct cons

-- Membership as a test.
unfoldable pub member : ℕ → List ℕ → Bool
member con [] = false
member con (x ∷ cons) = let later = member con cons in if x == con then true else later

member-NotIn : (con : ℕ) (cons : List ℕ) → member con cons ≡ false → NotIn con cons
unfolding member
member-NotIn con [] e = tt
member-NotIn con (x ∷ cons) e = elim (ℕ_discrete x con) [
  | yes p ↦ absurd (ground arith)
  | no p ↦ ((λ q. p (sym q)), member-NotIn con cons (ground arith))
]

registered_loop_lem :
    (fuel : ℕ) (s : Consoles) (con : ℕ) (p : Option ℕ) (cons : List ℕ)
    → length cons < fuel
    → IsChain s.next p cons
    → registered_loop fuel s con p ≡ done (member con cons)
unfolding registered_loop member
registered_loop_lem zero s con p cons f c = absurd (omega arith)
registered_loop_lem (suc fuel) s con p [] f c = rw c refl
registered_loop_lem (suc fuel) s con p (x ∷ cons) f (e, c) =
    rw (e, registered_loop_lem fuel s con (s.next x) cons (omega arith) c)
      (done-if (x == con) (member con cons))
  where
    done-if : (a b : Bool) → (if a then done true else done b) ≡ done (if a then true else b)
    done-if true b = refl
    done-if false b = refl

register_some :
    (fuel : ℕ) (s : Consoles) (con x : ℕ) {b : Bool}
    → s.consoles ≡ some x
    → registered_loop fuel s con (some x) ≡ done b
    → register_console fuel s con ≡ (if b then done (ebusy, s) else done (eok, pushed s con))
unfolding register_console console_registered
register_some fuel s con x e r = ground (arith, e, r)

-- The list of the consoles after a successful call of `register_console`.
abbrev pub Registered : ℕ → List ℕ → ℕ × Consoles → Type 0
Registered con cons (e, s') = (e ≡ eok) × Lists s' (con ∷ cons)

-- The first console of a list has its `next` at NULL.
abbrev pub IsUnset : Consoles → ℕ → List ℕ → Type 0
IsUnset s con [] = s.next con ≡ none
IsUnset s con (x ∷ cons) = Unit

pushed-Lists :
    (s : Consoles) (con : ℕ) (cons : List ℕ)
    → Lists s cons
    → NotIn con cons
    → Lists (pushed s con) (con ∷ cons)
pushed-Lists s con cons v n = record {
  chain = (
    refl,
    subst (λ q. IsChain (store s.next con s.consoles) q cons)
        (sym (store_same s.next con s.consoles))
        (store-IsChain s.next con s.consoles s.consoles cons n v.chain),
  );
  distinct = (n, v.distinct);
}

-- On a list of consoles, each in it once, `register_console` returns. A console of the list gives EBUSY
-- and leaves the list; another one becomes the first of the list, provided that its own `next` is NULL
-- where the list is empty.
pub register_console-Registered :
    (fuel : ℕ) (s : Consoles) (con : ℕ) (cons : List ℕ)
    → Lists s cons
    → length cons < fuel
    → IsUnset s con cons
    → Returns (register_console fuel s con) (λ r.
      ((member con cons ≡ true) × (r ≡ (ebusy, s)))
      ⊎ ((member con cons ≡ false) × Registered con cons r))
unfolding register_console console_registered member
register_console-Registered fuel s con [] v f n =
    rw (v.chain) (inr (refl, (refl, record { chain = (refl, n); distinct = (tt, tt) })))
register_console-Registered fuel s con (x ∷ cons) v f n =
    rw (register_some fuel s con x v.chain.0 registered) (go (member con (x ∷ cons)) refl)
  where
    registered : registered_loop fuel s con (some x) ≡ done (member con (x ∷ cons))
    registered = registered_loop_lem fuel s con (some x) (x ∷ cons) f (refl, v.chain.1)

    go :
        (b : Bool)
        → member con (x ∷ cons) ≡ b
        → Returns
            (if b then done (ebusy, s) else done (eok, pushed s con))
            (λ r. ((b ≡ true) × (r ≡ (ebusy, s))) ⊎ ((b ≡ false) × Registered con (x ∷ cons) r))
    go true e = inl (refl, refl)
    go false e = inr (refl, (refl, pushed-Lists s con (x ∷ cons) v (member-NotIn con (x ∷ cons) e)))

write_loop_lem :
    (fuel : ℕ) (s : Consoles) (p : Option ℕ) (cons : List ℕ)
    → length cons < fuel
    → IsChain s.next p cons
    → write_loop fuel s p ≡ done cons
unfolding write_loop
write_loop_lem zero s p cons f c = absurd (omega arith)
write_loop_lem (suc fuel) s p [] f c = rw c refl
write_loop_lem (suc fuel) s p (x ∷ cons) f (e, c) =
    rw (e, write_loop_lem fuel s (s.next x) cons (omega arith) c) refl

-- `console_write` writes to every console of the list once, the one that was registered last first.
pub console_write-Lists :
    (fuel : ℕ) (s : Consoles) (cons : List ℕ)
    → Lists s cons
    → length cons < fuel
    → console_write fuel s ≡ done cons
unfolding console_write
console_write-Lists fuel s cons v f = write_loop_lem fuel s s.consoles cons f v.chain
