-- ===== src/Prelude/Calls.antt =====
-- How a call of kernel code ends. `BUG_ON` (kernel/include/bug.h) calls `panic`, which never
-- returns; a read or write outside an array is undefined in C; a loop or a recursion that is cut off
-- by its fuel has no result. None of the three is ever taken for a result.
use mathlib.Core.Path.{◌≡◌, refl}

pub data Outcome {ℓ} (A : Type ℓ) : Type ℓ where
  done : A → Outcome A
  bug : Outcome A
  fault : Outcome A
  unfinished : Outcome A

infixl 5 ◌>>=◌
abbrev pub ◌>>=◌ {ℓ κ} : {A : Type ℓ} {B : Type κ} → Outcome A → (A → Outcome B) → Outcome B
done a >>= f = f a
bug >>= f = bug
fault >>= f = fault
unfinished >>= f = unfinished

-- The call returns, with a result that satisfies `P`.
abbrev pub Returns {ℓ} : {A : Type ℓ} → Outcome A → (A → Type 0) → Type 0
Returns (done a) P = P a
Returns bug P = ⊥
Returns fault P = ⊥
Returns unfinished P = ⊥

-- A property of the result, whatever it follows from, holds of a larger predicate too.
pub Returns_mono {ℓ} :
    {A : Type ℓ} {P Q : A → Type 0} (o : Outcome A)
    → ((a : A) → P a → Q a)
    → Returns o P
    → Returns o Q
Returns_mono (done a) f h = f a h
Returns_mono bug f h = h
Returns_mono fault f h = h
Returns_mono unfinished f h = h

-- A call that returns has a result.
pub Returns→done {ℓ} :
    {A : Type ℓ} {P : A → Type 0} (o : Outcome A) → Returns o P → (a : A) × (o ≡ done a) × P a
Returns→done (done a) h = (a, refl, h)
Returns→done bug h = absurd h
Returns→done fault h = absurd h
Returns→done unfinished h = absurd h

-- The rule for a sequence of two calls.
pub Returns-bind {ℓ κ} :
    {A : Type ℓ} {B : Type κ} (P : A → Type 0) (Q : B → Type 0) (o : Outcome A) (f : A → Outcome B)
    → Returns o P
    → ((a : A) → P a → Returns (f a) Q)
    → Returns (o >>= f) Q
Returns-bind P Q (done a) f h k = k a h
Returns-bind P Q bug f h k = absurd h
Returns-bind P Q fault f h k = absurd h
Returns-bind P Q unfinished f h k = absurd h
