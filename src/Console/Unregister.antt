-- ===== src/Console/Unregister.antt =====
-- What `unregister_console` does to the list.
use ultra.Prelude.{
  ℕ, zero, suc, ◌≡◌, ◌≢◌, ◌<◌, ◌∙◌, ap, sym, subst, refl, Bool, true, Option, none, some, List, [],
  ◌∷◌, arith, if◌then◌else◌, length, done, Returns, Returns_mono, ==_of_ne, ==_of_eq,
}
use native.Mathlib.Decide.{ℕ_discrete}
use ultra.Console.{Consoles, store, eok, einval, unlink, unregister_loop, unregister_console}
use ultra.Console.Chain.{IsChain, NotIn, IsDistinct, remove, store_same, store_other, store-IsChain}
use ultra.Console.Register.{Lists, member}

-- `unregister_console` behind the first console: it takes the console out of the list, and changes no
-- `next` of other consoles than those of the list and the one before it.
abbrev Removes : Consoles → ℕ → ℕ → List ℕ → ℕ × Consoles → Type 0
Removes s con prev cons (e, s') =
    (e ≡ (if member con cons then eok else einval))
    × (s'.consoles ≡ s.consoles)
    × IsChain s'.next (s'.next prev) (remove con cons)
    × ((k : ℕ) → NotIn k (prev ∷ cons) → s'.next k ≡ s.next k)

module _ (con x : ℕ) (cons : List ℕ) where
  member_same : x ≡ con → member con (x ∷ cons) ≡ true
  unfolding member
  member_same e = rw (==_of_eq x con e) refl

  member_other : x ≢ con → member con (x ∷ cons) ≡ member con cons
  unfolding member
  member_other n = rw (==_of_ne x con n) refl

  remove_same : x ≡ con → remove con (x ∷ cons) ≡ cons
  unfolding remove
  remove_same e = rw (==_of_eq x con e) refl

  remove_other : x ≢ con → remove con (x ∷ cons) ≡ x ∷ remove con cons
  unfolding remove
  remove_other n = rw (==_of_ne x con n) refl

module _ (fuel : ℕ) (s : Consoles) (con x : ℕ) where
  loop_same :
      (prev : ℕ)
      → x ≡ con
      → unregister_loop (suc fuel) s con (some prev) (some x)
        ≡ done (eok, record s { next = store s.next prev (s.next x) })
  unfolding unregister_loop unlink
  loop_same prev e = rw (==_of_eq x con e) refl

  loop_head : x ≡ con → unregister_loop (suc fuel) s con none (some x) ≡ done (eok, s)
  unfolding unregister_loop unlink
  loop_head e = rw (==_of_eq x con e) refl

  loop_other :
      (prev : Option ℕ)
      → x ≢ con
      → unregister_loop (suc fuel) s con prev (some x)
        ≡ unregister_loop fuel s con (some x) (s.next x)
  unfolding unregister_loop
  loop_other prev n = rw (==_of_ne x con n) refl

loop_end :
    (fuel : ℕ) (s : Consoles) (con : ℕ) (prev : Option ℕ)
    → unregister_loop (suc fuel) s con prev none ≡ done (einval, s)
unfolding unregister_loop
loop_end fuel s con prev = refl

member_nil : (con : ℕ) → einval ≡ (if member con [] then eok else einval)
unfolding member
member_nil con = refl

remove_nil : (con : ℕ) → remove con [] ≡ []
unfolding remove
remove_nil con = refl

unregister_loop-Removes :
    (fuel : ℕ) (s : Consoles) (con prev : ℕ) (cons : List ℕ)
    → length cons < fuel
    → IsChain s.next (s.next prev) cons
    → IsDistinct (prev ∷ cons)
    → Returns (unregister_loop fuel s con (some prev) (s.next prev)) (Removes s con prev cons)
unregister_loop-Removes zero s con prev cons f c d = absurd (omega arith)
unregister_loop-Removes (suc fuel) s con prev [] f c d =
    rw (ap (unregister_loop (suc fuel) s con (some prev)) c ∙ loop_end fuel s con (some prev))
      (member_nil con, refl, (rw (remove_nil con) c), λ k n. refl)
unregister_loop-Removes (suc fuel) s con prev (x ∷ cons) f (e, c) ((p, m), (n, d)) =
    elim (ℕ_discrete x con) [
      | yes q ↦
          rw
            (
              ap (unregister_loop (suc fuel) s con (some prev)) e ∙ loop_same fuel s con x prev q,
              member_same con x cons q,
              remove_same con x cons q,
            )
            (
              refl,
              refl,
              subst (λ h. IsChain (store s.next prev (s.next x)) h cons)
                  (sym (store_same s.next prev (s.next x)))
                  (store-IsChain s.next prev (s.next x) (s.next x) cons m c),
              λ k t. store_other s.next prev (s.next x) k t.0,
            )
      | no q ↦
          rw
            (ap (unregister_loop (suc fuel) s con (some prev)) e
              ∙ loop_other fuel s con x (some prev) q)
            (Returns_mono (unregister_loop fuel s con (some x) (s.next x))
              (λ (r, s') (a, b, i, h). (
                a ∙ ap (λ (b : Bool). if b then eok else einval) (sym (member_other con x cons q)),
                b,
                rw (remove_other con x cons q) (h prev (p, m) ∙ e, i),
                λ k t. h k t.1,
              ))
              (unregister_loop-Removes fuel s con x cons (omega arith) c (n, d)))
    ]

remove_stays : (con x : ℕ) (cons : List ℕ) → NotIn x cons → NotIn x (remove con cons)
unfolding remove
remove_stays con x [] n = tt
remove_stays con x (y ∷ cons) (n, m) = elim (ℕ_discrete y con) [
  | yes q ↦ rw (==_of_eq y con q) m
  | no q ↦ rw (==_of_ne y con q) (n, remove_stays con x cons m)
]

remove-IsDistinct : (con : ℕ) (cons : List ℕ) → IsDistinct cons → IsDistinct (remove con cons)
unfolding remove
remove-IsDistinct con [] d = tt
remove-IsDistinct con (x ∷ cons) (n, d) = elim (ℕ_discrete x con) [
  | yes q ↦ rw (==_of_eq x con q) d
  | no q ↦ rw (==_of_ne x con q) (remove_stays con x cons n, remove-IsDistinct con cons d)
]

-- On a list of consoles, each in it once, `unregister_console` of another console than the first one
-- returns: EOK and the list without the console, or EINVAL and the same list where it is not in it.
pub unregister_console-remove :
    (fuel : ℕ) (s : Consoles) (con head : ℕ) (cons : List ℕ)
    → Lists s (head ∷ cons)
    → suc (length cons) < fuel
    → con ≢ head
    → Returns (unregister_console fuel s con) (λ r.
      (r.0 ≡ (if member con cons then eok else einval)) × Lists r.1 (head ∷ remove con cons))
unfolding unregister_console
unregister_console-remove zero s con head cons v f n = absurd (omega arith)
unregister_console-remove (suc fuel) s con head cons v f n =
    rw (first ∙ loop_other fuel s con head none (λ e. n (sym e))) (
      Returns_mono (unregister_loop fuel s con (some head) (s.next head))
        (λ (r, s') (a, b, i, h). (
          a,
          record {
            chain = (b ∙ v.chain.0, i);
            distinct =
                (remove_stays con head cons v.distinct.0, remove-IsDistinct con cons v.distinct.1);
          },
        ))
        (unregister_loop-Removes fuel s con head cons (omega arith) v.chain.1 v.distinct))
  where
    first :
        unregister_loop (suc fuel) s con none s.consoles
        ≡ unregister_loop (suc fuel) s con none (some head)
    first = ap (unregister_loop (suc fuel) s con none) v.chain.0

-- The first console of the list stays: `unregister_console` gives EOK for it and changes nothing.
pub unregister_console_head :
    (fuel : ℕ) (s : Consoles) (head : ℕ) (cons : List ℕ)
    → Lists s (head ∷ cons)
    → unregister_console (suc fuel) s head ≡ done (eok, s)
unfolding unregister_console
unregister_console_head fuel s head cons v =
    ap (unregister_loop (suc fuel) s head none) v.chain.0 ∙ loop_head fuel s head head refl
