-- ===== src/BootAlloc/Carve/Shift.antt =====
-- `allocate_out_of` works on the entries around its index only: an entry two or more places before
-- it stays in place, and the rest of the buffer is treated as if that entry were not there.
use ultra.Prelude.{
  ℕ, suc, ◌+◌, ◌≤◌, ◌<◌, ◌≡◌, Bool, true, false, inl, inr, refl, ap, sym, ◌∙◌, Option, none, some,
  List, [], ◌∷◌, arith, length, if◌then◌else◌, Outcome, done, bug, fault, unfinished, ◌>>=◌, set,
  take, get_elem?, length-set, Option-cases, Bool-cases, ◌==◌,
}
use native.Mathlib.Decide.{dec_lt}
use ultra.BootAlloc.Range.{
  MemoryRange, word, mr_size, merge_ranges, can_merge_ranges, range_after, range_before,
  range_emplace_at,
}
use ultra.BootAlloc.Carve.{
  allocate_out_of, carve, carve_cases, carve_entirely, mergeable_with, lhs_piece, rhs_piece,
  out_case4, merge_into, replace_by_two, merge_entries,
}
use ultra.BootAlloc.Carve.Shrink.{out_case4_lem, merged_count, range_after_more, range_after_last}

abbrev pub cons_done : MemoryRange → Outcome (List MemoryRange) → Outcome (List MemoryRange)
cons_done x (done l) = done (x ∷ l)
cons_done x bug = bug
cons_done x fault = fault
cons_done x unfinished = unfinished

module _ (x : MemoryRange) (buffer : List MemoryRange) where
  merge_into-suc :
      (j : ℕ) (src : MemoryRange)
      → merge_into (x ∷ buffer) (some (suc j)) src ≡ cons_done x (merge_into buffer (some j) src)
  unfolding merge_into
  merge_into-suc j src = ground arith

  emplace-suc :
      (capacity j : ℕ) (mr : MemoryRange)
      → range_emplace_at (suc capacity) (x ∷ buffer) (suc j) mr
        ≡ cons_done x (range_emplace_at capacity buffer j mr)
  unfolding range_emplace_at
  emplace-suc capacity j mr = ground arith

  out_case4-suc :
      (i after : ℕ) (before_merged after_merged : Bool)
      → i + merged_count before_merged after_merged ≡ after
      → after ≤ length buffer
      → out_case4 (x ∷ buffer) (suc i) (some (suc after)) before_merged after_merged
        ≡ cons_done x (out_case4 buffer i (some after) before_merged after_merged)
  out_case4-suc i after b m e h =
      out_case4_lem (x ∷ buffer) (suc i) (suc after) b m (omega arith) (omega arith)
      ∙ sym (ap (cons_done x) (out_case4_lem buffer i after b m e h))

-- Without an entry after the current one the last entry goes.
out_case4-none-take :
    (x : MemoryRange) (rest : List MemoryRange) (i : ℕ)
    → out_case4 (x ∷ rest) i none true false ≡ done (take (length rest) (x ∷ rest))
unfolding out_case4
out_case4-none-take x rest i = ap (λ n. done (take n (x ∷ rest))) (omega arith)

out_case4-none-suc :
    (x : MemoryRange) (rest : List MemoryRange) (i : ℕ)
    → 0 < length rest
    → out_case4 (x ∷ rest) (suc i) none true false ≡ cons_done x (out_case4 rest i none true false)
out_case4-none-suc x [] i h = elim h [ ]
out_case4-none-suc x (y ∷ rest) i h =
    out_case4-none-take x (y ∷ rest) (suc i) ∙ sym (ap (cons_done x) (out_case4-none-take y rest i))

length-merge_into :
    (buffer l : List MemoryRange) (j : ℕ) (src : MemoryRange)
    → merge_into buffer (some j) src ≡ done l
    → length l ≡ length buffer
unfolding merge_into
length-merge_into buffer l j src e = elim (Option-cases (get_elem? buffer j)) [
  | inl p ↦ ground arith
  | inr (mr, p) ↦ ground (arith, length-set buffer j (merge_ranges mr src))
]

length-merge_entries :
    (buffer l : List MemoryRange) (i j : ℕ)
    → merge_entries buffer (some i) (some j) ≡ done l
    → length l ≡ length buffer
unfolding merge_entries
length-merge_entries buffer l i j e = elim (Option-cases (get_elem? buffer j)) [
  | inl p ↦ ground arith
  | inr (mr, p) ↦ ground (arith, length-merge_into buffer l i mr)
]

merge_entries-suc :
    (x : MemoryRange) (buffer : List MemoryRange) (i j : ℕ)
    → merge_entries (x ∷ buffer) (some (suc i)) (some (suc j))
      ≡ cons_done x (merge_entries buffer (some i) (some j))
unfolding merge_entries
merge_entries-suc x buffer i j = elim (Option-cases (get_elem? buffer j)) [
  | inl p ↦ ground arith
  | inr (mr, p) ↦ ground (arith, merge_into-suc x buffer i mr)
]

-- A first entry passes through a sequence of two calls.
cons_done-bind :
    (x : MemoryRange) (o : Outcome (List MemoryRange))
    (f g : List MemoryRange → Outcome (List MemoryRange))
    → ((l : List MemoryRange) → o ≡ done l → f (x ∷ l) ≡ cons_done x (g l))
    → (cons_done x o >>= f) ≡ cons_done x (o >>= g)
cons_done-bind x (done l) f g h = h l refl
cons_done-bind x bug f g h = refl
cons_done-bind x fault f g h = refl
cons_done-bind x unfinished f g h = refl

range_before-suc : (i : ℕ) → range_before (suc i) ≡ some i
unfolding range_before
range_before-suc i = ground arith

map_suc : Option ℕ → Option ℕ
map_suc none = none
map_suc (some i) = some (suc i)

range_after-suc :
    (n i : ℕ) → i < n → suc n < word → range_after (suc n) (suc i) ≡ map_suc (range_after n i)
unfolding range_after map_suc
range_after-suc n i h w = ground arith

module _ (x y : MemoryRange) (buffer : List MemoryRange) where
  replace_by_two-suc :
      (capacity i : ℕ) (first second : MemoryRange)
      → replace_by_two (suc capacity) (x ∷ y ∷ buffer) (suc i) first second
        ≡ cons_done x (replace_by_two capacity (y ∷ buffer) i first second)
  unfolding replace_by_two
  replace_by_two-suc c i first second =
      ground (arith, emplace-suc x (set (y ∷ buffer) i first) c (i + 1) second)

  -- The current entry has one after it, or is the last.
  data Neighbour (i : ℕ) : Option ℕ → Bool → Type 0 where
    last : suc i ≡ length (y ∷ buffer) → Neighbour i none false
    more : (merges : Bool) → suc i < length (y ∷ buffer) → Neighbour i (some (i + 1)) merges

  carve_entirely-suc :
      (i j : ℕ) (cur new : MemoryRange) (after : Option ℕ) (mb ma : Bool)
      → Neighbour i after ma
      → carve_entirely (x ∷ y ∷ buffer) (suc i) cur new (some (suc j)) (map_suc after) mb ma
        ≡ cons_done x (carve_entirely (y ∷ buffer) i cur new (some j) after mb ma)
  unfolding map_suc carve_entirely
  carve_entirely-suc i j cur new after false false (last e) = refl
  carve_entirely-suc i j cur new after true false (last e) =
      rw (merge_into-suc x (y ∷ buffer) j new) (
        cons_done-bind x (merge_into (y ∷ buffer) (some j) new) _ _
          λ l p. out_case4-none-suc x l i (omega (arith, length-merge_into (y ∷ buffer) l j new p)))
  carve_entirely-suc i j cur new after false false (more _ e) = refl
  carve_entirely-suc i j cur new after false true (more _ e) =
      rw (merge_into-suc x (y ∷ buffer) (i + 1) new) (
        cons_done-bind x (merge_into (y ∷ buffer) (some (i + 1)) new) _ _ λ l p.
          out_case4-suc x l i (i + 1) false true (omega arith)
            (omega (arith, length-merge_into (y ∷ buffer) l (i + 1) new p)))
  carve_entirely-suc i j cur new after true false (more _ e) =
      rw (merge_into-suc x (y ∷ buffer) j new) (
        cons_done-bind x (merge_into (y ∷ buffer) (some j) new) _ _ λ l p.
          out_case4-suc x l i (i + 1) true false (omega arith)
            (omega (arith, length-merge_into (y ∷ buffer) l j new p)))
  carve_entirely-suc i j cur new after true true (more _ e) =
      rw (merge_into-suc x (y ∷ buffer) j new) (
        cons_done-bind x (merge_into (y ∷ buffer) (some j) new) _ _ λ l p.
          rw (merge_entries-suc x l j (i + 1)) (
            cons_done-bind x (merge_entries l (some j) (some (i + 1))) _ _ λ k q.
              ap (λ n. out_case4 (x ∷ k) (suc i) (some n) true true) (omega arith)
              ∙ out_case4-suc x k i (i + 1 + 1) true true (omega arith) (
                  omega (
                    arith,
                    length-merge_into (y ∷ buffer) l j new p,
                    length-merge_entries l k j (i + 1) q,
                  ))))

  middle-suc :
      (capacity i : ℕ) (lhs new rhs : MemoryRange)
      → (replace_by_two (suc capacity) (x ∷ y ∷ buffer) (suc i) lhs new >>= λ two.
          range_emplace_at (suc capacity) two (suc i + 2) rhs)
        ≡ cons_done x (
            replace_by_two capacity (y ∷ buffer) i lhs new >>= λ two.
            range_emplace_at capacity two (i + 2) rhs)
  middle-suc capacity i lhs new rhs = rw (replace_by_two-suc capacity i lhs new) (
      cons_done-bind x (replace_by_two capacity (y ∷ buffer) i lhs new) _ _ λ l p.
        ap (λ n. range_emplace_at (suc capacity) (x ∷ l) n rhs) (omega arith)
        ∙ emplace-suc x l capacity (i + 2) rhs)

  left-suc :
      (capacity i j : ℕ) (new rhs : MemoryRange) (mb : Bool)
      → (if mb
          then (merge_into (x ∷ y ∷ buffer) (some (suc j)) new >>= λ merged.
              done (set merged (suc i) rhs))
          else replace_by_two (suc capacity) (x ∷ y ∷ buffer) (suc i) new rhs)
        ≡ cons_done x (
            if mb
            then (merge_into (y ∷ buffer) (some j) new >>= λ merged. done (set merged i rhs))
            else replace_by_two capacity (y ∷ buffer) i new rhs)
  left-suc capacity i j new rhs true =
      rw (merge_into-suc x (y ∷ buffer) j new)
        (cons_done-bind x (merge_into (y ∷ buffer) (some j) new) _ _ λ l p. refl)
  left-suc capacity i j new rhs false = replace_by_two-suc capacity i new rhs

  right-suc :
      (capacity i : ℕ) (lhs new : MemoryRange) (after : Option ℕ) (ma : Bool)
      → Neighbour i after ma
      → (if ma
          then merge_into (x ∷ set (y ∷ buffer) i lhs) (map_suc after) new
          else replace_by_two (suc capacity) (x ∷ y ∷ buffer) (suc i) lhs new)
        ≡ cons_done x (
            if ma
            then merge_into (set (y ∷ buffer) i lhs) after new
            else replace_by_two capacity (y ∷ buffer) i lhs new)
  unfolding map_suc
  right-suc capacity i lhs new after ma (last e) = replace_by_two-suc capacity i lhs new
  right-suc capacity i lhs new after false (more _ e) = replace_by_two-suc capacity i lhs new
  right-suc capacity i lhs new after true (more _ e) =
      merge_into-suc x (set (y ∷ buffer) i lhs) (i + 1) new

  carve_cases-suc :
      (capacity i j : ℕ) (cur new : MemoryRange) (after : Option ℕ) (mb ma : Bool)
      → Neighbour i after ma
      → carve_cases
          (suc capacity)
          (x ∷ y ∷ buffer)
          (suc i)
          cur
          new
          (some (suc j))
          (map_suc after)
          mb
          ma
        ≡ cons_done x (carve_cases capacity (y ∷ buffer) i cur new (some j) after mb ma)
  unfolding carve_cases
  carve_cases-suc capacity i j cur new after mb ma nb =
      elim (Bool-cases (mr_size (lhs_piece cur new) == 0)) [
        | inl no_lhs ↦ elim (Bool-cases (mr_size (rhs_piece cur new) == 0)) [
          | inl no_rhs ↦ rw (no_lhs, no_rhs) (carve_entirely-suc i j cur new after mb ma nb)
          | inr rhs ↦ rw (no_lhs, rhs) (left-suc capacity i j new (rhs_piece cur new) mb)
        ]
        | inr lhs ↦ elim (Bool-cases (mr_size (rhs_piece cur new) == 0)) [
          | inl no_rhs ↦ rw (lhs, no_rhs) (right-suc capacity i (lhs_piece cur new) new after ma nb)
          | inr rhs ↦
              rw (lhs, rhs) (middle-suc capacity i (lhs_piece cur new) new (rhs_piece cur new))
        ]
      ]

  mergeable_with-suc :
      (after : Option ℕ) (test : MemoryRange → Bool)
      → mergeable_with (x ∷ y ∷ buffer) (map_suc after) test
        ≡ mergeable_with (y ∷ buffer) after test
  unfolding map_suc mergeable_with
  mergeable_with-suc none test = refl
  mergeable_with-suc (some i) test = refl

  neighbour :
      (i : ℕ) (test : MemoryRange → Bool)
      → i < length (y ∷ buffer)
      → length (y ∷ buffer) < word
      → let after = range_after (length (y ∷ buffer)) i in
        Neighbour i after (mergeable_with (y ∷ buffer) after test)
  unfolding mergeable_with
  neighbour i test h w = elim (dec_lt (suc i) (length (y ∷ buffer))) [
    | yes p ↦ rw (range_after_more (length (y ∷ buffer)) i w p) (more _ p)
    | no p ↦
        let e : suc i ≡ length (y ∷ buffer) = omega arith in
        rw (range_after_last (length (y ∷ buffer)) i w e) (last e)
  ]

  -- The index is two or more on the left, so that there is an entry before it.
  carve-suc :
      (capacity i : ℕ) (cur new : MemoryRange)
      → i < length buffer
      → suc (suc (length buffer)) < word
      → carve (suc capacity) (x ∷ y ∷ buffer) (suc (suc i)) cur new
        ≡ cons_done x (carve capacity (y ∷ buffer) (suc i) cur new)
  unfolding carve
  carve-suc capacity i cur new h w =
      rw
        (
          range_before-suc (suc i),
          range_before-suc i,
          range_after-suc (suc (length buffer)) (suc i) (omega arith) w,
          mergeable_with-suc (range_after (suc (length buffer)) (suc i))
              (λ mr. can_merge_ranges new mr),
        )
        (carve_cases-suc capacity (suc i) i cur new _ _ _
          (neighbour (suc i) _ (omega arith) (omega arith)))

  pub allocate_out_of-suc :
      (capacity i : ℕ) (new : MemoryRange)
      → i < length buffer
      → suc (suc (length buffer)) < word
      → allocate_out_of (suc capacity) (x ∷ y ∷ buffer) (suc (suc i)) new
        ≡ cons_done x (allocate_out_of capacity (y ∷ buffer) (suc i) new)
  unfolding allocate_out_of
  allocate_out_of-suc capacity i new h w = elim (Option-cases (get_elem? buffer i)) [
    | inl p ↦ ground arith
    | inr (cur, p) ↦ ground (arith, carve-suc capacity i cur new h w)
  ]
