-- ===== src/SloppyCounter/Totals.antt =====
-- No update of exersises/concurrency/locked-data-structures/2/sloppy_counter.c is lost.
use osvcp.Prelude.{
  ℕ, zero, suc, ◌+◌, ◌<◌, ◌≡◌, ◌∙◌, ap, refl, inl, inr, none, some, List, [], ◌∷◌, arith, length,
  length-set, get_elem?, set, leb, Option-cases, Bool-cases,
}
use osvcp.SloppyCounter.{Counter}
use osvcp.SloppyCounter.Exact.{exact_transfer, exact_update, exact_updates}

abbrev pub sum : List ℕ → ℕ
sum [] = 0
sum (x ∷ xs) = x + sum xs

-- What has been counted.
abbrev pub total : Counter → ℕ
total s = s.global_count + sum s.local_counts

-- Every local count is below the threshold.
abbrev pub AllBelow : ℕ → List ℕ → Type 0
AllBelow limit [] = Unit {0}
AllBelow limit (x ∷ xs) = (x < limit) × AllBelow limit xs

-- The local counts that a schedule names are there.
abbrev pub InRange : ℕ → List ℕ → Type 0
InRange n [] = Unit {0}
InRange n (id ∷ ids) = (id < n) × InRange n ids

pub sum-set :
    (xs : List ℕ) (i x y : ℕ) → get_elem? xs i ≡ some x → sum (set xs i y) + x ≡ sum xs + y
sum-set [] i x y h = absurd (ground arith)
sum-set (z ∷ xs) zero x y h = ground arith
sum-set (z ∷ xs) (suc i) x y h = omega (arith, sum-set xs i x y h)

AllBelow-set :
    (limit : ℕ) (xs : List ℕ) (i y : ℕ)
    → y < limit
    → AllBelow limit xs
    → AllBelow limit (set xs i y)
AllBelow-set limit [] i y h a = tt
AllBelow-set limit (z ∷ xs) zero y h a = (h, a.1)
AllBelow-set limit (z ∷ xs) (suc i) y h a = (a.0, AllBelow-set limit xs i y h a.1)

pub in_range : (xs : List ℕ) (i : ℕ) → i < length xs → get_elem? xs i ≡ none → ⊥
in_range [] i h e = omega arith
in_range (z ∷ xs) zero h e = ground arith
in_range (z ∷ xs) (suc i) h e = in_range xs i (omega arith) e

module _ (limit : ℕ) where
  total-transfer :
      (id count : ℕ) (s : Counter)
      → get_elem? s.local_counts id ≡ some count
      → total (exact_transfer limit id (count + 1) s) ≡ total s + 1
  unfolding exact_transfer
  total-transfer id count s h = elim (Bool-cases (leb limit (count + 1))) [
    | inl e ↦ rw (e, exact_transfer) (omega (arith, sum-set s.local_counts id count 0 h))
    | inr e ↦ rw (e, exact_transfer) (omega (arith, sum-set s.local_counts id count (count + 1) h))
  ]

  pub length-update :
      (id : ℕ) (s : Counter) → length (exact_update limit id s).local_counts ≡ length s.local_counts
  unfolding exact_update exact_transfer
  length-update id s = elim (Option-cases (get_elem? s.local_counts id)) [
    | inl n ↦ rw (n, exact_update) refl
    | inr (count, n) ↦ elim (Bool-cases (leb limit (count + 1))) [
      | inl e ↦ rw (n, exact_update) (rw e (length-set s.local_counts id 0))
      | inr e ↦ rw (n, exact_update) (rw e (length-set s.local_counts id (count + 1)))
    ]
  ]

  pub length-updates :
      (ids : List ℕ) (s : Counter)
      → length (exact_updates limit ids s).local_counts ≡ length s.local_counts
  unfolding exact_updates
  length-updates [] s = refl
  length-updates (id ∷ ids) s = length-updates ids (exact_update limit id s) ∙ length-update id s

  -- A transfer moves a local count to the global one, and neither loses nor counts anything twice:
  -- after the updates of a schedule the global count and the local counts add up to what they did
  -- before, and one for each update.
  pub total-updates :
      (ids : List ℕ) (s : Counter)
      → InRange (length s.local_counts) ids
      → total (exact_updates limit ids s) ≡ total s + length ids
  unfolding exact_updates exact_update
  total-updates [] s h = omega arith
  total-updates (id ∷ ids) s h = elim (Option-cases (get_elem? s.local_counts id)) [
    | inl n ↦ absurd (in_range s.local_counts id h.0 n)
    | inr (count, n) ↦
        let next = exact_update limit id s in
        let first = total-transfer id count s n in
        let same : next ≡ exact_transfer limit id (count + 1) s = rw (n, exact_update) refl in
        omega (arith, total-updates ids next (rw (length-update id s) h.1), first, ap total same)
  ]

  -- Every local count stays below the threshold: the updates of a schedule, however long, leave no
  -- more than THRESHOLD - 1 in each.
  pub updates-AllBelow :
      (ids : List ℕ) (s : Counter)
      → 0 < limit
      → AllBelow limit s.local_counts
      → AllBelow limit (exact_updates limit ids s).local_counts
  unfolding exact_updates exact_update exact_transfer
  updates-AllBelow [] s p a = a
  updates-AllBelow (id ∷ ids) s p a =
      updates-AllBelow ids (exact_update limit id s) p
        (elim (Option-cases (get_elem? s.local_counts id)) [
          | inl n ↦ rw (n, exact_update) a
          | inr (count, n) ↦ elim (Bool-cases (leb limit (count + 1))) [
            | inl e ↦ rw (n, exact_update) (rw e (AllBelow-set limit s.local_counts id 0 p a))
            | inr e ↦
                rw (n, exact_update)
                  (rw e (AllBelow-set limit s.local_counts id (count + 1) (ground arith) a))
          ]
        ])
