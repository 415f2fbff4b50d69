-- ===== src/SloppyCounter/Reads.antt =====
-- What `sloppy_counter_get` of
-- exersises/concurrency/locked-data-structures/2/sloppy_counter.c returns, alone and while the
-- threads go on.
use osvcp.Prelude.{
  ℕ, zero, suc, ◌+◌, ◌≤◌, ◌<◌, ◌≡◌, refl, sym, ap, ◌∙◌, inl, inr, none, some, Option, List, [], ◌∷◌,
  arith, length, get_elem?, int-small, int_max, Option-cases,
}
use osvcp.SloppyCounter.{Counter, zeros, updates, count_at, read_counts, sloppy_counter_get}
use osvcp.SloppyCounter.Totals.{sum, total, in_range}

-- No update comes in between.
abbrev pub quiet : ℕ → List ℕ
quiet id = []

-- The first counts of a list.
abbrev sum_of : ℕ → List ℕ → ℕ
sum_of zero xs = 0
sum_of (suc k) [] = 0
sum_of (suc k) (x ∷ xs) = x + sum_of k xs

-- The counts from an index on.
abbrev sum_from : ℕ → List ℕ → ℕ
sum_from zero xs = sum xs
sum_from (suc k) [] = 0
sum_from (suc k) (x ∷ xs) = sum_from k xs

pub sum-zeros : (n : ℕ) → sum (zeros n) ≡ 0
sum-zeros zero = refl
sum-zeros (suc n) = omega (arith, sum-zeros n)

pub length-zeros : (n : ℕ) → length (zeros n) ≡ n
length-zeros zero = refl
length-zeros (suc n) = omega (arith, length-zeros n)

sum_from-split : (k : ℕ) (xs : List ℕ) → sum_from k xs ≡ count_at xs k + sum_from (suc k) xs
sum_from-split zero [] = refl
sum_from-split zero (x ∷ xs) = refl
sum_from-split (suc k) [] = refl
sum_from-split (suc k) (x ∷ xs) = sum_from-split k xs

sum_from-end : (k : ℕ) (xs : List ℕ) → length xs ≤ k → sum_from k xs ≡ 0
sum_from-end zero [] h = refl
sum_from-end zero (x ∷ xs) h = absurd (omega arith)
sum_from-end (suc k) [] h = refl
sum_from-end (suc k) (x ∷ xs) h = sum_from-end k xs (omega arith)

there : (xs : List ℕ) (k : ℕ) → k < length xs → get_elem? xs k ≡ some (count_at xs k)
there xs k h = elim (Option-cases (get_elem? xs k)) [
  | inl n ↦ absurd (in_range xs k h n)
  | inr (c, n) ↦ n ∙ ap some (sym (ap (λ o. elim o [ none ↦ 0 | some count ↦ count ]) n))
]

-- The updates that come in between, from the local count `id` on.
abbrev pub calls : (ℕ → List ℕ) → ℕ → ℕ → ℕ
calls between zero id = 0
calls between (suc n) id = length (between id) + calls between n (suc id)

module _ (limit : ℕ) where
  -- The global count and the first `k` local counts.
  abbrev read_part : ℕ → Counter → ℕ
  read_part k s = s.global_count + sum_of k s.local_counts

  -- The global count and the local counts from `k` on.
  abbrev rest : ℕ → Counter → ℕ
  rest k s = s.global_count + sum_from k s.local_counts

  -- What the loop returns, with `n` local counts to come.
  record IsReading (between : ℕ → List ℕ) (n id so_far : ℕ) (s : Counter) (o : Option (ℕ × Counter))
      : Type 0 where
    sum_read : ℕ
    last : Counter
    returns : o ≡ some (sum_read, last)
    most : sum_read ≤ total last
    least : so_far + rest id s ≤ sum_read + last.global_count
    all : total last ≡ total s + calls between n id

  read_counts-quiet :
      (n id so_far : ℕ) (s : Counter)
      → id + n ≡ length s.local_counts
      → so_far + sum_from id s.local_counts ≤ int_max
      → read_counts limit quiet n id so_far s ≡ some (so_far + sum_from id s.local_counts, s)
  unfolding read_counts updates
  read_counts-quiet zero id so_far s e b =
      ap (λ n. some (n, s)) (omega (arith, sum_from-end id s.local_counts (omega (arith, e))))
  read_counts-quiet (suc n) id so_far s e b =
      let xs = s.local_counts in
      let part = sum_from-split id xs in
      let rest =
        read_counts-quiet n (suc id) (so_far + count_at xs id) s (omega (arith, e))
          (omega (arith, b, part)) in
      let small : so_far + count_at xs id ≤ int_max = omega (arith, b, part) in
      let all : so_far + count_at xs id + sum_from (suc id) xs ≡ so_far + sum_from id xs =
        omega (arith, part) in
      rw (there xs id (omega (arith, e)), read_counts)
        (rw (int-small (so_far + count_at xs id) small) (rest ∙ ap (λ n. some (n, s)) all))

  -- Alone, `sloppy_counter_get` returns all that has been counted, if that is an `int`.
  pub sloppy_counter_get-quiet :
      (s : Counter) → total s ≤ int_max → sloppy_counter_get limit quiet s ≡ some (total s, s)
  unfolding sloppy_counter_get
  sloppy_counter_get-quiet s h =
      read_counts-quiet (length s.local_counts) 0 s.global_count s (omega arith) h
