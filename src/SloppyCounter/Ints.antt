-- ===== src/SloppyCounter/Ints.antt =====
-- Below 2 ^ 31 counts in all, no `int` of
-- exersises/concurrency/locked-data-structures/2/sloppy_counter.c overflows, and the updates are
-- those of counts without a bound.
use osvcp.Prelude.{
  ℕ, ◌+◌, ◌≤◌, ◌<◌, ◌≡◌, refl, inl, inr, some, List, [], ◌∷◌, arith, length, get_elem?, leb,
  int-small, int_max, Option-cases, Bool-cases,
}
use osvcp.SloppyCounter.{Counter, transfer, sloppy_counter_update, updates}
use osvcp.SloppyCounter.Exact.{exact_transfer, exact_update, exact_updates}
use osvcp.SloppyCounter.Totals.{
  sum, total, sum-set, InRange, in_range, length-update, total-updates,
}

pub count-le_sum : (xs : List ℕ) (i x : ℕ) → get_elem? xs i ≡ some x → x ≤ sum xs
count-le_sum xs i x h = omega (arith, sum-set xs i x 0 h)

module _ (limit : ℕ) where
  transfer-exact :
      (id n : ℕ) (s : Counter)
      → s.global_count + n ≤ int_max
      → transfer limit id n s ≡ some (exact_transfer limit id n s)
  unfolding transfer exact_transfer
  transfer-exact id n s h = elim (Bool-cases (leb limit n)) [
    | inl e ↦ rw (e, transfer) (rw (int-small (s.global_count + n) h) refl)
    | inr e ↦ rw (e, transfer) refl
  ]

  update-exact :
      (id : ℕ) (s : Counter)
      → id < length s.local_counts
      → total s + 1 ≤ int_max
      → sloppy_counter_update limit id s ≡ some (exact_update limit id s)
  unfolding sloppy_counter_update exact_update
  update-exact id s h b = elim (Option-cases (get_elem? s.local_counts id)) [
    | inl n ↦ absurd (in_range s.local_counts id h n)
    | inr (count, n) ↦
        let small = count-le_sum s.local_counts id count n in
        rw (n, sloppy_counter_update, exact_update)
          (rw (int-small (count + 1) (omega (arith, small, b)))
            (transfer-exact id (count + 1) s (omega (arith, small, b))))
  ]

  pub updates-exact :
      (ids : List ℕ) (s : Counter)
      → InRange (length s.local_counts) ids
      → total s + length ids ≤ int_max
      → updates limit ids s ≡ some (exact_updates limit ids s)
  unfolding updates exact_updates
  updates-exact [] s h b = refl
  updates-exact (id ∷ ids) s h b =
      let next = exact_update limit id s in
      let first = total-updates limit (id ∷ []) s (h.0, tt) in
      rw (update-exact id s h.0 (omega (arith, b)), updates)
        (updates-exact ids next (rw (length-update limit id s) h.1) (omega (arith, first, b)))
