-- ===== src/VectorAdd/Totals.antt =====
-- What exersises/concurrency/concurrency-bugs computes when all threads add the same vectors.
use osvcp.Prelude.{ℕ, suc, ◌+◌, ◌%◌, ◌^◌, ◌≡◌, some, List, [], ◌∷◌, get_elem?, sum}
use osvcp.Table.Slots.{All}
use osvcp.VectorAdd.{Action, lock, try_lock, add, unlock, State, copies, vector_size}

-- The loops over the values that a thread still has to make.
abbrev adds : List Action → ℕ
adds [] = 0
adds (lock k ∷ p) = adds p
adds (try_lock d s ∷ p) = adds p
adds (add d s ∷ p) = suc (adds p)
adds (unlock k ∷ p) = adds p

-- All of them add vector 1 to vector 0.
abbrev AddsOnly : List Action → Type 0
AddsOnly [] = Unit {0}
AddsOnly (lock k ∷ p) = AddsOnly p
AddsOnly (try_lock d s ∷ p) = AddsOnly p
AddsOnly (add d s ∷ p) = (d ≡ 0) × (s ≡ 1) × AddsOnly p
AddsOnly (unlock k ∷ p) = AddsOnly p

-- What has been added and what is left make up the total.
record IsCounted (total : ℕ) (s : State) : Type 0 where
  adds_only : All AddsOnly s.threads
  so_far : ℕ
  left : so_far + sum adds s.threads ≡ total
  first : get_elem? s.v 0 ≡ some (copies vector_size (so_far % 2 ^ 32))
  second : get_elem? s.v 1 ≡ some (copies vector_size 1)
