-- ===== src/Spin.antt =====
-- exersises/vritualization/swaping/mem.c: the program that increments each `int` of a big array, over
-- and over. The elements, `i` and `loop_count` are of type `int`, the number of the elements is a
-- `long long`. A run that reads or writes outside of the array, or where an `int` exceeds the
-- greatest one, is undefined: `none`. The argument, the failure of `malloc`, the clock and the
-- printing are not modelled.
use osvcp.Prelude.{ℕ, zero, suc, ◌+◌, ◌*◌, ◌/◌, Option, none, some, ltb, ◌==◌, int, if◌then◌else◌}
pub mod Laps

-- For `size` MB, with an `int` of 4 bytes.
unfoldable pub num_ints : ℕ → ℕ
num_ints size = size * 1024 * 1024 / 4

pub record State : Type 0 where
  pub i : ℕ
  pub loop_count : ℕ
  pub x : ℕ → ℕ

-- `x[i++] += 1`, in an array of `n` elements.
unfoldable pub increment : ℕ → State → Option State
increment n s =
    if ltb s.i n
    then elim (int (s.x s.i + 1)) [
      | none ↦ none
      | some v ↦ elim (int (s.i + 1)) [
        | none ↦ none
        | some j ↦ some (record s { i = j; x = λ k. if k == s.i then v else s.x k })
      ]
    ]
    else none

-- What follows it in the loop.
unfoldable pub check_end : ℕ → State → Option State
check_end n s =
    if s.i == n
    then elim (int (s.loop_count + 1)) [
      | none ↦ none
      | some l ↦ some (record s { i = 0; loop_count = l })
    ]
    else some s

-- An iteration.
abbrev pub iteration : ℕ → State → Option State
iteration n s = elim (increment n s) [ none ↦ none | some u ↦ check_end n u ]

-- `while (1)`: the state after a number of iterations.
unfoldable pub run : ℕ → ℕ → State → Option State
run n zero s = some s
run n (suc steps) s = elim (run n steps s) [ none ↦ none | some t ↦ iteration n t ]

-- The state before the loop. `malloc` gives no promise on what the memory holds; it is taken to be
-- 0, as it is in pages that are fresh from the system.
abbrev pub start : State
start = record { i = 0; loop_count = 0; x = λ k. 0 }
