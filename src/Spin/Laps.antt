-- ===== src/Spin/Laps.antt =====
-- How far exersises/vritualization/swaping/mem.c gets.
use osvcp.Prelude.{ℕ, ◌+◌, ◌*◌, ◌≤◌, ◌<◌, ◌≡◌, ltb, int_max, if◌then◌else◌}
use osvcp.Spin.{State}

-- After some iterations: whole laps, and the elements below `i` once more.
pub record IsAt (n : ℕ) (steps : ℕ) (s : State) : Type 0 where
  pub inside : 1 ≤ n → s.i < n
  pub laps : steps ≡ s.loop_count * n + s.i
  pub elements :
      (k : ℕ) → s.x k ≡ (if ltb k n then s.loop_count + (if ltb k s.i then 1 else 0) else 0)

-- The iterations that a run with `n` elements makes: with an array that `i` can get through, the
-- first element overflows after INT_MAX laps; in a bigger one `i` itself overflows.
abbrev pub lifetime : ℕ → ℕ
lifetime n = if ltb int_max n then int_max else n * int_max
