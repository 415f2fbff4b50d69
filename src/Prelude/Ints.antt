-- ===== src/Prelude/Ints.antt =====
-- The numbers of type int that are not negative. What would exceed the greatest one is undefined in C.
use Prim.Native.Nat.{ℕ, ◌≤◌}
use mathlib.Core.Path.{◌≡◌, refl}
use mathlib.Core.Option.{Option, none, some}
use native.Mathlib.Omega.{arith}
use osvcp.Prelude.Tests.{leb, if◌then◌else◌}
use mathlib.Core.Bool.{true}

-- INT_MAX
abbrev pub int_max : ℕ
int_max = 2147483647

-- The result of a calculation, if it is an `int`.
unfoldable pub int : ℕ → Option ℕ
int n = if leb n int_max then some n else none

pub int-small : (n : ℕ) → n ≤ int_max → int n ≡ some n
unfolding int
int-small n h = let e : leb n int_max ≡ true = ground (arith, h) in rw (e, int) refl
