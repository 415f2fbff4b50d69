-- ===== src/Prelude/Locks.antt =====
-- Locks as Booleans, by their numbers.
use Prim.Native.Nat.{ℕ, ◌+◌, ◌≤◌}
use mathlib.Core.Path.{◌≡◌, refl}
use mathlib.Core.Logic.{inl, inr}
use mathlib.Core.Bool.{Bool, true, false}
use native.Mathlib.Omega.{arith}
use osvcp.Prelude.Tests.{◌==◌, ==_iff, Bool-cases, if◌then◌else◌}
use osvcp.Prelude.Lists.{hit}

-- A lock as a number, to compare with how many hold it.
abbrev pub bit : Bool → ℕ
bit true = 1
bit false = 0

pub bit-le_one : (b : Bool) → bit b ≤ 1
bit-le_one true = omega arith
bit-le_one false = omega arith

pub held_true : (b : Bool) → 1 ≤ bit b → b ≡ true
held_true true h = refl
held_true false h = absurd (omega arith)

-- One lock of many, by itself, when lock `k` is taken or let go.
pub bit-taken :
    (l k : ℕ) (b : Bool) → (l ≡ k → b ≡ false) → bit (if l == k then true else b) ≡ bit b + hit l k
bit-taken l k b f = elim (Bool-cases (l == k)) [
  | inl e ↦ ground (arith, f ((==_iff l k).0 e))
  | inr e ↦ ground arith
]

pub bit-dropped :
    (l k : ℕ) (b : Bool) → (l ≡ k → b ≡ true) → bit (if l == k then false else b) + hit l k ≡ bit b
bit-dropped l k b f = elim (Bool-cases (l == k)) [
  | inl e ↦ ground (arith, f ((==_iff l k).0 e))
  | inr e ↦ ground arith
]
