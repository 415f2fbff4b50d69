-- ===== src/RacyCounter/Schedules.antt =====
-- The counts that exersises/concurrency/uncontrolled-scheduling/t1.c can print.
use osvcp.Prelude.{
  ℕ, zero, suc, ◌+◌, ◌-◌, ◌*◌, ◌≤◌, ◌≡◌, ◌↔◌, refl, ap, subst, arith, int_max, leb, inl, inr,
  Bool-cases,
}
use osvcp.RacyCounter.{
  Place, ready, loaded, State, load_a, store_a, load_b, store_b, Reachable, begin, step,
}
use osvcp.RacyCounter.Bounds.{Reachable-bounds}

abbrev at : ℕ → Place → Place → State
at counter a b = record { counter = counter; a = a; b = b }

-- `k` iterations of one thread, with the other one asleep.
a_runs :
    {max : ℕ} (k m n c d : ℕ) (b : Place)
    → m ≡ k + n
    → d ≡ c + k
    → d ≤ int_max
    → Reachable max (at c (ready m) b)
    → Reachable max (at d (ready n) b)
a_runs {max} zero m n c d b e f l r =
    let same_m : m ≡ n = omega (arith, e) in
    let same_d : c ≡ d = omega (arith, f) in
    subst (λ d. Reachable max (at d (ready n) b)) same_d
      (subst (λ m. Reachable max (at c (ready m) b)) same_m r)
a_runs {max} (suc k) m n c d b e f l r =
    let s = at c (ready m) b in
    let u = step r (load_a s (k + n) (ap ready (omega (arith, e)))) in
    a_runs k (k + n) n (c + 1) d b refl (omega (arith, f)) l
      (step u (store_a (at c (loaded c (k + n)) b) c (k + n) refl (omega (arith, f, l))))

b_runs :
    {max : ℕ} (k m n c d : ℕ) (a : Place)
    → m ≡ k + n
    → d ≡ c + k
    → d ≤ int_max
    → Reachable max (at c a (ready m))
    → Reachable max (at d a (ready n))
b_runs {max} zero m n c d a e f l r =
    let same_m : m ≡ n = omega (arith, e) in
    let same_d : c ≡ d = omega (arith, f) in
    subst (λ d. Reachable max (at d a (ready n))) same_d
      (subst (λ m. Reachable max (at c a (ready m))) same_m r)
b_runs {max} (suc k) m n c d a e f l r =
    let s = at c a (ready m) in
    let u = step r (load_b s (k + n) (ap ready (omega (arith, e)))) in
    b_runs k (k + n) n (c + 1) d a refl (omega (arith, f)) l
      (step u (store_b (at c a (loaded c (k + n))) c (k + n) refl (omega (arith, f, l))))

-- From a count of `c` on, the two threads can add 2 whatever they have left: thread A reads, and
-- writes over all that B counts but in its last iteration; that one reads then, and writes over all
-- that A still counts.
overwritten :
    {max : ℕ} (x y c : ℕ)
    → c + x + y + 2 ≤ int_max
    → Reachable max (at c (ready (suc x)) (ready (suc y)))
    → Reachable max (at (c + 1 + 1) (ready 0) (ready 0))
overwritten {max} x y c b r =
    let r1 = step r (load_a (at c (ready (suc x)) (ready (suc y))) x refl) in
    let r2 = b_runs y (suc y) 1 c (c + y) (loaded c x) (omega arith) refl (omega (arith, b)) r1 in
    let r3 = step r2 (store_a (at (c + y) (loaded c x) (ready 1)) c x refl (omega (arith, b))) in
    let r4 = step r3 (load_b (at (c + 1) (ready x) (ready 1)) 0 refl) in
    let r5 =
      a_runs x x 0 (c + 1) (c + 1 + x) (loaded (c + 1) 0) (omega arith) refl (omega (arith, b))
        r4 in
    step r5
      (store_b (at (c + 1 + x) (ready 0) (loaded (c + 1) 0)) (c + 1) 0 refl (omega (arith, b)))

-- `i` iterations of A and `j` of B by themselves, and then the rest as above.
schedule :
    (max i j x y : ℕ)
    → max ≡ i + suc x
    → max ≡ j + suc y
    → 2 * max ≤ int_max
    → Reachable max (at (i + j + 1 + 1) (ready 0) (ready 0))
schedule max i j x y e f l = overwritten x y (i + j) (omega (arith, e, f, l)) (
    b_runs j max (suc y) i (i + j) (ready (suc x)) f refl (omega (arith, e, f, l))
      (a_runs i max (suc x) 0 i (ready max) e (omega arith) (omega (arith, e, l)) begin))

found :
    (max k : ℕ)
    → 2 ≤ max
    → 2 * max ≤ int_max
    → 2 ≤ k
    → k ≤ 2 * max
    → Reachable max (at k (ready 0) (ready 0))
found max k m b l h = elim (Bool-cases (leb k (max + 1))) [
  | inl e ↦
      let i = k - 2 in
      let same : i + 0 + 1 + 1 ≡ k = omega (arith, l) in
      subst (λ k. Reachable max (at k (ready 0) (ready 0))) same
        (schedule max i 0 (max - 1 - i) (max - 1) (ground arith) (omega (arith, m)) b)
  | inr e ↦
      let i = max - 1 in
      let j = k - max - 1 in
      let same : i + j + 1 + 1 ≡ k = ground arith in
      subst (λ k. Reachable max (at k (ready 0) (ready 0))) same
        (schedule max i j 0 (max - 1 - j) (omega (arith, m)) (ground arith) b)
]

-- With `max` at least 2, and 2 * max an `int`: when both threads have finished, the counter can be
-- any number from 2 to 2 * max, and no other.
pub Reachable-counts :
    (max count : ℕ)
    → 2 ≤ max
    → 2 * max ≤ int_max
    → Reachable max (record { counter = count; a = ready 0; b = ready 0 })
      ↔ ((2 ≤ count) × (count ≤ 2 * max))
Reachable-counts max count m b =
    (λ r. Reachable-bounds m r refl refl, λ h. found max count m b h.0 h.1)
